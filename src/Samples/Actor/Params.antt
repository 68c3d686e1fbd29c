-- ===== src/Samples/Actor/Params.antt =====
-- An actor with two parameters, and a component that takes them (src/riaps/run/actor.py).
use riaps_pycom.Prelude.{
  ◌⊎◌, ◌≡◌, ℕ, ◌≢◌, refl, Option, none, some, List, [], ◌∷◌, Text, codes, text_eq, find, assign,
  arith,
}
use riaps_pycom.Actor.Options.{
  getopt, split_at_equals, is_prefix, with_prefix, is_name, long_name, argument, getopt_from,
}
use riaps_pycom.Actor.Params.{
  Numbers, Value, value, Formal, Actual, Params, str_value, int_value, param, parse_params,
  defaults, set_options, set_option, all_given, type_of, same_type, get_parameter_value_type,
  int_re, all_digits, build_inst_args, build_args, argument_value, find_actual,
}
use riaps_pycom.Actor.Params.Values.{Fits, model_default, parse_params-Fits}
use riaps_pycom.Actor.Params.Sources.{NoFormal, IsLastFormal, ComesFrom, build_inst_args-ComesFrom}

-- A text of one digit is a number, and no text is a fraction.
abbrev digit : Text → Option ℕ
digit [] = none
digit (c ∷ []) = some c
digit (c ∷ d ∷ s) = none

abbrev numbers : Numbers Unit ℕ
numbers = record { float_of = λ s. none; int_of = digit }

abbrev formals : List (Formal Unit ℕ)
formals =
    record { name = codes "rate"; default = some (int_value 5) }
    ∷ record { name = codes "site"; default = none }
    ∷ []

abbrev argv : List Text
argv = codes "--rate=7" ∷ codes "--site" ∷ codes "lab" ∷ []

abbrev parsed : List (Text × Text)
parsed = (codes "rate", codes "7") ∷ (codes "site", codes "lab") ∷ []

abbrev params : Params Unit ℕ
params = (codes "site", some (str_value (codes "lab"))) ∷ (codes "rate", some (int_value b'7')) ∷ []

parse_params-Fits_example :
    Fits (model_default numbers (codes "rate") formals) (find (codes "rate") params)
    × (find (codes "rate") params ≢ some none)
parse_params-Fits_example =
    parse_params-Fits numbers formals argv parsed params
      (unfold getopt getopt_from argument long_name is_name text_eq with_prefix is_prefix
          split_at_equals in
        refl)
      (unfold parse_params defaults set_options set_option all_given getopt getopt_from argument
          long_name is_name text_eq with_prefix is_prefix split_at_equals get_parameter_value_type
          same_type type_of int_re all_digits assign find in
        refl)
      (codes "rate")

abbrev inst_formals : List (Formal Unit ℕ)
inst_formals =
    record { name = codes "period"; default = none }
    ∷ record { name = codes "unit"; default = some (str_value (codes "ms")) }
    ∷ []

abbrev actuals : List (Actual Unit ℕ)
actuals =
    record { name = codes "period"; given = param (codes "rate") }
    ∷ record { name = codes "period"; given = value (int_value 3) }
    ∷ []

abbrev args : Params Unit ℕ
args = (codes "unit", some (str_value (codes "ms"))) ∷ (codes "period", some (int_value b'7')) ∷ []

params_given : (n : Text) → find n params ≢ some none
unfolding find
params_given n e = ground arith

build_inst_args-ComesFrom_example :
    (NoFormal params actuals (codes "period") inst_formals × (find (codes "period") args ≡ none))
    ⊎ ((f : Formal Unit ℕ) × (v : Value Unit ℕ) × IsLastFormal params actuals
          (codes "period")
          f
          inst_formals
        × (find (codes "period") args ≡ some (some v))
        × ComesFrom params actuals f v)
build_inst_args-ComesFrom_example =
    build_inst_args-ComesFrom params actuals inst_formals args params_given
      (unfold build_inst_args build_args argument_value find_actual text_eq find assign in refl)
      (codes "period")
