-- ===== src/Actor/Params.antt =====
-- src/riaps/run/actor.py: the parameters of an actor and the arguments of its components. `getopt`
-- of the standard library is written out for long options; the conversions of texts to numbers are
-- a parameter.
pub mod Options
pub mod Values
pub mod Arguments
pub mod Sources
use riaps_pycom.Prelude.{
  ℕ, Bool, true, false, not, ◌&&◌, Option, none, some, List, [], ◌∷◌, ◌++◌, if◌then◌else◌, ◌==◌,
  leb, Text, codes, text_eq, Table, find, assign, split,
}
use riaps_pycom.Actor.Options.{getopt, Parsed, options, getopt_error}

-- bool, int, float and str
pub data ParamType : Type 0 where
  str_type int_type float_type bool_type : ParamType

pub data Value (F I : Type 0) : Type 0 where
  str_value : Text → Value F I
  int_value : I → Value F I
  float_value : F → Value F I
  bool_value : Bool → Value F I

-- float(text) and int(text); `none` is a ValueError.
pub record Numbers (F I : Type 0) : Type 0 where
  pub float_of : Text → Option F
  pub int_of : Text → Option I

pub record Formal (F I : Type 0) : Type 0 where
  pub name : Text
  pub default : Option (Value F I)

-- An argument of an instance: a parameter of the actor, a value, or neither.
pub data Given (F I : Type 0) : Type 0 where
  param : (param_name : Text) → Given F I
  value : Value F I → Given F I
  nothing : Given F I

pub record Actual (F I : Type 0) : Type 0 where
  pub name : Text
  pub given : Given F I

pub data Result {ℓ} (A : Type ℓ) : Type ℓ where
  ok : A → Result A
  build_error value_error : Result A

unfoldable pub type_of : {F I : Type 0} → Value F I → ParamType
type_of (str_value s) = str_type
type_of (int_value i) = int_type
type_of (float_value f) = float_type
type_of (bool_value b) = bool_type

unfoldable pub same_type : ParamType → ParamType → Bool
same_type str_type str_type = true
same_type int_type int_type = true
same_type float_type float_type = true
same_type bool_type bool_type = true
same_type _ _ = false

abbrev is_digit : ℕ → Bool
is_digit c = leb b'0' c && leb c b'9'

abbrev is_empty : Text → Bool
is_empty [] = true
is_empty (c ∷ s) = false

-- The end of the expression matches before a line feed that ends the text, too.
unfoldable pub all_digits : Text → Bool
all_digits [] = true
all_digits (c ∷ s) = let rest = all_digits s in if is_digit c then rest else (c == 10) && is_empty s

abbrev some_digits : Text → Bool
some_digits [] = false
some_digits (c ∷ s) = is_digit c && all_digits s

-- INT_RE: an optional minus sign, and one digit or more
unfoldable pub int_re : Text → Bool
unfolding all_digits
int_re [] = false
int_re (c ∷ s) = if c == b'-' then some_digits s else some_digits (c ∷ s)

-- The parameters: a value or None under each name
abbrev pub Params : Type 0 → Type 0 → Type 0
Params F I = Table (Option (Value F I))

module _ {F I : Type 0} where
  -- The first loop of parseParams
  unfoldable pub defaults : List (Formal F I) → Params F I → Params F I
  defaults [] params = params
  defaults (f ∷ l) params = defaults l (assign f.name f.default params)

  abbrev pub old_type : Option (Value F I) → Option ParamType
  old_type none = none
  old_type (some v) = some (type_of v)

  -- The type of a value that is there must be the one that was found.
  abbrev pub type_fits : Option (Value F I) → ParamType → Bool
  type_fits none t = true
  type_fits (some v) t = same_type t (type_of v)

  abbrev pub store :
      Text → Option (Value F I) → Params F I → Result (Value F I × ParamType) → Result (Params F I)
  store name old params (ok (v, t)) =
      if type_fits old t then ok (assign name (some v) params) else build_error
  store name old params build_error = build_error
  store name old params value_error = value_error

  -- The last loop: no parameter is missing.
  unfoldable pub all_given : Params F I → Bool
  all_given [] = true
  all_given ((name, none) ∷ l) = false
  all_given ((name, some v) ∷ l) = all_given l

  abbrev pub check_given : Result (Params F I) → Result (Params F I)
  check_given (ok p) = if all_given p then ok p else build_error
  check_given build_error = build_error
  check_given value_error = value_error

  abbrev pub names_of : List (Formal F I) → List Text
  names_of [] = []
  names_of (f ∷ l) = f.name ∷ names_of l

  -- The first actual argument of the name
  unfoldable pub find_actual : Text → List (Actual F I) → Option (Given F I)
  find_actual name [] = none
  find_actual name (a ∷ l) =
      let rest = find_actual name l in if text_eq a.name name then some a.given else rest

  -- The value of one argument. A parameter of the actor may have none.
  unfoldable pub argument_value :
      Params F I → Option (Given F I) → (default : Option (Value F I)) → Result (Option (Value F I))
  argument_value params (some (param p)) d = elim (find p params) [
    | none ↦ build_error
    | some v ↦ ok v
  ]
  argument_value params (some (value v)) d = ok (some v)
  argument_value params (some nothing) d = build_error
  argument_value params none (some v) = ok (some v)
  argument_value params none none = build_error

  -- The loop of buildInstArgs, with the arguments so far
  unfoldable pub build_args :
      Params F I → List (Actual F I) → List (Formal F I) → (args : Params F I) → Result (Params F I)
  unfolding argument_value find_actual
  build_args params actuals [] args = ok args
  build_args params actuals (f ∷ l) args =
      elim (argument_value params (find_actual f.name actuals) f.default) [
        | build_error ↦ build_error
        | value_error ↦ value_error
        | ok v ↦ build_args params actuals l (assign f.name v args)
      ]

  unfoldable pub build_inst_args :
      Params F I → List (Formal F I) → List (Actual F I) → Result (Params F I)
  unfolding build_args
  build_inst_args params formals actuals = build_args params actuals formals []

module _ {F I : Type 0} (numbers : Numbers F I) where
  abbrev as_int : Option I → Result (Value F I × ParamType)
  as_int none = value_error
  as_int (some i) = ok (int_value i, int_type)

  abbrev as_float : Option F → Result (Value F I × ParamType)
  as_float none = value_error
  as_float (some f) = ok (float_value f, float_type)

  abbrev float_or_str : Text → Option F → Result (Value F I × ParamType)
  float_or_str s none = ok (str_value s, str_type)
  float_or_str s (some f) = ok (float_value f, float_type)

  -- getParameterValueType without a default type
  abbrev infer : Text → Result (Value F I × ParamType)
  infer s =
      if text_eq s (codes "True")
      then ok (bool_value true, bool_type)
      else if text_eq s (codes "False")
      then ok (bool_value true, bool_type)
      else if int_re s
      then as_int (numbers.int_of s)
      else float_or_str s (numbers.float_of s)

  -- getParameterValueType. For a default of type bool the value is Python's `bool` of the text, and
  -- the type is float.
  unfoldable pub get_parameter_value_type : Text → Option ParamType → Result (Value F I × ParamType)
  unfolding int_re
  get_parameter_value_type s none = infer s
  get_parameter_value_type s (some str_type) = ok (str_value s, str_type)
  get_parameter_value_type s (some int_type) = as_int (numbers.int_of s)
  get_parameter_value_type s (some float_type) = as_float (numbers.float_of s)
  get_parameter_value_type s (some bool_type) = ok (bool_value (not (is_empty s)), float_type)

  -- The body of the loop over the options; an unknown one is ignored.
  unfoldable pub set_option : Text × Text → Params F I → Result (Params F I)
  unfolding same_type type_of
  set_option (name, s) params = elim (find name params) [
    | none ↦ ok params
    | some old ↦ store name old params (get_parameter_value_type s (old_type old))
  ]

  unfoldable pub set_options : List (Text × Text) → Params F I → Result (Params F I)
  set_options [] params = ok params
  set_options (o ∷ l) params = elim (set_option o params) [
    | ok p ↦ set_options l p
    | build_error ↦ build_error
    | value_error ↦ value_error
  ]

  -- The rest of parseParams. A command line that getopt refuses is logged, and the parameters are
  -- left as they are, unchecked.
  abbrev pub apply_options : Parsed → Params F I → Result (Params F I)
  apply_options getopt_error params = ok params
  apply_options (options l) params = check_given (set_options l params)

  unfoldable pub parse_params : List (Formal F I) → (argv : List Text) → Result (Params F I)
  unfolding defaults set_options all_given
  parse_params formals argv = apply_options (getopt (names_of formals) argv) (defaults formals [])
