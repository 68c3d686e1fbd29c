-- ===== src/Actor/Options.antt =====
-- Python's getopt.getopt(args, '', longopts), as src/riaps/run/actor.py calls it: every long option
-- takes an argument, and there are no short ones. The names stand without their '='.
use riaps_pycom.Prelude.{
  Bool, true, false, Option, none, some, List, [], ◌∷◌, if◌then◌else◌, ◌==◌, Text, text_eq,
}

-- The text up to the first '=', and the text behind it, if there is one.
unfoldable pub split_at_equals : Text → Text × Option Text
split_at_equals [] = ([], none)
split_at_equals (c ∷ s) =
    let rest = split_at_equals s in if c == b'=' then ([], some s) else (c ∷ rest.0, rest.1)

unfoldable pub is_prefix : Text → Text → Bool
is_prefix [] t = true
is_prefix (a ∷ s) [] = false
is_prefix (a ∷ s) (b ∷ t) = let rest = is_prefix s t in if a == b then rest else false

unfoldable pub with_prefix : Text → List Text → List Text
unfolding is_prefix
with_prefix s [] = []
with_prefix s (n ∷ names) =
    let rest = with_prefix s names in if is_prefix s n then n ∷ rest else rest

unfoldable pub is_name : Text → List Text → Bool
is_name s [] = false
is_name s (n ∷ names) = let rest = is_name s names in if text_eq n s then true else rest

-- long_has_args: the name itself, or the only name that it begins; otherwise a GetoptError.
abbrev only : List Text → Option Text
only [] = none
only (n ∷ []) = some n
only (n ∷ m ∷ l) = none

unfoldable pub long_name : Text → List Text → Option Text
unfolding with_prefix is_name
long_name s names = if is_name s names then some s else only (with_prefix s names)

-- What an argument of the command line is: the end of the options ("--" or no option), a long
-- option, or a short one, which is always an error.
pub data Argument : Type 0 where
  end short : Argument
  long : Text → Argument

unfoldable pub argument : Text → Argument
argument [] = end
argument (a ∷ []) = end
argument (a ∷ b ∷ s) =
    if a == b'-'
    then if b == b'-' then elim s [ [] ↦ end | c ∷ r ↦ long (c ∷ r) ] else short
    else end

pub data Parsed : Type 0 where
  options : List (Text × Text) → Parsed
  getopt_error : Parsed

abbrev pub before : Text × Text → Parsed → Parsed
before o (options l) = options (o ∷ l)
before o getopt_error = getopt_error

-- What a long option is: its full name, and the argument behind its '=', if there is one.
abbrev pub option_of : (names : List Text) → Text × Option Text → Option (Text × Option Text)
option_of names (name, given) = elim (long_name name names) [
  | none ↦ none
  | some n ↦ some (n, given)
]

-- do_longs and the loop around it; `pending` is an option whose argument is the next one of the
-- command line.
unfoldable pub getopt_from : List Text → (pending : Option Text) → List Text → Parsed
getopt_from names none [] = options []
getopt_from names (some n) [] = getopt_error
getopt_from names (some n) (b ∷ args) = before (n, b) (getopt_from names none args)
getopt_from names none (a ∷ args) =
    let waits = λ (n : Text). getopt_from names (some n) args in
    let done = getopt_from names none args in
    elim (argument a) [
      | end ↦ options []
      | short ↦ getopt_error
      | long s ↦ elim (option_of names (split_at_equals s)) [
        | none ↦ getopt_error
        | some (n, given) ↦ elim given [ none ↦ waits n | some v ↦ before (n, v) done ]
      ]
    ]

-- The options with their arguments; the names without the two dashes.
unfoldable pub getopt : List Text → List Text → Parsed
unfolding getopt_from
getopt names args = getopt_from names none args
