-- ===== src/Actor/Params/Options.antt =====
-- The command line of an actor (src/riaps/run/actor.py) against what getopt makes of it.
use riaps_pycom.Prelude.{
  ◌≡◌, refl, true, false, none, some, List, [], ◌∷◌, Text, text_eq, Lacks, All, arith,
}
use riaps_pycom.Actor.Options.{
  split_at_equals, is_name, long_name, option_of, before, getopt_from, getopt, argument, long,
  options,
}

-- Each option as "--name" with the value in the argument behind it.
unfoldable pub command_line : List (Text × Text) → List Text
command_line [] = []
command_line ((name, v) ∷ l) = (b'-' ∷ b'-' ∷ name) ∷ v ∷ command_line l

-- A name that can stand on a command line: one of the long options, not empty, with no '='.
abbrev pub IsOption : List Text → Text × Text → Type 0
IsOption names (name, v) = (is_name name names ≡ true) × (text_eq name [] ≡ false) × Lacks b'=' name

split_at_equals_lem : (s : Text) → Lacks b'=' s → split_at_equals s ≡ (s, none)
unfolding split_at_equals
split_at_equals_lem [] h = refl
split_at_equals_lem (c ∷ s) h = ground (arith, split_at_equals_lem s)

argument_lem : (name : Text) → text_eq name [] ≡ false → argument (b'-' ∷ b'-' ∷ name) ≡ long name
unfolding argument text_eq
argument_lem [] h = cc
argument_lem (c ∷ s) h = refl

long_name_lem :
    (names : List Text) (name : Text) → is_name name names ≡ true → long_name name names ≡ some name
unfolding long_name
long_name_lem names name h = ground arith

option_lem :
    (names : List Text) (o : Text × Text)
    → IsOption names o
    → option_of names (split_at_equals o.0) ≡ some (o.0, none)
option_lem names (name, v) h =
    rw (split_at_equals_lem name h.2) (rw (long_name_lem names name h.0, option_of) refl)

-- getopt reads back the options that a command line was made of, in their order, for any values,
-- also values that look like options.
pub getopt-command_line :
    (names : List Text) (l : List (Text × Text))
    → All (IsOption names) l
    → getopt names (command_line l) ≡ options l
unfolding getopt command_line
getopt-command_line names [] h = refl
getopt-command_line names ((name, v) ∷ l) h =
    rw (argument_lem name h.0.1, getopt_from)
      (rw (option_lem names (name, v) h.0, getopt_from)
        (rw (getopt-command_line names l h.1, before) refl))
