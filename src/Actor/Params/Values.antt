-- ===== src/Actor/Params/Values.antt =====
-- What src/riaps/run/actor.py makes of the parameters of an actor and the arguments of its
-- components.
use riaps_pycom.Prelude.{
  ◌≡◌, ◌≢◌, refl, sym, ◌∙◌, subst, true, Option, none, some, List, [], ◌∷◌, if◌then◌else◌, inl, inr,
  Bool-cases, Option-cases, Text, text_eq, text_eq→≡, find, assign, find-assign, arith,
}
use riaps_pycom.Actor.Options.{getopt, options}
use riaps_pycom.Actor.Params.{
  ParamType, str_type, int_type, float_type, bool_type, Value, Numbers, Formal, Result, ok,
  build_error, value_error, type_of, same_type, get_parameter_value_type, Params, defaults,
  set_option, set_options, all_given, check_given, parse_params, old_type, type_fits, store,
  names_of,
}

same_type→≡ : (t u : ParamType) → same_type t u ≡ true → t ≡ u
unfolding same_type
same_type→≡ str_type u h = ground arith
same_type→≡ int_type u h = ground arith
same_type→≡ float_type u h = ground arith
same_type→≡ bool_type u h = ground arith

module _ {F I : Type 0} where
  -- The second entry of a table is a value of the first's type, if that is a value; and there is
  -- one exactly where there was one.
  abbrev pub Fits : Option (Option (Value F I)) → Option (Option (Value F I)) → Type 0
  Fits none none = Unit
  Fits none (some w) = ⊥
  Fits (some v) none = ⊥
  Fits (some none) (some w) = Unit
  Fits (some (some v)) (some none) = ⊥
  Fits (some (some v)) (some (some w)) = type_of w ≡ type_of v

  Fits-refl : (o : Option (Option (Value F I))) → Fits o o
  Fits-refl none = tt
  Fits-refl (some none) = tt
  Fits-refl (some (some v)) = refl

  Fits-trans : (a b c : Option (Option (Value F I))) → Fits a b → Fits b c → Fits a c
  Fits-trans none none c h k = k
  Fits-trans (some none) (some v) none h k = k
  Fits-trans (some none) (some v) (some w) h k = tt
  Fits-trans (some (some u)) (some (some v)) none h k = k
  Fits-trans (some (some u)) (some (some v)) (some none) h k = k
  Fits-trans (some (some u)) (some (some v)) (some (some w)) h k = k ∙ h
  Fits-trans none (some v) c h k = absurd h
  Fits-trans (some none) none c h k = absurd h
  Fits-trans (some (some u)) none c h k = absurd h
  Fits-trans (some (some u)) (some none) c h k = absurd h

module _ {F I : Type 0} (numbers : Numbers F I) where
  -- A value that passes the test of the types has the type of the default.
  type_of-value :
      (s : Text) (k : ParamType) (v : Value F I) (t : ParamType)
      → get_parameter_value_type numbers s (some k) ≡ ok (v, t)
      → same_type t k ≡ true
      → type_of v ≡ k
  unfolding get_parameter_value_type same_type type_of
  type_of-value s str_type v t e h = ground arith
  type_of-value s int_type v t e h = ground arith
  type_of-value s float_type v t e h = ground arith
  type_of-value s bool_type v t e h = ground arith

  Fits-value :
      (s : Text) (old : Option (Value F I)) (v : Value F I) (t : ParamType)
      → get_parameter_value_type numbers s (old_type old) ≡ ok (v, t)
      → type_fits old t ≡ true
      → Fits (some old) (some (some v))
  Fits-value s none v t e h = tt
  Fits-value s (some u) v t e h = type_of-value s (type_of u) v t e h

  Fits-assign :
      (name n : Text) (old : Option (Value F I)) (v : Value F I) (p : Params F I)
      → find n p ≡ some old
      → Fits (some old) (some (some v))
      → Fits (find name p) (find name (assign n (some v) p))
  Fits-assign name n old v p e h = elim (Bool-cases (text_eq n name)) [
    | inl q ↦ rw (find-assign n name (some v) p, q) (rw (← text_eq→≡ n name q, e) h)
    | inr q ↦ rw (find-assign n name (some v) p, q) (Fits-refl (find name p))
  ]

  Fits-store :
      (name n s : Text) (old : Option (Value F I)) (p q : Params F I)
      (r : Result (Value F I × ParamType))
      → get_parameter_value_type numbers s (old_type old) ≡ r
      → find n p ≡ some old
      → store n old p r ≡ ok q
      → Fits (find name p) (find name q)
  Fits-store name n s old p q (ok (v, t)) g e h = elim (Bool-cases (type_fits old t)) [
    | inl f ↦
        let k : assign n (some v) p ≡ q = ground arith in
        subst (λ (r : Params F I). Fits (find name p) (find name r)) k
          (Fits-assign name n old v p e (Fits-value s old v t g f))
    | inr f ↦ absurd (ground arith)
  ]
  Fits-store name n s old p q build_error g e h = cc
  Fits-store name n s old p q value_error g e h = cc

  set_option_found :
      (n s : Text) (old : Option (Value F I)) (p : Params F I)
      → find n p ≡ some old
      → set_option numbers (n, s) p
        ≡ store n old p (get_parameter_value_type numbers s (old_type old))
  unfolding set_option
  set_option_found n s old p e = rw (e, set_option) refl

  set_option-Fits :
      (name n s : Text) (p q : Params F I)
      → set_option numbers (n, s) p ≡ ok q
      → Fits (find name p) (find name q)
  unfolding set_option
  set_option-Fits name n s p q h = elim (Option-cases (find n p)) [
    | inl e ↦
        let k : p ≡ q = ground arith in
        subst (λ (r : Params F I). Fits (find name p) (find name r)) k (Fits-refl (find name p))
    | inr (old, e) ↦ Fits-store name n s old p q _ refl e (sym (set_option_found n s old p e) ∙ h)
  ]

  set_options-Fits :
      (name : Text) (l : List (Text × Text)) (p q : Params F I)
      → set_options numbers l p ≡ ok q
      → Fits (find name p) (find name q)
  unfolding set_options
  set_options-Fits name [] p q h =
      let k : p ≡ q = ground arith in
      subst (λ (r : Params F I). Fits (find name p) (find name r)) k (Fits-refl (find name p))
  set_options-Fits name ((n, s) ∷ l) p q h =
      next (set_option numbers (n, s) p) (λ r e. set_option-Fits name n s p r e)
        (λ r e. set_options-Fits name l r q e) h
    where
      next :
          (r : Result (Params F I))
          → ((u : Params F I) → r ≡ ok u → Fits (find name p) (find name u))
          → ((u : Params F I) → set_options numbers l u ≡ ok q → Fits (find name u) (find name q))
          → ◌≡◌ {A = Result (Params F I)}
              (elim r [
                | ok u ↦ set_options numbers l u
                | build_error ↦ build_error
                | value_error ↦ value_error
              ])
              (ok q)
          → Fits (find name p) (find name q)
      next (ok u) f g k = Fits-trans (find name p) (find name u) (find name q) (f u refl) (g u k)
      next build_error f g k = cc
      next value_error f g k = cc

  -- A checked table has a value under every name that it has.
  all_given_lem : (name : Text) (p : Params F I) → all_given p ≡ true → find name p ≢ some none
  unfolding all_given find
  all_given_lem name [] h e = cc
  all_given_lem name ((n, none) ∷ l) h e = cc
  all_given_lem name ((n, some v) ∷ l) h e = ground (arith, all_given_lem name l h)

  checked :
      (r : Result (Params F I)) (p : Params F I)
      → check_given r ≡ ok p
      → (r ≡ ok p) × (all_given p ≡ true)
  checked (ok u) p h = ground arith
  checked build_error p h = cc
  checked value_error p h = cc

  -- The model's default for a parameter: the last of its name, and none for a name that no
  -- parameter has.
  unfoldable pub model_default : Text → List (Formal F I) → Option (Option (Value F I))
  model_default name [] = none
  model_default name (f ∷ l) = elim (model_default name l) [
    | some d ↦ some d
    | none ↦ if text_eq f.name name then some f.default else none
  ]

  abbrev or_else :
      Option (Option (Value F I)) → Option (Option (Value F I)) → Option (Option (Value F I))
  or_else none o = o
  or_else (some d) o = some d

  find-defaults :
      (name : Text) (l : List (Formal F I)) (p : Params F I)
      → find name (defaults l p) ≡ or_else (model_default name l) (find name p)
  unfolding defaults model_default
  find-defaults name [] p = refl
  find-defaults name (f ∷ l) p =
      ground (
        arith,
        find-defaults name l (assign f.name f.default p),
        find-assign f.name name f.default p,
      )

  -- If getopt reads the command line and the parameters are accepted, they are those of the model
  -- and no others, each has a value, and where the model has a default the value is of the
  -- default's type.
  pub parse_params-Fits :
      (formals : List (Formal F I)) (argv : List Text) (l : List (Text × Text)) (p : Params F I)
      → getopt (names_of formals) argv ≡ options l
      → parse_params numbers formals argv ≡ ok p
      → (name : Text) → Fits (model_default name formals) (find name p) × (find name p ≢ some none)
  unfolding parse_params find
  parse_params-Fits formals argv l p g h name =
      let k : check_given (set_options numbers l (defaults formals [])) ≡ ok p = rw g at h in
      let (e, a) = checked (set_options numbers l (defaults formals [])) p k in
      let d : find name (defaults formals []) ≡ model_default name formals =
        find-defaults name formals [] ∙ ground arith in
      (
        subst (λ (o : Option (Option (Value F I))). Fits o (find name p)) d
            (set_options-Fits name l (defaults formals []) p e),
        all_given_lem name p a,
      )
