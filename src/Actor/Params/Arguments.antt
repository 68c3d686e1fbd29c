-- ===== src/Actor/Params/Arguments.antt =====
-- The arguments of a component's instance (src/riaps/run/actor.py) against the formals of its type.
use riaps_pycom.Prelude.{
  ◌≡◌, ◌≢◌, refl, ◌∙◌, Bool, true, false, Option, none, some, List, [], ◌∷◌, if◌then◌else◌, Text,
  text_eq, find, assign, find-assign, arith,
}
use riaps_pycom.Actor.Params.{
  Value, Formal, Actual, Given, param, value, nothing, Result, ok, build_error, value_error, Params,
  find_actual, argument_value, build_args, build_inst_args,
}

module _ {F I : Type 0} (params : Params F I) (actuals : List (Actual F I)) where
  -- What the last formal of a name asks for: the first actual of the name, or the default.
  unfoldable pub wanted : Text → List (Formal F I) → Option (Result (Option (Value F I)))
  wanted name [] = none
  wanted name (f ∷ l) = elim (wanted name l) [
    | some r ↦ some r
    | none ↦
        if text_eq f.name name
        then some (argument_value params (find_actual f.name actuals) f.default)
        else none
  ]

  -- What stands under a name after the loop, where `old` stood before it.
  abbrev pub Gets :
      Option (Result (Option (Value F I))) → (old new : Option (Option (Value F I))) → Type 0
  Gets none old new = new ≡ old
  Gets (some (ok v)) old new = new ≡ some v
  Gets (some build_error) old new = ⊥
  Gets (some value_error) old new = ⊥

  Gets-step :
      (w : Option (Result (Option (Value F I)))) (b : Bool) (v : Option (Value F I))
      → (old mid new : Option (Option (Value F I))) → mid ≡ (if b then some v else old)
      → Gets w mid new
      → Gets (elim w [ some r ↦ some r | none ↦ if b then some (ok v) else none ]) old new
  Gets-step none true v old mid new e g = g ∙ e
  Gets-step none false v old mid new e g = g ∙ e
  Gets-step (some (ok u)) b v old mid new e g = g
  Gets-step (some build_error) b v old mid new e g = g
  Gets-step (some value_error) b v old mid new e g = g

  build_args-Gets :
      (name : Text) (l : List (Formal F I)) (args new : Params F I)
      → build_args params actuals l args ≡ ok new
      → Gets (wanted name l) (find name args) (find name new)
  unfolding build_args wanted
  build_args-Gets name [] args new h = ground arith
  build_args-Gets name (f ∷ l) args new h =
      next (argument_value params (find_actual f.name actuals) f.default)
        (λ a e. build_args-Gets name l a new e) h
    where
      next :
          (r : Result (Option (Value F I)))
          → ((a : Params F I)
              → build_args params actuals l a ≡ ok new
              → Gets (wanted name l) (find name a) (find name new))
          → ◌≡◌ {A = Result (Params F I)}
              (elim r [
                | build_error ↦ build_error
                | value_error ↦ value_error
                | ok v ↦ build_args params actuals l (assign f.name v args)
              ])
              (ok new)
          → Gets
              (elim (wanted name l) [
                | some w ↦ some w
                | none ↦ if text_eq f.name name then some r else none
              ])
              (find name args)
              (find name new)
      next build_error ih k = cc
      next value_error ih k = cc
      next (ok v) ih k =
          Gets-step (wanted name l) (text_eq f.name name) v (find name args)
            (find name (assign f.name v args)) (find name new) (find-assign f.name name v args)
            (ih (assign f.name v args) k)

  argument_value-given :
      (g : Option (Given F I)) (d : Option (Value F I))
      → ((name : Text) → find name params ≢ some none)
      → argument_value params g d ≢ ok none
  unfolding argument_value
  argument_value-given (some (param p)) d h e = ground (arith, h p)
  argument_value-given (some (value v)) d h e = cc
  argument_value-given (some nothing) d h e = cc
  argument_value-given none (some v) h e = cc
  argument_value-given none none h e = cc

  step-given :
      (w : Option (Result (Option (Value F I)))) (b : Bool) (r : Result (Option (Value F I)))
      → w ≢ some (ok none)
      → r ≢ ok none
      → ◌≢◌ {A = Option (Result (Option (Value F I)))}
          (elim w [ some u ↦ some u | none ↦ if b then some r else none ])
          (some (ok none))
  step-given none true r h k e = k (ground arith)
  step-given none false r h k e = cc
  step-given (some u) b r h k e = h e

  wanted-given :
      (name : Text) (l : List (Formal F I))
      → ((n : Text) → find n params ≢ some none)
      → wanted name l ≢ some (ok none)
  unfolding wanted
  wanted-given name [] h e = cc
  wanted-given name (f ∷ l) h e =
      step-given (wanted name l) (text_eq f.name name) _ (wanted-given name l h)
        (argument_value-given (find_actual f.name actuals) f.default h) e

  Gets-given :
      (w : Option (Result (Option (Value F I)))) (new : Option (Option (Value F I)))
      → w ≢ some (ok none)
      → Gets w none new
      → new ≢ some none
  Gets-given none new h g e = cc
  Gets-given (some (ok none)) new h g e = h refl
  Gets-given (some (ok (some v))) new h g e = cc
  Gets-given (some build_error) new h g e = g
  Gets-given (some value_error) new h g e = g

  -- Each name gets what its last formal asks for, and that is a value.
  pub build_inst_args-Gets :
      (formals : List (Formal F I)) (args : Params F I)
      → ((n : Text) → find n params ≢ some none)
      → build_inst_args params formals actuals ≡ ok args
      → (name : Text)
      → Gets (wanted name formals) none (find name args) × (find name args ≢ some none)
  unfolding build_inst_args find
  build_inst_args-Gets formals args k h name =
      let g = build_args-Gets name formals [] args h in
      (g, Gets-given (wanted name formals) (find name args) (wanted-given name formals k) g)
