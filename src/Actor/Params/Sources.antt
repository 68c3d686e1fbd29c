-- ===== src/Actor/Params/Sources.antt =====
-- Where the arguments of a component's instance come from (buildInstArgs of src/riaps/run/actor.py).
use riaps_pycom.Prelude.{
  ◌≡◌, ◌≢◌, ◌⊎◌, refl, ap, sym, subst, true, false, inl, inr, Bool-cases, Option-cases, Option,
  none, some, List, [], ◌∷◌, ◌++◌, All, if◌then◌else◌, Text, text_eq, find, arith,
}
use riaps_pycom.Actor.Params.{
  Value, Formal, Actual, Given, param, value, nothing, Result, ok, build_error, value_error, Params,
  find_actual, argument_value, build_inst_args,
}
use riaps_pycom.Actor.Params.Arguments.{wanted, Gets, build_inst_args-Gets}

module _ {F I : Type 0} (params : Params F I) (actuals : List (Actual F I)) where
  abbrev pub NoFormal : Text → List (Formal F I) → Type 0
  NoFormal name l = All (λ (f : Formal F I). text_eq f.name name ≡ false) l

  abbrev pub NoActual : Text → List (Actual F I) → Type 0
  NoActual name l = All (λ (a : Actual F I). text_eq a.name name ≡ false) l

  -- The last formal of a name, and the first actual
  abbrev pub IsLastFormal : Text → Formal F I → List (Formal F I) → Type 0
  IsLastFormal name f l =
      (before after : List (Formal F I)) × (l ≡ before ++ f ∷ after)
      × (text_eq f.name name ≡ true)
      × NoFormal name after

  abbrev pub IsFirstActual : Text → Actual F I → List (Actual F I) → Type 0
  IsFirstActual name a l =
      (before after : List (Actual F I)) × (l ≡ before ++ a ∷ after)
      × (text_eq a.name name ≡ true)
      × NoActual name before

  -- What an actual argument stands for: a value, or that of a parameter of the actor.
  abbrev pub Supplies : Given F I → Value F I → Type 0
  Supplies g v = (g ≡ value v) ⊎ ((p : Text) × (g ≡ param p) × (find p params ≡ some (some v)))

  -- A value of a formal: from the first actual of its name, or its default where there is none.
  abbrev pub ComesFrom : Formal F I → Value F I → Type 0
  ComesFrom f v =
      ((a : Actual F I) × IsFirstActual f.name a actuals × Supplies a.given v)
      ⊎ (NoActual f.name actuals × (f.default ≡ some v))

  find_actual-none :
      (name : Text) (l : List (Actual F I)) → find_actual name l ≡ none → NoActual name l
  unfolding find_actual
  find_actual-none name [] h = tt
  find_actual-none name (a ∷ l) h = elim (Bool-cases (text_eq a.name name)) [
    | inl e ↦ absurd (ground arith)
    | inr e ↦ (e, find_actual-none name l (ground arith))
  ]

  find_actual-some :
      (name : Text) (l : List (Actual F I)) (g : Given F I)
      → find_actual name l ≡ some g
      → (a : Actual F I) × IsFirstActual name a l × (a.given ≡ g)
  unfolding find_actual
  find_actual-some name [] g h = absurd (ground arith)
  find_actual-some name (a ∷ l) g h = elim (Bool-cases (text_eq a.name name)) [
    | inl e ↦ (a, ([], l, refl, e, tt), ground arith)
    | inr e ↦
        let (b, (before, after, s, f, n), k) = find_actual-some name l g (ground arith) in
        (b, (a ∷ before, after, ap (λ r. a ∷ r) s, f, (e, n)), k)
  ]

  abbrev WantedBy : Text → List (Formal F I) → Option (Result (Option (Value F I))) → Type 0
  WantedBy name l none = NoFormal name l
  WantedBy name l (some r) =
      (f : Formal F I) × IsLastFormal name f l
      × (r ≡ argument_value params (find_actual f.name actuals) f.default)

  wanted-WantedBy :
      (name : Text) (l : List (Formal F I)) → WantedBy name l (wanted params actuals name l)
  unfolding wanted
  wanted-WantedBy name [] = tt
  wanted-WantedBy name (f ∷ l) = at (wanted params actuals name l) (wanted-WantedBy name l)
    where
      at :
          (o : Option (Result (Option (Value F I))))
          → WantedBy name l o
          → WantedBy name (f ∷ l) (elim o [
            | some r ↦ some r
            | none ↦
                if text_eq f.name name
                then some (argument_value params (find_actual f.name actuals) f.default)
                else none
          ])
      at (some r) (g, (before, after, s, e, n), k) =
          (g, (f ∷ before, after, ap (λ q. f ∷ q) s, e, n), k)
      at none n = elim (Bool-cases (text_eq f.name name)) [
        | inl e ↦ rw e (f, ([], l, refl, e, n), refl)
        | inr e ↦ rw e (e, n)
      ]

  argument_value-ComesFrom :
      (f : Formal F I) (v : Value F I)
      → argument_value params (find_actual f.name actuals) f.default ≡ ok (some v)
      → ComesFrom f v
  unfolding argument_value
  argument_value-ComesFrom f v h = elim (Option-cases (find_actual f.name actuals)) [
    | inl e ↦ inr (find_actual-none f.name actuals e, ground arith)
    | inr (g, e) ↦
        let (a, i, k) = find_actual-some f.name actuals g e in
        inl (a, i, subst (λ x. Supplies x v) (sym k) (given g e))
  ]
    where
      given : (g : Given F I) → find_actual f.name actuals ≡ some g → Supplies g v
      given (param p) e = inr (p, refl, ground arith)
      given (value w) e = inl (ground arith)
      given nothing e = absurd (ground arith)

  sources :
      (name : Text) (l : List (Formal F I)) (w : Option (Result (Option (Value F I))))
      → (new : Option (Option (Value F I))) → WantedBy name l w
      → Gets params actuals w none new
      → new ≢ some none
      → (NoFormal name l × (new ≡ none))
        ⊎ ((f : Formal F I) × (v : Value F I) × IsLastFormal name f l
            × (new ≡ some (some v))
            × ComesFrom f v)
  sources name l none new b g n = inl (b, g)
  sources name l (some (ok none)) new b g n = absurd (n g)
  sources name l (some (ok (some v))) new (f, i, e) g n =
      inr (f, v, i, g, argument_value-ComesFrom f v (sym e))
  sources name l (some build_error) new b g n = absurd g
  sources name l (some value_error) new b g n = absurd g

  -- If all parameters of the actor have values, and the arguments of an instance can be built, then
  -- there is an argument under a name exactly if a formal of the component's type has that name,
  -- and it has a value. That is what the first actual argument of the name gives, a value or that
  -- of a parameter of the actor; if no actual has the name, it is the default of the formal (of the
  -- last one, if several formals have the name).
  pub build_inst_args-ComesFrom :
      (formals : List (Formal F I)) (args : Params F I)
      → ((n : Text) → find n params ≢ some none)
      → build_inst_args params formals actuals ≡ ok args
      → (name : Text)
      → (NoFormal name formals × (find name args ≡ none))
        ⊎ ((f : Formal F I) × (v : Value F I) × IsLastFormal name f formals
            × (find name args ≡ some (some v))
            × ComesFrom f v)
  build_inst_args-ComesFrom formals args k h name =
      let (g, n) = build_inst_args-Gets params actuals formals args k h name in
      sources name formals (wanted params actuals name formals) (find name args)
        (wanted-WantedBy name formals) g n
