-- ===== src/Fsm/Transitions.antt =====
-- The transition tables of src/riaps/run/fsm.py against the list of decorated methods.
use riaps_pycom.Prelude.{
  contains-snoc, ℕ, ◌≡◌, refl, ◌∙◌, ap, Bool, true, false, ◌&&◌, Option, none, some, List, [], ◌∷◌,
  ◌++◌, Dict, lookup, insert, lookup-insert, contains, if◌then◌else◌, ◌==◌, arith,
}
use riaps_pycom.Fsm.{
  Transition, Registration, Event, or_empty, or_new, on_call, declare, collect_states, collect_map,
}

module _ {C : Type 0} where
  -- The transitions that were declared for an event in a state, the first declared first.
  unfoldable pub declared : (event state : ℕ) → List (Registration C) → List (Transition C)
  declared event state [] = []
  declared event state (r ∷ rs) =
      let rest = declared event state rs in
      if (r.event == event) && (r.state == state) then rest ++ r.trans ∷ [] else rest

  abbrev lists_of : Option (Event C) → Dict (List (Transition C))
  lists_of o = (or_new o).lists

  abbrev list_at : (event state : ℕ) → Dict (Event C) → List (Transition C)
  list_at event state events = or_empty (lookup state (lists_of (lookup event events)))

  list_at-on_call :
      (event state : ℕ) (r : Registration C) (events : Dict (Event C))
      → list_at event state (on_call r events) ≡ (
          if (r.event == event) && (r.state == state)
          then list_at event state events ++ r.trans ∷ []
          else list_at event state events)
  unfolding on_call
  list_at-on_call event state r events =
      let e = or_new (lookup r.event events) in
      let l = or_empty (lookup r.state e.lists) ++ r.trans ∷ [] in
      ground (
        arith,
        lookup-insert r.event event
            (record { on_states = e.on_states ++ r.state ∷ []; lists = insert r.state l e.lists })
            events,
        lookup-insert r.state state l e.lists,
      )

  -- The list that an event has under a state.
  list_at-declare :
      (event state : ℕ) (rs : List (Registration C))
      → list_at event state (declare rs) ≡ declared event state rs
  unfolding declare declared
  list_at-declare event state [] = unfold lookup in refl
  list_at-declare event state (r ∷ rs) =
      list_at-on_call event state r (declare rs)
      ∙ ap
          (λ (l : List (Transition C)).
            if (r.event == event) && (r.state == state) then l ++ r.trans ∷ [] else l)
          (list_at-declare event state rs)

  -- What collect_states leaves under a state.
  collect_states-lookup :
      (states : List ℕ) (lists on_map : Dict (List (Transition C))) (state : ℕ)
      → lookup state (collect_states states lists on_map) ≡ (
          if contains state states
          then some (or_empty (lookup state lists))
          else lookup state on_map)
  unfolding collect_states contains
  collect_states-lookup [] lists on_map state = refl
  collect_states-lookup (j ∷ states) lists on_map state = ground (
    arith,
    collect_states-lookup states lists (insert j (or_empty (lookup j lists)) on_map) state,
    lookup-insert j state (or_empty (lookup j lists)) on_map,
  )

  abbrev on_states_of : Option (Event C) → List ℕ
  on_states_of o = (or_new o).on_states

  -- A state stands in `__on__` exactly when it has a transition.
  abbrev is_some : List (Transition C) → Bool
  is_some [] = false
  is_some (t ∷ l) = true

  is_some-snoc : (l : List (Transition C)) (t : Transition C) → is_some (l ++ t ∷ []) ≡ true
  is_some-snoc [] t = refl
  is_some-snoc (u ∷ l) t = refl

  contains-on_call :
      (event state : ℕ) (r : Registration C) (events : Dict (Event C))
      → contains state (on_states_of (lookup event (on_call r events))) ≡ (
          if (r.event == event) && (r.state == state)
          then true
          else contains state (on_states_of (lookup event events)))
  unfolding on_call
  contains-on_call event state r events =
      let e = or_new (lookup r.event events) in
      ground (
        arith,
        lookup-insert r.event event
            (record {
              on_states = e.on_states ++ r.state ∷ [];
              lists = insert r.state (or_empty (lookup r.state e.lists) ++ r.trans ∷ []) e.lists;
            })
            events,
        contains-snoc state r.state e.on_states,
      )

  contains-declare :
      (event state : ℕ) (rs : List (Registration C))
      → contains state (on_states_of (lookup event (declare rs)))
        ≡ is_some (declared event state rs)
  unfolding declare declared
  contains-declare event state [] = unfold lookup contains in refl
  contains-declare event state (r ∷ rs) = ground (
    arith,
    contains-on_call event state r (declare rs),
    contains-declare event state rs,
    is_some-snoc (declared event state rs) r.trans,
  )

  abbrev pub tlist : Option (Dict (List (Transition C))) → ℕ → List (Transition C)
  tlist none state = []
  tlist (some on_map) state = or_empty (lookup state on_map)

  tlist-collect :
      (o : Option (Event C)) (state : ℕ)
      → tlist (collect_map o) state
        ≡ (if contains state (on_states_of o) then or_empty (lookup state (lists_of o)) else [])
  unfolding collect_map contains lookup
  tlist-collect none state = refl
  tlist-collect (some e) state = ground (arith, collect_states-lookup e.on_states e.lists [] state)

  -- The map that __init__ builds from the decorated methods gives, for each event and state, the
  -- transitions that were declared for the two, in the order of their declaration.
  pub collect-declare :
      (event state : ℕ) (rs : List (Registration C))
      → tlist (collect_map (lookup event (declare rs))) state ≡ declared event state rs
  collect-declare event state rs = ground (
    arith,
    tlist-collect (lookup event (declare rs)) state,
    contains-declare event state rs,
    list_at-declare event state rs,
  )
