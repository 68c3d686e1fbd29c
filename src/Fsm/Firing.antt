-- ===== src/Fsm/Firing.antt =====
-- FSM._update of src/riaps/run/fsm.py: which transition fires.
use riaps_pycom.Prelude.{
  ℕ, ◌≡◌, refl, sym, ap, ◌∙◌, lookup, Dict, true, false, Option, none, some, List, [], ◌∷◌, ◌++◌,
  All, if◌then◌else◌, arith,
}
use riaps_pycom.Fsm.{
  nondeterminism, Self, Transition, Machine, Incoming, log, fire, attempt, in_state, on_event,
  or_empty, recv_message, update,
}
use riaps_pycom.Fsm.Transitions.{tlist}

module _ {C : Type 0} where
  -- One entry for each transition that could also have fired.
  unfoldable pub conflicts : (event prev : ℕ) → List (Transition C) → Self C → Self C
  conflicts event prev [] s = s
  conflicts event prev (trans ∷ tlist) s =
      conflicts event prev tlist (if trans.guard s then log (nondeterminism event prev) s else s)

module _ {C : Type 0} (machine : Machine C) where
  attempt_fired :
      (event prev : ℕ) (tlist : List (Transition C)) (s : Self C)
      → attempt machine event prev true tlist s ≡ conflicts event prev tlist s
  unfolding attempt conflicts
  attempt_fired event prev [] s = refl
  attempt_fired event prev (trans ∷ tlist) s = ground (
    arith,
    attempt_fired event prev tlist s,
    attempt_fired event prev tlist (log (nondeterminism event prev) s),
  )

  -- Of the transitions of a state, the first whose guard holds fires, once; those behind it are
  -- only checked, against the component that it has left, and logged as conflicts where their
  -- guards hold too.
  pub attempt_first :
      (event prev : ℕ) (before : List (Transition C)) (trans : Transition C)
      (after : List (Transition C)) (s : Self C)
      → All (λ t. t.guard s ≡ false) before
      → trans.guard s ≡ true
      → attempt machine event prev false (before ++ trans ∷ after) s
        ≡ conflicts event prev after (fire machine prev trans s)
  unfolding attempt
  attempt_first event prev [] trans after s none_before g =
      rw (g, attempt) (attempt_fired event prev after (fire machine prev trans s))
  attempt_first event prev (t ∷ before) trans after s none_before g =
      rw (none_before.0, attempt) (attempt_first event prev before trans after s none_before.1 g)

  -- Where no guard holds, nothing changes.
  pub attempt_none :
      (event prev : ℕ) (tlist : List (Transition C)) (s : Self C)
      → All (λ t. t.guard s ≡ false) tlist
      → attempt machine event prev false tlist s ≡ s
  unfolding attempt
  attempt_none event prev [] s h = refl
  attempt_none event prev (t ∷ tlist) s h = rw (h.0, attempt) (attempt_none event prev tlist s h.1)

  in_state_lem :
      (event : ℕ) (o : Option (List (Transition C))) (s : Self C) {t : Transition C}
      {l : List (Transition C)}
      → or_empty o ≡ t ∷ l
      → in_state machine event o s ≡ attempt machine event s.current false (t ∷ l) s
  in_state_lem event none s h = cc
  in_state_lem event (some []) s h = cc
  in_state_lem event (some (u ∷ k)) s h = ap (λ l. attempt machine event s.current false l s) h

  on_event_lem :
      (event current : ℕ) (o : Option (Dict (List (Transition C)))) (s : Self C) {t : Transition C}
      {l : List (Transition C)}
      → tlist o current ≡ t ∷ l
      → on_event machine event current o s ≡ attempt machine event s.current false (t ∷ l) s
  on_event_lem event current none s h = cc
  on_event_lem event current (some []) s h = unfold lookup in cc h
  on_event_lem event current (some (u ∷ k)) s h = in_state_lem event _ s h

  current-recv_message :
      (event : ℕ) (incoming : Incoming) (s : Self C)
      → (recv_message event incoming s).current ≡ s.current
  unfolding recv_message
  current-recv_message event incoming s = ground arith

  nonempty :
      (before : List (Transition C)) (trans : Transition C) (after : List (Transition C))
      → (t : Transition C) × (l : List (Transition C)) × (before ++ trans ∷ after ≡ t ∷ l)
  nonempty [] trans after = (trans, after, refl)
  nonempty (b ∷ before) trans after = (b, before ++ trans ∷ after, refl)

  -- An event takes the first of the transitions declared for it in the current state whose guard
  -- holds once the event's message has been read. The guards in front of it are false, and each
  -- guard behind it that holds afterwards is reported, and fires nothing.
  pub update_first :
      (event : ℕ) (incoming : Incoming) (s : Self C) (before : List (Transition C))
      (trans : Transition C) (after : List (Transition C))
      → tlist (machine.trans_map event) s.current ≡ before ++ trans ∷ after
      → All (λ t. t.guard (recv_message event incoming s) ≡ false) before
      → trans.guard (recv_message event incoming s) ≡ true
      → update machine event incoming s
        ≡ conflicts event s.current after
            (fire machine s.current trans (recv_message event incoming s))
  unfolding update
  update_first event incoming s before trans after split none_before g =
      let s1 = recv_message event incoming s in
      let (t, l, e) = nonempty before trans after in
      let c = current-recv_message event incoming s in
      on_event_lem event s.current (machine.trans_map event) s1 (split ∙ e)
      ∙ ap (λ l. attempt machine event s1.current false l s1) (sym e)
      ∙ ap (λ k. attempt machine event k false (before ++ trans ∷ after) s1) c
      ∙ attempt_first event s.current before trans after s1 none_before g
