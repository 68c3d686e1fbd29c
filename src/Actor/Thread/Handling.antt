-- ===== src/Actor/Thread/Handling.antt =====
-- The handlers of src/riaps/run/comp.py leave the thread sound.
use riaps_pycom.Prelude.{
  ℕ, ◌≡◌, refl, Bool, true, false, List, [], All, if_either, ◌&&◌, ◌∙◌, Option, none, some, ◌∷◌,
  inl, inr, Option-cases, lookup, arith,
}
use riaps_pycom.Actor.Port.{Port}
use riaps_pycom.Actor.Thread.{
  Thread, App, Handled, Action, Event, join, leave, emit, handle_deadline, report_deadline,
  report_exception,
}
use riaps_pycom.Actor.Thread.Handlers.{
  act, call_back, caught, late, after_port, handle_port, handle_group, execute_handler_for,
}
use riaps_pycom.Actor.Thread.Serving.{IsServable}
use riaps_pycom.Actor.Thread.Sound.{
  IsTame, KeepingAction, FreshAction, IsSound, SameMaps, IsSound-maps, act-IsSound,
}

module _ {C : Type 0} (t : Thread C) where
  pub alike : (u v : Thread C) → SameMaps u v → v.ports ≡ u.ports → IsSound t u → IsSound t v
  alike u v m e h = IsSound-maps t u v m (λ n. rw e refl) (λ n. rw e refl) h

  pub IsServable-sound : (s : ℕ) (u : Thread C) → IsSound t u → IsServable t s → IsServable u s
  IsServable-sound s u h (inl e) = inl (rw h.sock2port e)
  IsServable-sound s u h (inr (n, e, f)) = inr (n, rw h.sock2name e, h.names n ∙ f)

  fresh_actions : (l : List Action) → All (KeepingAction t) l → All (FreshAction t) l
  fresh_actions [] h = tt
  fresh_actions (join g s k ∷ l) h = (h.0, fresh_actions l h.1)
  fresh_actions (leave g s ∷ l) h = absurd h.0

module _ {C : Type 0} (app : App C) (t : Thread C) (tame : IsTame app t) where
  call_back-IsSound : (e : Event) (u : Thread C) → IsSound t u → IsSound t (call_back app e u).1
  unfolding call_back
  call_back-IsSound e u h =
      let d = app.on_event e u.comp in
      let w = emit e (record u { comp = d.comp }) in
      act-IsSound d.actions t w (fresh_actions t d.actions (tame.on_event e u.comp))
        (alike t u w (ground arith) refl h)

  caught-IsSound : (r : Bool × Thread C) → IsSound t r.1 → IsSound t (caught r)
  caught-IsSound (true, u) h = h
  caught-IsSound (false, u) h = alike t u _ (ground arith) refl h

  after_port-IsSound :
      (name : ℕ) (p : Port) (h : Handled C) (r : Bool × Thread C)
      → IsSound t r.1
      → IsSound t (after_port app name p h r)
  after_port-IsSound name p h (acted, u) k =
      let e = emit report_exception u in
      let w = emit report_deadline u in
      let c =
        caught-IsSound (call_back app (handle_deadline name) w)
          (call_back-IsSound (handle_deadline name) w (alike t u w (ground arith) refl k)) in
      if_either (IsSound t) (acted && h.returned) _ e
        (if_either (IsSound t) (late p.deadline h.spent) _ u c k)
        (alike t u e (ground arith) refl k)

  handle_port-IsSound :
      (name : ℕ) (p : Port) (u : Thread C) → IsSound t u → IsSound t (handle_port app name p u)
  unfolding handle_port
  handle_port-IsSound name p u h = elim (Option-cases (app.on name)) [
    | inl e ↦ rw (e, handle_port) (alike t u _ (ground arith) refl h)
    | inr (f, e) ↦
        let d = f u.comp in
        let u1 = record u { comp = d.comp } in
        rw (e, handle_port)
          (after_port-IsSound name p d (act d.actions u1) (
            act-IsSound d.actions t u1 (tame.on name f u.comp e)
              (alike t u u1 (ground arith) refl h)))
  ]

  handle_group-IsSound : (g : ℕ) (u : Thread C) → IsSound t u → IsSound t (handle_group app g u)
  unfolding handle_group
  handle_group-IsSound g u h =
      let d = app.on_group g u.comp in
      let u1 = record u { comp = d.comp } in
      let k =
        act-IsSound d.actions t u1 (tame.on_group g u.comp) (alike t u u1 (ground arith) refl h) in
      alike t (act d.actions u1).1 _ (ground arith) (ground arith) k

  abbrev pub Sound : Option (Thread C) → Type 0
  Sound none = Unit
  Sound (some v) = IsSound t v

  pub execute-Sound : (s : ℕ) (u : Thread C) → IsSound t u → Sound (execute_handler_for app s u)
  unfolding execute_handler_for
  execute-Sound s u h =
      let u1 = record u { served = s ∷ u.served } in
      let h1 = alike t u u1 (ground arith) refl h in
      elim (Option-cases (lookup s u.sock2port)) [
        | inl e ↦ elim (Option-cases (lookup s u.sock2group)) [
          | inl f ↦ rw (e, f, execute_handler_for) (alike t u1 _ (ground arith) refl h1)
          | inr (g, f) ↦ rw (e, f, execute_handler_for) (handle_group-IsSound g u1 h1)
        ]
        | inr (n, e) ↦ elim (Option-cases (lookup s u.sock2name)) [
          | inl f ↦ rw (e, f, execute_handler_for) tt
          | inr (m, f) ↦ elim (Option-cases (lookup m u.ports)) [
            | inl g ↦ rw (e, f, g, execute_handler_for) tt
            | inr (p, g) ↦ rw (e, f, g, execute_handler_for) (handle_port-IsSound m p u1 h1)
          ]
        ]
      ]
