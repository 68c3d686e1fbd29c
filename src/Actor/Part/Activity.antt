-- ===== src/Actor/Part/Activity.antt =====
-- Which ports of a component are active: the commands of src/riaps/run/comp.py.
use riaps_pycom.Prelude.{
  ℕ, ◌≡◌, refl, ◌∙◌, subst, inl, inr, Option-cases, Bool, true, false, Option, none, some, List, [],
  ◌∷◌, if◌then◌else◌, ◌==◌, Dict, has_key, arith,
}
use riaps_pycom.Actor.Port.{Port}
use riaps_pycom.Actor.Thread.{
  Thread, Action, join, leave, Event, emit, add_group_socket, del_group_socket, activate_port,
  deactivate_port, build, passivate,
}
use riaps_pycom.Actor.Thread.Commands.{each_port}
use riaps_pycom.Actor.Thread.Handlers.{act}
use riaps_pycom.Actor.Part.{State, active, passive}
use riaps_pycom.Actor.Part.Told.{told}

-- Whether a port is active: what its latest activation or deactivation was.
unfoldable pub is_active : ℕ → List Event → Bool
is_active n [] = false
is_active n (activate_port m ∷ l) = let rest = is_active n l in if m == n then true else rest
is_active n (deactivate_port m ∷ l) = let rest = is_active n l in if m == n then false else rest
is_active n (_ ∷ l) = is_active n l

-- The states in which the ports of a part are to be active: a passive part keeps its ports.
unfoldable pub has_ports : State → Bool
has_ports active = true
has_ports passive = true
has_ports _ = false

pub told_keeps :
    (s : State)
    → (has_ports (told passivate s) ≡ has_ports s) × (has_ports (told build s) ≡ has_ports s)
unfolding has_ports told
told_keeps s = ground arith

module _ {C : Type 0} where
  pub activated_ports :
      (n : ℕ) (d : Dict Port) (t : Thread C)
      → is_active n (each_port activate_port d t).events
        ≡ (if has_key n d then true else is_active n t.events)
  unfolding each_port is_active has_key
  activated_ports n [] t = refl
  activated_ports n ((m, p) ∷ d) t = ground (arith, activated_ports n d (emit (activate_port m) t))

  pub deactivated_ports :
      (n : ℕ) (d : Dict Port) (t : Thread C)
      → is_active n (each_port deactivate_port d t).events
        ≡ (if has_key n d then false else is_active n t.events)
  unfolding each_port is_active has_key
  deactivated_ports n [] t = refl
  deactivated_ports n ((m, p) ∷ d) t =
      ground (arith, deactivated_ports n d (emit (deactivate_port m) t))

  -- What the component does in a handler activates no port.
  abbrev SameEvents : Thread C → Option (Thread C) → Type 0
  SameEvents t none = Unit
  SameEvents t (some u) = u.events ≡ t.events

  del_group_socket_events : (g s : ℕ) (t : Thread C) → SameEvents t (del_group_socket g s t)
  unfolding del_group_socket
  del_group_socket_events g s t = ground arith

  pub act_events : (l : List Action) (t : Thread C) → (act l t).1.events ≡ t.events
  unfolding act add_group_socket
  act_events [] t = refl
  act_events (join g s k ∷ l) t = act_events l (add_group_socket g s k t)
  act_events (leave g s ∷ l) t = elim (Option-cases (del_group_socket g s t)) [
    | inl e ↦ rw (e, act) refl
    | inr (v, e) ↦
        rw (e, act) (act_events l v ∙ subst (SameEvents t) e (del_group_socket_events g s t))
  ]
