-- ===== src/Actor/Part/Ports.antt =====
-- The ports of a component against the state of its part: src/riaps/run/part.py together with the
-- commands of src/riaps/run/comp.py.
use riaps_pycom.Prelude.{
  ℕ, ◌≡◌, sym, ap, ◌∙◌, Bool, true, false, Option, none, some, List, [], ◌∷◌, All, has_key, arith,
}
use riaps_pycom.Actor.Port.{Address}
use riaps_pycom.Actor.Thread.{
  Thread, App, Event, emit, handle_activate, handle_passivate, handle_cpu_limit, handle_mem_limit,
  handle_spc_limit, handle_net_limit, handle_nic_state_change, handle_peer_state_change,
  activate_port, deactivate_port, handle_deactivate, Command, build, kill, activate, deactivate,
  passivate, port_update, group_update, limit_cpu, limit_mem, limit_spc, limit_net, nic_state,
  peer_state, unknown,
}
use riaps_pycom.Actor.Thread.Commands.{
  each_port, update_port, go_on, on_command, then_deactivate, run_command,
}
use riaps_pycom.Actor.Thread.Handlers.{call_back, or_raise}
use riaps_pycom.Actor.Thread.Serving.{CommandSame, each_port_lem}
use riaps_pycom.Actor.Thread.Served.{call_back_lem, run_command_lem}
use riaps_pycom.Actor.Part.{State, initial, init, Call, calls}
use riaps_pycom.Actor.Part.Told.{told, standing, agrees, calls-IsTold}
use riaps_pycom.Actor.Part.Activity.{
  is_active, has_ports, told_keeps, activated_ports, deactivated_ports, act_events,
}

module _ {C : Type 0} (app : App C) where
  -- The thread after the commands, unless it is told to stop or an exception ends it.
  unfoldable pub obey_all : List Command → Thread C → Option (Thread C)
  obey_all [] t = some t
  obey_all (c ∷ l) t = elim (run_command app c t) [
    | none ↦ none
    | some (stop, u) ↦ elim stop [ true ↦ none | false ↦ obey_all l u ]
  ]

  -- The activity of a port of the thread after a command
  abbrev Follows : ℕ → Command → State → Option (Bool × Thread C) → Type 0
  Follows n c s none = Unit
  Follows n c s (some (stop, u)) = is_active n u.events ≡ has_ports (told c s)

  -- The activity of a port after a call of one of the component's own handlers
  abbrev Active : ℕ → Bool → Option (Thread C) → Type 0
  Active n b none = Unit
  Active n b (some u) = (is_active n u.events ≡ b) × (has_key n u.ports ≡ true)

  or_raise-Active :
      (n : ℕ) (b : Bool) (r : Bool × Thread C)
      → is_active n r.1.events ≡ b
      → has_key n r.1.ports ≡ true
      → Active n b (or_raise r)
  or_raise-Active n b (true, u) h k = (h, k)
  or_raise-Active n b (false, u) h k = tt

  on_command-Active :
      (n : ℕ) (b : Bool) (e : Event) (t : Thread C)
      → has_key n t.ports ≡ true
      → is_active n (e ∷ t.events) ≡ b
      → Active n b (on_command app e t)
  unfolding call_back
  on_command-Active n b e t k h =
      let d = app.on_event e t.comp in
      let u = emit e (record t { comp = d.comp }) in
      let q = call_back_lem app e t in
      or_raise-Active n b (call_back app e t) (ap (is_active n) (act_events d.actions u) ∙ h)
        (q.names n ∙ k)

  gone-Follows :
      (n : ℕ) (c : Command) (s : State) (o : Option (Thread C))
      → Active n (has_ports (told c s)) o
      → Follows n c s (go_on o)
  gone-Follows n c s none h = tt
  gone-Follows n c s (some u) h = h.0

  deactivated-Active :
      (n : ℕ) (b : Bool) (o : Option (Thread C))
      → Active n b o
      → Active n false (then_deactivate app o)
  deactivated-Active n b none h = tt
  deactivated-Active n b (some u) h = (
    ground (arith, deactivated_ports n u.ports u, h.1),
    (each_port_lem deactivate_port u.ports u).names n ∙ h.1,
  )

  updated-Follows :
      (n : ℕ) (name : ℕ) (a : Address) (s : State) (t : Thread C)
      → is_active n t.events ≡ has_ports s
      → Follows n (port_update name a) s (go_on (update_port name a t))
  unfolding update_port is_active told
  updated-Follows n name a s t h = ground arith

  run_command-Follows :
      (n : ℕ) (c : Command) (s : State) (t : Thread C)
      → has_key n t.ports ≡ true
      → is_active n t.events ≡ has_ports s
      → Follows n c s (run_command app c t)
  unfolding run_command is_active has_ports told
  run_command-Follows n kill s t k h = h
  run_command-Follows n activate s t k h =
      let u = each_port activate_port t.ports t in
      gone-Follows n activate s _ (
        on_command-Active n true handle_activate u
          ((each_port_lem activate_port t.ports t).names n ∙ k)
          (ground (arith, activated_ports n t.ports t)))
  run_command-Follows n deactivate s t k h = gone-Follows n deactivate s _ (
      deactivated-Active n (has_ports s) _
        (on_command-Active n (has_ports s) handle_deactivate t k h))
  run_command-Follows n passivate s t k h = gone-Follows n passivate s _ (
      on_command-Active n (has_ports (told passivate s)) handle_passivate t k
        (h ∙ sym (told_keeps s).0))
  run_command-Follows n (port_update name a) s t k h = updated-Follows n name a s t h
  run_command-Follows n build s t k h = h ∙ sym (told_keeps s).1
  run_command-Follows n group_update s t k h = h
  run_command-Follows n limit_cpu s t k h =
      gone-Follows n limit_cpu s _ (on_command-Active n (has_ports s) handle_cpu_limit t k h)
  run_command-Follows n limit_mem s t k h =
      gone-Follows n limit_mem s _ (on_command-Active n (has_ports s) handle_mem_limit t k h)
  run_command-Follows n limit_spc s t k h =
      gone-Follows n limit_spc s _ (on_command-Active n (has_ports s) handle_spc_limit t k h)
  run_command-Follows n limit_net s t k h =
      gone-Follows n limit_net s _ (on_command-Active n (has_ports s) handle_net_limit t k h)
  run_command-Follows n (nic_state x) s t k h =
      gone-Follows n (nic_state x) s _
        (on_command-Active n (has_ports s) (handle_nic_state_change x) t k h)
  run_command-Follows n (peer_state x y) s t k h =
      gone-Follows n (peer_state x y) s _
        (on_command-Active n (has_ports s) (handle_peer_state_change x y) t k h)
  run_command-Follows n unknown s t k h = h

  obey_all-Follows :
      (n : ℕ) (l : List Command) (s : State) (t u : Thread C)
      → has_key n t.ports ≡ true
      → is_active n t.events ≡ has_ports s
      → obey_all l t ≡ some u
      → is_active n u.events ≡ has_ports (standing s l)
  unfolding obey_all standing
  obey_all-Follows n [] s t u k h e = ground arith
  obey_all-Follows n (c ∷ l) s t u k h e =
      one (run_command app c t) (run_command-Follows n c s t k h) (run_command_lem app c t) e
        (λ v k1 h1 e1. obey_all-Follows n l (told c s) v u k1 h1 e1)
    where
      one :
          (o : Option (Bool × Thread C))
          → Follows n c s o
          → CommandSame t o
          → ◌≡◌ {A = Option (Thread C)}
              (elim o [
                | none ↦ none
                | some (stop, v) ↦ elim stop [ true ↦ none | false ↦ obey_all l v ]
              ])
              (some u)
          → ((v : Thread C)
              → has_key n v.ports ≡ true
              → is_active n v.events ≡ has_ports (told c s)
              → obey_all l v ≡ some u
              → is_active n u.events ≡ has_ports (standing (told c s) l))
          → is_active n u.events ≡ has_ports (standing (told c s) l)
      one none f m e1 ih = cc
      one (some (true, v)) f m e1 ih = cc
      one (some (false, v)) f m e1 ih = ih v (m.names n ∙ k) f e1

  -- After any calls of a part that leave it in agreement with its thread (no `reactivate`, and no
  -- `setup` that fails), and once the thread has obeyed all that it was sent: each port of the
  -- component is active exactly when the part is Active or Passive.
  pub calls-ports :
      (name type_name : ℕ) (l : List Call) (t u : Thread C) (n : ℕ)
      → All (λ (c : Call). agrees c ≡ true) l
      → t.events ≡ []
      → has_key n t.ports ≡ true
      → obey_all (calls l (init name type_name)).sent t ≡ some u
      → is_active n u.events ≡ has_ports (calls l (init name type_name)).state
  unfolding init standing is_active has_ports
  calls-ports name type_name l t u n a e k o =
      let h = calls-IsTold l (init name type_name) a (ground arith) in
      obey_all-Follows n _ initial t u k (ground arith) o ∙ ap has_ports (sym h.state)
