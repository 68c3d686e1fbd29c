-- ===== src/Actor/Thread/Served.antt =====
-- What the commands and the handlers of src/riaps/run/comp.py leave alone when they are called.
use riaps_pycom.Prelude.{
  ℕ, ◌≡◌, ◌≢◌, subst, Bool, true, false, Option, none, some, ◌∷◌, has_key-none, lookup,
  Option-cases, inl, inr, arith,
}
use riaps_pycom.Actor.Port.{Port}
use riaps_pycom.Actor.Thread.{
  Thread, App, Command, Event, build, kill, activate, deactivate, passivate, port_update,
  group_update, limit_cpu, limit_mem, limit_spc, limit_net, nic_state, peer_state, unknown, emit,
  activate_port, deactivate_port, handle_activate, handle_deactivate, handle_passivate,
  handle_cpu_limit, handle_mem_limit, handle_spc_limit, handle_net_limit, handle_nic_state_change,
  handle_peer_state_change, handle_deadline, report_deadline, Handled,
}
use riaps_pycom.Actor.Thread.Handlers.{
  act, handle_port, handle_group, execute_handler_for, call_back, or_raise, after_port,
}
use riaps_pycom.Actor.Thread.Commands.{run_command, on_command, then_deactivate, go_on}
use riaps_pycom.Actor.Thread.Serving.{
  SameQueues, same, alike_queues, SameQueues-trans, AllSame, act_lem, each_port_lem, CommandSame,
  update_port_lem, updated_same, IsServable,
}

module _ {C : Type 0} (app : App C) where
  pub call_back_lem : (e : Event) (t : Thread C) → SameQueues t (call_back app e t).1
  unfolding call_back
  call_back_lem e t =
      let h = app.on_event e t.comp in
      ground (arith, act_lem h.actions (emit e (record t { comp = h.comp })))

  or_raise_same : (t : Thread C) (r : Bool × Thread C) → SameQueues t r.1 → AllSame t (or_raise r)
  or_raise_same t (true, u) h = h
  or_raise_same t (false, u) h = tt

  called_same :
      (e : Event) (t u : Thread C) → SameQueues t u → CommandSame t (go_on (on_command app e u))
  called_same e t u h =
      updated_same t _ (or_raise_same t _ (SameQueues-trans h (call_back_lem e u)))

  deactivated_same :
      (t : Thread C) (o : Option (Thread C)) → AllSame t o → AllSame t (then_deactivate app o)
  deactivated_same t none h = tt
  deactivated_same t (some u) h = SameQueues-trans h (each_port_lem deactivate_port u.ports u)

  pub run_command_lem : (c : Command) (t : Thread C) → CommandSame t (run_command app c t)
  unfolding run_command
  run_command_lem kill t = same t
  run_command_lem activate t =
      called_same handle_activate t _ (each_port_lem activate_port t.ports t)
  run_command_lem deactivate t =
      updated_same t _
        (deactivated_same t _ (or_raise_same t _ (call_back_lem handle_deactivate t)))
  run_command_lem passivate t = called_same handle_passivate t t (same t)
  run_command_lem (port_update name a) t = updated_same t _ (update_port_lem name a t)
  run_command_lem group_update t = same t
  run_command_lem limit_cpu t = called_same handle_cpu_limit t t (same t)
  run_command_lem limit_mem t = called_same handle_mem_limit t t (same t)
  run_command_lem limit_spc t = called_same handle_spc_limit t t (same t)
  run_command_lem limit_net t = called_same handle_net_limit t t (same t)
  run_command_lem (nic_state s) t = called_same (handle_nic_state_change s) t t (same t)
  run_command_lem (peer_state s u) t = called_same (handle_peer_state_change s u) t t (same t)
  run_command_lem build t = same t
  run_command_lem unknown t = same t

  after_port_lem :
      (name : ℕ) (p : Port) (h : Handled C) (r : Bool × Thread C)
      → SameQueues r.1 (after_port app name p h r)
  unfolding call_back
  after_port_lem name p h (acted, t) =
      ground (arith, call_back_lem (handle_deadline name) (emit report_deadline t))

  handle_port_lem : (name : ℕ) (p : Port) (t : Thread C) → SameQueues t (handle_port app name p t)
  unfolding handle_port
  handle_port_lem name p t = elim (Option-cases (app.on name)) [
    | inl e ↦ rw (e, handle_port) (ground arith)
    | inr (f, e) ↦
        let h = f t.comp in
        let t1 = record t { comp = h.comp } in
        rw (e, handle_port)
          (SameQueues-trans (SameQueues-trans (alike_queues t h.comp) (act_lem h.actions t1))
            (after_port_lem name p h (act h.actions t1)))
  ]

  handle_group_lem : (group : ℕ) (t : Thread C) → SameQueues t (handle_group app group t)
  unfolding handle_group
  handle_group_lem group t =
      let h = app.on_group group t.comp in
      ground (arith, act_lem h.actions (record t { comp = h.comp }))

  -- The thread after a socket was served.
  abbrev pub ServedSame : ℕ → Thread C → Option (Thread C) → Type 0
  ServedSame s t none = Unit
  ServedSame s t (some u) = SameQueues (record t { served = s ∷ t.served }) u

  pub execute_handler_for_lem :
      (s : ℕ) (t : Thread C) → ServedSame s t (execute_handler_for app s t)
  unfolding execute_handler_for
  execute_handler_for_lem s t =
      let t1 = record t { served = s ∷ t.served } in
      elim (Option-cases (lookup s t.sock2port)) [
        | inl e ↦ elim (Option-cases (lookup s t.sock2group)) [
          | inl f ↦ rw (e, f, execute_handler_for) (ground arith)
          | inr (g, f) ↦ rw (e, f, execute_handler_for) (handle_group_lem g t1)
        ]
        | inr (n, e) ↦ elim (Option-cases (lookup s t.sock2name)) [
          | inl f ↦ rw (e, f, execute_handler_for) tt
          | inr (m, f) ↦ elim (Option-cases (lookup m t.ports)) [
            | inl g ↦ rw (e, f, g, execute_handler_for) tt
            | inr (p, g) ↦ rw (e, f, g, execute_handler_for) (handle_port_lem m p t1)
          ]
        ]
      ]

  raises : (s : ℕ) (t : Thread C) → IsServable t s → execute_handler_for app s t ≢ none
  unfolding execute_handler_for
  raises s t (inl e) k = ground arith
  raises s t (inr (n, e, f)) k = ground (arith, has_key-none n t.ports)

  -- executeHandlerFor returns for such a socket.
  pub execute_handler_for-Returns :
      (s : ℕ) (t : Thread C)
      → IsServable t s
      → (u : Thread C) × (execute_handler_for app s t ≡ some u) × ServedSame s t (some u)
  execute_handler_for-Returns s t h = elim (Option-cases (execute_handler_for app s t)) [
    | inl e ↦ absurd (raises s t h e)
    | inr (u, e) ↦ (u, e, subst (ServedSame s t) e (execute_handler_for_lem s t))
  ]
