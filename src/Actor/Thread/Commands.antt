-- ===== src/Actor/Thread/Commands.antt =====
-- src/riaps/run/comp.py: the commands of the part, and the set-up of the sockets.
use riaps_pycom.Prelude.{
  ℕ, ◌+◌, Bool, true, false, Option, none, some, List, [], ◌∷◌, ◌++◌, if◌then◌else◌, Dict, lookup,
  insert, has_key,
}
use riaps_pycom.Actor.Port.{
  Port, PortKind, PortInfo, Ifaces, Address, done, operation_error, update, setup_socket, tim_port,
  ins_port,
}
use riaps_pycom.Actor.Thread.Handlers.{call_back, or_raise}
use riaps_pycom.Actor.Thread.{
  Thread, App, Command, build, kill, activate, deactivate, passivate, port_update, group_update,
  limit_cpu, limit_mem, limit_spc, limit_net, nic_state, peer_state, unknown, Event, emit,
  activate_port, deactivate_port, handle_activate, handle_deactivate, handle_passivate,
  handle_cpu_limit, handle_mem_limit, handle_spc_limit, handle_net_limit, handle_nic_state_change,
  handle_peer_state_change, group_told,
}

module _ {C : Type 0} where
  -- One event for each port, in the order of the ports
  unfoldable pub each_port : (ℕ → Event) → Dict Port → Thread C → Thread C
  each_port f [] t = t
  each_port f ((name, p) ∷ l) t = each_port f l (emit (f name) t)

  -- The branch of "portUpdate". The groups are looked at after the ports; a name that is neither
  -- is ignored.
  unfoldable pub update_port : (name : ℕ) → Address → Thread C → Option (Thread C)
  update_port name a t = elim (lookup name t.ports) [
    | some p ↦ elim (update a p) [
      | done q ↦ some (record t { ports = insert name q t.ports })
      | operation_error ↦ none
    ]
    | none ↦ some (if has_key name t.name2group then emit (group_told name a) t else t)
  ]

  abbrev pub go_on : Option (Thread C) → Option (Bool × Thread C)
  go_on none = none
  go_on (some t) = some (false, t)

module _ {C : Type 0} (app : App C) where
  -- The handlers of the component are called outside of any `try`.
  abbrev pub on_command : Event → Thread C → Option (Thread C)
  on_command e t = or_raise (call_back app e t)

  abbrev pub then_deactivate : Option (Thread C) → Option (Thread C)
  then_deactivate none = none
  then_deactivate (some t) = some (each_port deactivate_port t.ports t)

  -- runCommand: whether to stop, and the thread. `none` is an exception.
  unfoldable pub run_command : Command → Thread C → Option (Bool × Thread C)
  unfolding call_back each_port update_port
  run_command kill t = some (true, t)
  run_command activate t = go_on (on_command handle_activate (each_port activate_port t.ports t))
  run_command deactivate t = go_on (then_deactivate (on_command handle_deactivate t))
  run_command passivate t = go_on (on_command handle_passivate t)
  run_command (port_update name a) t = go_on (update_port name a t)
  run_command group_update t = some (false, t)
  run_command limit_cpu t = go_on (on_command handle_cpu_limit t)
  run_command limit_mem t = go_on (on_command handle_mem_limit t)
  run_command limit_spc t = go_on (on_command handle_spc_limit t)
  run_command limit_net t = go_on (on_command handle_net_limit t)
  run_command (nic_state s) t = go_on (on_command (handle_nic_state_change s) t)
  run_command (peer_state s u) t = go_on (on_command (handle_peer_state_change s u) t)
  run_command build t = some (false, t)
  run_command unknown t = some (false, t)

-- What the part receives while the thread sets its sockets up. `report` is any other message.
pub data Response : Type 0 where
  info : PortInfo → Response
  done_building report : Response

-- Whether the information on a port of a kind is sent to the part. A kind that is none of those of
-- the port classes would be an error.
unfoldable pub is_sent : PortKind → Bool
is_sent tim_port = false
is_sent ins_port = false
is_sent _ = true

-- The sockets and the port numbers that zmq hands out.
pub record Supply : Type 0 where
  pub next_socket : ℕ
  pub next_number : ℕ

abbrev pub drawn : Supply → Supply
drawn s = record { next_socket = s.next_socket + 1; next_number = s.next_number + 1 }

-- The loop of setupSockets: the ports with their sockets, and what was sent to the part
pub record Built : Type 0 where
  pub ports : Dict Port
  pub sent : List Response

-- What is sent of the information that setupSocket returned
abbrev pub info_of : Option PortInfo → List Response
info_of none = []
info_of (some i) = if is_sent i.port_kind then info i ∷ [] else []

unfoldable pub setup_sockets : Ifaces → Supply → Dict Port → Built
unfolding is_sent
setup_sockets i s [] = record { ports = []; sent = done_building ∷ [] }
setup_sockets i s ((name, p) ∷ l) =
    let q = setup_socket i s.next_socket s.next_number p in
    let rest = setup_sockets i (drawn s) l in
    record { ports = (name, q) ∷ rest.ports; sent = info_of q.info ++ rest.sent }
