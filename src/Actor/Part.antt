-- ===== src/Actor/Part.antt =====
-- src/riaps/run/part.py: a part, which manages the thread of one component. The thread's answers
-- while the part is set up are an explicit list. What the part sends and what it registers with its
-- actor are kept in the order in which it happened.
pub mod Lifecycle
pub mod Told
pub mod Building
pub mod Ports
pub mod Activity
use riaps_pycom.Prelude.{
  ℕ, Bool, true, false, Option, none, some, List, [], ◌∷◌, ◌++◌, if◌then◌else◌,
}
use riaps_pycom.Actor.Port.{
  Port, PortKind, PortInfo, pub_port, sub_port, clt_port, srv_port, req_port, rep_port, qry_port,
  ans_port, tim_port, ins_port,
}
use riaps_pycom.Actor.Thread.{
  Command, build, kill, activate, deactivate, passivate, port_update, limit_cpu, limit_mem,
  limit_spc, limit_net, nic_state, peer_state,
}
use riaps_pycom.Actor.Thread.Commands.{Response, info, done_building, report}

-- Part.State
pub data State : Type 0 where
  starting initial ready active checkpointing inactive passive destroyed : State

pub record Part : Type 0 where
  pub name : ℕ
  pub type_name : ℕ
  pub state : State
  -- whether it has its control socket
  pub control : Bool
  pub sent : List Command
  -- the calls of registerEndpoint, with the names of the part and its type
  pub registered : List (ℕ × ℕ × PortInfo)

pub data Exception : Type 0 where
  state_error build_error attribute_error : Exception

-- How a method ends; `blocked` waits for an answer that does not come.
pub data Result : Type 0 where
  ok : Part → Result
  raised : Exception → Part → Result
  blocked : Part → Result

abbrev pub after : Result → Part
after (ok p) = p
after (raised e p) = p
after (blocked p) = p

-- Part.__init__
unfoldable pub init : (name type_name : ℕ) → Part
init name type_name = record {
  name = name;
  type_name = type_name;
  state = initial;
  control = false;
  sent = [];
  registered = [];
}

-- sendControl: without a control socket nothing is sent.
unfoldable pub send_control : Command → Part → Part
send_control c p = if p.control then record p { sent = p.sent ++ c ∷ [] } else p

-- The kinds that setup accepts in an answer
unfoldable pub accepted : PortKind → Bool
accepted tim_port = false
accepted ins_port = false
accepted _ = true

-- The loop over the answers of the thread: the queue, an exception, or no end.
pub data Waited : Type 0 where
  all_done : List PortInfo → Waited
  invalid waits : Waited

abbrev before_all : PortInfo → Waited → Waited
before_all i (all_done l) = all_done (i ∷ l)
before_all i invalid = invalid
before_all i waits = waits

unfoldable pub wait_for : List Response → Waited
unfolding accepted
wait_for [] = waits
wait_for (done_building ∷ l) = all_done []
wait_for (report ∷ l) = invalid
wait_for (info i ∷ l) =
    let rest = wait_for l in if accepted i.port_kind then before_all i rest else invalid

unfoldable pub register_endpoint : PortInfo → Part → Part
register_endpoint i p = record p { registered = p.registered ++ (p.name, p.type_name, i) ∷ [] }

unfoldable pub register_all : List PortInfo → Part → Part
unfolding register_endpoint
register_all [] p = p
register_all (i ∷ l) p = register_all l (register_endpoint i p)

abbrev pub finish_setup : Waited → Part → Result
finish_setup (all_done l) p = ok (record (register_all l p) { state = ready })
finish_setup invalid p = raised build_error p
finish_setup waits p = blocked p

-- setup; the answers are those of the thread that it starts.
unfoldable pub setup : List Response → Part → Result
unfolding send_control wait_for register_all
setup answers p = elim p.state [
  | initial ↦ finish_setup (wait_for answers) (send_control build (record p { control = true }))
  | _ ↦ raised state_error p
]

unfoldable pub activate_part : Part → Result
unfolding send_control
activate_part p = elim p.state [
  | ready ↦ ok (record (send_control activate p) { state = active })
  | passive ↦ ok (record (send_control activate p) { state = active })
  | inactive ↦ ok (record (send_control activate p) { state = active })
  | _ ↦ raised state_error p
]

unfoldable pub deactivate_part : Part → Result
unfolding send_control
deactivate_part p = elim p.state [
  | active ↦ ok (record (send_control deactivate p) { state = inactive })
  | _ ↦ raised state_error p
]

unfoldable pub passivate_part : Part → Result
unfolding send_control
passivate_part p = elim p.state [
  | active ↦ ok (record (send_control passivate p) { state = passive })
  | _ ↦ raised state_error p
]

-- Nothing is sent to the thread.
unfoldable pub reactivate : Part → Result
reactivate p = elim p.state [ ready ↦ ok (record p { state = active }) | _ ↦ raised state_error p ]

unfoldable pub checkpoint : Part → Result
checkpoint p = elim p.state [ active ↦ ok p | _ ↦ raised state_error p ]

unfoldable pub destroy : Part → Result
destroy p = elim p.state [ destroyed ↦ raised state_error p | _ ↦ ok p ]

-- handlePortUpdate sends on the control socket without asking whether there is one.
unfoldable pub handle_port_update : (port_name : ℕ) → ℕ × ℕ → Part → Result
handle_port_update port_name a p =
    if p.control
    then ok (record p { sent = p.sent ++ port_update port_name a ∷ [] })
    else raised attribute_error p

-- The kinds that handleReinstate registers again
unfoldable pub provides : PortKind → Bool
provides pub_port = true
provides srv_port = true
provides rep_port = true
provides ans_port = true
provides _ = false

-- handleReinstate over what `getInfo` of each port says. A port has no information before its
-- socket is set up.
unfoldable pub handle_reinstate : List (Option PortInfo) → Part → Result
unfolding provides register_endpoint
handle_reinstate [] p = ok p
handle_reinstate (none ∷ l) p = raised attribute_error p
handle_reinstate (some i ∷ l) p =
    handle_reinstate l (if provides i.port_kind then register_endpoint i p else p)

-- The methods of a part that its actor calls.
pub data Call : Type 0 where
  set_up : List Response → Call
  activated deactivated passivated reactivated checkpointed destroyed_ : Call
  port_updated : (port_name : ℕ) → ℕ × ℕ → Call
  reinstated : List (Option PortInfo) → Call
  cpu_limit mem_limit spc_limit net_limit terminated : Call
  nic_changed : (state : ℕ) → Call
  peer_changed : (state uuid : ℕ) → Call

-- The calls from `cpu_limit` on relay a message to the thread; `terminate` tells it to end, and waits for that.
unfoldable pub call : Call → Part → Result
unfolding setup activate_part deactivate_part passivate_part reactivate checkpoint destroy
    handle_port_update handle_reinstate send_control
call (set_up answers) p = setup answers p
call activated p = activate_part p
call deactivated p = deactivate_part p
call passivated p = passivate_part p
call reactivated p = reactivate p
call checkpointed p = checkpoint p
call destroyed_ p = destroy p
call (port_updated n a) p = handle_port_update n a p
call (reinstated l) p = handle_reinstate l p
call cpu_limit p = ok (send_control limit_cpu p)
call mem_limit p = ok (send_control limit_mem p)
call spc_limit p = ok (send_control limit_spc p)
call net_limit p = ok (send_control limit_net p)
call (nic_changed s) p = ok (send_control (nic_state s) p)
call (peer_changed s u) p = ok (send_control (peer_state s u) p)
call terminated p = ok (send_control kill p)

-- A caller that goes on after an exception.
unfoldable pub calls : List Call → Part → Part
unfolding call
calls [] p = p
calls (c ∷ l) p = calls l (after (call c p))
