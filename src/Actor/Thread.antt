-- ===== src/Actor/Thread.antt =====
-- src/riaps/run/comp.py: the thread that runs a component (class ComponentThread). The component's
-- own code is a parameter: `C` is its data, and a handler says what a call of it did. Sockets,
-- ports, groups and texts are numbers; 0 is the name under which the control socket is kept.
pub mod Handlers
pub mod Poller
pub mod Commands
pub mod Serving
pub mod Served
pub mod Changes
pub mod Sound
pub mod Handling
pub mod Obedience
use riaps_pycom.Prelude.{
  ℕ, Bool, true, false, Option, none, some, List, [], ◌∷◌, ◌++◌, if◌then◌else◌, ◌==◌, ltb, Dict,
  lookup, insert, delete, has_key, contains, ◌&&◌,
}
use riaps_pycom.Actor.Port.{Port, Address, Called, done, operation_error, in_socket, update}

-- What the parent part sends over the control socket.
pub data Command : Type 0 where
  build kill activate deactivate passivate : Command
  port_update : (port_name : ℕ) → Address → Command
  group_update limit_cpu limit_mem limit_spc limit_net : Command
  nic_state : (state : ℕ) → Command
  peer_state : (state uuid : ℕ) → Command
  unknown : Command

-- What the thread does to the world: calls of the component's handlers, of its ports and groups,
-- and messages to the part. A handler of a port is called by `on_` and the port's name.
pub data Event : Type 0 where
  activate_port deactivate_port : (port_name : ℕ) → Event
  handle_activate handle_deactivate handle_passivate : Event
  handle_cpu_limit handle_mem_limit handle_spc_limit handle_net_limit : Event
  handle_nic_state_change : (state : ℕ) → Event
  handle_peer_state_change : (state uuid : ℕ) → Event
  group_told : (group_name : ℕ) → Address → Event
  handle_deadline : (port_name : ℕ) → Event
  report_deadline report_exception unbound_port : Event

-- What the code of the component may do to the thread's sockets while a handler runs.
pub data Action : Type 0 where
  join : (group_name group_socket priority : ℕ) → Action
  leave : (group_name group_socket : ℕ) → Action

-- A call of a handler: what became of the component, the groups it joined and left, the
-- milliseconds it took, and whether it returned.
pub record Handled (C : Type 0) : Type 0 where
  pub comp : C
  pub actions : List Action
  pub spent : ℕ
  pub returned : Bool

-- The component's code: the handlers that it has for its ports, and the group's.
pub record App (C : Type 0) : Type 0 where
  pub on : ℕ → Option (C → Handled C)
  pub on_group : ℕ → C → Handled C
  -- handleActivate and the others that the thread calls on a command, and handleDeadline
  pub on_event : Event → C → Handled C

-- An entry of the priority queue, and of the round-robin queue.
pub record Entry : Type 0 where
  pub pri : ℕ
  pub cnt : ℕ
  pub socket : ℕ

pub record Job : Type 0 where
  pub tag : ℕ
  pub socket : ℕ

pub record Thread (C : Type 0) : Type 0 where
  pub control : ℕ
  -- parent.ports
  pub ports : Dict Port
  -- the sockets that are polled for input
  pub poller : List ℕ
  pub sock2name : Dict ℕ
  -- the port object of a socket, by its name
  pub sock2port : Dict ℕ
  pub sock2group : Dict ℕ
  -- portName2GroupMap: the groups that have a socket, by their names
  pub name2group : Dict ℕ
  pub sock2prio : Dict ℕ
  pub pq : List Entry
  pub tc : ℕ
  -- the deque, the right end first
  pub dq : List Job
  -- none is -1
  pub last : Option ℕ
  pub to_stop : Bool
  pub comp : C
  -- the newest first
  pub events : List Event
  -- the sockets that executeHandlerFor was called with, the latest first
  pub served : List ℕ

-- poller.register(socket, POLLIN), and unregister
abbrev pub register : ℕ → List ℕ → List ℕ
register s [] = s ∷ []
register s (x ∷ l) = if x == s then x ∷ l else x ∷ register s l

abbrev pub unregister : ℕ → List ℕ → List ℕ
unregister s [] = []
unregister s (x ∷ l) = let rest = unregister s l in if x == s then rest else x ∷ rest

-- getIndex of an input port is a number.
abbrev pub index_of : Option ℕ → ℕ
index_of none = 0
index_of (some i) = i

-- `del d[k]`; none is a KeyError.
abbrev pub remove {ℓ} : {V : Type ℓ} → ℕ → Dict V → Option (Dict V)
remove k d = if has_key k d then some (delete k d) else none

module _ {C : Type 0} where
  abbrev pub emit : Event → Thread C → Thread C
  emit e t = record t { events = e ∷ t.events }

  -- The loop of setupPoller over the ports
  unfoldable pub poll_port : ℕ → Port → Thread C → Thread C
  unfolding in_socket
  poll_port name p t = elim p.socket [
    | none ↦ t
    | some s ↦
        (let t1 = record t { sock2port = insert s name t.sock2port } in
          if in_socket p.kind
          then record t1 {
            poller = register s t.poller;
            sock2name = insert s name t.sock2name;
            sock2prio = insert s (index_of p.index) t.sock2prio;
          }
          else t1)
  ]

  unfoldable pub poll_ports : Dict Port → Thread C → Thread C
  unfolding poll_port
  poll_ports [] t = t
  poll_ports ((name, p) ∷ l) t = poll_ports l (poll_port name p t)

  unfoldable pub setup_poller : Thread C → Thread C
  unfolding poll_ports
  setup_poller t = poll_ports t.ports (record t {
    poller = t.control ∷ [];
    sock2name = (t.control, 0) ∷ [];
    sock2port = [];
    sock2group = [];
    name2group = [];
    sock2prio = [];
  })

  -- replaceSocket, which the port calls with its old socket. An exception leaves nothing to go on
  -- with: `none`.
  unfoldable pub replace_socket : (name old new : ℕ) → Port → Thread C → Option (Thread C)
  unfolding in_socket
  replace_socket name old new p t = elim (remove old t.sock2port) [
    | none ↦ none
    | some ports ↦
        (if in_socket p.kind
          then elim (remove old t.sock2name) [
            | none ↦ none
            | some names ↦ elim (remove old t.sock2prio) [
              | none ↦ none
              | some prios ↦ some (record t {
                poller = register new (unregister old t.poller);
                sock2port = insert new name ports;
                sock2name = insert new name names;
                sock2prio = insert new (index_of p.index) prios;
              })
            ]
          ]
          else some (record t { sock2port = insert new name ports }))
  ]

  unfoldable pub add_group_socket : (group socket priority : ℕ) → Thread C → Thread C
  add_group_socket group socket priority t = record t {
    poller = register socket t.poller;
    sock2group = insert socket group t.sock2group;
    name2group = insert group socket t.name2group;
    sock2prio = insert socket priority t.sock2prio;
  }

  unfoldable pub del_group_socket : (group socket : ℕ) → Thread C → Option (Thread C)
  unfolding contains
  del_group_socket group socket t =
      if contains socket t.poller
      then elim (remove socket t.sock2group) [
        | none ↦ none
        | some groups ↦ elim (remove group t.name2group) [
          | none ↦ none
          | some names ↦ elim (remove socket t.sock2prio) [
            | none ↦ none
            | some prios ↦ some (record t {
              poller = unregister socket t.poller;
              sock2group = groups;
              name2group = names;
              sock2prio = prios;
            })
          ]
        ]
      ]
      else none
