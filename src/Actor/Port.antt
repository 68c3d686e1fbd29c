-- ===== src/Actor/Port.antt =====
-- src/riaps/run/port.py and the port classes beside it: sockets that bind and sockets that connect,
-- and the frames of a message. Hosts, names and message types are numbers; the addresses of a
-- socket are pairs of a host and a port number.
pub mod Connections
pub mod Frames
use riaps_pycom.Prelude.{
  ℕ, Bool, true, false, Option, none, some, List, [], ◌∷◌, if◌then◌else◌, ◌==◌, ◌&&◌,
}

pub data PortScope : Type 0 where
  global local internal : PortScope

-- The string `portKind` of a PortInfo: one for each port class.
pub data PortKind : Type 0 where
  pub_port sub_port clt_port srv_port req_port rep_port qry_port ans_port : PortKind
  tim_port ins_port : PortKind

-- A simplex port has the type of its message, a duplex port the two of its request and its reply;
-- timers have 'tick', and inside ports 'inside'.
pub data MsgType : Type 0 where
  simplex : (type : ℕ) → MsgType
  duplex : (req_type rep_type : ℕ) → MsgType
  tick inside : MsgType

-- No host is the empty text, and no port number is -1.
pub record PortInfo : Type 0 where
  pub port_kind : PortKind
  pub port_scope : PortScope
  pub port_name : ℕ
  pub msg_type : MsgType
  pub port_host : Option ℕ
  pub port_num : Option ℕ

abbrev pub Address : Type 0
Address = ℕ × ℕ

pub record Port : Type 0 where
  pub name : ℕ
  pub kind : PortKind
  pub index : Option ℕ
  -- milliseconds; 0 is no deadline
  pub deadline : ℕ
  pub scope : PortScope
  pub msg_type : MsgType
  pub is_timed : Bool
  pub socket : Option ℕ
  pub info : Option PortInfo
  pub servers : List Address
  -- what the port's socket is connected to, or bound to
  pub links : List Address
  pub bind_addr : Option Address
  pub send_time : ℕ
  pub recv_time : ℕ
  -- AnsPort.identity: the frame that names the client of the latest message
  pub identity : Option (List ℕ)

-- What a call of a port ends in.
pub data Called : Type 0 where
  done : Port → Called
  operation_error : Called

-- The ports that connect to the providers of a service.
unfoldable pub connects : PortKind → Bool
connects sub_port = true
connects clt_port = true
connects req_port = true
connects qry_port = true
connects _ = false

-- A publisher does not receive, and a client receives only when it asks to.
unfoldable pub in_socket : PortKind → Bool
in_socket pub_port = false
in_socket clt_port = false
in_socket _ = true

-- The addresses of the interfaces: Actor.localHost and Actor.globalHost
pub record Ifaces : Type 0 where
  pub local_host : ℕ
  pub global_host : ℕ

unfoldable pub host_of : PortScope → Ifaces → ℕ
host_of global i = i.global_host
host_of local i = i.local_host
host_of internal i = i.local_host

-- DuplexPort.__init__: the two messages have the same scope.
abbrev same_scope : PortScope → PortScope → Bool
same_scope global global = true
same_scope local local = true
same_scope internal internal = true
same_scope _ _ = false

unfoldable pub duplex_scope : (req_scope rep_scope : PortScope) → Option PortScope
duplex_scope q r = if same_scope q r then some q else none

-- setupBindSocket; `socket` is the new socket, and `number` the port that it was bound to.
unfoldable pub setup_bind_socket : Ifaces → (socket number : ℕ) → Port → Port
unfolding host_of
setup_bind_socket i socket number p =
    let host = host_of p.scope i in
    record p {
      socket = some socket;
      bind_addr = some (host, number);
      links = (host, number) ∷ [];
      info = some (record {
        port_kind = p.kind;
        port_scope = p.scope;
        port_name = p.name;
        msg_type = p.msg_type;
        port_host = some host;
        port_num = some number;
      });
    }

unfoldable pub setup_conn_socket : Ifaces → (socket : ℕ) → Port → Port
unfolding host_of
setup_conn_socket i socket p = record p {
  socket = some socket;
  links = [];
  info = some (record {
    port_kind = p.kind;
    port_scope = p.scope;
    port_name = p.name;
    msg_type = p.msg_type;
    port_host = some (host_of p.scope i);
    port_num = none;
  });
}

-- setupSocket of TimPort and InsPort
unfoldable pub setup_inner_socket : MsgType → (socket : ℕ) → Port → Port
setup_inner_socket m socket p = record p {
  socket = some socket;
  info = some (record {
    port_kind = p.kind;
    port_scope = internal;
    port_name = p.name;
    msg_type = m;
    port_host = none;
    port_num = none;
  });
}

-- setupSocket of each port class
unfoldable pub setup_socket : Ifaces → (socket number : ℕ) → Port → Port
unfolding setup_bind_socket setup_conn_socket setup_inner_socket
setup_socket i socket number p = elim p.kind [
  | pub_port ↦ setup_bind_socket i socket number p
  | srv_port ↦ setup_bind_socket i socket number p
  | rep_port ↦ setup_bind_socket i socket number p
  | ans_port ↦ setup_bind_socket i socket number p
  | sub_port ↦ setup_conn_socket i socket p
  | clt_port ↦ setup_conn_socket i socket p
  | req_port ↦ setup_conn_socket i socket p
  | qry_port ↦ setup_conn_socket i socket p
  | tim_port ↦ setup_inner_socket tick socket p
  | ins_port ↦ setup_inner_socket inside socket p
]

unfoldable pub has_address : Address → List Address → Bool
has_address a [] = false
has_address (h, n) ((k, m) ∷ l) =
    let rest = has_address (h, n) l in if (k == h) && (m == n) then true else rest

-- ConnPort.update; the classes that bind, and Port itself, raise an error.
unfoldable pub update : Address → Port → Called
unfolding connects has_address
update a p =
    if connects p.kind
    then if has_address a p.servers
      then done p
      else done (record p { servers = a ∷ p.servers; links = a ∷ p.links })
    else operation_error

-- The socket is connected to each server of the set.
unfoldable pub connect_all : List Address → List Address → List Address
connect_all [] links = links
connect_all (a ∷ l) links = connect_all l (a ∷ links)

-- resetConnSocket without `replaceSocket`, which is the component thread's; the other classes keep
-- their socket.
unfoldable pub reset : (new_socket : ℕ) → Port → Port
unfolding connects connect_all
reset new_socket p =
    if connects p.kind
    then record p { socket = some new_socket; links = connect_all p.servers [] }
    else p

unfoldable pub close_bind_socket : Port → Port
close_bind_socket p = elim p.socket [
  | none ↦ p
  | some s ↦ record p { socket = none; bind_addr = none; links = [] }
]

-- The set of servers is emptied in the loop over it.
unfoldable pub close_conn_socket : Port → Port
close_conn_socket p = elim p.socket [
  | none ↦ p
  | some s ↦ record p { socket = none; servers = []; links = [] }
]
