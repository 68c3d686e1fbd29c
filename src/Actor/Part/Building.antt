-- ===== src/Actor/Part/Building.antt =====
-- The set-up of a part of src/riaps/run/part.py together with that of its thread, setupSockets of
-- src/riaps/run/comp.py.
use riaps_pycom.Prelude.{
  ℕ, ◌+◌, ◌≡◌, refl, sym, ◌∙◌, true, Option, none, some, List, [], ◌∷◌, ◌++◌, map, Dict, append-nil,
  append_assoc, arith,
}
use riaps_pycom.Actor.Port.{
  Port, PortKind, PortScope, PortInfo, Ifaces, setup_socket, global, local, internal, pub_port,
  sub_port, clt_port, srv_port, req_port, rep_port, qry_port, ans_port, tim_port, ins_port,
}
use riaps_pycom.Actor.Thread.Commands.{Response, Supply, drawn, setup_sockets, info_of, is_sent}
use riaps_pycom.Actor.Thread.{build}
use riaps_pycom.Actor.Part.{
  ready, Part, ok, init, setup, wait_for, all_done, accepted, send_control, register_all,
  register_endpoint,
}

-- How a port is found by others: it waits at an address of its own, it connects to such an address,
-- or it is not found.
pub data Reach : Type 0 where
  at_address connecting unreachable : Reach

unfoldable pub reach : PortKind → Reach
reach pub_port = at_address
reach srv_port = at_address
reach rep_port = at_address
reach ans_port = at_address
reach sub_port = connecting
reach clt_port = connecting
reach req_port = connecting
reach qry_port = connecting
reach tim_port = unreachable
reach ins_port = unreachable

-- Only a port of global scope is told with the host's address in the network.
unfoldable pub told_host : Ifaces → PortScope → ℕ
told_host i global = i.global_host
told_host i local = i.local_host
told_host i internal = i.local_host

abbrev told_info : (host : ℕ) (number : Option ℕ) → Port → PortInfo
told_info host number p = record {
  port_kind = p.kind;
  port_scope = p.scope;
  port_name = p.name;
  msg_type = p.msg_type;
  port_host = some host;
  port_num = number;
}

abbrev told_port : Ifaces → (number : ℕ) → Port → List PortInfo
told_port i number p = elim (reach p.kind) [
  | at_address ↦ told_info (told_host i p.scope) (some number) p ∷ []
  | connecting ↦ told_info (told_host i p.scope) none p ∷ []
  | unreachable ↦ []
]

-- What the actor is to be told of the ports of a component, in their order; zmq hands out one port
-- number after the other.
unfoldable pub told_ports : Ifaces → (number : ℕ) → Dict Port → List PortInfo
unfolding told_host reach
told_ports i number [] = []
told_ports i number ((name, p) ∷ l) = told_port i number p ++ told_ports i (number + 1) l

wait_for-info_of :
    (i : Ifaces) (s n : ℕ) (p : Port) (l : List Response) (r : List PortInfo)
    → wait_for l ≡ all_done r
    → wait_for (info_of (setup_socket i s n p).info ++ l) ≡ all_done (told_port i n p ++ r)
unfolding wait_for setup_socket reach told_host is_sent accepted
wait_for-info_of i s n p l r h = ground arith

wait_for-setup_sockets :
    (i : Ifaces) (s : Supply) (d : Dict Port)
    → wait_for (setup_sockets i s d).sent ≡ all_done (told_ports i s.next_number d)
unfolding setup_sockets told_ports
wait_for-setup_sockets i s [] = unfold wait_for in refl
wait_for-setup_sockets i s ((name, p) ∷ l) =
    wait_for-info_of i s.next_socket s.next_number p _ _ (wait_for-setup_sockets i (drawn s) l)

registered-register_all :
    (l : List PortInfo) (p : Part)
    → (register_all l p).registered
      ≡ p.registered ++ map (λ (i : PortInfo). (p.name, p.type_name, i)) l
unfolding register_all
registered-register_all [] p = sym (append-nil p.registered)
registered-register_all (j ∷ l) p =
    registered-register_all l (register_endpoint j p)
    ∙ append_assoc p.registered ((p.name, p.type_name, j) ∷ [])
        (map (λ (i : PortInfo). (p.name, p.type_name, i)) l)

sent-register_all : (l : List PortInfo) (p : Part) → (register_all l p).sent ≡ p.sent
unfolding register_all
sent-register_all [] p = refl
sent-register_all (j ∷ l) p = sent-register_all l (register_endpoint j p)

-- The set-up of a new part with the answers of the thread that it starts comes to its end: the part
-- becomes Ready, has told the thread to build, and has registered exactly the ports of its
-- component that are neither timers nor inside ports, in their order. A port that binds is
-- registered with the host of its scope and the number it was bound to, one that connects with the
-- host alone.
pub setup-setup_sockets :
    (i : Ifaces) (s : Supply) (d : Dict Port) (name type_name : ℕ)
    → (p : Part) × (setup (setup_sockets i s d).sent (init name type_name) ≡ ok p)
      × (p.state ≡ ready)
      × (p.sent ≡ build ∷ [])
      × (p.registered ≡ map (λ (j : PortInfo). (name, type_name, j)) (told_ports i s.next_number d))
unfolding setup init send_control
setup-setup_sockets i s d name type_name =
    let p = send_control build (record (init name type_name) { control = true }) in
    let l = told_ports i s.next_number d in
    (
      record (register_all l p) { state = ready },
      rw (wait_for-setup_sockets i s d) refl,
      refl,
      sent-register_all l p,
      registered-register_all l p,
    )
