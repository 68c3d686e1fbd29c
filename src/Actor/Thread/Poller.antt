-- ===== src/Actor/Thread/Poller.antt =====
-- The poller of src/riaps/run/comp.py and the maps that go with it.
use riaps_pycom.Prelude.{
  ℕ, ◌≡◌, refl, sym, subst, Bool, true, false, not, ◌&&◌, ◌||◌, none, some, List, [], ◌∷◌, inl, inr,
  Bool-cases, Option-cases, if◌then◌else◌, ◌==◌, Dict, insert, delete, has_key, contains,
  has_key-insert, has_key-delete, arith,
}
use riaps_pycom.Actor.Port.{Port, in_socket}
use riaps_pycom.Actor.Thread.{
  Thread, register, unregister, index_of, poll_port, poll_ports, setup_poller, replace_socket,
  add_group_socket, del_group_socket,
}

contains-register :
    (k s : ℕ) (l : List ℕ) → contains s (register k l) ≡ (if k == s then true else contains s l)
unfolding contains
contains-register k s [] = refl
contains-register k s (x ∷ l) = ground (arith, contains-register k s l)

contains-unregister :
    (k s : ℕ) (l : List ℕ) → contains s (unregister k l) ≡ (if k == s then false else contains s l)
unfolding contains
contains-unregister k s [] = ground arith
contains-unregister k s (x ∷ l) = ground (arith, contains-unregister k s l)

abbrev both : Bool → Bool → Bool
both true b = b
both false b = not b

-- What the poller and the maps say of one socket. The control socket has a name only; any other is
-- polled exactly if it has a priority, and that is if it is the input socket of a port or the
-- socket of a group. The socket of an input port has its port, and no socket is a port's and a
-- group's.
abbrev fits : (is_control polled named ported grouped prioritised : Bool) → Bool
fits true p n o g r = p && n && not o && not g && not r
fits false p n o g r =
    both p r && both r (n || g) && (if n then o else true) && (if g then not o else true)

abbrev pub wired_at : {C : Type 0} → ℕ → Thread C → Bool
wired_at s t =
    fits (t.control == s) (contains s t.poller) (has_key s t.sock2name) (has_key s t.sock2port)
      (has_key s t.sock2group) (has_key s t.sock2prio)

abbrev pub IsWired : {C : Type 0} → Thread C → Type 0
IsWired t = (s : ℕ) → wired_at s t ≡ true

-- The sockets of a component's ports differ from each other and from those in use.
unfoldable pub are_apart : Dict Port → (used : List ℕ) → Bool
are_apart [] used = true
are_apart ((name, p) ∷ l) used = elim p.socket [
  | none ↦ are_apart l used
  | some s ↦ elim (contains s used) [ true ↦ false | false ↦ are_apart l (s ∷ used) ]
]

-- The sockets that the maps know stand in the list of those in use.
record IsUsed {C : Type 0} (used : List ℕ) (t : Thread C) : Type 0 where
  control : contains t.control used ≡ true
  ports : (s : ℕ) → has_key s t.sock2port ≡ true → contains s used ≡ true
  no_groups : (s : ℕ) → has_key s t.sock2group ≡ false

module _ {C : Type 0} where
  pub add_group_socket-IsWired :
      (group socket priority : ℕ) (t : Thread C)
      → (t.control == socket) ≡ false
      → has_key socket t.sock2port ≡ false
      → IsWired t
      → IsWired (add_group_socket group socket priority t)
  unfolding add_group_socket
  add_group_socket-IsWired group socket priority t c f w s = ground (
    arith,
    w s,
    contains-register socket s t.poller,
    has_key-insert socket s group t.sock2group,
    has_key-insert socket s priority t.sock2prio,
  )

  pub del_group_socket-IsWired :
      (group socket : ℕ) (t u : Thread C)
      → del_group_socket group socket t ≡ some u
      → IsWired t
      → IsWired u
  unfolding del_group_socket
  del_group_socket-IsWired group socket t u e w s = ground (
    arith,
    w s,
    contains-unregister socket s t.poller,
    has_key-delete socket s t.sock2group,
    has_key-delete socket s t.sock2prio,
  )

  poll_port-IsWired :
      (name k : ℕ) (p : Port) (t : Thread C)
      → p.socket ≡ some k
      → (t.control == k) ≡ false
      → has_key k t.sock2port ≡ false
      → has_key k t.sock2group ≡ false
      → IsWired t
      → IsWired (poll_port name p t)
  unfolding poll_port
  poll_port-IsWired name k p t e c f g w s = ground (
    arith,
    w s,
    w k,
    contains-register k s t.poller,
    has_key-insert k s name t.sock2name,
    has_key-insert k s name t.sock2port,
    has_key-insert k s (index_of p.index) t.sock2prio,
  )

  fresh_port :
      (k : ℕ) (used : List ℕ) (t : Thread C)
      → IsUsed used t
      → contains k used ≡ false
      → ((t.control == k) ≡ false) × (has_key k t.sock2port ≡ false)
  fresh_port k used t u f = (ground (arith, u.control), ground (arith, u.ports k))

  poll_port-IsUsed :
      (name k : ℕ) (p : Port) (used : List ℕ) (t : Thread C)
      → p.socket ≡ some k
      → IsUsed used t
      → IsUsed (k ∷ used) (poll_port name p t)
  unfolding poll_port contains
  poll_port-IsUsed name k p used t e u = record {
    control = ground (arith, u.control);
    ports = λ s h. ground (arith, u.ports s, has_key-insert k s name t.sock2port);
    no_groups = λ s. ground (arith, u.no_groups s);
  }

  no_socket : (name : ℕ) (p : Port) (t : Thread C) → p.socket ≡ none → poll_port name p t ≡ t
  unfolding poll_port
  no_socket name p t e = ground arith

  poll_ports-IsWired :
      (l : Dict Port) (used : List ℕ) (t : Thread C)
      → are_apart l used ≡ true
      → IsUsed used t
      → IsWired t
      → IsWired (poll_ports l t)
  unfolding poll_ports are_apart
  poll_ports-IsWired [] used t a u w = w
  poll_ports-IsWired ((name, p) ∷ l) used t a u w = elim (Option-cases p.socket) [
    | inl e ↦
        let b : are_apart l used ≡ true = ground arith in
        subst (λ (v : Thread C). IsWired (poll_ports l v)) (sym (no_socket name p t e))
          (poll_ports-IsWired l used t b u w)
    | inr (k, e) ↦
        let f : contains k used ≡ false = ground arith in
        let b : are_apart l (k ∷ used) ≡ true = ground arith in
        let (c, g) = fresh_port k used t u f in
        poll_ports-IsWired l (k ∷ used) (poll_port name p t) b
          (poll_port-IsUsed name k p used t e u)
          (poll_port-IsWired name k p t e c g (u.no_groups k) w)
  ]

  -- After setupPoller the maps agree with each other and with the poller, if the sockets of the
  -- ports differ from each other and from the control socket.
  pub setup_poller-IsWired :
      (t : Thread C) → are_apart t.ports (t.control ∷ []) ≡ true → IsWired (setup_poller t)
  unfolding setup_poller contains has_key
  setup_poller-IsWired t a =
      poll_ports-IsWired t.ports (t.control ∷ []) _ a
        (record { control = ground arith; ports = λ s h. cc; no_groups = λ s. refl })
        (λ s. ground arith)

  -- The thread after the replacement of a socket, for a port with input and for one without
  abbrev replaced_in : (name old new : ℕ) → Port → Thread C → Thread C
  replaced_in name old new p t = record t {
    poller = register new (unregister old t.poller);
    sock2port = insert new name (delete old t.sock2port);
    sock2name = insert new name (delete old t.sock2name);
    sock2prio = insert new (index_of p.index) (delete old t.sock2prio);
  }

  abbrev replaced_out : (name old new : ℕ) → Thread C → Thread C
  replaced_out name old new t = record t { sock2port = insert new name (delete old t.sock2port) }

  module _ (name old new : ℕ) (p : Port) (t : Thread C) (known : has_key old t.sock2port ≡ true)
      (input : in_socket p.kind ≡ has_key old t.sock2name) (wired : IsWired t) where
    replaced_in_lem :
        in_socket p.kind ≡ true
        → replace_socket name old new p t ≡ some (replaced_in name old new p t)
    unfolding replace_socket
    replaced_in_lem e = ground (arith, wired old)

    replaced_out_lem :
        in_socket p.kind ≡ false
        → replace_socket name old new p t ≡ some (replaced_out name old new t)
    unfolding replace_socket
    replaced_out_lem e = ground arith

    module _ (other : (t.control == new) ≡ false) (fresh : has_key new t.sock2port ≡ false)
        (no_group : has_key new t.sock2group ≡ false) where
      replaced_in-IsWired : in_socket p.kind ≡ true → IsWired (replaced_in name old new p t)
      replaced_in-IsWired e s = ground (
        arith,
        wired s,
        wired old,
        wired new,
        contains-register new s (unregister old t.poller),
        contains-unregister old s t.poller,
        has_key-insert new s name (delete old t.sock2port),
        has_key-delete old s t.sock2port,
        has_key-insert new s name (delete old t.sock2name),
        has_key-delete old s t.sock2name,
        has_key-insert new s (index_of p.index) (delete old t.sock2prio),
        has_key-delete old s t.sock2prio,
      )

      replaced_out-IsWired : in_socket p.kind ≡ false → IsWired (replaced_out name old new t)
      replaced_out-IsWired e s = ground (
        arith,
        wired s,
        wired old,
        wired new,
        has_key-insert new s name (delete old t.sock2port),
        has_key-delete old s t.sock2port,
      )

      pub replace_socket-IsWired :
          (u : Thread C) × (replace_socket name old new p t ≡ some u) × IsWired u
      replace_socket-IsWired = elim (Bool-cases (in_socket p.kind)) [
        | inl e ↦ (replaced_in name old new p t, replaced_in_lem e, replaced_in-IsWired e)
        | inr e ↦ (replaced_out name old new t, replaced_out_lem e, replaced_out-IsWired e)
      ]
