-- ===== src/Actor/Thread/Serving.antt =====
-- What the handlers and the commands of src/riaps/run/comp.py leave alone: the schedulers' queues.
use riaps_pycom.Prelude.{
  ℕ, ◌≡◌, ◌∙◌, refl, subst, Bool, true, Option, none, some, List, [], ◌∷◌, Dict, has_key, insert,
  has_key-insert, lookup-insert, has_key-lookup, lookup, ◌⊎◌, Option-cases, inl, inr, arith,
}
use riaps_pycom.Actor.Port.{Port, PortKind, Address, Called, done, operation_error, update}
use riaps_pycom.Actor.Thread.{
  Thread, Action, Event, join, leave, emit, del_group_socket, add_group_socket,
}
use riaps_pycom.Actor.Thread.Handlers.{act}
use riaps_pycom.Actor.Thread.Commands.{each_port, update_port, go_on}

-- The kind of the port of a name
abbrev kind_of : Option Port → Option PortKind
kind_of none = none
kind_of (some p) = some p.kind

abbrev pub kind_at : ℕ → Dict Port → Option PortKind
kind_at n d = kind_of (lookup n d)

-- The second thread has the queues of the first, has served the same, and its ports have the same
-- names and sockets.
pub record SameQueues {C : Type 0} (t u : Thread C) : Type 0 where
  pub pq : u.pq ≡ t.pq
  pub tc : u.tc ≡ t.tc
  pub dq : u.dq ≡ t.dq
  pub last : u.last ≡ t.last
  pub to_stop : u.to_stop ≡ t.to_stop
  pub served : u.served ≡ t.served
  pub sock2port : u.sock2port ≡ t.sock2port
  pub sock2name : u.sock2name ≡ t.sock2name
  pub names : (n : ℕ) → has_key n u.ports ≡ has_key n t.ports
  pub kinds : (n : ℕ) → kind_at n u.ports ≡ kind_at n t.ports

abbrev SameKeys : Dict Port → Dict Port → Type 0
SameKeys d e = (n : ℕ) → has_key n d ≡ has_key n e

SameKeys-insert :
    (name : ℕ) (p q : Port) (d : Dict Port) → lookup name d ≡ some p → SameKeys (insert name q d) d
SameKeys-insert name p q d h n = ground (arith, has_key-insert name n q d, has_key-lookup name p d)

same_kinds-insert :
    (name : ℕ) (p q : Port) (d : Dict Port)
    → lookup name d ≡ some p
    → q.kind ≡ p.kind
    → (n : ℕ) → kind_at n (insert name q d) ≡ kind_at n d
same_kinds-insert name p q d h k n = ground (arith, lookup-insert name n q d)

-- An update leaves a port its kind.
abbrev SameKind : Port → Called → Type 0
SameKind p (done q) = q.kind ≡ p.kind
SameKind p operation_error = Unit

update_kind : (a : Address) (p : Port) → SameKind p (update a p)
unfolding update
update_kind a p = ground arith

module _ {C : Type 0} where
  pub same : (t : Thread C) → SameQueues t t
  same t = ground arith

  pub alike_queues : (t : Thread C) (c : C) → SameQueues t (record t { comp = c })
  alike_queues t c = ground arith

  pub SameQueues-trans : {t u v : Thread C} → SameQueues t u → SameQueues u v → SameQueues t v
  SameQueues-trans a b = ground arith

  abbrev pub AllSame : Thread C → Option (Thread C) → Type 0
  AllSame t none = Unit
  AllSame t (some u) = SameQueues t u

  del_group_socket_lem :
      (group socket : ℕ) (t : Thread C) → AllSame t (del_group_socket group socket t)
  unfolding del_group_socket
  del_group_socket_lem group socket t = ground arith

  pub act_lem : (l : List Action) (t : Thread C) → SameQueues t (act l t).1
  unfolding act
  act_lem [] t = same t
  act_lem (join group socket priority ∷ l) t =
      ground (arith, act_lem l (add_group_socket group socket priority t))
  act_lem (leave group socket ∷ l) t = elim (Option-cases (del_group_socket group socket t)) [
    | inl e ↦ rw (e, act) (same t)
    | inr (u, e) ↦
        rw (e, act)
          (SameQueues-trans (subst (AllSame t) e (del_group_socket_lem group socket t))
            (act_lem l u))
  ]

  pub each_port_lem :
      (f : ℕ → Event) (l : Dict Port) (t : Thread C) → SameQueues t (each_port f l t)
  unfolding each_port
  each_port_lem f [] t = same t
  each_port_lem f ((name, p) ∷ l) t = ground (arith, each_port_lem f l (emit (f name) t))

  -- A command changes no queue.
  abbrev pub CommandSame : Thread C → Option (Bool × Thread C) → Type 0
  CommandSame t none = Unit
  CommandSame t (some (stop, u)) = SameQueues t u

  pub update_port_lem : (name : ℕ) (a : Address) (t : Thread C) → AllSame t (update_port name a t)
  unfolding update_port
  update_port_lem name a t = elim (Option-cases (lookup name t.ports)) [
    | inl e ↦ rw (e, update_port) (ground arith)
    | inr (p, e) ↦ rw (e, update_port) (told (update a p) (update_kind a p) e)
  ]
    where
      told :
          {p : Port} (c : Called)
          → SameKind p c
          → lookup name t.ports ≡ some p
          → AllSame t (elim c [
            | done q ↦ some (record t { ports = insert name q t.ports })
            | operation_error ↦ none
          ])
      told {p} (done q) k e = record {
        pq = refl;
        tc = refl;
        dq = refl;
        last = refl;
        to_stop = refl;
        served = refl;
        sock2port = refl;
        sock2name = refl;
        names = SameKeys-insert name p q t.ports e;
        kinds = same_kinds-insert name p q t.ports e k;
      }
      told operation_error k e = tt

  pub updated_same : (t : Thread C) (o : Option (Thread C)) → AllSame t o → CommandSame t (go_on o)
  updated_same t none h = tt
  updated_same t (some u) h = h

  -- The socket belongs to a port that has the socket's name, or to no port: its handler can be
  -- called without a KeyError.
  abbrev pub IsServable : Thread C → ℕ → Type 0
  IsServable t s =
      (lookup s t.sock2port ≡ none)
      ⊎ ((n : ℕ) × (lookup s t.sock2name ≡ some n) × (has_key n t.ports ≡ true))

  pub IsServable-same : {t u : Thread C} (s : ℕ) → SameQueues t u → IsServable t s → IsServable u s
  IsServable-same s h (inl e) = inl (rw h.sock2port e)
  IsServable-same s h (inr (n, e, f)) = inr (n, rw h.sock2name e, h.names n ∙ f)
