-- ===== src/Actor/Thread/Sound.antt =====
-- What keeps the thread of src/riaps/run/comp.py from ending in an exception.
use riaps_pycom.Prelude.{
  ℕ, ◌≡◌, refl, subst, ◌∙◌, Bool, true, false, Option, none, some, List, [], ◌∷◌, inl, inr,
  Option-cases, ◌==◌, All, Dict, has_key, arith,
}
use riaps_pycom.Actor.Port.{Port, PortKind, connects}
use riaps_pycom.Actor.Thread.{
  Thread, App, Handled, Action, Command, Event, port_update, join, leave, emit, del_group_socket,
  add_group_socket,
}
use riaps_pycom.Actor.Thread.Handlers.{act}
use riaps_pycom.Actor.Thread.Commands.{each_port}
use riaps_pycom.Actor.Thread.Serving.{kind_at}
use riaps_pycom.Actor.Thread.Poller.{IsWired, add_group_socket-IsWired, del_group_socket-IsWired}

-- The groups that the component's code joins in a handler have sockets of their own.
abbrev pub FreshAction : {C : Type 0} → Thread C → Action → Type 0
FreshAction t (join g s k) = ((t.control == s) ≡ false) × (has_key s t.sock2port ≡ false)
FreshAction t (leave g s) = Unit

-- Its handlers that the thread calls by itself leave no group.
abbrev pub KeepingAction : {C : Type 0} → Thread C → Action → Type 0
KeepingAction t (join g s k) = FreshAction t (join g s k)
KeepingAction t (leave g s) = ⊥

pub record IsTame {C : Type 0} (app : App C) (t : Thread C) : Type 0 where
  pub on :
      (n : ℕ) (f : C → Handled C) (c : C) → app.on n ≡ some f → All (FreshAction t) (f c).actions
  pub on_group : (g : ℕ) (c : C) → All (FreshAction t) (app.on_group g c).actions
  pub on_event : (e : Event) (c : C) → All (KeepingAction t) (app.on_event e c).actions
  pub returns : (e : Event) (c : C) → (app.on_event e c).returned ≡ true

-- A thread that is wired, and has the control socket and the ports of the first.
pub record IsSound {C : Type 0} (t u : Thread C) : Type 0 where
  pub wired : IsWired u
  pub control : u.control ≡ t.control
  pub sock2port : u.sock2port ≡ t.sock2port
  pub sock2name : u.sock2name ≡ t.sock2name
  pub names : (n : ℕ) → has_key n u.ports ≡ has_key n t.ports
  pub kinds : (n : ℕ) → kind_at n u.ports ≡ kind_at n t.ports

-- A port update is for a port that connects, or for no port.
abbrev pub connectable : Option PortKind → Bool
connectable none = true
connectable (some k) = connects k

unfoldable pub accepts : {C : Type 0} → Command → Thread C → Bool
accepts (port_update n a) t = connectable (kind_at n t.ports)
accepts _ t = true

-- The maps of two threads are the same.
pub record SameMaps {C : Type 0} (t u : Thread C) : Type 0 where
  pub control : u.control ≡ t.control
  pub poller : u.poller ≡ t.poller
  pub sock2name : u.sock2name ≡ t.sock2name
  pub sock2port : u.sock2port ≡ t.sock2port
  pub sock2group : u.sock2group ≡ t.sock2group
  pub sock2prio : u.sock2prio ≡ t.sock2prio

module _ {C : Type 0} where
  pub IsSound-itself : (t : Thread C) → IsWired t → IsSound t t
  IsSound-itself t w = record {
    wired = w;
    control = refl;
    sock2port = refl;
    sock2name = refl;
    names = λ n. refl;
    kinds = λ n. refl;
  }

  pub IsWired-maps : (t u : Thread C) → SameMaps t u → IsWired t → IsWired u
  IsWired-maps t u m w s = ground (arith, w s)

  pub each_port_maps : (f : ℕ → Event) (l : Dict Port) (t : Thread C) → SameMaps t (each_port f l t)
  unfolding each_port
  each_port_maps f [] t = ground arith
  each_port_maps f ((n, p) ∷ l) t = ground (arith, each_port_maps f l (emit (f n) t))

  -- A thread that has been served with its ports left as they are
  pub joined-IsSound :
      (g s k : ℕ) (t u : Thread C)
      → FreshAction t (join g s k)
      → IsSound t u
      → IsSound t (add_group_socket g s k u)
  joined-IsSound g s k t u f h = record {
    wired = add_group_socket-IsWired g s k u (rw h.control f.0) (rw h.sock2port f.1) h.wired;
    control = unfold add_group_socket in h.control;
    sock2port = unfold add_group_socket in h.sock2port;
    sock2name = unfold add_group_socket in h.sock2name;
    names = unfold add_group_socket in h.names;
    kinds = unfold add_group_socket in h.kinds;
  }

  abbrev SamePorts : Thread C → Option (Thread C) → Type 0
  SamePorts u none = Unit
  SamePorts u (some v) =
      (v.control ≡ u.control)
      × (v.sock2port ≡ u.sock2port)
      × (v.sock2name ≡ u.sock2name)
      × (v.ports ≡ u.ports)

  del_group_socket_ports : (g s : ℕ) (u : Thread C) → SamePorts u (del_group_socket g s u)
  unfolding del_group_socket
  del_group_socket_ports g s u = ground arith

  left-IsSound :
      (g s : ℕ) (t u v : Thread C) → del_group_socket g s u ≡ some v → IsSound t u → IsSound t v
  left-IsSound g s t u v e h =
      let p = subst (SamePorts u) e (del_group_socket_ports g s u) in
      record {
        wired = del_group_socket-IsWired g s u v e h.wired;
        control = p.0 ∙ h.control;
        sock2port = p.1 ∙ h.sock2port;
        sock2name = p.2 ∙ h.sock2name;
        names = λ n. rw p.3 (h.names n);
        kinds = λ n. rw p.3 (h.kinds n);
      }

  pub act-IsSound :
      (l : List Action) (t u : Thread C)
      → All (FreshAction t) l
      → IsSound t u
      → IsSound t (act l u).1
  unfolding act
  act-IsSound [] t u f h = h
  act-IsSound (join g s k ∷ l) t u f h =
      act-IsSound l t (add_group_socket g s k u) f.1 (joined-IsSound g s k t u f.0 h)
  act-IsSound (leave g s ∷ l) t u f h = elim (Option-cases (del_group_socket g s u)) [
    | inl e ↦ rw (e, act) h
    | inr (v, e) ↦ rw (e, act) (act-IsSound l t v f.1 (left-IsSound g s t u v e h))
  ]

  -- Two threads with the same maps, and ports of the same names and kinds
  pub IsSound-maps :
      (t u v : Thread C)
      → SameMaps u v
      → ((n : ℕ) → has_key n v.ports ≡ has_key n u.ports)
      → ((n : ℕ) → kind_at n v.ports ≡ kind_at n u.ports)
      → IsSound t u
      → IsSound t v
  IsSound-maps t u v m n k h = record {
    wired = IsWired-maps u v m h.wired;
    control = m.control ∙ h.control;
    sock2port = m.sock2port ∙ h.sock2port;
    sock2name = m.sock2name ∙ h.sock2name;
    names = λ i. n i ∙ h.names i;
    kinds = λ i. k i ∙ h.kinds i;
  }
