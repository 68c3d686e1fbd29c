-- ===== src/Samples/Actor.antt =====
-- A component of three ports (src/riaps/run): a subscriber, a timer and a publisher. Port 10 is the
-- subscriber, on socket 2; port 11 the timer, on socket 3; port 12 the publisher, on socket 4. The
-- control socket is 1.
pub mod Threads
pub mod Schedules
pub mod Parts
pub mod Params
pub mod Process
use riaps_pycom.Prelude.{
  ◌≡◌, refl, subst, All, arith, ℕ, ◌+◌, Bool, true, false, Option, none, some, List, [], ◌∷◌, Dict,
}
use riaps_pycom.Actor.Port.{
  Port, PortKind, global, local, sub_port, tim_port, pub_port, simplex, tick, Ifaces,
}
use riaps_pycom.Actor.Thread.{Thread, App, Handled}
use riaps_pycom.Actor.Thread.Sound.{IsTame, FreshAction}

abbrev pub port : (name : ℕ) → PortKind → (index socket : Option ℕ) → Port
port name kind index socket = record {
  name = name;
  kind = kind;
  index = index;
  deadline = 5;
  scope = global;
  msg_type = simplex 7;
  is_timed = false;
  socket = socket;
  info = none;
  servers = [];
  links = [];
  bind_addr = none;
  send_time = 0;
  recv_time = 0;
  identity = none;
}

abbrev pub ports : Dict Port
ports =
    (10, port 10 sub_port (some 0) (some 2))
    ∷ (11, port 11 tim_port (some 1) (some 3))
    ∷ (12, port 12 pub_port none (some 4))
    ∷ []

abbrev pub new_ports : Dict Port
new_ports = (10, port 10 sub_port (some 0) none) ∷ (12, port 12 pub_port none none) ∷ []

abbrev pub ifaces : Ifaces
ifaces = record { local_host = 127; global_host = 192 }

-- The component counts the calls of its handlers, which take three milliseconds.
abbrev pub counts : ℕ → Handled ℕ
counts c = record { comp = c + 1; actions = []; spent = 3; returned = true }

abbrev pub app : App ℕ
app = record { on = λ n. some counts; on_group = λ g c. counts c; on_event = λ e c. counts c }

abbrev pub thread : Thread ℕ
thread = record {
  control = 1;
  ports = ports;
  poller = 1 ∷ 2 ∷ 3 ∷ [];
  sock2name = (1, 0) ∷ (2, 10) ∷ (3, 11) ∷ [];
  sock2port = (2, 10) ∷ (3, 11) ∷ (4, 12) ∷ [];
  sock2group = [];
  name2group = [];
  sock2prio = (2, 0) ∷ (3, 1) ∷ [];
  pq = [];
  tc = 0;
  dq = [];
  last = none;
  to_stop = false;
  comp = 0;
  events = [];
  served = [];
}

-- The component joins and leaves no group.
pub app-IsTame : (t : Thread ℕ) → IsTame app t
app-IsTame t = record {
  on = λ n f c e.
      let k : counts ≡ f = ground arith in
      subst (λ (h : ℕ → Handled ℕ). All (FreshAction t) (h c).actions) k tt;
  on_group = λ g c. tt;
  on_event = λ e c. tt;
  returns = λ e c. refl;
}
