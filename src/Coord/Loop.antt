-- ===== src/Coord/Loop.antt =====
-- The loop of GroupThread.run (src/riaps/run/dc.py), for a coordinated group: one turn for each
-- return of the poller, until a command of the component stops it or an exception ends it.
use riaps_pycom.Prelude.{
  ℕ, Bool, true, false, ◌&&◌, Option, none, some, List, [], ◌∷◌, if◌then◌else◌,
}
use riaps_pycom.Coord.Message.{Net, Cmd, ForLeader, ForMember}
use riaps_pycom.Coord.Thread.{Thread, Draw, heartbeat, update_peers}
use riaps_pycom.Coord.Outcome.{Outcome, ok, ◌>>=◌}
use riaps_pycom.Coord.Timeout.{handle_timeout}
use riaps_pycom.Coord.Net.{handle_net_message}
use riaps_pycom.Coord.Comp.{handle_comp_message, stops}
use riaps_pycom.Coord.Member.{handle_message_for_leader, handle_message_for_member}

-- What one return of the poller finds: at most one message on each socket, the time, and what
-- the handlers take from outside.
pub record Turn : Type 0 where
  pub now : ℕ
  pub draw : Draw
  pub fault : Option ℕ
  pub group : Option Cmd
  pub sub : Option Net
  pub ans : Option (List ℕ × ForLeader)
  pub qry : Option ForMember

abbrev silent : {A : Type 0} → Option A → Bool
silent none = true
silent (some a) = false

-- `len(events) == 0`
abbrev pub is_timeout : Turn → Bool
is_timeout e = silent e.group && (silent e.sub && (silent e.ans && silent e.qry))

abbrev pub on_group : Turn → Option Cmd → Thread → Outcome
on_group e none t = ok t
on_group e (some c) t = handle_comp_message e.fault e.draw.clock c t

abbrev pub on_sub : Turn → Option Net → Thread → Outcome
on_sub e none t = ok t
on_sub e (some m) t = handle_net_message e.now e.draw m t

abbrev pub on_ans : Turn → Option (List ℕ × ForLeader) → Thread → Outcome
on_ans e none t = ok t
on_ans e (some (identity, m)) t = handle_message_for_leader e.fault e.draw.clock identity m t

abbrev pub on_qry : Option ForMember → Thread → Outcome
on_qry none t = ok t
on_qry (some m) t = ok (handle_message_for_member m t)

unfoldable pub dispatch : Turn → Thread → Outcome
dispatch e t = on_group e e.group t >>= on_sub e e.sub >>= on_ans e e.ans >>= on_qry e.qry

unfoldable pub turn : Turn → Thread → Outcome
unfolding dispatch
turn e t =
    let t1 = update_peers e.now (heartbeat e.now t) in
    if is_timeout e then handle_timeout e.now e.draw t1 else dispatch e t1

abbrev pub stopped : Option Cmd → Bool
stopped none = false
stopped (some c) = stops c

-- The turns in order. What follows the one that stops the thread is not read.
unfoldable pub run : List Turn → Thread → Outcome
unfolding turn
run [] t = ok t
run (e ∷ turns) t =
    turn e t >>= λ t1. let rest = run turns t1 in if stopped e.group then ok t1 else rest
