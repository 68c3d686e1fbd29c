-- ===== src/Coord/Coherent/Runs.antt =====
-- The invariant of the thread, over the loop of GroupThread.run (src/riaps/run/dc.py).
use riaps_pycom.Prelude.{ℕ, List, [], ◌∷◌, All, arith}
use riaps_pycom.Coord.Thread.{Params, Thread, Draw, start}
use riaps_pycom.Coord.Outcome.{after}
use riaps_pycom.Coord.Loop.{Turn, run}
use riaps_pycom.Coord.Turns.{Rule, run-Keeps}
use riaps_pycom.Coord.Coherent.{
  IsCoherent, IsOrdered, heartbeat-IsCoherent, update_peers-IsCoherent,
}
use riaps_pycom.Coord.Coherent.Elections.{handle_net_message-IsCoherent}
use riaps_pycom.Coord.Coherent.Commands.{IsCoherent-stable, handle_timeout-Returns}

-- A group thread begins coherent, with the parameters that setupParams lets pass.
pub start-IsCoherent :
    (own host : ℕ) (params : Params) (group_size now : ℕ) (d : Draw)
    → IsOrdered params
    → IsCoherent (start own host params group_size now d)
unfolding start
start-IsCoherent own host params group_size now d o = ground (arith, o.beats)

abbrev Any : Turn → Type 0
Any e = Unit

pub All-Any : (turns : List Turn) → All Any turns
All-Any [] = tt
All-Any (e ∷ turns) = (tt, All-Any turns)

IsCoherent-rule : Rule IsCoherent Any
IsCoherent-rule = record {
  stable = IsCoherent-stable;
  polled = λ now c. update_peers-IsCoherent (heartbeat-IsCoherent c now) now;
  timeout = λ e q c. record { kept = (handle_timeout-Returns e.now e.draw c).1 };
  net = λ e m q h c. record { kept = handle_net_message-IsCoherent c e.now e.draw m };
}

pub run-IsCoherent :
    (turns : List Turn) {t : Thread} → IsCoherent t → IsCoherent (after (run turns t))
run-IsCoherent turns c = (run-Keeps IsCoherent-rule turns (All-Any turns) c).kept

-- A group thread that starts with well-ordered parameters is coherent after any turns of its
-- loop, also where a command of the component stopped it or an exception ended it: its peers are
-- counted and differ, a candidate has no leader and has voted for itself, a leader knows itself
-- as the leader and has bound its answer port, and the next poll waits for a positive time.
pub run-start-IsCoherent :
    (own host : ℕ) (params : Params) (group_size now : ℕ) (d : Draw) (turns : List Turn)
    → IsOrdered params
    → IsCoherent (after (run turns (start own host params group_size now d)))
run-start-IsCoherent own host params group_size now d turns o =
    run-IsCoherent turns (start-IsCoherent own host params group_size now d o)
