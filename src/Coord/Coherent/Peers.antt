-- ===== src/Coord/Coherent/Peers.antt =====
-- updatePeers of GroupThread (src/riaps/run/dc.py): who drops out of the group.
use riaps_pycom.Prelude.{ℕ, Bool, false, Option, none, some, if◌then◌else◌}
use riaps_pycom.Coord.Thread.{Thread}

abbrev is_gone : (ℕ → Bool) → Option ℕ → Bool
is_gone gone none = false
is_gone gone (some seen) = gone seen

-- What is left of a peer, by the time at which it was heard.
abbrev pub if_heard : (ℕ → Bool) → Option ℕ → Option ℕ
if_heard gone none = none
if_heard gone (some seen) = if gone seen then none else some seen
