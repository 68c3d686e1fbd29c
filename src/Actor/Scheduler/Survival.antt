-- ===== src/Actor/Scheduler/Survival.antt =====
-- The priority scheduler of src/riaps/run/comp.py does not end in an exception.
use riaps_pycom.Prelude.{ℕ, ◌≡◌, true, ◌||◌, List, All, has_key}
use riaps_pycom.Actor.Thread.{Thread}
use riaps_pycom.Actor.Thread.Serving.{IsServable}

-- The sockets are those of ports with input, and of groups.
abbrev pub IsReported : {C : Type 0} → Thread C → List ℕ → Type 0
IsReported t sockets =
    All (λ (s : ℕ). (has_key s t.sock2port || has_key s t.sock2group) ≡ true) sockets
    × All (IsServable t) sockets
