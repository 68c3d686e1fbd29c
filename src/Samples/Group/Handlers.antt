-- ===== src/Samples/Group/Handlers.antt =====
-- The loop and the handlers of the group thread, in the group of three (src/riaps/run/dc.py).
use riaps_pycom.Prelude.{ℕ, ◌≡◌, ◌↔◌, refl, true, false, [], ◌∷◌, ◌==◌, arith, lookup}
use riaps_pycom.Coord.Poll.{majority, init, result, all_voted}
use riaps_pycom.Coord.Poll.Count.{cast, yes_votes, Passes, result-cast}
use riaps_pycom.Coord.Thread.{start}
use riaps_pycom.Coord.Outcome.{after}
use riaps_pycom.Coord.Polling.{check_all_polls}
use riaps_pycom.Coord.Polling.Endings.{still_open, endings, check_all_polls_closes}
use riaps_pycom.Coord.Timeout.{handle_timeout}
use riaps_pycom.Coord.Loop.{run}
use riaps_pycom.Coord.Coherent.{IsCoherent}
use riaps_pycom.Coord.Coherent.Commands.{Returns, handle_timeout-Returns}
use riaps_pycom.Coord.Coherent.Runs.{run-start-IsCoherent}
use riaps_pycom.Samples.Group.{
  defaults, defaults-IsOrdered, drawn, request, following, following-IsCoherent, asking, idle,
}

run-start-IsCoherent_example :
    IsCoherent (after (run (asking ∷ idle ∷ []) (start 1 10 defaults 2 6000000 drawn)))
run-start-IsCoherent_example =
    run-start-IsCoherent 1 10 defaults 2 6000000 drawn (asking ∷ idle ∷ []) defaults-IsOrdered

handle_timeout-Returns_example : Returns (handle_timeout 7000000 drawn following)
handle_timeout-Returns_example = handle_timeout-Returns 7000000 drawn following-IsCoherent

result-cast_example :
    let polled = cast (init request [] 2000000 3000000 3) (true ∷ false ∷ true ∷ []) in
    (all_voted polled ≡ (3 == 3)) × ((result polled ≡ true) ↔ Passes majority 2 3)
result-cast_example =
    unfold yes_votes in result-cast request [] 2000000 3000000 3 (true ∷ false ∷ true ∷ [])

check_all_polls_closes_example :
    ((k : ℕ)
      → lookup k (check_all_polls 7000000 following).polls
        ≡ still_open 7000000 (lookup k following.polls))
    × (check_all_polls 7000000 following ≡ record following {
      polls = (check_all_polls 7000000 following).polls;
      out = endings 7000000 following.polls [];
    })
check_all_polls_closes_example =
    check_all_polls_closes 7000000 following (ground arith) (unfold init in (refl, tt))
