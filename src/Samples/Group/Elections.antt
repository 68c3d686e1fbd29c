-- ===== src/Samples/Group/Elections.antt =====
-- Elections in the group of three (src/riaps/run/dc.py).
use riaps_pycom.Prelude.{
  ◌+◌, ◌/◌, ◌<◌, ◌≡◌, ◌↔◌, refl, true, none, some, [], ◌∷◌, if◌then◌else◌, arith,
}
use riaps_pycom.Coord.Message.{Net, Note, publish, notify}
use riaps_pycom.Coord.Thread.{follower, candidate, leading, Thread, threshold}
use riaps_pycom.Coord.Outcome.{after}
use riaps_pycom.Coord.Timeout.{past_deadline, follower_timeout, candidate_timeout}
use riaps_pycom.Coord.Net.{candidate_count}
use riaps_pycom.Coord.Loop.{run}
use riaps_pycom.Coord.Election.Winning.{
  Suffices, leads, runs, newest, candidate_count_wins, follower_timeout-runs,
}
use riaps_pycom.Coord.Election.Counting.{hear_votes, enough_votes_elect}
use riaps_pycom.Coord.Election.Stall.{failed_election_stalls}
use riaps_pycom.Samples.Group.{drawn, in_role, following, running, running-IsCoherent, asking, idle}

candidate_count_wins_example :
    let t' = after (candidate_count 7000000 5555 1 true running) in
    ((t'.state ≡ leading) ↔ ((true ≡ true) × (running.own ≡ 1) × Suffices running))
    × (t'.out
        ≡ (if leads t'.state then publish (Net.ldr 4 1 10 5555) ∷ notify (Note.lel 1) ∷ [] else []))
candidate_count_wins_example = candidate_count_wins 7000000 5555 1 true running refl refl

-- Two votes of one node, one of them from a past term.
enough_votes_elect_example :
    (after (hear_votes 7000000 drawn ((4, 2) ∷ (3, 2) ∷ []) running)).state ≡ leading
enough_votes_elect_example =
    enough_votes_elect 7000000 drawn ((4, 2) ∷ (3, 2) ∷ []) running refl refl refl
      (unfold threshold in ground arith) (unfold threshold in ground arith)

abbrev again : Thread
again = in_role candidate none (some 1) (some 5555) none

follower_timeout-runs_example :
    let t' = follower_timeout 7000000 drawn following in
    ((t'.state ≡ candidate) ↔ ((past_deadline 7000000 (some 6500000) ≡ true) × (2 / 2 + 1 < 3)))
    × (t'.term ≡ (if runs t'.state then 4 + 1 else 4))
    × (t'.voted_for ≡ (if runs t'.state then some 1 else some 2))
    × (t'.votes ≡ (if runs t'.state then 1 else 1))
    × (t'.leader ≡ (if runs t'.state then none else none))
    × (newest t'.out ≡ (if runs t'.state then some (publish (Net.req (4 + 1) 1)) else none))
follower_timeout-runs_example = follower_timeout-runs 7000000 drawn following refl

failed_election_stalls_example :
    let t' = after (run (asking ∷ idle ∷ []) (candidate_timeout 7000000 running)) in
    (t'.state ≡ follower) × (t'.leader_deadline ≡ none)
failed_election_stalls_example =
    failed_election_stalls 7000000 (asking ∷ idle ∷ []) running-IsCoherent refl (ground arith)
