-- ===== src/Coord/Election/Counting.antt =====
-- The votes that a candidate of src/riaps/run/dc.py counts, one message of the group after the
-- other.
use riaps_pycom.Prelude.{
  ℕ, ◌+◌, ◌≤◌, ◌<◌, ◌≡◌, leb, ◌∙◌, true, none, List, [], ◌∷◌, length, if◌then◌else◌, arith,
}
use riaps_pycom.Coord.Message.{Net}
use riaps_pycom.Coord.Thread.{candidate, leading, Thread, Draw, threshold, set_timeout}
use riaps_pycom.Coord.Outcome.{Outcome, ok, after, ◌>>=◌}
use riaps_pycom.Coord.Net.{
  election, as_leader, as_candidate, candidate_count, win, handle_net_message,
}

-- Yes votes for the member, each with the term that it carries and the node that sent it.
unfoldable pub hear_votes : (now : ℕ) → Draw → List (ℕ × ℕ) → Thread → Outcome
hear_votes now d [] t = ok t
hear_votes now d ((term, node) ∷ votes) t =
    handle_net_message now d (Net.vot term t.own true node) t >>= hear_votes now d votes

vote_heard :
    (now : ℕ) (d : Draw) (term node : ℕ) (t : Thread)
    → t.coordinated ≡ true
    → handle_net_message now d (Net.vot term t.own true node) t
      ≡ election t.state now d (Net.vot term t.own true node) t
unfolding handle_net_message
vote_heard now d term node t c = ground arith

leader_hears :
    (now : ℕ) (d : Draw) (votes : List (ℕ × ℕ)) (t : Thread)
    → t.coordinated ≡ true
    → t.state ≡ leading
    → (after (hear_votes now d votes t)).state ≡ leading
unfolding hear_votes as_leader
leader_hears now d [] t c s = s
leader_hears now d ((term, node) ∷ votes) t c s = ground (
  arith,
  vote_heard now d term node t c,
  leader_hears now d votes (set_timeout t.params.heartbeat now t),
)

wins :
    (now port : ℕ) (t : Thread)
    → t.answer ≡ none
    → let t' = after (win now port t) in
      (win now port t ≡ ok t') × (t'.state ≡ leading) × (t'.coordinated ≡ t.coordinated)
unfolding win
wins now port t a = ground arith

-- One yes vote: the candidate wins with it, or counts it.
yes_counted :
    (now : ℕ) (d : Draw) (term node : ℕ) (t : Thread)
    → t.coordinated ≡ true
    → t.state ≡ candidate
    → handle_net_message now d (Net.vot term t.own true node) t ≡ (
        if leb (threshold t) (t.votes + 1)
        then win now d.port (record t { votes = t.votes + 1 })
        else ok (record t { votes = t.votes + 1 }))
unfolding as_candidate candidate_count threshold
yes_counted now d term node t c s = ground (arith, vote_heard now d term node t c)

-- A candidate with no answer port becomes the leader after as many yes votes as are missing from
-- its majority, and stays the leader through the votes that follow, whatever the terms of the
-- votes are and whoever sent them: a vote of a past term counts, and so do two of one node.
pub enough_votes_elect :
    (now : ℕ) (d : Draw) (votes : List (ℕ × ℕ)) (t : Thread)
    → t.coordinated ≡ true
    → t.state ≡ candidate
    → t.answer ≡ none
    → t.votes < threshold t
    → threshold t ≤ t.votes + length votes
    → (after (hear_votes now d votes t)).state ≡ leading
unfolding hear_votes threshold
enough_votes_elect now d [] t c s a few enough = absurd (omega arith)
enough_votes_elect now d ((term, node) ∷ votes) t c s a few enough =
    let t1 = record t { votes = t.votes + 1 } in
    let (won, leads, same) = wins now d.port t1 a in
    ground (
      arith,
      yes_counted now d term node t c s,
      leader_hears now d votes (after (win now d.port t1)) (same ∙ c) leads,
      enough_votes_elect now d votes t1 c s a,
    )
