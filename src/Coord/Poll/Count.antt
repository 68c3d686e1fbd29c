-- ===== src/Coord/Poll/Count.antt =====
-- Poll of src/riaps/run/dc.py: the counters against the list of votes that were cast.
use riaps_pycom.Prelude.{
  ℕ, suc, ◌+◌, ◌*◌, ◌/◌, ◌<◌, ◌≤◌, ◌≡◌, ◌↔◌, Bool, true, false, List, [], ◌∷◌, arith, length, ◌==◌,
}
use riaps_pycom.Coord.Poll.{Voting, majority, consensus, Rfv, Poll, init, vote, all_voted, result}

-- The votes cast one after the other, the newest first.
unfoldable pub cast : Poll → List Bool → Poll
cast poll [] = poll
cast poll (v ∷ votes) = vote v (cast poll votes)

unfoldable pub yes_votes : List Bool → ℕ
yes_votes [] = 0
yes_votes (true ∷ votes) = suc (yes_votes votes)
yes_votes (false ∷ votes) = yes_votes votes

pub yes_votes-le-length : (votes : List Bool) → yes_votes votes ≤ length votes
unfolding yes_votes
yes_votes-le-length [] = omega arith
yes_votes-le-length (true ∷ votes) = omega (arith, yes_votes-le-length votes)
yes_votes-le-length (false ∷ votes) = omega (arith, yes_votes-le-length votes)

pub cast-counts :
    (poll : Poll) (votes : List Bool)
    → ((cast poll votes).vote_cnt ≡ poll.vote_cnt + length votes)
      × ((cast poll votes).yes_cnt ≡ poll.yes_cnt + yes_votes votes)
      × ((cast poll votes).num_peers ≡ poll.num_peers)
      × ((cast poll votes).threshold ≡ poll.threshold)
      × ((cast poll votes).kind ≡ poll.kind)
unfolding cast yes_votes vote
cast-counts poll [] = ground arith
cast-counts poll (true ∷ votes) = ground (arith, cast-counts poll votes)
cast-counts poll (false ∷ votes) = ground (arith, cast-counts poll votes)

-- What each kind of poll promises: more than half of the peers, or every one of them, voted yes.
abbrev pub Passes : Voting → (yes_count peers : ℕ) → Type 0
Passes majority yes_count peers = peers < 2 * yes_count
Passes consensus yes_count peers = yes_count ≡ peers

-- `result` meets the promise of the poll's kind, with the threshold that `init` computes.
result-Passes :
    (kind : Voting) (poll : Poll) (yes_count peers : ℕ)
    → poll.kind ≡ kind
    → poll.threshold ≡ peers / 2 + 1
    → poll.num_peers ≡ peers
    → poll.yes_cnt ≡ yes_count
    → (result poll ≡ true) ↔ Passes kind yes_count peers
unfolding result
result-Passes majority poll y n k t p c = rw k (ground arith)
result-Passes consensus poll y n k t p c = rw k (ground arith)

module _ (rfv : Rfv) (member : List ℕ) (timeout deadline peers : ℕ) (votes : List Bool) where
  abbrev polled : Poll
  polled = cast (init rfv member timeout deadline peers) votes

  -- A poll is decided by exactly as many votes as there were peers when it started, and its
  -- result is yes exactly when more than half of the peers (majority) or as many as all of them
  -- (consensus) are the yes votes that were cast.
  pub result-cast :
      (all_voted polled ≡ (length votes == peers))
      × ((result polled ≡ true) ↔ Passes rfv.kind (yes_votes votes) peers)
  unfolding init all_voted
  result-cast =
      let (v, y, n, t, k) = cast-counts (init rfv member timeout deadline peers) votes in
      (ground arith, result-Passes rfv.kind polled (yes_votes votes) peers k t n (omega arith))
