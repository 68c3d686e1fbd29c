-- ===== src/Coord/Election/Winning.antt =====
-- When a member of a group (src/riaps/run/dc.py) runs for leader, and when it wins.
use riaps_pycom.Prelude.{
  ℕ, if◌then◌else◌, ◌+◌, ◌*◌, ◌/◌, ◌<◌, ◌≡◌, ◌↔◌, Bool, true, false, Option, none, some, List, [],
  ◌∷◌, arith,
}
use riaps_pycom.Coord.Message.{Net, Note, Effect, publish, notify}
use riaps_pycom.Coord.Thread.{Role, follower, candidate, leading, Thread, Draw}
use riaps_pycom.Coord.Outcome.{raised, attribute_error, after}
use riaps_pycom.Coord.Timeout.{past_deadline, follower_timeout}
use riaps_pycom.Coord.Net.{candidate_count}

abbrev pub leads : Role → Bool
leads leading = true
leads _ = false

abbrev pub runs : Role → Bool
runs candidate = true
runs _ = false

-- One more vote gives the candidate more than half of its peers.
abbrev pub Suffices : Thread → Type 0
Suffices t = t.num_peers < 2 * (t.votes + 1)

module _ (now port chosen : ℕ) (yes_vote : Bool) (t : Thread) where
  -- A candidate with no answer port becomes the leader exactly when a yes vote for it comes in
  -- that makes more than half of its peers. It then tells its component, and asserts its
  -- authority to the group with its term, its address and the port that it has just bound.
  -- Otherwise it sends nothing.
  pub candidate_count_wins :
      t.state ≡ candidate
      → t.answer ≡ none
      → let t' = after (candidate_count now port chosen yes_vote t) in
        ((t'.state ≡ leading) ↔ ((yes_vote ≡ true) × (chosen ≡ t.own) × Suffices t))
        × (t'.out ≡ (
            if leads t'.state
            then publish (Net.ldr t.term t.own t.host port) ∷ notify (Note.lel t.own) ∷ t.out
            else t.out))
  unfolding candidate_count
  candidate_count_wins c a = ((λ h. ground arith, λ h. ground arith), ground arith)

  -- A member that has been the leader before cannot win again: the answer port is bound, and
  -- the handler ends the thread by an AttributeError.
  pub second_win_raises :
      {bound : ℕ}
      → t.answer ≡ some bound
      → yes_vote ≡ true
      → chosen ≡ t.own
      → Suffices t
      → (t' : Thread) × (candidate_count now port chosen yes_vote t ≡ raised attribute_error t')
  unfolding candidate_count
  second_win_raises a y o s = (after (candidate_count now port chosen yes_vote t), ground arith)

abbrev pub newest : List Effect → Option Effect
newest [] = none
newest (e ∷ out) = some e

-- A follower runs for leader exactly when the deadline for the leader has passed and its peers
-- are more than a majority of the group's size. It then votes for itself in the next term, asks
-- the group for votes, and has no leader; otherwise its term, its vote and its leader stay as
-- they are, and it sends nothing.
pub follower_timeout-runs :
    (now : ℕ) (d : Draw) (t : Thread)
    → t.state ≡ follower
    → let t' = follower_timeout now d t in
      ((t'.state ≡ candidate)
        ↔ ((past_deadline now t.leader_deadline ≡ true) × (t.group_size / 2 + 1 < t.num_peers)))
      × (t'.term ≡ (if runs t'.state then t.term + 1 else t.term))
      × (t'.voted_for ≡ (if runs t'.state then some t.own else t.voted_for))
      × (t'.votes ≡ (if runs t'.state then 1 else t.votes))
      × (t'.leader ≡ (if runs t'.state then none else t.leader))
      × (newest t'.out
          ≡ (if runs t'.state then some (publish (Net.req (t.term + 1) t.own)) else newest t.out))
unfolding follower_timeout
follower_timeout-runs now d t f = (
  (λ h. ground arith, λ h. ground arith),
  ground arith,
  ground arith,
  ground arith,
  ground arith,
  ground arith,
)
