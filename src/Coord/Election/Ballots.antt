-- ===== src/Coord/Election/Ballots.antt =====
-- The votes that a follower of src/riaps/run/dc.py gives on a sequence of requests.
use riaps_pycom.Prelude.{
  ℕ, ◌≤◌, ◌<◌, ◌≡◌, ◌≢◌, Bool, true, false, ◌&&◌, some, List, [], ◌∷◌, ◌==◌, if◌then◌else◌, arith,
}
use riaps_pycom.Coord.Thread.{Thread, Draw}
use riaps_pycom.Coord.Timeout.{candidate_timeout}
use riaps_pycom.Coord.Net.{follower_ldr, ballot, follower_vote}

-- A request for a vote as the follower finds it: the time, what it draws, and the message.
pub record Request : Type 0 where
  pub now : ℕ
  pub draw : Draw
  pub term : ℕ
  pub node : ℕ

abbrev pub serve : Request → Thread → Thread
serve r t = follower_vote r.now r.draw r.term r.node t

-- Whether the follower votes yes, somewhere in the sequence, for a node in a term.
unfoldable pub grants : (term node : ℕ) → List Request → Thread → Bool
grants term node [] t = false
grants term node (r ∷ requests) t =
    let rest = grants term node requests (serve r t) in
    if (r.term == term) && ((r.node == node) && ballot r.term r.node t) then true else rest

-- The terms of the requests do not fall below the given one, nor go back.
abbrev pub IsAscending : ℕ → List Request → Type 0
IsAscending term [] = Unit
IsAscending term (r ∷ requests) = (term ≤ r.term) × IsAscending r.term requests

-- With a request of a past term in between, a follower votes again in the term in which it has
-- voted: for any other node, after any stale request of another one.
pub stale_request_grants :
    (chosen node : ℕ) (stale again : Request) (t : Thread)
    → t.voted_for ≡ some chosen
    → stale.term < t.term
    → stale.node ≢ chosen
    → again.term ≡ t.term
    → grants t.term again.node (stale ∷ again ∷ []) t ≡ true
unfolding grants follower_vote ballot
stale_request_grants chosen node stale again t v h n e = ground arith

-- A follower forgets its vote within the term, and then votes for whoever asks: a candidate that
-- has voted for itself does so when its election times out, and a follower when a leader asserts
-- its authority for the same term.
pub vote_forgotten :
    (now : ℕ) (d : Draw) (node leader host port : ℕ) (t : Thread)
    → let failed = candidate_timeout now t in
      let led = follower_ldr now d t.term leader host port t in
      (failed.term ≡ t.term)
      × (ballot t.term node failed ≡ true)
      × (led.term ≡ t.term)
      × (ballot t.term node led ≡ true)
unfolding candidate_timeout follower_ldr ballot
vote_forgotten now d node leader host port t = ground arith
