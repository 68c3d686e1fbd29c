-- ===== src/Coord/Coherent/Commands.antt =====
-- The invariant of the thread, through the timeouts of src/riaps/run/dc.py, the commands of the
-- component and the messages between a member and its leader.
use riaps_pycom.Prelude.{ℕ, ◌≡◌, refl, if_true, ==-refl, IsUnique-delete_all, arith}
use riaps_pycom.Coord.Thread.{Role, follower, candidate, leading, Thread, Draw}
use riaps_pycom.Coord.Outcome.{Outcome, ok, after}
use riaps_pycom.Coord.Polling.{check_all_polls}
use riaps_pycom.Coord.Polling.Rounds.{check_all_polls_lem}
use riaps_pycom.Coord.Timeout.{
  follower_timeout, candidate_timeout, leader_timeout, on_timeout, handle_timeout,
}
use riaps_pycom.Coord.Stable.{IsStable}
use riaps_pycom.Coord.Coherent.{IsCoherent, update_peers-IsCoherent, election_timeout_pos}

pub check_all_polls-IsCoherent :
    {t : Thread} → IsCoherent t → (now : ℕ) → IsCoherent (check_all_polls now t)
check_all_polls-IsCoherent {t} c now = rw (check_all_polls_lem now t) (record {
  in_group = c.in_group;
  ordered = c.ordered;
  counted = c.counted;
  unique_peers = c.unique_peers;
  unique_polls = IsUnique-delete_all _ t.polls c.unique_polls;
  role = c.role;
  bound = c.bound;
  waits = c.waits;
})

-- A handler that returns, and keeps the invariant.
abbrev pub Returns : Outcome → Type 0
Returns o = (o ≡ ok (after o)) × IsCoherent (after o)

module _ {t : Thread} (c : IsCoherent t) (now : ℕ) (d : Draw) where
  pub follower_timeout-IsCoherent : t.state ≡ follower → IsCoherent (follower_timeout now d t)
  unfolding follower_timeout
  follower_timeout-IsCoherent f = ground (arith, election_timeout_pos c d, c.ordered.beats)

  pub candidate_timeout-IsCoherent : IsCoherent (candidate_timeout now t)
  unfolding candidate_timeout
  candidate_timeout-IsCoherent = ground (arith, c.ordered.beats)

  leader_timeout-Returns : t.state ≡ leading → Returns (leader_timeout now t)
  unfolding leader_timeout
  leader_timeout-Returns f = ground (arith, c.ordered.beats, ==-refl t.own)

  on_timeout-Returns : (role : Role) → t.state ≡ role → Returns (on_timeout role now d t)
  on_timeout-Returns follower f = (refl, follower_timeout-IsCoherent f)
  on_timeout-Returns candidate f = (refl, candidate_timeout-IsCoherent)
  on_timeout-Returns leading f = leader_timeout-Returns f

-- A timeout never trips the assertion on the leader, nor lacks the leader's port: the handler
-- returns, and keeps the invariant.
pub handle_timeout-Returns :
    {t : Thread} (now : ℕ) (d : Draw) → IsCoherent t → Returns (handle_timeout now d t)
unfolding handle_timeout
handle_timeout-Returns {t} now d c =
    let c1 = check_all_polls-IsCoherent (update_peers-IsCoherent c now) now in
    if_true Returns _ _ c.in_group (on_timeout-Returns c1 now d _ refl)

-- The invariant says of the polls that their ids differ, and nothing of what was sent.
pub IsCoherent-stable : IsStable IsCoherent
IsCoherent-stable = record {
  unique = λ c. c.unique_polls;
  with_polls = λ c polls out identity u. record {
    in_group = c.in_group;
    ordered = c.ordered;
    counted = c.counted;
    unique_peers = c.unique_peers;
    unique_polls = u;
    role = c.role;
    bound = c.bound;
    waits = c.waits;
  };
}
