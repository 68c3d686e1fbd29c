-- ===== src/Coord/Polling/Endings.antt =====
-- checkAllPolls of GroupThread (src/riaps/run/dc.py): which polls it closes, and what it announces,
-- against the counters of each poll.
use riaps_pycom.Prelude.{
  ℕ, ◌+◌, ◌*◌, ◌/◌, ◌≡◌, refl, ap, ◌∙◌, Bool, Option, none, some, List, [], ◌∷◌, Dict, All, lookup,
  delete_all, lookup-delete_all, IsUnique, ltb, ◌==◌, if◌then◌else◌, arith,
}
use riaps_pycom.Coord.Poll.{Poll, Voting, majority, consensus, expired, all_voted, result}
use riaps_pycom.Coord.Message.{Ballot, aye, nay, timed_out, Effect}
use riaps_pycom.Coord.Thread.{Thread}
use riaps_pycom.Coord.Polling.{verdict, check_all_polls}
use riaps_pycom.Coord.Polling.Rounds.{
  is_decided, decided_ids, announcement, announced, check_all_polls_lem, contains-decided_ids,
  left_open, left_open_lem,
}

-- More than half of the peers, or every one of them, voted yes.
abbrev carried : Voting → (yes_count peers : ℕ) → Bool
carried majority yes_count peers = ltb peers (2 * yes_count)
carried consensus yes_count peers = yes_count == peers

-- How a poll ends, if it does: it has run out of time, or each peer has voted.
unfoldable pub ending : ℕ → Poll → Option Ballot
ending now poll =
    if ltb poll.deadline now
    then some timed_out
    else if poll.vote_cnt == poll.num_peers
    then some (if carried poll.kind poll.yes_cnt poll.num_peers then aye else nay)
    else none

-- What is left of a poll.
abbrev pub still_open : ℕ → Option Poll → Option Poll
still_open now none = none
still_open now (some poll) = if is_decided (ending now poll) then none else some poll

-- The announcements of the polls that end, in the order of the polls, the newest first.
unfoldable pub endings : ℕ → Dict Poll → List Effect → List Effect
endings now [] out = out
endings now ((p, poll) ∷ polls) out =
    endings now polls (announcement poll.rfv_id (ending now poll) out)

-- The polls have the threshold that they were made with.
abbrev pub HaveThreshold : Dict Poll → Type 0
HaveThreshold polls = All (λ (e : ℕ × Poll). e.1.threshold ≡ e.1.num_peers / 2 + 1) polls

verdict-ending :
    (now : ℕ) (poll : Poll)
    → poll.threshold ≡ poll.num_peers / 2 + 1
    → verdict now poll ≡ ending now poll
unfolding verdict ending expired all_voted result
verdict-ending now poll h = ground arith

announced-endings :
    (now : ℕ) (polls : Dict Poll) (out : List Effect)
    → HaveThreshold polls
    → announced now polls out ≡ endings now polls out
unfolding announced endings
announced-endings now [] out h = refl
announced-endings now ((p, poll) ∷ polls) out h =
    rw (verdict-ending now poll h.0)
      (announced-endings now polls (announcement poll.rfv_id (ending now poll) out) h.1)

left_open-still_open :
    (now k : ℕ) (polls : Dict Poll)
    → HaveThreshold polls
    → left_open now (lookup k polls) ≡ still_open now (lookup k polls)
unfolding lookup
left_open-still_open now k [] h = refl
left_open-still_open now k ((p, poll) ∷ polls) h =
    ground (arith, left_open-still_open now k polls h.1, verdict-ending now poll h.0)

-- checkAllPolls closes exactly the polls whose deadline has passed or in which each peer has voted,
-- and announces each of these, in order: as timed out if the deadline has passed, and otherwise as
-- carried if more than half of the peers voted yes (or all of them, in a poll for consensus), and
-- as not carried if not. Nothing else of the thread changes but the list of polls and what was
-- sent. This is so for polls with different ids that have the threshold of half the peers and one.
pub check_all_polls_closes :
    (now : ℕ) (t : Thread)
    → IsUnique t.polls
    → HaveThreshold t.polls
    → ((k : ℕ) → lookup k (check_all_polls now t).polls ≡ still_open now (lookup k t.polls))
      × (check_all_polls now t
          ≡ record t { polls = (check_all_polls now t).polls; out = endings now t.polls t.out })
check_all_polls_closes now t u h = rw (check_all_polls_lem now t) (
  λ k.
      lookup-delete_all (decided_ids now t.polls) k t.polls
      ∙ ap (λ b. if b then none else lookup k t.polls) (contains-decided_ids now k t.polls u)
      ∙ left_open_lem now (lookup k t.polls)
      ∙ left_open-still_open now k t.polls h,
  ap (λ l. record t { polls = delete_all (decided_ids now t.polls) t.polls; out = l })
      (announced-endings now t.polls t.out h),
)
