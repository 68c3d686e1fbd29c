-- ===== src/Coord/Polling.antt =====
-- The polls of a group leader: startPoll, announceConsensus, checkPoll, checkAllPolls and
-- updatePoll of GroupThread (src/riaps/run/dc.py).
pub mod Rounds
pub mod Endings
use riaps_pycom.Prelude.{
  ℕ, ◌+◌, ◌-◌, ◌*◌, Bool, true, false, ◌||◌, Option, none, some, List, [], ◌∷◌, Dict, lookup,
  insert, delete, delete_all, ltb, ◌==◌, if◌then◌else◌,
}
use riaps_pycom.Coord.Poll
use riaps_pycom.Coord.Poll.{Poll, Rfv}
use riaps_pycom.Coord.Message.{Ballot, aye, nay, timed_out, GroupVote, Net, publish}
use riaps_pycom.Coord.Thread.{Thread, emit}

unfoldable pub announce_consensus : ℕ → Ballot → Thread → Thread
announce_consensus rfv_id ballot t = emit (publish (Net.ann (GroupVote.ann rfv_id ballot))) t

-- The default timeout is taken as it stands in the source: a parameter in milliseconds, where
-- the field of the request is in seconds.
unfoldable pub poll_timeout : Rfv → Thread → ℕ
poll_timeout r t = if r.timeout == 0 then t.params.consensus_timeout * 1000000 else r.timeout

-- `started + timeout - (now - started)`, which is not negative where it is used
unfoldable pub poll_deadline : (now : ℕ) → Rfv → Thread → ℕ
unfolding poll_timeout
poll_deadline now r t = r.started + r.started + poll_timeout r t - now

unfoldable pub start_poll : (now : ℕ) → GroupVote → (member : List ℕ) → Thread → Bool × Thread
unfolding poll_timeout poll_deadline
start_poll now (GroupVote.rfv r) member t =
    if ltb (r.started + poll_timeout r t) now then (false, t) else (
      true,
      record t {
        polls =
            insert r.rfv_id
              (Poll.init r member (poll_timeout r t) (poll_deadline now r t) t.num_peers) t.polls;
      },
    )
start_poll now _ member t = (false, t)

-- What checkPoll announces, if anything.
unfoldable pub verdict : ℕ → Poll → Option Ballot
verdict now poll =
    if Poll.expired now poll
    then some timed_out
    else if Poll.all_voted poll
    then some (if Poll.result poll then aye else nay)
    else none

unfoldable pub check_poll : Poll → (now : ℕ) → Thread → Bool × Thread
unfolding verdict announce_consensus
check_poll poll now t = elim (verdict now poll) [
  | none ↦ (false, t)
  | some ballot ↦ (true, announce_consensus poll.rfv_id ballot t)
]

-- The first loop of checkAllPolls: the polls to remove, and the announcements.
unfoldable pub scan_polls : ℕ → Dict Poll → Thread → List ℕ × Thread
unfolding check_poll
scan_polls now [] t = ([], t)
scan_polls now ((p, poll) ∷ polls) t =
    let (done, t1) = check_poll poll now t in
    let (rest, t2) = scan_polls now polls t1 in (if done then p ∷ rest else rest, t2)

unfoldable pub check_all_polls : ℕ → Thread → Thread
unfolding scan_polls delete_all
check_all_polls now t =
    let (to_remove, t1) = scan_polls now t.polls t in
    record t1 { polls = delete_all to_remove t1.polls }

abbrev pub is_aye : Ballot → Bool
is_aye aye = true
is_aye _ = false

-- Finds the poll of a reply, and counts the vote in place.
unfoldable pub cast_vote : GroupVote → Thread → Option Poll × Thread
cast_vote (GroupVote.rtc rfv_id ballot) t = elim (lookup rfv_id t.polls) [
  | none ↦ (none, t)
  | some poll ↦
      let poll' = Poll.vote (is_aye ballot) poll in
      (some poll', record t { polls = insert rfv_id poll' t.polls })
]
cast_vote _ t = (none, t)

abbrev pub reply_id : GroupVote → ℕ
reply_id (GroupVote.rtc rfv_id ballot) = rfv_id
reply_id (GroupVote.rfv r) = r.rfv_id
reply_id (GroupVote.ann rfv_id ballot) = rfv_id

abbrev pub close_poll : ℕ → Bool × Thread → Thread
close_poll rfv_id (done, t) = if done then record t { polls = delete rfv_id t.polls } else t

unfoldable pub update_poll : (now : ℕ) → GroupVote → Thread → Thread
unfolding cast_vote check_poll
update_poll now m t =
    let (counted, t1) = cast_vote m t in
    elim counted [ none ↦ t1 | some poll ↦ close_poll (reply_id m) (check_poll poll now t1) ]
