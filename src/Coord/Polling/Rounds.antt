-- ===== src/Coord/Polling/Rounds.antt =====
-- The loops of checkAllPolls of GroupThread (src/riaps/run/dc.py).
use riaps_pycom.Prelude.{
  ℕ, ◌≡◌, refl, Bool, true, false, Option, none, some, List, [], ◌∷◌, Dict, contains, lookup,
  delete_all, IsUnique, Fresh, if◌then◌else◌, arith,
}
use riaps_pycom.Coord.Poll.{Poll}
use riaps_pycom.Coord.Message.{Ballot, GroupVote, Net, Effect, publish}
use riaps_pycom.Coord.Thread.{Thread}
use riaps_pycom.Coord.Polling.{verdict, check_poll, scan_polls, check_all_polls, announce_consensus}

abbrev pub is_decided : Option Ballot → Bool
is_decided none = false
is_decided (some ballot) = true

-- The ids of the polls that have a verdict.
unfoldable pub decided_ids : ℕ → Dict Poll → List ℕ
decided_ids now [] = []
decided_ids now ((p, poll) ∷ polls) =
    let rest = decided_ids now polls in if is_decided (verdict now poll) then p ∷ rest else rest

abbrev pub announcement : ℕ → Option Ballot → List Effect → List Effect
announcement rfv_id none out = out
announcement rfv_id (some ballot) out = publish (Net.ann (GroupVote.ann rfv_id ballot)) ∷ out

-- Their announcements, in the order of the polls, the newest first.
unfoldable pub announced : ℕ → Dict Poll → List Effect → List Effect
announced now [] out = out
announced now ((p, poll) ∷ polls) out =
    announced now polls (announcement poll.rfv_id (verdict now poll) out)

pub check_poll_lem :
    (now : ℕ) (poll : Poll) (t : Thread)
    → check_poll poll now t ≡ (
      is_decided (verdict now poll),
      record t { out = announcement poll.rfv_id (verdict now poll) t.out },
    )
unfolding check_poll announce_consensus
check_poll_lem now poll t = ground arith

scan_polls_lem :
    (now : ℕ) (polls : Dict Poll) (t : Thread)
    → scan_polls now polls t ≡ (decided_ids now polls, record t { out = announced now polls t.out })
unfolding scan_polls decided_ids announced
scan_polls_lem now [] t = refl
scan_polls_lem now ((p, poll) ∷ polls) t = rw (check_poll_lem now poll t) (
    rw
      (scan_polls_lem now polls
        (record t { out = announcement poll.rfv_id (verdict now poll) t.out }))
      refl)

pub check_all_polls_lem :
    (now : ℕ) (t : Thread)
    → check_all_polls now t ≡ record t {
      polls = delete_all (decided_ids now t.polls) t.polls;
      out = announced now t.polls t.out;
    }
unfolding check_all_polls
check_all_polls_lem now t = rw (scan_polls_lem now t.polls t)

-- An id that stands for no poll is none of those.
decided_ids-Fresh :
    (now k : ℕ) (polls : Dict Poll) → Fresh k polls → contains k (decided_ids now polls) ≡ false
unfolding decided_ids contains
decided_ids-Fresh now k [] f = refl
decided_ids-Fresh now k ((p, poll) ∷ polls) f = ground (arith, decided_ids-Fresh now k polls f.1)

abbrev pub decided_at : ℕ → Option Poll → Bool
decided_at now none = false
decided_at now (some poll) = is_decided (verdict now poll)

pub contains-decided_ids :
    (now k : ℕ) (polls : Dict Poll)
    → IsUnique polls
    → contains k (decided_ids now polls) ≡ decided_at now (lookup k polls)
unfolding decided_ids contains lookup
contains-decided_ids now k [] u = refl
contains-decided_ids now k ((p, poll) ∷ polls) u =
    ground (arith, contains-decided_ids now k polls u.1, decided_ids-Fresh now p polls u.0)

-- What is left of a poll, given its verdict.
abbrev pub left_open : ℕ → Option Poll → Option Poll
left_open now none = none
left_open now (some poll) = if is_decided (verdict now poll) then none else some poll

pub left_open_lem :
    (now : ℕ) (o : Option Poll) → (if decided_at now o then none else o) ≡ left_open now o
left_open_lem now none = refl
left_open_lem now (some poll) = refl
