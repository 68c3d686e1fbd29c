-- ===== src/Coord/Election/Stall.antt =====
-- A follower of src/riaps/run/dc.py that has no deadline for its leader.
use riaps_pycom.Prelude.{
  ℕ, ◌≡◌, refl, none, List, ◌∷◌, All, List-cases, inl, inr, ◌∙◌, subst, if_true, arith,
}
use riaps_pycom.Coord.Thread.{
  Role, follower, candidate, leading, Thread, Draw, heartbeat, update_peers, leavers, stale,
}
use riaps_pycom.Coord.Outcome.{after}
use riaps_pycom.Coord.Polling.{check_all_polls}
use riaps_pycom.Coord.Polling.Rounds.{check_all_polls_lem}
use riaps_pycom.Coord.Timeout.{follower_timeout, candidate_timeout, on_timeout, handle_timeout}
use riaps_pycom.Coord.Net.{follower_vote}
use riaps_pycom.Coord.Loop.{Turn, run}
use riaps_pycom.Coord.Stable.{IsStable, Keeps}
use riaps_pycom.Coord.Coherent.{
  IsCoherent, drop_peers_lem, heartbeat-IsCoherent, update_peers-IsCoherent,
}
use riaps_pycom.Coord.Coherent.Commands.{
  IsCoherent-stable, check_all_polls-IsCoherent, follower_timeout-IsCoherent,
  candidate_timeout-IsCoherent,
}
use riaps_pycom.Coord.Coherent.Elections.{follower_vote-IsCoherent, handle_net_message-IsCoherent}
use riaps_pycom.Coord.Turns.{Rule, run-Keeps}
use riaps_pycom.Coord.Election.Quiet.{IsQuietSub, SameRole, handle_net_message-SameRole}

-- A turn that brings none of these.
abbrev pub IsQuiet : Turn → Type 0
IsQuiet e = IsQuietSub e.sub

pub record IsStalled (t : Thread) : Type 0 where
  pub coherent : IsCoherent t
  pub follows : t.state ≡ follower
  pub no_deadline : t.leader_deadline ≡ none

IsStalled-stable : IsStable IsStalled
IsStalled-stable = record {
  unique = λ s. s.coherent.unique_polls;
  with_polls = λ s polls out identity u. record {
    coherent = IsCoherent-stable.with_polls s.coherent polls out identity u;
    follows = s.follows;
    no_deadline = s.no_deadline;
  };
}

-- Role and deadline are no business of the membership list and the heartbeats.
heartbeat-SameRole : (now : ℕ) (t : Thread) → SameRole (heartbeat now t) t
unfolding heartbeat
heartbeat-SameRole now t = ground arith

update_peers-SameRole : (now : ℕ) (t : Thread) → SameRole (update_peers now t) t
unfolding update_peers
update_peers-SameRole now t = elim (List-cases (leavers (stale now t) t.peers)) [
  | inl e ↦ rw (e, update_peers) (refl, refl)
  | inr (p, ps, e) ↦ rw (e, update_peers, drop_peers_lem (p ∷ ps) t) (refl, refl)
]

polled : (now : ℕ) {t : Thread} → IsStalled t → IsStalled (update_peers now (heartbeat now t))
polled now {t} s =
    let (st, dl) = heartbeat-SameRole now t in
    let (st', dl') = update_peers-SameRole now (heartbeat now t) in
    record {
      coherent = update_peers-IsCoherent (heartbeat-IsCoherent s.coherent now) now;
      follows = st' ∙ st ∙ s.follows;
      no_deadline = dl' ∙ dl ∙ s.no_deadline;
    }

-- A timeout finds no deadline to be past.
idle :
    (now : ℕ) (d : Draw) (t : Thread)
    → t.leader_deadline ≡ none
    → SameRole (follower_timeout now d t) t
unfolding follower_timeout
idle now d t n = ground arith

stalled : (now : ℕ) {t : Thread} → IsCoherent t → IsStalled (candidate_timeout now t)
unfolding candidate_timeout
stalled now c = record {
  coherent =
      candidate_timeout-IsCoherent c now
        (record { clock = 0; election = 0; deadline = 0; port = 0 });
  follows = refl;
  no_deadline = refl;
}

asked :
    (now : ℕ) (d : Draw) (term node : ℕ) {t : Thread}
    → IsCoherent t
    → t.state ≡ follower
    → IsStalled (follower_vote now d term node t)
unfolding follower_vote
asked now d term node c f = record {
  coherent = follower_vote-IsCoherent c now d term node f;
  follows = ground arith;
  no_deadline = ground arith;
}

on_timeout-IsStalled :
    (role : Role) (now : ℕ) (d : Draw) {t : Thread}
    → t.state ≡ role
    → IsStalled t
    → Keeps IsStalled (on_timeout role now d t)
on_timeout-IsStalled follower now d {t} r s =
    let (st, dl) = idle now d t s.no_deadline in
    record {
      kept = record {
        coherent = follower_timeout-IsCoherent s.coherent now d r;
        follows = st ∙ s.follows;
        no_deadline = dl ∙ s.no_deadline;
      };
    }
on_timeout-IsStalled candidate now d r s = absurd (cc (r, s.follows))
on_timeout-IsStalled leading now d r s = absurd (cc (r, s.follows))

check_all_polls-IsStalled : (now : ℕ) {t : Thread} → IsStalled t → IsStalled (check_all_polls now t)
check_all_polls-IsStalled now {t} s = record {
  coherent = check_all_polls-IsCoherent s.coherent now;
  follows = rw (check_all_polls_lem now t) s.follows;
  no_deadline = rw (check_all_polls_lem now t) s.no_deadline;
}

handle_timeout-IsStalled :
    (now : ℕ) (d : Draw) {t : Thread} → IsStalled t → Keeps IsStalled (handle_timeout now d t)
unfolding handle_timeout
handle_timeout-IsStalled now d {t} s =
    let (st, dl) = update_peers-SameRole now t in
    let s1 = check_all_polls-IsStalled now (record {
      coherent = update_peers-IsCoherent s.coherent now;
      follows = st ∙ s.follows;
      no_deadline = dl ∙ s.no_deadline;
    }) in
    if_true (Keeps IsStalled) _ _ s.coherent.in_group (on_timeout-IsStalled _ now d refl s1)

stall_rule : Rule IsStalled IsQuiet
stall_rule = record {
  stable = IsStalled-stable;
  polled = polled;
  timeout = λ e q s. handle_timeout-IsStalled e.now e.draw s;
  net = λ e m q h s.
      let (st, dl) =
        handle_net_message-SameRole e.now e.draw m _ (subst IsQuietSub h q) s.follows
          s.no_deadline in
      record {
        kept = record {
          coherent = handle_net_message-IsCoherent s.coherent e.now e.draw m;
          follows = st ∙ s.follows;
          no_deadline = dl ∙ s.no_deadline;
        };
      };
}

-- A candidate whose election times out is a follower with no deadline. From there on it never
-- runs for leader, whatever turns of the loop follow, however long they take and whatever the
-- component, the members and other candidates send, until a leader asserts its authority or
-- publishes a request or an announcement of a poll.
pub failed_election_stalls :
    {t : Thread} (now : ℕ) (turns : List Turn)
    → IsCoherent t
    → t.state ≡ candidate
    → All IsQuiet turns
    → let t' = after (run turns (candidate_timeout now t)) in
      (t'.state ≡ follower) × (t'.leader_deadline ≡ none)
failed_election_stalls {t} now turns c f q =
    let s = (run-Keeps stall_rule turns q (stalled now c)).kept in (s.follows, s.no_deadline)

-- A follower that has just been asked for its vote has no deadline for its leader. From there on
-- it never runs for leader, whatever turns of the loop follow and whatever is sent to it, until a
-- leader asserts its authority or publishes a request or an announcement of a poll.
pub asked_follower_stalls :
    {t : Thread} (now : ℕ) (d : Draw) (term node : ℕ) (turns : List Turn)
    → IsCoherent t
    → t.state ≡ follower
    → All IsQuiet turns
    → let t' = after (run turns (follower_vote now d term node t)) in
      (t'.state ≡ follower) × (t'.leader_deadline ≡ none)
asked_follower_stalls {t} now d term node turns c f q =
    let s = (run-Keeps stall_rule turns q (asked now d term node c f)).kept in
    (s.follows, s.no_deadline)
