-- ===== src/Coord/Group/Exchange.antt =====
-- src/riaps/run/dc.py: a call of the class Group, and the group thread that answers it.
use riaps_pycom.Prelude.{
  ℕ, ◌≡◌, refl, ap, true, false, Option, none, some, List, [], ◌∷◌, ◌++◌, arith,
}
use riaps_pycom.Coord.Poll.{Rfv}
use riaps_pycom.Coord.Message.{GroupVote, Cmd, Note, Effect, notify}
use riaps_pycom.Coord.Thread.{Thread, is_leader}
use riaps_pycom.Coord.Outcome.{Outcome, after}
use riaps_pycom.Coord.Comp.{handle_comp_message}
use riaps_pycom.Coord.Comp.Replies.{refused_send_ends, accepted_send_acknowledged}
use riaps_pycom.Coord.Group.{
  Group, Result, await_reply, send_port, send, send_to_leader, request_vote,
}

-- What the component hears of the effects, the oldest first.
unfoldable pub heard : List Effect → List Note
heard [] = []
heard (notify note ∷ out) = heard out ++ note ∷ []
heard (e ∷ out) = heard out

-- What the thread answers to a command.
unfoldable pub answers : (fault : Option ℕ) (clock : ℕ) → Thread → Cmd → List Note
unfolding heard
answers fault clock t cmd =
    heard (after (handle_comp_message fault clock cmd (record t { out = [] }))).out

acknowledged :
    (thread : Cmd → List Note) (cmd : Cmd) (g : Group)
    → thread cmd ≡ Note.ack ∷ []
    → send_port thread cmd g ≡ (Result.done true, record g { sent = cmd ∷ g.sent })
unfolding send_port await_reply
acknowledged thread cmd g h = rw h refl

unanswered :
    (thread : Cmd → List Note) (cmd : Cmd) (g : Group)
    → thread cmd ≡ []
    → send_port thread cmd g ≡ (Result.blocked, record g { sent = cmd ∷ g.sent })
unfolding send_port await_reply
unanswered thread cmd g h = rw h refl

-- What is heard of an outcome.
abbrev said : Outcome → List Note
said o = heard (after o).out

module _ (clock leader : ℕ) (msg : List ℕ) (r : Rfv) (t : Thread) (g : Group) where
  -- At a member that is connected to its leader, sending to the group, sending to the leader and
  -- requesting a vote succeed if zmq takes the message, and the request returns its id.
  pub connected_send_succeeds :
      (server : ℕ × ℕ)
      → g.coordinated ≡ true
      → t.leader ≡ some leader
      → is_leader t ≡ false
      → t.query ≡ some server
      → let thread = answers none clock t in
        ((send thread msg g).0 ≡ Result.done true)
        × ((send_to_leader thread t.leader msg g).0 ≡ Result.done true)
        × ((request_vote thread t.leader r g).0 ≡ some r.rfv_id)
  unfolding send send_to_leader request_vote answers heard is_leader
  connected_send_succeeds server c l n q =
      let (m, mtl, rfv, rtc) =
        accepted_send_acknowledged clock leader server msg (GroupVote.rfv r) (record t { out = [] })
          l n q in
      let thread = answers none clock t in
      (
        ground (arith, acknowledged thread (Cmd.msg msg) g (ap said m)),
        ground (arith, acknowledged thread (Cmd.mtl msg) g (ap said mtl)),
        ground (arith, acknowledged thread (Cmd.rfv (GroupVote.rfv r)) g (ap said rfv)),
      )

  -- If zmq refuses the message, the group thread ends without an answer, and the component waits
  -- for one for ever, in each of these calls.
  pub refused_send_blocks :
      (errno : ℕ) (server : ℕ × ℕ)
      → g.coordinated ≡ true
      → t.leader ≡ some leader
      → is_leader t ≡ false
      → t.query ≡ some server
      → let thread = answers (some errno) clock t in
        ((send thread msg g).0 ≡ Result.blocked)
        × ((send_to_leader thread t.leader msg g).0 ≡ Result.blocked)
        × ((request_vote thread t.leader r g).1 ≡ Result.blocked)
  unfolding send send_to_leader request_vote answers heard is_leader
  refused_send_blocks errno server c l n q =
      let (m, mtl, rfv, rtc) =
        refused_send_ends clock leader server msg (GroupVote.rfv r) (record t { out = [] }) errno l
          n q in
      let thread = answers (some errno) clock t in
      (
        ground (arith, unanswered thread (Cmd.msg msg) g (ap said m)),
        ground (arith, unanswered thread (Cmd.mtl msg) g (ap said mtl)),
        ground (arith, unanswered thread (Cmd.rfv (GroupVote.rfv r)) g (ap said rfv)),
      )
