-- ===== src/Coord/Member.antt =====
-- handleMessageForLeader and handleMessageForMember of GroupThread (src/riaps/run/dc.py).
use riaps_pycom.Prelude.{ℕ, Option, List}
use riaps_pycom.Coord.Message.{ForLeader, ForMember, Note}
use riaps_pycom.Coord.Thread.{Thread, send_change}
use riaps_pycom.Coord.Outcome.{Outcome, ok}
use riaps_pycom.Coord.Comp.{conduct_poll, count_vote}

-- A message arrives with the identity of the member's socket, which the answer port keeps.
unfoldable pub handle_message_for_leader :
    Option ℕ → (clock : ℕ) → (identity : List ℕ) → ForLeader → Thread → Outcome
unfolding conduct_poll count_vote
handle_message_for_leader fault clock identity (ForLeader.mtl payload) t =
    ok (send_change (Note.mtl payload identity) (record t { identity = identity }))
handle_message_for_leader fault clock identity (ForLeader.rfv v) t =
    conduct_poll fault clock v identity (record t { identity = identity })
handle_message_for_leader fault clock identity (ForLeader.rtc v) t =
    count_vote fault clock v (record t { identity = identity })
handle_message_for_leader fault clock identity ForLeader.unknown t =
    ok (record t { identity = identity })

unfoldable pub handle_message_for_member : ForMember → Thread → Thread
handle_message_for_member (ForMember.mfl payload) t = send_change (Note.mfl payload) t
handle_message_for_member ForMember.unknown t = t
