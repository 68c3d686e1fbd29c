-- ===== src/Coord/Comp.antt =====
-- handleCompMessage of GroupThread (src/riaps/run/dc.py): commands from the component. `fault` is
-- the error number of the one send to the network that the command makes, if zmq refuses it;
-- `clock` is the reading of the clock that it makes.
pub mod Replies
use riaps_pycom.Prelude.{ℕ, Bool, true, false, Option, none, some, List, [], ◌∷◌, if◌then◌else◌}
use riaps_pycom.Coord.Poll.{Poll}
use riaps_pycom.Coord.Message.{
  timed_out, GroupVote, Net, ForLeader, ForMember, Cmd, Note, Effect, notify, subscribe,
}
use riaps_pycom.Coord.Thread.{Thread, emit, send_change, own_id, is_leader}
use riaps_pycom.Coord.Outcome.{
  Outcome, ok, raised, ◌>>=◌, assertion_error, port_error, send_group, send_to_leader,
  send_to_member, catch_zmq,
}
use riaps_pycom.Coord.Polling.{start_poll, check_poll, cast_vote, close_poll, reply_id}

abbrev pub acknowledge : Thread → Outcome
acknowledge t = ok (send_change Note.ack t)

-- What follows a poll that could not be started: announce a timeout, for a request for a vote.
unfoldable pub refuse_poll : Option ℕ → GroupVote → Thread → Outcome
unfolding send_group
refuse_poll fault (GroupVote.rfv r) t =
    send_group fault (Net.ann (GroupVote.ann r.rfv_id timed_out)) t
refuse_poll fault _ t = raised assertion_error t

abbrev pub ask_group : Option ℕ → GroupVote → Bool × Thread → Outcome
ask_group fault v (started, t) =
    if started then send_group fault (Net.rcm v) t else refuse_poll fault v t

-- The leader starts a poll, and asks the group or announces that it came too late.
unfoldable pub conduct_poll : Option ℕ → ℕ → GroupVote → (member : List ℕ) → Thread → Outcome
unfolding send_group refuse_poll start_poll
conduct_poll fault clock v member t = ask_group fault v (start_poll clock v member t)

-- The send that announces the result of the poll, if checkPoll finds one.
abbrev pub announce_through : Option ℕ → ℕ → Bool × Thread → Thread → Outcome
announce_through (some errno) rfv_id (true, checked) t = raised (port_error errno) t
announce_through fault rfv_id (done, checked) t = ok (close_poll rfv_id (done, checked))

abbrev pub announce_counted : Option ℕ → ℕ → ℕ → Option Poll × Thread → Outcome
announce_counted fault clock rfv_id (none, t) = ok t
announce_counted fault clock rfv_id (some poll, t) =
    announce_through fault rfv_id (check_poll poll clock t) t

-- updatePoll, where the announcement may fail. The vote is counted before it is sent, and the
-- poll is deleted after it.
unfoldable pub count_vote : Option ℕ → ℕ → GroupVote → Thread → Outcome
unfolding cast_vote check_poll
count_vote fault clock v t = announce_counted fault clock (reply_id v) (cast_vote v t)

-- `if self.leader == None: ... GROUP_NLD`, else the body of the `try`
abbrev pub with_leader : Option ℕ → Thread → Outcome → Outcome
with_leader none t body = ok (send_change Note.nld t)
with_leader (some leader) t body = catch_zmq body

abbrev is_null : List ℕ → Bool
is_null [] = true
is_null (b ∷ bytes) = false

-- The source tests `self.isLeader`, the method and not its value, which is always true.
abbrev pub from_leader : Option ℕ → List ℕ → List ℕ → Thread → Outcome
from_leader fault payload identity t =
    if is_null identity
    then ok (send_change (Note.mfl payload) (send_change Note.ack t))
    else send_to_member fault (ForMember.mfl payload) (record t { identity = identity })
      >>= acknowledge

unfoldable pub handle_comp_message : Option ℕ → (clock : ℕ) → Cmd → Thread → Outcome
unfolding is_leader send_group send_to_leader send_to_member conduct_poll count_vote
handle_comp_message fault clock (Cmd.upd host port) t = ok (emit (subscribe host port) t)
handle_comp_message fault clock (Cmd.msg payload) t =
    catch_zmq (send_group fault (Net.msg payload) t >>= acknowledge)
handle_comp_message fault clock (Cmd.mtl payload) t = with_leader t.leader t (
    if is_leader t
    then ok (send_change (Note.mtl payload []) (send_change Note.ack t))
    else send_to_leader fault (ForLeader.mtl payload) t >>= acknowledge)
handle_comp_message fault clock (Cmd.mfl payload identity) t =
    with_leader t.leader t (from_leader fault payload identity t)
handle_comp_message fault clock (Cmd.rfv v) t = with_leader t.leader t (
    if is_leader t
    then conduct_poll fault clock v [] (send_change Note.ack t)
    else send_to_leader fault (ForLeader.rfv v) t >>= acknowledge)
handle_comp_message fault clock (Cmd.rtc v) t = with_leader t.leader t (
    (if is_leader t then count_vote fault clock v t else send_to_leader fault (ForLeader.rtc v) t)
    >>= acknowledge)
handle_comp_message fault clock Cmd.mlt t = send_group fault (Net.mlt (own_id t)) t
handle_comp_message fault clock Cmd.unknown t = ok t

-- `toStop`
abbrev pub stops : Cmd → Bool
stops Cmd.mlt = true
stops _ = false
