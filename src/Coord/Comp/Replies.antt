-- ===== src/Coord/Comp/Replies.antt =====
-- handleCompMessage of GroupThread (src/riaps/run/dc.py): what the component hears of its
-- commands.
use riaps_pycom.Prelude.{ℕ, ◌≡◌, refl, false, Option, none, some, List, ◌∷◌, arith}
use riaps_pycom.Coord.Message.{
  GroupVote, Cmd, Note, Effect, notify, ForLeader, to_leader, Net, publish,
}
use riaps_pycom.Coord.Thread.{Thread, is_leader}
use riaps_pycom.Coord.Outcome.{ok, raised, port_error, send_group, send_to_leader}
use riaps_pycom.Coord.Comp.{handle_comp_message}

module _ (clock leader : ℕ) (server : ℕ × ℕ) (payload : List ℕ) (v : GroupVote) (t : Thread) where
  -- At a member that is connected to a leader, a send that zmq refuses ends the thread, with the
  -- PortError that no clause catches, for a message to the group, a message to the leader, a
  -- request for a vote and a reply to one. Nothing is sent, to the component neither.
  pub refused_send_ends :
      (errno : ℕ)
      → t.leader ≡ some leader
      → is_leader t ≡ false
      → t.query ≡ some server
      → let end = raised (port_error errno) t in
        (handle_comp_message (some errno) clock (Cmd.msg payload) t ≡ end)
        × (handle_comp_message (some errno) clock (Cmd.mtl payload) t ≡ end)
        × (handle_comp_message (some errno) clock (Cmd.rfv v) t ≡ end)
        × (handle_comp_message (some errno) clock (Cmd.rtc v) t ≡ end)
  unfolding handle_comp_message send_group send_to_leader
  refused_send_ends errno l n q = (refl, ground arith, ground arith, ground arith)

  -- There, a send that goes out is followed by the acknowledgement, and that is all.
  pub accepted_send_acknowledged :
      t.leader ≡ some leader
      → is_leader t ≡ false
      → t.query ≡ some server
      → let sent = λ (e : Effect). ok (record t { out = notify Note.ack ∷ e ∷ t.out }) in
        (handle_comp_message none clock (Cmd.msg payload) t ≡ sent (publish (Net.msg payload)))
        × (handle_comp_message none clock (Cmd.mtl payload) t
            ≡ sent (to_leader (ForLeader.mtl payload)))
        × (handle_comp_message none clock (Cmd.rfv v) t ≡ sent (to_leader (ForLeader.rfv v)))
        × (handle_comp_message none clock (Cmd.rtc v) t ≡ sent (to_leader (ForLeader.rtc v)))
  unfolding handle_comp_message send_group send_to_leader
  accepted_send_acknowledged l n q = (refl, ground arith, ground arith, ground arith)

module _ (fault : Option ℕ) (clock leader : ℕ) (payload : List ℕ) (v : GroupVote) (t : Thread) where
  -- A member that knows a leader and is not connected to it sends it nothing, and acknowledges
  -- the command all the same.
  pub unconnected_acknowledged :
      t.leader ≡ some leader
      → is_leader t ≡ false
      → t.query ≡ none
      → let acknowledged = ok (record t { out = notify Note.ack ∷ t.out }) in
        (handle_comp_message fault clock (Cmd.mtl payload) t ≡ acknowledged)
        × (handle_comp_message fault clock (Cmd.rfv v) t ≡ acknowledged)
        × (handle_comp_message fault clock (Cmd.rtc v) t ≡ acknowledged)
  unfolding handle_comp_message send_to_leader
  unconnected_acknowledged l n q = (ground arith, ground arith, ground arith)
