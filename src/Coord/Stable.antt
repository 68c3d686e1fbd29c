-- ===== src/Coord/Stable.antt =====
-- The handlers of src/riaps/run/dc.py that serve the component and the members: they write the
-- polls, the identity and the trace of a thread alone.
use riaps_pycom.Prelude.{
  ℕ, Bool, true, false, Option, none, some, Option-cases, List, [], ◌∷◌, inl, inr, Dict, lookup,
  IsUnique, IsUnique-insert, IsUnique-delete, if_either,
}
use riaps_pycom.Coord.Poll.{Poll}
use riaps_pycom.Coord.Message.{
  GroupVote, ForLeader, ForMember, Cmd, Note, Effect, notify, to_leader,
}
use riaps_pycom.Coord.Thread.{Thread, emit}
use riaps_pycom.Coord.Outcome.{
  Outcome, ok, raised, Exception, zmq_error, after, ◌>>=◌, through, send_group, send_to_leader,
  send_to_member, catch_zmq,
}
use riaps_pycom.Coord.Polling.{reply_id, start_poll, check_poll, cast_vote, close_poll}
use riaps_pycom.Coord.Polling.Rounds.{check_poll_lem}
use riaps_pycom.Coord.Comp.{
  acknowledge, announce_through, announce_counted, with_leader, from_leader, ask_group,
  conduct_poll, refuse_poll, count_vote, handle_comp_message,
}
use riaps_pycom.Coord.Member.{handle_message_for_leader, handle_message_for_member}

-- A property that does not look at what those handlers write, except that poll ids differ.
pub record IsStable (P : Thread → Type 0) : Type 0 where
  pub unique : {t : Thread} → P t → IsUnique t.polls
  pub with_polls :
      {t : Thread}
      → P t
      → (polls : Dict Poll) (out : List Effect) (identity : List ℕ) → IsUnique polls
      → P (record t { polls = polls; identity = identity; out = out })

-- The thread that a handler leaves, by returning or by an exception, has the property.
pub record Keeps (P : Thread → Type 0) (o : Outcome) : Type 0 where
  pub kept : P (after o)

module _ {P : Thread → Type 0} (S : IsStable P) where
  emit-Keeps : {t : Thread} (e : Effect) → P t → P (emit e t)
  emit-Keeps {t} e c = S.with_polls c t.polls (e ∷ t.out) t.identity (S.unique c)

  returns : {t : Thread} → P t → Keeps P (ok t)
  returns c = record { kept = c }

  raises : {t : Thread} (e : Exception) → P t → Keeps P (raised e t)
  raises e c = record { kept = c }

  through-Keeps : {t : Thread} (fault : Option ℕ) (e : Effect) → P t → Keeps P (through fault e t)
  through-Keeps none e c = returns (emit-Keeps e c)
  through-Keeps (some errno) e c = raises _ c

  send_to_leader-Keeps :
      {t : Thread} (fault : Option ℕ) (m : ForLeader) → P t → Keeps P (send_to_leader fault m t)
  unfolding send_to_leader
  send_to_leader-Keeps {t} fault m c = elim (Option-cases t.query) [
    | inl e ↦ rw (e, send_to_leader) (returns c)
    | inr (server, e) ↦ rw (e, send_to_leader) (through-Keeps fault (to_leader m) c)
  ]

  pub bind-Keeps :
      (o : Outcome) (f : Thread → Outcome)
      → Keeps P o
      → ((t : Thread) → P t → Keeps P (f t))
      → Keeps P (o >>= f)
  bind-Keeps (ok t) f c h = h t c.kept
  bind-Keeps (raised e t) f c h = raises e c.kept

  catch_zmq-Keeps : (o : Outcome) → Keeps P o → Keeps P (catch_zmq o)
  catch_zmq-Keeps (ok t) c = c
  catch_zmq-Keeps (raised (zmq_error errno) t) c =
      returns (emit-Keeps (notify (Note.err errno)) c.kept)
  catch_zmq-Keeps (raised _ t) c = c

  with_leader-Keeps :
      {t : Thread} (leader : Option ℕ) (body : Outcome)
      → P t
      → Keeps P body
      → Keeps P (with_leader leader t body)
  with_leader-Keeps none body c k = returns (emit-Keeps (notify Note.nld) c)
  with_leader-Keeps (some leader) body c k = catch_zmq-Keeps body k

  acknowledge-Keeps : (t : Thread) → P t → Keeps P (acknowledge t)
  acknowledge-Keeps t c = returns (emit-Keeps (notify Note.ack) c)

  start_poll-Keeps :
      {t : Thread} (clock : ℕ) (v : GroupVote) (member : List ℕ)
      → P t
      → P (start_poll clock v member t).1
  unfolding start_poll
  start_poll-Keeps {t} clock (GroupVote.rfv r) member c =
      if_either (λ (s : Bool × Thread). P s.1) _ _ _ c
        (S.with_polls c _ t.out t.identity (IsUnique-insert r.rfv_id _ t.polls (S.unique c)))
  start_poll-Keeps clock _ member c = c

  refuse_poll-Keeps :
      {t : Thread} (fault : Option ℕ) (v : GroupVote) → P t → Keeps P (refuse_poll fault v t)
  unfolding refuse_poll
  refuse_poll-Keeps fault (GroupVote.rfv r) c = through-Keeps fault _ c
  refuse_poll-Keeps fault _ c = raises _ c

  ask_group-Keeps :
      (fault : Option ℕ) (v : GroupVote) (started : Bool × Thread)
      → P started.1
      → Keeps P (ask_group fault v started)
  unfolding send_group
  ask_group-Keeps fault v (done, t) c =
      if_either (Keeps P) done _ _ (through-Keeps fault _ c) (refuse_poll-Keeps fault v c)

  conduct_poll-Keeps :
      {t : Thread} (fault : Option ℕ) (clock : ℕ) (v : GroupVote) (member : List ℕ)
      → P t
      → Keeps P (conduct_poll fault clock v member t)
  unfolding conduct_poll
  conduct_poll-Keeps {t} fault clock v member c =
      ask_group-Keeps fault v (start_poll clock v member t) (start_poll-Keeps clock v member c)

  close_poll-Keeps :
      (rfv_id : ℕ) (checked : Bool × Thread) → P checked.1 → P (close_poll rfv_id checked)
  close_poll-Keeps rfv_id (done, t) c =
      if_either P done _ _
        (S.with_polls c _ t.out t.identity (IsUnique-delete rfv_id t.polls (S.unique c))) c

  announce_through-Keeps :
      {t : Thread} (fault : Option ℕ) (rfv_id : ℕ) (checked : Bool × Thread)
      → P t
      → P checked.1
      → Keeps P (announce_through fault rfv_id checked t)
  announce_through-Keeps none rfv_id checked c k = returns (close_poll-Keeps rfv_id checked k)
  announce_through-Keeps (some errno) rfv_id (true, s) c k = raises _ c
  announce_through-Keeps (some errno) rfv_id (false, s) c k = returns k

  check_poll-Keeps : {t : Thread} (clock : ℕ) (poll : Poll) → P t → P (check_poll poll clock t).1
  check_poll-Keeps {t} clock poll c =
      rw (check_poll_lem clock poll t) (S.with_polls c t.polls _ t.identity (S.unique c))

  counted-Keeps :
      {t : Thread} (fault : Option ℕ) (clock rfv_id : ℕ) (counted : Option Poll)
      → P t
      → Keeps P (announce_counted fault clock rfv_id (counted, t))
  unfolding check_poll
  counted-Keeps fault clock rfv_id none c = returns c
  counted-Keeps fault clock rfv_id (some poll) c =
      announce_through-Keeps fault rfv_id _ c (check_poll-Keeps clock poll c)

  cast_vote-Keeps : {t : Thread} (v : GroupVote) → P t → P (cast_vote v t).1
  unfolding cast_vote
  cast_vote-Keeps {t} (GroupVote.rtc k b) c = elim (Option-cases (lookup k t.polls)) [
    | inl e ↦ rw (e, cast_vote) c
    | inr (poll, e) ↦
        rw (e, cast_vote)
          (S.with_polls c _ t.out t.identity (IsUnique-insert k _ t.polls (S.unique c)))
  ]
  cast_vote-Keeps _ c = c

  count_vote-Keeps :
      {t : Thread} (fault : Option ℕ) (clock : ℕ) (v : GroupVote)
      → P t
      → Keeps P (count_vote fault clock v t)
  unfolding count_vote
  count_vote-Keeps {t} fault clock v c =
      counted-Keeps fault clock (reply_id v) (cast_vote v t).0 (cast_vote-Keeps v c)

  from_leader-Keeps :
      {t : Thread} (fault : Option ℕ) (payload identity : List ℕ)
      → P t
      → Keeps P (from_leader fault payload identity t)
  unfolding send_to_member
  from_leader-Keeps fault payload [] c = returns (emit-Keeps _ (emit-Keeps _ c))
  from_leader-Keeps {t} fault payload (b ∷ bytes) c =
      bind-Keeps _ _ (through-Keeps fault _ (S.with_polls c t.polls t.out (b ∷ bytes) (S.unique c)))
        acknowledge-Keeps

  -- Every command of the component keeps the invariant, whatever the network refuses.
  pub handle_comp_message-Keeps :
      {t : Thread} (fault : Option ℕ) (clock : ℕ) (m : Cmd)
      → P t
      → Keeps P (handle_comp_message fault clock m t)
  unfolding handle_comp_message
  handle_comp_message-Keeps fault clock (Cmd.upd host port) c = returns (emit-Keeps _ c)
  handle_comp_message-Keeps fault clock (Cmd.msg payload) c =
      catch_zmq-Keeps _ (bind-Keeps _ _ (through-Keeps fault _ c) acknowledge-Keeps)
  handle_comp_message-Keeps {t} fault clock (Cmd.mtl payload) c = with_leader-Keeps t.leader _ c (
      if_either (Keeps P) _ _ _ (returns (emit-Keeps _ (emit-Keeps _ c)))
        (bind-Keeps _ _ (send_to_leader-Keeps fault _ c) acknowledge-Keeps))
  handle_comp_message-Keeps {t} fault clock (Cmd.mfl payload identity) c =
      with_leader-Keeps t.leader _ c (from_leader-Keeps fault payload identity c)
  handle_comp_message-Keeps {t} fault clock (Cmd.rfv v) c = with_leader-Keeps t.leader _ c (
      if_either (Keeps P) _ _ _ (conduct_poll-Keeps fault clock v [] (emit-Keeps _ c))
        (bind-Keeps _ _ (send_to_leader-Keeps fault _ c) acknowledge-Keeps))
  handle_comp_message-Keeps {t} fault clock (Cmd.rtc v) c = with_leader-Keeps t.leader _ c (
      bind-Keeps _ _
        (if_either (Keeps P) _ _ _ (count_vote-Keeps fault clock v c)
          (send_to_leader-Keeps fault _ c))
        acknowledge-Keeps)
  handle_comp_message-Keeps fault clock Cmd.mlt c = through-Keeps fault _ c
  handle_comp_message-Keeps fault clock Cmd.unknown c = returns c

  pub handle_message_for_leader-Keeps :
      {t : Thread} (fault : Option ℕ) (clock : ℕ) (identity : List ℕ) (m : ForLeader)
      → P t
      → Keeps P (handle_message_for_leader fault clock identity m t)
  unfolding handle_message_for_leader
  handle_message_for_leader-Keeps {t} fault clock identity (ForLeader.mtl payload) c =
      returns (emit-Keeps _ (S.with_polls c t.polls t.out identity (S.unique c)))
  handle_message_for_leader-Keeps {t} fault clock identity (ForLeader.rfv v) c =
      conduct_poll-Keeps fault clock v identity (S.with_polls c t.polls t.out identity (S.unique c))
  handle_message_for_leader-Keeps {t} fault clock identity (ForLeader.rtc v) c =
      count_vote-Keeps fault clock v (S.with_polls c t.polls t.out identity (S.unique c))
  handle_message_for_leader-Keeps {t} fault clock identity ForLeader.unknown c =
      returns (S.with_polls c t.polls t.out identity (S.unique c))

  pub handle_message_for_member-Keeps :
      {t : Thread} (m : ForMember) → P t → P (handle_message_for_member m t)
  unfolding handle_message_for_member
  handle_message_for_member-Keeps (ForMember.mfl payload) c = emit-Keeps _ c
  handle_message_for_member-Keeps ForMember.unknown c = c
