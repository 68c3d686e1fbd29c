-- ===== src/Coord/Timeout.antt =====
-- handleTimeout of GroupThread (src/riaps/run/dc.py).
use riaps_pycom.Prelude.{
  ℕ, ◌+◌, ◌/◌, Bool, false, ◌&&◌, Option, none, some, List, ◌∷◌, ltb, same, if◌then◌else◌,
}
use riaps_pycom.Coord.Message.{Net, Note, Effect, publish, notify}
use riaps_pycom.Coord.Thread.{
  Role, follower, candidate, leading, Thread, Draw, emit, own_id, set_leader_deadline,
  election_timeout, set_timeout, update_peers, query_update,
}
use riaps_pycom.Coord.Outcome.{Outcome, ok, raised, assertion_error, type_error}
use riaps_pycom.Coord.Polling.{check_all_polls}

-- `self.leaderDeadline and now > self.leaderDeadline`; a deadline of 0.0 counts as none
unfoldable pub past_deadline : ℕ → Option ℕ → Bool
past_deadline now none = false
past_deadline now (some deadline) = ltb 0 deadline && ltb deadline now

-- `if self.leader != None: self.sendChangeMessage(Group.GROUP_LEX, self.leader)`
abbrev pub leader_exit : Option ℕ → List Effect → List Effect
leader_exit none out = out
leader_exit (some leader) out = notify (Note.lex leader) ∷ out

unfoldable pub start_election : ℕ → Draw → Thread → Thread
unfolding query_update set_timeout election_timeout
start_election now d t =
    let t1 = query_update none (record t {
      out = leader_exit t.leader t.out;
      term = t.term + 1;
      state = candidate;
      votes = 1;
      voted_for = some t.own;
    }) in
    let t2 =
      set_timeout (election_timeout d t) now (emit (publish (Net.req (t.term + 1) t.own)) t1) in
    record t2 { leader_deadline = none; leader = none }

unfoldable pub follower_timeout : ℕ → Draw → Thread → Thread
unfolding past_deadline start_election set_leader_deadline set_timeout
follower_timeout now d t =
    if past_deadline now t.leader_deadline
    then if ltb (t.group_size / 2 + 1) t.num_peers
      then start_election now d t
      else set_timeout t.params.heartbeat now (set_leader_deadline d t)
    else set_timeout t.params.heartbeat now t

unfoldable pub candidate_timeout : ℕ → Thread → Thread
unfolding set_timeout
candidate_timeout now t =
    let t1 = set_timeout t.params.heartbeat now (record t {
      state = follower;
      voted_for = none;
      out = leader_exit t.leader t.out;
      leader = none;
    }) in
    record t1 { leader_deadline = none }

abbrev note_leadership : ℕ → Thread → Option ℕ → Outcome
note_leadership now t none = raised type_error t
note_leadership now t (some port) =
    let t1 =
      set_timeout t.params.heartbeat now (emit (publish (Net.ldr t.term t.own t.host port)) t) in
    ok (record t1 { leader_deadline = none })

unfoldable pub leader_timeout : ℕ → Thread → Outcome
unfolding set_timeout own_id
leader_timeout now t =
    if same t.leader (own_id t) then note_leadership now t t.ldr_port else raised assertion_error t

abbrev pub on_timeout : Role → ℕ → Draw → Thread → Outcome
on_timeout follower now d t = ok (follower_timeout now d t)
on_timeout candidate now d t = ok (candidate_timeout now t)
on_timeout leading now d t = leader_timeout now t

unfoldable pub handle_timeout : ℕ → Draw → Thread → Outcome
unfolding follower_timeout candidate_timeout leader_timeout
handle_timeout now d t =
    if t.coordinated
    then (let t1 = check_all_polls now (update_peers now t) in on_timeout t1.state now d t1)
    else raised assertion_error t
