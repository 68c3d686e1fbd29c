-- ===== src/Coord/Net.antt =====
-- handleNetMessage of GroupThread (src/riaps/run/dc.py): what members publish to the group.
use riaps_pycom.Prelude.{
  ℕ, ◌+◌, Bool, true, false, not, ◌&&◌, Option, none, some, List, ◌∷◌, insert, delete, has_key, ltb,
  leb, ◌==◌, same, if◌then◌else◌,
}
use riaps_pycom.Coord.Message.{Net, Note, Effect, publish, notify}
use riaps_pycom.Coord.Thread.{
  Role, follower, candidate, leading, Thread, Draw, emit, send_change, set_leader_deadline,
  election_timeout, threshold, set_timeout, update_timeout, query_update, recount,
}
use riaps_pycom.Coord.Outcome.{Outcome, ok, raised, ◌>>=◌, struct_error, attribute_error}
use riaps_pycom.Coord.Timeout.{leader_exit}

-- `if prevLeader != _leader: self.sendChangeMessage(Group.GROUP_LEL, self.leader)`
abbrev pub leader_elected : Option ℕ → ℕ → List Effect → List Effect
leader_elected previous leader out =
    if same previous (some leader) then out else notify (Note.lel leader) ∷ out

-- The assignments that each role makes when it accepts a leader.
unfoldable pub accept_leader : (term leader : ℕ) → Thread → Thread
accept_leader term leader t = record t {
  state = follower;
  term = term;
  leader = some leader;
  out = leader_elected t.leader leader t.out;
  voted_for = none;
}

-- Port number 0 says that there is no leader (NO_LEADER).
abbrev leader_endpoint : (host port : ℕ) → Option (ℕ × ℕ)
leader_endpoint host port = if port == 0 then none else some (host, port)

-- The vote of a follower on a request.
unfoldable pub ballot : (term node : ℕ) → Thread → Bool
ballot term node t = elim t.voted_for [
  | none ↦ true
  | some chosen ↦ if ltb t.term term then true else node == chosen
]

unfoldable pub follower_vote : ℕ → Draw → (term node : ℕ) → Thread → Thread
unfolding ballot query_update set_timeout election_timeout
follower_vote now d term node t =
    let yes_vote = ballot term node t in
    let t1 = query_update none (record t {
      out = leader_exit t.leader (publish (Net.vot term node yes_vote t.own) ∷ t.out);
      term = term;
      leader_deadline = none;
      leader = none;
    }) in
    set_timeout (election_timeout d t) now
      (record t1 { voted_for = if yes_vote then some node else t.voted_for })

unfoldable pub follower_ldr : ℕ → Draw → (term leader host port : ℕ) → Thread → Thread
unfolding accept_leader set_leader_deadline set_timeout election_timeout query_update
follower_ldr now d term leader host port t =
    query_update (leader_endpoint host port)
      (set_leader_deadline d (set_timeout (election_timeout d t) now (accept_leader term leader t)))

unfoldable pub candidate_ldr : ℕ → Draw → (term leader host port : ℕ) → Thread → Thread
unfolding accept_leader set_leader_deadline set_timeout election_timeout query_update
candidate_ldr now d term leader host port t = set_leader_deadline d (
    set_timeout (election_timeout d t) now
      (query_update (some (host, port)) (accept_leader term leader t)))

unfoldable pub candidate_vote : ℕ → Draw → (term node : ℕ) → Thread → Thread
unfolding set_timeout election_timeout query_update
candidate_vote now d term node t = set_timeout (election_timeout d t) now (
    if term == t.term
    then if node == t.own then t else emit (publish (Net.vot term node false t.own)) t
    else if ltb t.term term
    then query_update none (record t {
      state = follower;
      out = leader_exit t.leader (publish (Net.vot term node true t.own) ∷ t.out);
      term = term;
      leader = none;
      voted_for = some node;
    })
    else t)

-- GroupAnsPort.updatePoller of run/dcPorts.py: it binds the answer port. Where the port is bound
-- already, its first statement reads `self.self`, and raises. `port` is the number that zmq binds.
abbrev update_poller : (port : ℕ) → Thread → Option ℕ → Outcome
update_poller port t none = ok (record t { answer = some port; ldr_port = some port })
update_poller port t (some bound) = raised attribute_error t

unfoldable pub win : ℕ → (port : ℕ) → Thread → Outcome
unfolding set_timeout
win now port t =
    update_poller port
      (record t { state = leading; leader = some t.own; out = notify (Note.lel t.own) ∷ t.out })
      t.answer
    >>= λ t1. ok (
        set_timeout t1.params.heartbeat now
          (emit (publish (Net.ldr t1.term t1.own t1.host port)) t1))

unfoldable pub candidate_count : ℕ → (port : ℕ) → (chosen : ℕ) (yes_vote : Bool) → Thread → Outcome
unfolding win threshold
candidate_count now port chosen yes_vote t =
    if yes_vote && (chosen == t.own)
    then (let t1 = record t { votes = t.votes + 1 } in
        if leb (threshold t1) t1.votes then win now port t1 else ok t1)
    else ok t

-- A leader gives way to another leader of its own term only.
unfoldable pub leader_ldr : ℕ → Draw → (term leader host port : ℕ) → Thread → Thread
unfolding accept_leader set_leader_deadline set_timeout election_timeout query_update
leader_ldr now d term leader host port t =
    if (t.term == term) && not (t.own == leader)
    then set_timeout (election_timeout d t) now
        (set_leader_deadline d (query_update (some (host, port)) (accept_leader term leader t)))
    else set_timeout t.params.heartbeat now t

unfoldable pub as_follower : ℕ → Draw → Net → Thread → Thread
unfolding follower_ldr follower_vote
as_follower now d (Net.ldr term leader host port) t = follower_ldr now d term leader host port t
as_follower now d (Net.req term node) t = follower_vote now d term node t
as_follower now d (Net.vot _ _ _ _) t = set_timeout (election_timeout d t) now t
as_follower now d _ t = t

unfoldable pub as_candidate : ℕ → Draw → Net → Thread → Outcome
unfolding candidate_vote candidate_count candidate_ldr
as_candidate now d (Net.req term node) t = ok (candidate_vote now d term node t)
as_candidate now d (Net.vot _ chosen yes_vote _) t = candidate_count now d.port chosen yes_vote t
as_candidate now d (Net.ldr term leader host port) t =
    ok (candidate_ldr now d term leader host port t)
as_candidate now d _ t = ok t

unfoldable pub as_leader : ℕ → Draw → Net → Thread → Thread
unfolding leader_ldr
as_leader now d (Net.ldr term leader host port) t = leader_ldr now d term leader host port t
as_leader now d _ t = set_timeout t.params.heartbeat now t

abbrev pub election : Role → ℕ → Draw → Net → Thread → Outcome
election follower now d m t = ok (as_follower now d m t)
election candidate now d m t = as_candidate now d m t
election leading now d m t = ok (as_leader now d m t)

-- An incoming heartbeat of a peer.
unfoldable pub hear_peer : ℕ → (peer : ℕ) → Thread → Thread
unfolding update_timeout recount
hear_peer now peer t = update_timeout now (
    recount (record t {
      out = if has_key peer t.peers then t.out else notify (Note.mjd peer) ∷ t.out;
      peers = insert peer now t.peers;
    }))

unfoldable pub peer_left : (leaver : ℕ) → Thread → Thread
unfolding recount
peer_left leaver t = recount (
    if has_key leaver t.peers
    then record t { out = notify (Note.mlt leaver) ∷ t.out; peers = delete leaver t.peers }
    else t)

-- A request or an announcement of the leader goes to the component, and sets the next deadline.
unfoldable pub forward : ℕ → Draw → Note → Thread → Thread
unfolding update_timeout set_leader_deadline
forward now d note t = set_leader_deadline d (update_timeout now (send_change note t))

-- `self.peers` is there for coordinated groups only
abbrev pub leave_net : ℕ → Draw → Option ℕ → Thread → Outcome
leave_net now d none t = raised struct_error t
leave_net now d (some leaver) t =
    if t.coordinated
    then (let t1 = peer_left leaver t in election t1.state now d (Net.mlt (some leaver)) t1)
    else raised attribute_error t

abbrev pub coordinate : ℕ → Draw → Net → Thread → Outcome
coordinate now d (Net.tic none) t = ok t
coordinate now d (Net.tic (some peer)) t = ok (hear_peer now peer t)
coordinate now d (Net.rcm v) t = ok (forward now d (Note.rcm v) t)
coordinate now d (Net.ann v) t = ok (forward now d (Note.ann v) t)
coordinate now d m t = election t.state now d m t

unfoldable pub handle_net_message : ℕ → Draw → Net → Thread → Outcome
unfolding hear_peer peer_left forward as_follower as_candidate as_leader
handle_net_message now d (Net.msg payload) t =
    (let t1 = send_change (Note.msg payload) t in
      ok (if t.coordinated then update_timeout now t1 else t1))
handle_net_message now d (Net.mlt leaver) t = leave_net now d leaver t
handle_net_message now d m t = if t.coordinated then coordinate now d m t else ok t
