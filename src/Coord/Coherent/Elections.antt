-- ===== src/Coord/Coherent/Elections.antt =====
-- The invariant of the thread, through the handlers of src/riaps/run/dc.py for the messages of the
-- group.
use riaps_pycom.Prelude.{
  ℕ, ◌≡◌, refl, Bool, Option, none, some, List, if_true, IsUnique-insert, IsUnique-delete, arith,
}
use riaps_pycom.Coord.Message.{Net, Note}
use riaps_pycom.Coord.Thread.{
  Role, follower, candidate, leading, Thread, Draw, election_timeout, set_timeout, query_update,
  update_timeout, recount,
}
use riaps_pycom.Coord.Outcome.{after}
use riaps_pycom.Coord.Net.{
  follower_vote, follower_ldr, candidate_vote, candidate_ldr, candidate_count, leader_ldr,
  as_follower, as_candidate, as_leader, election, hear_peer, peer_left, forward, handle_net_message,
  leave_net, coordinate,
}
use riaps_pycom.Coord.Coherent.{IsCoherent, election_timeout_pos}

-- The query port's connection is no part of the invariant.
query_update-IsCoherent :
    {t : Thread} (server : Option (ℕ × ℕ)) → IsCoherent t → IsCoherent (query_update server t)
unfolding query_update
query_update-IsCoherent server c = ground arith

module _ {t : Thread} (c : IsCoherent t) (now : ℕ) (d : Draw) where
  pub follower_vote-IsCoherent :
      (term node : ℕ) → t.state ≡ follower → IsCoherent (follower_vote now d term node t)
  unfolding follower_vote
  follower_vote-IsCoherent term node f = ground (arith, election_timeout_pos c d)

  follower_ldr-IsCoherent :
      (term leader host port : ℕ) → IsCoherent (follower_ldr now d term leader host port t)
  unfolding follower_ldr
  follower_ldr-IsCoherent term leader host port = ground (arith, election_timeout_pos c d)

  candidate_ldr-IsCoherent :
      (term leader host port : ℕ) → IsCoherent (candidate_ldr now d term leader host port t)
  unfolding candidate_ldr
  candidate_ldr-IsCoherent term leader host port = ground (arith, election_timeout_pos c d)

  candidate_vote-IsCoherent :
      (term node : ℕ) → t.state ≡ candidate → IsCoherent (candidate_vote now d term node t)
  unfolding candidate_vote
  candidate_vote-IsCoherent term node f = ground (arith, election_timeout_pos c d)

  leader_ldr-IsCoherent :
      (term leader host port : ℕ) → IsCoherent (leader_ldr now d term leader host port t)
  unfolding leader_ldr
  leader_ldr-IsCoherent term leader host port =
      ground (arith, election_timeout_pos c d, c.ordered.beats)

  -- Counting a vote keeps the invariant, whether it wins, waits, or the port fails.
  candidate_count-IsCoherent :
      (port chosen : ℕ) (yes_vote : Bool)
      → t.state ≡ candidate
      → IsCoherent (after (candidate_count now port chosen yes_vote t))
  unfolding candidate_count
  candidate_count-IsCoherent port chosen yes_vote f = ground (arith, c.ordered.beats)

  stay-IsCoherent : IsCoherent (set_timeout (election_timeout d t) now t)
  unfolding set_timeout
  stay-IsCoherent = ground (arith, election_timeout_pos c d)

  lead-IsCoherent : IsCoherent (set_timeout t.params.heartbeat now t)
  unfolding set_timeout
  lead-IsCoherent = ground (arith, c.ordered.beats)

  as_follower-IsCoherent : (m : Net) → t.state ≡ follower → IsCoherent (as_follower now d m t)
  unfolding as_follower
  as_follower-IsCoherent (Net.ldr term leader host port) f =
      follower_ldr-IsCoherent term leader host port
  as_follower-IsCoherent (Net.req term node) f = follower_vote-IsCoherent term node f
  as_follower-IsCoherent (Net.vot term chosen v node) f = stay-IsCoherent
  as_follower-IsCoherent _ f = c

  as_candidate-IsCoherent :
      (m : Net) → t.state ≡ candidate → IsCoherent (after (as_candidate now d m t))
  unfolding as_candidate
  as_candidate-IsCoherent (Net.ldr term leader host port) f =
      candidate_ldr-IsCoherent term leader host port
  as_candidate-IsCoherent (Net.req term node) f = candidate_vote-IsCoherent term node f
  as_candidate-IsCoherent (Net.vot term chosen v node) f =
      candidate_count-IsCoherent d.port chosen v f
  as_candidate-IsCoherent _ f = c

  as_leader-IsCoherent : (m : Net) → IsCoherent (as_leader now d m t)
  unfolding as_leader
  as_leader-IsCoherent (Net.ldr term leader host port) = leader_ldr-IsCoherent term leader host port
  as_leader-IsCoherent (Net.msg payload) = lead-IsCoherent
  as_leader-IsCoherent _ = lead-IsCoherent

  election-IsCoherent :
      (role : Role) (m : Net) → t.state ≡ role → IsCoherent (after (election role now d m t))
  election-IsCoherent follower m f = as_follower-IsCoherent m f
  election-IsCoherent candidate m f = as_candidate-IsCoherent m f
  election-IsCoherent leading m f = as_leader-IsCoherent m

  hear_peer-IsCoherent : (peer : ℕ) → IsCoherent (hear_peer now peer t)
  unfolding hear_peer update_timeout recount
  hear_peer-IsCoherent peer = record {
    in_group = c.in_group;
    ordered = c.ordered;
    counted = refl;
    unique_peers = IsUnique-insert peer now t.peers c.unique_peers;
    unique_polls = c.unique_polls;
    role = c.role;
    bound = c.bound;
    waits = ground arith;
  }

  forward-IsCoherent : (note : Note) → IsCoherent (forward now d note t)
  unfolding forward
  forward-IsCoherent note = ground arith

  peer_left-IsCoherent : (leaver : ℕ) → IsCoherent (peer_left leaver t)
  unfolding peer_left recount
  peer_left-IsCoherent leaver = ground (arith, IsUnique-delete leaver t.peers c.unique_peers)

abbrev NetIsCoherent : Thread → ℕ → Draw → Net → Type 0
NetIsCoherent t now d m = IsCoherent (after (handle_net_message now d m t))

module _ {t : Thread} (c : IsCoherent t) (now : ℕ) (d : Draw) where
  data_IsCoherent : (payload : List ℕ) → NetIsCoherent t now d (Net.msg payload)
  unfolding handle_net_message update_timeout
  data_IsCoherent payload = ground arith

  leave_IsCoherent : (leaver : ℕ) → IsCoherent (after (leave_net now d (some leaver) t))
  leave_IsCoherent leaver =
      if_true (λ o. IsCoherent (after o)) _ _ c.in_group
        (election-IsCoherent (peer_left-IsCoherent c now d leaver) now d (peer_left leaver t).state
          (Net.mlt (some leaver)) refl)

  coordinate-IsCoherent : (m : Net) → IsCoherent (after (coordinate now d m t))
  coordinate-IsCoherent (Net.tic none) = c
  coordinate-IsCoherent (Net.tic (some peer)) = hear_peer-IsCoherent c now d peer
  coordinate-IsCoherent (Net.rcm v) = forward-IsCoherent c now d (Note.rcm v)
  coordinate-IsCoherent (Net.ann v) = forward-IsCoherent c now d (Note.ann v)
  coordinate-IsCoherent (Net.msg payload) =
      election-IsCoherent c now d t.state (Net.msg payload) refl
  coordinate-IsCoherent m = election-IsCoherent c now d t.state m refl

  -- Every message of the group, well formed or not, keeps the invariant of a coordinated thread.
  pub handle_net_message-IsCoherent : (m : Net) → NetIsCoherent t now d m
  unfolding handle_net_message
  handle_net_message-IsCoherent (Net.msg payload) = data_IsCoherent payload
  handle_net_message-IsCoherent (Net.mlt none) = c
  handle_net_message-IsCoherent (Net.mlt (some leaver)) = leave_IsCoherent leaver
  handle_net_message-IsCoherent m =
      if_true (λ o. IsCoherent (after o)) _ _ c.in_group (coordinate-IsCoherent m)
