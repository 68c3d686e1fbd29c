-- ===== src/Coord/Coherent.antt =====
-- The invariant of a coordinated group thread (src/riaps/run/dc.py), and the shared operations
-- under it.
pub mod Elections
pub mod Commands
pub mod Runs
pub mod Peers
use riaps_pycom.Prelude.{
  ℕ, ◌+◌, ◌*◌, ◌/◌, ◌<◌, ◌≤◌, ◌≡◌, refl, Bool, true, false, Option, none, some, List, [], ◌∷◌, Dict,
  delete, delete_all, length, inl, inr, List-cases, IsUnique, IsUnique-delete_all, ltb, leb, arith,
}
use riaps_pycom.Coord.Message.{Note, Effect, notify}
use riaps_pycom.Coord.Thread.{
  Role, follower, candidate, leading, Params, Thread, Draw, randrange, set_leader_deadline,
  election_timeout, set_timeout, heartbeat, drop_peers, recount, update_peers, leavers, stale,
  update_timeout, query_update,
}

-- What Group.setupParams asserts before the thread is made.
pub record IsOrdered (p : Params) : Type 0 where
  pub beats : 0 < p.heartbeat
  pub beat_before_election : p.heartbeat < p.election_min
  pub election_range : p.election_min < p.election_max
  pub election_before_peer : p.election_max < p.peer_timeout
  pub consensus_before_election : p.consensus_timeout < p.election_max

abbrev pub IsBound : Option ℕ → Type 0
IsBound none = ⊥
IsBound (some port) = Unit

-- A candidate has no leader and has voted for itself. A leader knows itself as the leader and has
-- an answer port.
abbrev pub RoleAgrees : Role → (own : ℕ) → (leader voted_for ldr_port : Option ℕ) → Type 0
RoleAgrees follower own leader voted_for ldr_port = Unit
RoleAgrees candidate own leader voted_for ldr_port = (leader ≡ none) × (voted_for ≡ some own)
RoleAgrees leading own leader voted_for ldr_port = (leader ≡ some own) × IsBound ldr_port

pub record IsCoherent (t : Thread) : Type 0 where
  pub in_group : t.coordinated ≡ true
  pub ordered : IsOrdered t.params
  pub counted : t.num_peers ≡ length t.peers
  pub unique_peers : IsUnique t.peers
  pub unique_polls : IsUnique t.polls
  pub role : RoleAgrees t.state t.own t.leader t.voted_for t.ldr_port
  pub bound : t.ldr_port ≡ t.answer
  pub waits : 0 < t.timeout

-- Both random timeouts lie in the ranges that the parameters name.
pub randrange_bounds :
    (lo hi random : ℕ) → lo < hi → (lo ≤ randrange lo hi random) × (randrange lo hi random < hi)
unfolding randrange
randrange_bounds lo hi random h = grind arith

-- The notes that tell the component who dropped out, the newest first.
abbrev pub left_notes : List ℕ → List Effect → List Effect
left_notes [] out = out
left_notes (leaver ∷ rest) out = left_notes rest (notify (Note.mlt leaver) ∷ out)

pub drop_peers_lem :
    (gone : List ℕ) (t : Thread)
    → drop_peers gone t ≡ record t { out = left_notes gone t.out; peers = delete_all gone t.peers }
unfolding drop_peers delete_all
drop_peers_lem [] t = refl
drop_peers_lem (leaver ∷ rest) t =
    drop_peers_lem rest
      (record t { out = notify (Note.mlt leaver) ∷ t.out; peers = delete leaver t.peers })

module _ {t : Thread} (c : IsCoherent t) where
  pub heartbeat-IsCoherent : (now : ℕ) → IsCoherent (heartbeat now t)
  unfolding heartbeat
  heartbeat-IsCoherent now = ground arith

  pub update_peers-IsCoherent : (now : ℕ) → IsCoherent (update_peers now t)
  unfolding update_peers
  update_peers-IsCoherent now = elim (List-cases (leavers (stale now t) t.peers)) [
    | inl e ↦ rw (e, update_peers) c
    | inr (p, ps, e) ↦
        rw (e, update_peers, drop_peers_lem (p ∷ ps) t)
          (record {
            in_group = c.in_group;
            ordered = c.ordered;
            counted = refl;
            unique_peers = IsUnique-delete_all (p ∷ ps) t.peers c.unique_peers;
            unique_polls = c.unique_polls;
            role = c.role;
            bound = c.bound;
            waits = c.waits;
          })
  ]

  pub update_timeout-IsCoherent : (now : ℕ) → IsCoherent (update_timeout now t)
  unfolding update_timeout
  update_timeout-IsCoherent now = ground arith

  pub election_timeout_pos : (d : Draw) → 0 < election_timeout d t
  unfolding election_timeout
  election_timeout_pos d =
      let o = c.ordered in
      omega (
        arith,
        randrange_bounds t.params.election_min t.params.election_max d.election o.election_range,
        o.beat_before_election,
      )
