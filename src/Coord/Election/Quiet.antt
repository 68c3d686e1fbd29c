-- ===== src/Coord/Election/Quiet.antt =====
-- The messages of the group that give a follower of src/riaps/run/dc.py no deadline for its
-- leader.
use riaps_pycom.Prelude.{ℕ, ◌≡◌, refl, Option, none, some, List, ◌∙◌, if_either, arith}
use riaps_pycom.Coord.Message.{Net}
use riaps_pycom.Coord.Thread.{Role, follower, candidate, leading, Thread, Draw}
use riaps_pycom.Coord.Outcome.{after}
use riaps_pycom.Coord.Net.{
  as_follower, election, hear_peer, peer_left, leave_net, coordinate, handle_net_message,
}

-- No authority of a leader, and no request or announcement of one.
abbrev pub IsQuietNet : Net → Type 0
IsQuietNet (Net.ldr _ _ _ _) = ⊥
IsQuietNet (Net.rcm _) = ⊥
IsQuietNet (Net.ann _) = ⊥
IsQuietNet _ = Unit

abbrev pub IsQuietSub : Option Net → Type 0
IsQuietSub none = Unit
IsQuietSub (some m) = IsQuietNet m

-- The role and the deadline are the same.
abbrev pub SameRole : Thread → Thread → Type 0
SameRole s t = (s.state ≡ t.state) × (s.leader_deadline ≡ t.leader_deadline)

as_follower-SameRole :
    (now : ℕ) (d : Draw) (m : Net) (t : Thread)
    → IsQuietNet m
    → t.leader_deadline ≡ none
    → SameRole (as_follower now d m t) t
unfolding as_follower
as_follower-SameRole now d (Net.req term node) t q n = ground arith
as_follower-SameRole now d (Net.ldr _ _ _ _) t q n = absurd q
as_follower-SameRole now d m t q n = (refl, refl)

elect-SameRole :
    (role : Role) (now : ℕ) (d : Draw) (m : Net) (t : Thread)
    → role ≡ follower
    → IsQuietNet m
    → t.leader_deadline ≡ none
    → SameRole (after (election role now d m t)) t
elect-SameRole follower now d m t r q n = as_follower-SameRole now d m t q n
elect-SameRole candidate now d m t r q n = absurd (cc r)
elect-SameRole leading now d m t r q n = absurd (cc r)

peer_left-SameRole : (leaver : ℕ) (t : Thread) → SameRole (peer_left leaver t) t
unfolding peer_left
peer_left-SameRole leaver t = ground arith

hear_peer-SameRole : (now peer : ℕ) (t : Thread) → SameRole (hear_peer now peer t) t
unfolding hear_peer
hear_peer-SameRole now peer t = (refl, refl)

data_SameRole :
    (now : ℕ) (d : Draw) (payload : List ℕ) (t : Thread)
    → SameRole (after (handle_net_message now d (Net.msg payload) t)) t
unfolding handle_net_message
data_SameRole now d payload t = ground arith

leave-SameRole :
    (now : ℕ) (d : Draw) (leaver : Option ℕ) (t : Thread)
    → t.state ≡ follower
    → t.leader_deadline ≡ none
    → SameRole (after (leave_net now d leaver t)) t
leave-SameRole now d none t f n = (refl, refl)
leave-SameRole now d (some leaver) t f n =
    let (st, dl) = peer_left-SameRole leaver t in
    let t1 = peer_left leaver t in
    let (st', dl') =
      elect-SameRole t1.state now d (Net.mlt (some leaver)) t1 (st ∙ f) tt (dl ∙ n) in
    if_either (λ o. SameRole (after o) t) t.coordinated _ _ (st' ∙ st, dl' ∙ dl) (refl, refl)

coordinate-SameRole :
    (now : ℕ) (d : Draw) (m : Net) (t : Thread)
    → IsQuietNet m
    → t.state ≡ follower
    → t.leader_deadline ≡ none
    → SameRole (after (coordinate now d m t)) t
coordinate-SameRole now d (Net.tic none) t q f n = (refl, refl)
coordinate-SameRole now d (Net.tic (some peer)) t q f n = hear_peer-SameRole now peer t
coordinate-SameRole now d (Net.rcm v) t q f n = absurd q
coordinate-SameRole now d (Net.ann v) t q f n = absurd q
coordinate-SameRole now d (Net.msg payload) t q f n =
    elect-SameRole t.state now d (Net.msg payload) t f q n
coordinate-SameRole now d m t q f n = elect-SameRole t.state now d m t f q n

pub handle_net_message-SameRole :
    (now : ℕ) (d : Draw) (m : Net) (t : Thread)
    → IsQuietNet m
    → t.state ≡ follower
    → t.leader_deadline ≡ none
    → SameRole (after (handle_net_message now d m t)) t
unfolding handle_net_message
handle_net_message-SameRole now d (Net.msg payload) t q f n = data_SameRole now d payload t
handle_net_message-SameRole now d (Net.mlt leaver) t q f n = leave-SameRole now d leaver t f n
handle_net_message-SameRole now d m t q f n =
    if_either (λ o. SameRole (after o) t) t.coordinated _ _ (coordinate-SameRole now d m t q f n)
      (refl, refl)
