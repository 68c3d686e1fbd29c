-- ===== src/Actor/Process/Updates.antt =====
-- Where the updates of the discovery service go (src/riaps/run/actor.py).
use riaps_pycom.Prelude.{
  ℕ, ◌≡◌, Bool, true, ◌&&◌, Option, none, some, inl, inr, Option-cases, if◌then◌else◌, ◌==◌, lookup,
  lookup-insert, arith,
}
use riaps_pycom.Actor.Part.{Part, Result, ok, raised, blocked, after, call, port_updated}
use riaps_pycom.Actor.Process.{
  Actor, Outcome, done, part_raised, failed, waits, put_back, update_part, PortUpdate, port_update,
  is_for, is_global, handle_service_update,
}

-- The actor as a method left it.
abbrev pub reached : Outcome → Actor
reached (done a) = a
reached (part_raised x a) = a
reached (failed a) = a
reached (waits a) = a

-- The update is for a part of this actor, and comes from this host unless its scope is global.
unfoldable pub is_taken : Actor → PortUpdate → Bool
is_taken a u = is_for a u && (if is_global u.scope then true else u.host == a.local_host)

abbrev pub updated : PortUpdate → Option Part → Option Part
updated u none = none
updated u (some p) = some (after (call (port_updated u.port_name (u.host, u.port)) p))

reached-put_back :
    (a : Actor) (n m : ℕ) (r : Result)
    → lookup m (reached (put_back a n r)).components
      ≡ (if n == m then some (after r) else lookup m a.components)
reached-put_back a n m (ok q) = lookup-insert n m q a.components
reached-put_back a n m (raised x q) = lookup-insert n m q a.components
reached-put_back a n m (blocked q) = lookup-insert n m q a.components

update_part_lem :
    (u : PortUpdate) (a : Actor) (m : ℕ)
    → lookup m (reached (update_part u.instance_name u.port_name (u.host, u.port) a)).components
      ≡ (if u.instance_name == m then updated u (lookup m a.components) else lookup m a.components)
unfolding update_part
update_part_lem u a m = elim (Option-cases (lookup u.instance_name a.components)) [
  | inl e ↦ rw (e, update_part) (ground arith)
  | inr (p, e) ↦
      rw (e, update_part)
        (ground (
          arith,
          reached-put_back a u.instance_name m (call (port_updated u.port_name (u.host, u.port)) p),
        ))
]

-- An update of the discovery service reaches one part at most: that of the named instance, if the
-- update names this host and this actor, the actor has such a part, and a service that is not
-- global is on this host. That part is told of the port and the address; every other part, and
-- every part if the update is not taken, stays as it was.
pub handle_service_update-lookup :
    (u : PortUpdate) (a : Actor) (m : ℕ)
    → lookup m (reached (handle_service_update (port_update u) a)).components ≡ (
        if is_taken a u && (u.instance_name == m)
        then updated u (lookup m a.components)
        else lookup m a.components)
unfolding handle_service_update is_taken
handle_service_update-lookup u a m = ground (arith, update_part_lem u a m)
