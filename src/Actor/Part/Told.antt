-- ===== src/Actor/Part/Told.antt =====
-- What the thread of a part of src/riaps/run/part.py has been told, against the part's state.
use riaps_pycom.Prelude.{
  ◌≡◌, ◌≢◌, refl, Bool, true, false, Option, none, some, List, [], ◌∷◌, ◌++◌, if◌then◌else◌, All,
  arith,
}
use riaps_pycom.Actor.Port.{PortInfo}
use riaps_pycom.Actor.Thread.{
  Command, build, kill, activate, deactivate, passivate, port_update, limit_cpu, limit_mem,
  limit_spc, limit_net, nic_state, peer_state,
}
use riaps_pycom.Actor.Part.{
  State, initial, ready, active, inactive, passive, Part, after, finish_setup, send_control,
  register_endpoint, register_all, wait_for, Waited, all_done, invalid, waits, provides,
  handle_reinstate, Call, set_up, activated, deactivated, passivated, reactivated, checkpointed,
  destroyed_, port_updated, reinstated, cpu_limit, mem_limit, spc_limit, net_limit, terminated,
  nic_changed, peer_changed, call, calls,
}

-- The state that a command stands for.
unfoldable pub told : Command → State → State
told build initial = ready
told passivate active = passive
told activate s = active
told deactivate s = inactive
told _ s = s

unfoldable pub standing : State → List Command → State
unfolding told
standing s [] = s
standing s (c ∷ l) = standing (told c s) l

-- The calls that leave the part and its thread in agreement: all but `reactivate`, which tells the
-- thread nothing, and a `setup` that does not come to its end.
abbrev completes : Waited → Bool
completes (all_done l) = true
completes invalid = false
completes waits = false

unfoldable pub agrees : Call → Bool
agrees (set_up l) = completes (wait_for l)
agrees reactivated = false
agrees _ = true

standing-snoc :
    (s : State) (l : List Command) (c : Command) → standing s (l ++ c ∷ []) ≡ told c (standing s l)
unfolding standing
standing-snoc s [] c = refl
standing-snoc s (d ∷ l) c = standing-snoc (told d s) l c

-- The state is the one that the thread was told, and a part that is set up has its control socket.
pub record IsTold (p : Part) : Type 0 where
  pub state : p.state ≡ standing initial p.sent
  pub control : p.state ≢ initial → p.control ≡ true

register_all_lem :
    (l : List PortInfo) (p : Part)
    → ((register_all l p).sent ≡ p.sent) × ((register_all l p).control ≡ p.control)
unfolding register_all
register_all_lem [] p = (refl, refl)
register_all_lem (i ∷ l) p = register_all_lem l (register_endpoint i p)

handle_reinstate-IsTold :
    (l : List (Option PortInfo)) (p : Part) → IsTold p → IsTold (after (handle_reinstate l p))
unfolding handle_reinstate
handle_reinstate-IsTold [] p h = h
handle_reinstate-IsTold (none ∷ l) p h = h
handle_reinstate-IsTold (some i ∷ l) p h =
    handle_reinstate-IsTold l (if provides i.port_kind then register_endpoint i p else p)
      (ground arith)

finished :
    (w : Waited) (q : Part)
    → completes w ≡ true
    → q.state ≡ initial
    → q.control ≡ true
    → standing initial q.sent ≡ ready
    → IsTold (after (finish_setup w q))
finished (all_done l) q h e f g = ground (arith, register_all_lem l q)
finished invalid q h e f g = cc
finished waits q h e f g = cc

call-IsTold : (c : Call) (p : Part) → agrees c ≡ true → IsTold p → IsTold (after (call c p))
unfolding agrees call told
call-IsTold (set_up l) p a h = ground (
  arith,
  standing-snoc initial p.sent build,
  finished (wait_for l) (send_control build (record p { control = true })),
)
call-IsTold activated p a h = ground (arith, standing-snoc initial p.sent activate)
call-IsTold deactivated p a h = ground (arith, standing-snoc initial p.sent deactivate)
call-IsTold passivated p a h = ground (arith, standing-snoc initial p.sent passivate)
call-IsTold reactivated p a h = cc
call-IsTold checkpointed p a h = ground arith
call-IsTold destroyed_ p a h = ground arith
call-IsTold (port_updated n d) p a h =
    ground (arith, standing-snoc initial p.sent (port_update n d))
call-IsTold (reinstated l) p a h = handle_reinstate-IsTold l p h
call-IsTold cpu_limit p a h = ground (arith, standing-snoc initial p.sent limit_cpu)
call-IsTold mem_limit p a h = ground (arith, standing-snoc initial p.sent limit_mem)
call-IsTold spc_limit p a h = ground (arith, standing-snoc initial p.sent limit_spc)
call-IsTold net_limit p a h = ground (arith, standing-snoc initial p.sent limit_net)
call-IsTold terminated p a h = ground (arith, standing-snoc initial p.sent kill)
call-IsTold (nic_changed s) p a h = ground (arith, standing-snoc initial p.sent (nic_state s))
call-IsTold (peer_changed s u) p a h = ground (arith, standing-snoc initial p.sent (peer_state s u))

pub calls-IsTold :
    (l : List Call) (p : Part)
    → All (λ (c : Call). agrees c ≡ true) l
    → IsTold p
    → IsTold (calls l p)
unfolding calls
calls-IsTold [] p a h = h
calls-IsTold (c ∷ l) p a h = calls-IsTold l (after (call c p)) a.1 (call-IsTold c p a.0 h)
