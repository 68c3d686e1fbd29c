-- ===== src/Actor/Process/Notices.antt =====
-- How an actor passes the notices of the deployment service on (src/riaps/run/actor.py).
use riaps_pycom.Prelude.{
  ◌≡◌, refl, Bool, true, false, Option, none, some, List, [], ◌∷◌, ◌++◌, if◌then◌else◌, All, Dict,
  append_assoc, append-nil, arith,
}
use riaps_pycom.Actor.Thread.{
  Command, limit_cpu, limit_mem, limit_spc, limit_net, nic_state, peer_state,
}
use riaps_pycom.Actor.Part.{
  Part, ok, send_control, Call, call, cpu_limit, mem_limit, spc_limit, net_limit, nic_changed,
  peer_changed,
}
use riaps_pycom.Actor.Process.{
  Actor, finished, for_each, done, call_all, in_turn, DeplMessage, res_cpu, res_mem, res_spc,
  res_net, res_unknown, unknown, reinstate_cmd, nic_state_msg, peer_info_msg, handle_depl_message,
}

-- The command by which a message of the deployment service is passed on; none for what is unknown,
-- and for the order to reinstate the parts.
unfoldable pub notice : DeplMessage → Option Command
notice res_cpu = some limit_cpu
notice res_mem = some limit_mem
notice res_spc = some limit_spc
notice res_net = some limit_net
notice (nic_state_msg s) = some (nic_state s)
notice (peer_info_msg s u) = some (peer_state s u)
notice res_unknown = none
notice unknown = none
notice (reinstate_cmd infos) = none

unfoldable pub is_reinstate : DeplMessage → Bool
is_reinstate (reinstate_cmd infos) = true
is_reinstate _ = false

abbrev of_notice : Option Command → List Command
of_notice none = []
of_notice (some c) = c ∷ []

-- The commands in their order
unfoldable pub notices : List DeplMessage → List Command
unfolding notice
notices [] = []
notices (m ∷ l) = of_notice (notice m) ++ notices l

-- A part whose thread was sent the commands, if it has its control socket
abbrev pub told : List Command → Part → Part
told l p = if p.control then record p { sent = p.sent ++ l } else p

unfoldable pub all_told : List Command → Dict Part → Dict Part
all_told l [] = []
all_told l ((n, p) ∷ d) = (n, told l p) ∷ all_told l d

for_each-notice :
    (c : Command) (k : Call) (d : Dict Part)
    → ((p : Part) → call k p ≡ ok (send_control c p))
    → for_each (call k) d ≡ finished (all_told (c ∷ []) d)
unfolding for_each all_told send_control
for_each-notice c k [] h = refl
for_each-notice c k ((n, p) ∷ d) h = ground (arith, h p, for_each-notice c k d h)

told-told : (k l : List Command) (p : Part) → told l (told k p) ≡ told (k ++ l) p
told-told k l p = ground (arith, append_assoc p.sent k l)

all_told-all_told :
    (k l : List Command) (d : Dict Part) → all_told l (all_told k d) ≡ all_told (k ++ l) d
unfolding all_told
all_told-all_told k l [] = refl
all_told-all_told k l ((n, p) ∷ d) = ground (arith, told-told k l p, all_told-all_told k l d)

all_told_nothing : (d : Dict Part) → all_told [] d ≡ d
unfolding all_told
all_told_nothing [] = refl
all_told_nothing ((n, p) ∷ d) = ground (arith, all_told_nothing d, append-nil p.sent)

call_all-notice :
    (c : Command) (k : Call) (a : Actor)
    → ((p : Part) → call k p ≡ ok (send_control c p))
    → call_all k a ≡ done (record a { components = all_told (c ∷ []) a.components })
unfolding call_all
call_all-notice c k a h = rw (for_each-notice c k a.components h, call_all) refl

handle_notice :
    (m : DeplMessage) (a : Actor)
    → is_reinstate m ≡ false
    → handle_depl_message m a
      ≡ done (record a { components = all_told (of_notice (notice m)) a.components })
unfolding handle_depl_message notice is_reinstate call
handle_notice res_cpu a h = call_all-notice limit_cpu cpu_limit a (λ p. refl)
handle_notice res_mem a h = call_all-notice limit_mem mem_limit a (λ p. refl)
handle_notice res_spc a h = call_all-notice limit_spc spc_limit a (λ p. refl)
handle_notice res_net a h = call_all-notice limit_net net_limit a (λ p. refl)
handle_notice (nic_state_msg s) a h = call_all-notice (nic_state s) (nic_changed s) a (λ p. refl)
handle_notice (peer_info_msg s u) a h =
    call_all-notice (peer_state s u) (peer_changed s u) a (λ p. refl)
handle_notice res_unknown a h = rw (all_told_nothing a.components) refl
handle_notice unknown a h = rw (all_told_nothing a.components) refl
handle_notice (reinstate_cmd infos) a h = cc

-- Messages of the deployment service that come between two orders to reinstate the parts: each
-- part that is set up is sent each limit and each change of an interface or a peer once, in the
-- order of the messages, behind all that it was sent before. No part raises an exception, and
-- nothing else of the actor and its parts changes.
pub in_turn-notices :
    (l : List DeplMessage) (a : Actor)
    → All (λ (m : DeplMessage). is_reinstate m ≡ false) l
    → in_turn handle_depl_message l a
      ≡ done (record a { components = all_told (notices l) a.components })
unfolding notices
in_turn-notices [] a h = rw (all_told_nothing a.components) refl
in_turn-notices (m ∷ l) a h =
    rw
      (
        handle_notice m a h.0,
        in_turn-notices l (record a { components = all_told (of_notice (notice m)) a.components })
            h.1,
      )
      (rw (all_told-all_told (of_notice (notice m)) (notices l) a.components) refl)
