-- ===== src/Actor/Process.antt =====
-- src/riaps/run/actor.py: the process of an actor, which passes messages between the services of
-- its node and its parts. The answers of the discovery service are arguments.
pub mod Notices
pub mod Updates
pub mod Ending
use riaps_pycom.Prelude.{
  ℕ, Bool, true, false, not, ◌&&◌, Option, none, some, List, [], ◌∷◌, ◌++◌, if◌then◌else◌, ◌==◌,
  Dict, lookup, insert, has_key, contains,
}
use riaps_pycom.Actor.Port.{PortScope, global, local, internal, PortInfo, Address}
use riaps_pycom.Actor.Part.{
  Part, Result, ok, raised, blocked, Exception, Call, call, activated, deactivated, terminated,
  port_updated, reinstated, cpu_limit, mem_limit, spc_limit, net_limit, nic_changed, peer_changed,
}

pub record Actor : Type 0 where
  pub name : ℕ
  pub global_host : ℕ
  pub local_host : ℕ
  pub local_names : List ℕ
  pub internal_names : List ℕ
  -- the parts, by the names of their instances
  pub components : Dict Part
  -- the events reported to the deployment service
  pub reported : List (ℕ × ℕ)

-- messageScope
unfoldable pub message_scope : (type : ℕ) → Actor → PortScope
message_scope type a =
    if contains type a.local_names
    then local
    else if contains type a.internal_names
    then internal
    else global

-- How a loop over the parts ends: all were called, or one of them raised an exception, which the
-- loop passes on, or waits for ever. The parts behind that one were not called.
pub data Loop : Type 0 where
  finished : Dict Part → Loop
  broke : Exception → Dict Part → Loop
  halted : Dict Part → Loop

abbrev pub behind : ℕ × Part → Loop → Loop
behind e (finished l) = finished (e ∷ l)
behind e (broke x l) = broke x (e ∷ l)
behind e (halted l) = halted (e ∷ l)

unfoldable pub for_each : (Part → Result) → Dict Part → Loop
for_each f [] = finished []
for_each f ((n, p) ∷ l) =
    let rest = for_each f l in
    elim (f p) [
      | ok q ↦ behind (n, q) rest
      | raised x q ↦ broke x ((n, q) ∷ l)
      | blocked q ↦ halted ((n, q) ∷ l)
    ]

-- How a method of the actor ends. An AssertionError or a KeyError counts as failed.
pub data Outcome : Type 0 where
  done : Actor → Outcome
  part_raised : Exception → Actor → Outcome
  failed : Actor → Outcome
  waits : Actor → Outcome

abbrev pub with_parts : Actor → Loop → Outcome
with_parts a (finished l) = done (record a { components = l })
with_parts a (broke x l) = part_raised x (record a { components = l })
with_parts a (halted l) = waits (record a { components = l })

abbrev pub then_do : Outcome → (Actor → Outcome) → Outcome
then_do (done a) f = f a
then_do (part_raised x a) f = part_raised x a
then_do (failed a) f = failed a
then_do (waits a) f = waits a

-- The same call of each part: activate, deactivate, and the handlers of the notices
unfoldable pub call_all : Call → Actor → Outcome
unfolding for_each
call_all c a = with_parts a (for_each (call c) a.components)

-- updatePart; a name that no part has is a KeyError.
abbrev put_back : Actor → ℕ → Result → Outcome
put_back a n (ok q) = done (record a { components = insert n q a.components })
put_back a n (raised x q) = part_raised x (record a { components = insert n q a.components })
put_back a n (blocked q) = waits (record a { components = insert n q a.components })

unfoldable pub update_part : (instance_name port_name : ℕ) → Address → Actor → Outcome
update_part n port_name address a = elim (lookup n a.components) [
  | none ↦ failed a
  | some p ↦ put_back a n (call (port_updated port_name address) p)
]

-- DiscoUpd
pub record PortUpdate : Type 0 where
  pub actor_host : ℕ
  pub actor_name : ℕ
  pub instance_name : ℕ
  pub port_name : ℕ
  pub scope : PortScope
  pub host : ℕ
  pub port : ℕ

pub data ServiceUpdate : Type 0 where
  port_update : PortUpdate → ServiceUpdate
  group_update : ServiceUpdate

unfoldable pub is_global : PortScope → Bool
is_global global = true
is_global local = false
is_global internal = false

-- Whether the update is for a part of this actor
unfoldable pub is_for : Actor → PortUpdate → Bool
is_for a u =
    (u.actor_host == a.global_host)
    && (u.actor_name == a.name)
    && has_key u.instance_name a.components

-- handleServiceUpdate. An update for another is discarded; a service that is not global must be on
-- this host.
unfoldable pub handle_service_update : ServiceUpdate → Actor → Outcome
unfolding update_part is_global is_for
handle_service_update group_update a = done a
handle_service_update (port_update u) a =
    if is_for a u
    then if not (is_global u.scope) && not (u.host == a.local_host)
      then failed a
      else update_part u.instance_name u.port_name (u.host, u.port) a
    else done a

-- DeplCmd
pub data DeplMessage : Type 0 where
  res_cpu res_mem res_spc res_net res_unknown unknown : DeplMessage
  -- what getInfo says of the ports of each part, in the order of the parts
  reinstate_cmd : List (List (Option PortInfo)) → DeplMessage
  nic_state_msg : (state : ℕ) → DeplMessage
  peer_info_msg : (state uuid : ℕ) → DeplMessage

-- The last loop of handleReinstate, after the reconnection to the discovery service
unfoldable pub reinstate_all : List (List (Option PortInfo)) → Dict Part → Loop
reinstate_all infos [] = finished []
reinstate_all [] ((n, p) ∷ l) = finished ((n, p) ∷ l)
reinstate_all (i ∷ infos) ((n, p) ∷ l) =
    let rest = reinstate_all infos l in
    elim (call (reinstated i) p) [
      | ok q ↦ behind (n, q) rest
      | raised x q ↦ broke x ((n, q) ∷ l)
      | blocked q ↦ halted ((n, q) ∷ l)
    ]

-- handleDeplMessage; what is unknown is logged.
unfoldable pub handle_depl_message : DeplMessage → Actor → Outcome
unfolding call_all reinstate_all
handle_depl_message res_cpu a = call_all cpu_limit a
handle_depl_message res_mem a = call_all mem_limit a
handle_depl_message res_spc a = call_all spc_limit a
handle_depl_message res_net a = call_all net_limit a
handle_depl_message (nic_state_msg s) a = call_all (nic_changed s) a
handle_depl_message (peer_info_msg s u) a = call_all (peer_changed s u) a
handle_depl_message (reinstate_cmd infos) a = with_parts a (reinstate_all infos a.components)
handle_depl_message res_unknown a = done a
handle_depl_message unknown a = done a

-- registerEndpoint and the answer of the discovery client: the part and the port to update, and
-- the address
unfoldable pub update_parts : List (ℕ × ℕ × Address) → Actor → Outcome
unfolding update_part
update_parts [] a = done a
update_parts ((n, port_name, address) ∷ l) a =
    then_do (update_part n port_name address a) (λ b. update_parts l b)

-- What a part reports: that it joined or left a group, with the answer of the discovery service,
-- or an event for the deployment service.
pub data Report : Type 0 where
  group : (answer : List (ℕ × ℕ × Address)) → Report
  ungroup : Report
  event : (event : ℕ) → Report

unfoldable pub handle_report : (part_name : ℕ) → Report → Actor → Outcome
unfolding update_parts
handle_report n (group answer) a = update_parts answer a
handle_report n ungroup a = done a
handle_report n (event e) a = done (record a { reported = a.reported ++ (n, e) ∷ [] })

-- terminate: all are deactivated before the first is terminated; then the process exits.
unfoldable pub terminate : Actor → Outcome
unfolding call_all
terminate a = then_do (call_all deactivated a) (λ b. call_all terminated b)

-- What one `poll` of the main loop finds: messages of the discovery service, messages of the
-- deployment service, and one report of each part that has some.
pub record Ready : Type 0 where
  pub disco : Option (List ServiceUpdate)
  pub depl : Option (List DeplMessage)
  pub reports : List (ℕ × Report)

abbrev pub in_turn {ℓ} : {A : Type ℓ} → (A → Actor → Outcome) → List A → Actor → Outcome
in_turn f [] a = done a
in_turn f (x ∷ l) a = then_do (f x a) (λ b. in_turn f l b)

abbrev report_of : ℕ × Report → Actor → Outcome
report_of (n, r) a = handle_report n r a

-- A turn of `start`: what the discovery service sent comes before what the deployment service
-- sent, and both before the reports; each turn handles one of the three.
abbrev pub turn_with :
    Option (List ServiceUpdate) → Option (List DeplMessage) → List (ℕ × Report) → Actor → Outcome
turn_with (some updates) depl reports a = in_turn handle_service_update updates a
turn_with none (some messages) reports a = in_turn handle_depl_message messages a
turn_with none none reports a = in_turn report_of reports a

unfoldable pub turn : Ready → Actor → Outcome
unfolding handle_service_update handle_depl_message handle_report
turn r a = turn_with r.disco r.depl r.reports a
