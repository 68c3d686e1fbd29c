-- ===== src/Samples/Actor/Process.antt =====
-- An actor of two parts, of which one is active (src/riaps/run/actor.py).
use riaps_pycom.Prelude.{ℕ, ◌≡◌, refl, true, ◌&&◌, List, [], ◌∷◌, lookup, if◌then◌else◌, ◌==◌}
use riaps_pycom.Actor.Port.{local}
use riaps_pycom.Actor.Part.{Part, State, active, ready, state_error}
use riaps_pycom.Actor.Process.{
  Actor, done, part_raised, PortUpdate, port_update, handle_service_update, DeplMessage, res_cpu,
  nic_state_msg, unknown, handle_depl_message, in_turn, terminate,
}
use riaps_pycom.Actor.Process.Updates.{is_taken, reached, updated, handle_service_update-lookup}
use riaps_pycom.Actor.Process.Notices.{notices, all_told, is_reinstate, in_turn-notices}
use riaps_pycom.Actor.Process.Ending.{all_active, all_ended, stopped_before, terminate_lem}

abbrev part : (name : ℕ) → State → Part
part name state = record {
  name = name;
  type_name = 41;
  state = state;
  control = true;
  sent = [];
  registered = [];
}

abbrev actor : Actor
actor = record {
  name = 50;
  global_host = 192;
  local_host = 127;
  local_names = 7 ∷ [];
  internal_names = [];
  components = (40, part 40 active) ∷ (42, part 42 ready) ∷ [];
  reported = [];
}

abbrev provider : PortUpdate
provider = record {
  actor_host = 192;
  actor_name = 50;
  instance_name = 40;
  port_name = 10;
  scope = local;
  host = 127;
  port = 5555;
}

handle_service_update-lookup_example :
    lookup 40 (reached (handle_service_update (port_update provider) actor)).components ≡ (
      if is_taken actor provider && (40 == 40)
      then updated provider (lookup 40 actor.components)
      else lookup 40 actor.components)
handle_service_update-lookup_example = handle_service_update-lookup provider actor 40

abbrev messages : List DeplMessage
messages = res_cpu ∷ unknown ∷ nic_state_msg 1 ∷ []

in_turn-notices_example :
    in_turn handle_depl_message messages actor
    ≡ done (record actor { components = all_told (notices messages) actor.components })
in_turn-notices_example =
    in_turn-notices messages actor (unfold is_reinstate in (refl, (refl, (refl, tt))))

terminate_lem_example : terminate actor ≡ (
    if all_active actor.components
    then done (record actor { components = all_ended actor.components })
    else part_raised state_error (record actor { components = stopped_before actor.components }))
terminate_lem_example = terminate_lem actor
