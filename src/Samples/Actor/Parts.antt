-- ===== src/Samples/Actor/Parts.antt =====
-- The life of a part (src/riaps/run/part.py) and its thread.
use riaps_pycom.Prelude.{ℕ, ◌≡◌, refl, true, Option, none, some, List, [], ◌∷◌, map, has_key}
use riaps_pycom.Actor.Port.{PortInfo}
use riaps_pycom.Actor.Thread.{Thread, build}
use riaps_pycom.Actor.Thread.Handlers.{act, call_back}
use riaps_pycom.Actor.Thread.Commands.{done_building, Supply, setup_sockets, run_command, each_port}
use riaps_pycom.Actor.Part.{
  Part, ok, ready, init, setup, Call, set_up, activated, passivated, wait_for, call, calls, after,
}
use riaps_pycom.Actor.Part.Lifecycle.{may_become, in_use, calls_move}
use riaps_pycom.Actor.Part.Told.{agrees}
use riaps_pycom.Actor.Part.Ports.{obey_all, calls-ports}
use riaps_pycom.Actor.Part.Activity.{is_active, has_ports}
use riaps_pycom.Actor.Part.Building.{told_ports, setup-setup_sockets}
use riaps_pycom.Samples.Actor.{app, ifaces, new_ports, thread}

abbrev life : List Call
life = set_up (done_building ∷ []) ∷ activated ∷ passivated ∷ []

abbrev supply : Supply
supply = record { next_socket = 2; next_number = 5000 }

calls_move_example :
    (in_use (calls life (init 40 41)).state ≡ true)
    × (may_become
          (calls life (init 40 41)).state
          (after (call activated (calls life (init 40 41)))).state
        ≡ true)
calls_move_example = calls_move 40 41 life activated

-- The thread after the commands of the part
abbrev obeyed : Option (Thread ℕ)
obeyed = obey_all app (calls life (init 40 41)).sent thread

abbrev or_thread : Option (Thread ℕ) → Thread ℕ
or_thread none = thread
or_thread (some t) = t

calls-ports_example :
    is_active 10 (or_thread obeyed).events ≡ has_ports (calls life (init 40 41)).state
calls-ports_example =
    calls-ports app 40 41 life thread (or_thread obeyed) 10
      (unfold agrees wait_for in (refl, (refl, (refl, tt)))) refl (unfold has_key in refl)
      (unfold obey_all calls init call wait_for run_command each_port call_back act in refl)

setup-setup_sockets_example :
    (p : Part) × (setup (setup_sockets ifaces supply new_ports).sent (init 40 41) ≡ ok p)
    × (p.state ≡ ready)
    × (p.sent ≡ build ∷ [])
    × (p.registered ≡ map (λ (j : PortInfo). (40, 41, j)) (told_ports ifaces 5000 new_ports))
setup-setup_sockets_example = setup-setup_sockets ifaces supply new_ports 40 41
