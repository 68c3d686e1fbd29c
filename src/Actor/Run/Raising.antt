-- ===== src/Actor/Run/Raising.antt =====
-- The commands whose handlers the thread of src/riaps/run/comp.py calls outside of any `try`.
use riaps_pycom.Prelude.{◌≡◌, Bool, true, false, Option, none, some}
use riaps_pycom.Actor.Thread.{
  Thread, App, Command, Event, activate, deactivate, passivate, limit_cpu, limit_mem, limit_spc,
  limit_net, nic_state, peer_state, handle_activate, handle_deactivate, handle_passivate,
  handle_cpu_limit, handle_mem_limit, handle_spc_limit, handle_net_limit, handle_nic_state_change,
  handle_peer_state_change,
}
use riaps_pycom.Actor.Run.{SchedulerType, other}

-- The handler of the component that a command is for
unfoldable pub called_by : Command → Option Event
called_by activate = some handle_activate
called_by deactivate = some handle_deactivate
called_by passivate = some handle_passivate
called_by limit_cpu = some handle_cpu_limit
called_by limit_mem = some handle_mem_limit
called_by limit_spc = some handle_spc_limit
called_by limit_net = some handle_net_limit
called_by (nic_state s) = some (handle_nic_state_change s)
called_by (peer_state s u) = some (handle_peer_state_change s u)
called_by _ = none

abbrev pub is_scheduler : SchedulerType → Bool
is_scheduler other = false
is_scheduler _ = true

module _ {C : Type 0} (app : App C) where
  abbrev pub Raises : Event → Type 0
  Raises e = (s : C) → (app.on_event e s).returned ≡ false
