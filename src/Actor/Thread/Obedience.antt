-- ===== src/Actor/Thread/Obedience.antt =====
-- The commands of the part leave the thread of src/riaps/run/comp.py sound.
use riaps_pycom.Prelude.{ℕ, ◌≡◌, refl, Bool, true, Option, none, some, List, [], ◌∷◌, All, arith}
use riaps_pycom.Actor.Port.{Address, update}
use riaps_pycom.Actor.Thread.{
  Thread, App, Action, Command, Event, kill, build, activate, deactivate, passivate, port_update,
  group_update, limit_cpu, limit_mem, limit_spc, limit_net, nic_state, peer_state, unknown, join,
  leave, emit, activate_port, deactivate_port, handle_activate, handle_deactivate, handle_passivate,
  handle_cpu_limit, handle_mem_limit, handle_spc_limit, handle_net_limit, handle_nic_state_change,
  handle_peer_state_change, add_group_socket,
}
use riaps_pycom.Actor.Thread.Handlers.{act, call_back}
use riaps_pycom.Actor.Thread.Commands.{each_port, update_port, go_on, on_command, run_command}
use riaps_pycom.Actor.Thread.Serving.{CommandSame, each_port_lem}
use riaps_pycom.Actor.Thread.Served.{run_command_lem}
use riaps_pycom.Actor.Thread.Sound.{
  IsTame, KeepingAction, IsSound, SameMaps, accepts, each_port_maps, joined-IsSound, IsSound-maps,
}
use riaps_pycom.Actor.Thread.Handling.{alike}

module _ {C : Type 0} (t : Thread C) where
  -- Actions that leave no group end in no exception.
  act-Keeps :
      (l : List Action) (u : Thread C)
      → All (KeepingAction t) l
      → IsSound t u
      → (v : Thread C) × (act l u ≡ (true, v)) × IsSound t v
  unfolding act
  act-Keeps [] u f h = (u, refl, h)
  act-Keeps (join g s k ∷ l) u f h =
      act-Keeps l (add_group_socket g s k u) f.1 (joined-IsSound g s k t u f.0 h)
  act-Keeps (leave g s ∷ l) u f h = absurd f.0

  pub each_port-IsSound :
      (f : ℕ → Event) (u : Thread C) → IsSound t u → IsSound t (each_port f u.ports u)
  each_port-IsSound f u h =
      let k = each_port_lem f u.ports u in
      IsSound-maps t u (each_port f u.ports u) (each_port_maps f u.ports u) k.names k.kinds h

  -- What a command returns.
  abbrev pub Obeys : Option (Bool × Thread C) → Type 0
  Obeys none = ⊥
  Obeys (some (stop, u)) = IsSound t u

  abbrev Mapped : Thread C → Option (Bool × Thread C) → Type 0
  Mapped u none = ⊥
  Mapped u (some (stop, v)) = SameMaps u v

  update_port-SameMaps :
      (n : ℕ) (d : Address) (u : Thread C)
      → accepts (port_update n d) u ≡ true
      → Mapped u (go_on (update_port n d u))
  unfolding accepts update_port update
  update_port-SameMaps n d u h = ground arith

  updated-Obeys :
      (u : Thread C) (o : Option (Bool × Thread C))
      → Mapped u o
      → CommandSame u o
      → IsSound t u
      → Obeys o
  updated-Obeys u none m k h = m
  updated-Obeys u (some (stop, v)) m k h = IsSound-maps t u v m k.names k.kinds h

module _ {C : Type 0} (app : App C) (t : Thread C) (tame : IsTame app t) where
  pub call_back-Returns :
      (e : Event) (u : Thread C)
      → IsSound t u
      → (v : Thread C) × (call_back app e u ≡ (true, v)) × IsSound t v
  unfolding call_back
  call_back-Returns e u h =
      let d = app.on_event e u.comp in
      let w = emit e (record u { comp = d.comp }) in
      let (v, f, k) =
        act-Keeps t d.actions w (tame.on_event e u.comp) (alike t u w (ground arith) refl h) in
      (v, rw (f, tame.returns e u.comp) refl, k)

  called-Obeys : (e : Event) (u : Thread C) → IsSound t u → Obeys t (go_on (on_command app e u))
  called-Obeys e u h = let (v, f, k) = call_back-Returns e u h in rw f k

  pub run_command-Obeys :
      (c : Command) (u : Thread C)
      → IsSound t u
      → accepts c u ≡ true
      → Obeys t (run_command app c u)
  unfolding run_command
  run_command-Obeys kill u h a = h
  run_command-Obeys activate u h a =
      called-Obeys handle_activate (each_port activate_port u.ports u)
        (each_port-IsSound t activate_port u h)
  run_command-Obeys deactivate u h a =
      let (v, f, k) = call_back-Returns handle_deactivate u h in
      rw f (each_port-IsSound t deactivate_port v k)
  run_command-Obeys passivate u h a = called-Obeys handle_passivate u h
  run_command-Obeys (port_update n d) u h a =
      updated-Obeys t u (go_on (update_port n d u)) (update_port-SameMaps t n d u a)
        (run_command_lem app (port_update n d) u) h
  run_command-Obeys group_update u h a = h
  run_command-Obeys limit_cpu u h a = called-Obeys handle_cpu_limit u h
  run_command-Obeys limit_mem u h a = called-Obeys handle_mem_limit u h
  run_command-Obeys limit_spc u h a = called-Obeys handle_spc_limit u h
  run_command-Obeys limit_net u h a = called-Obeys handle_net_limit u h
  run_command-Obeys (nic_state s) u h a = called-Obeys (handle_nic_state_change s) u h
  run_command-Obeys (peer_state s x) u h a = called-Obeys (handle_peer_state_change s x) u h
  run_command-Obeys build u h a = h
  run_command-Obeys unknown u h a = h
