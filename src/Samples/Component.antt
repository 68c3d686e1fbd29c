-- ===== src/Samples/Component.antt =====
-- A door as a state machine (src/riaps/run/fsm.py), and timers of a tenth of a second
-- (src/riaps/run/timPort.py).
use riaps_pycom.Prelude.{
  ℕ, ◌≡◌, refl, Bool, true, false, not, none, some, List, [], ◌∷◌, ◌++◌, lookup, insert, has_key,
  ltb,
}
use riaps_pycom.Fsm.{
  Self, Transition, Registration, Machine, received, recv_message, declare, collect_map,
  collect_states, on_call, fire, update,
}
use riaps_pycom.Fsm.Transitions.{tlist, declared, collect-declare}
use riaps_pycom.Fsm.Firing.{conflicts, update_first}
use riaps_pycom.Timer.{Timer}
use riaps_pycom.Timer.Port.{new_port, setup, activate_port, deactivate_port}
use riaps_pycom.Timer.Port.Driving.{ticks_after, taken, behind, activated_ticks}
use riaps_pycom.Timer.Ticks.{expiries, newest_first}

-- The component counts how often the door has been opened.
abbrev DoorSelf : Type 0
DoorSelf = Self ℕ

abbrev locked : DoorSelf → Bool
locked s = ltb 3 s.comp

abbrev open_door : Transition ℕ
open_door = record {
  guard = λ s. not (locked s);
  then_ = some 1;
  func = λ s. record s { comp = 4 };
}

abbrev refuse : Transition ℕ
refuse = record { guard = locked; then_ = none; func = λ s. s }

-- In state 0, event 5 is refused by a locked door, and opens one that is not.
abbrev methods : List (Registration ℕ)
methods =
    record { event = 5; state = 0; trans = open_door }
    ∷ record { event = 5; state = 0; trans = refuse }
    ∷ []

abbrev door : Machine ℕ
door = record {
  trans_map = λ e. collect_map (lookup e (declare methods));
  entry_map = λ state. none;
  exit_map = λ state. none;
}

abbrev shut : DoorSelf
shut = record { current = 0; comp = 0; msgs = []; logs = [] }

collect-declare_example : tlist (collect_map (lookup 5 (declare methods))) 0 ≡ declared 5 0 methods
collect-declare_example = collect-declare 5 0 methods

door_table : tlist (door.trans_map 5) 0 ≡ refuse ∷ open_door ∷ []
unfolding declare collect_map collect_states on_call lookup insert
door_table = refl

update_first_example :
    update door 5 (received (72 ∷ [])) shut
    ≡ conflicts 5 0 [] (fire door 0 open_door (recv_message 5 (received (72 ∷ [])) shut))
update_first_example =
    update_first door 5 (received (72 ∷ [])) shut (refuse ∷ []) open_door [] door_table
      (unfold recv_message has_key in (refl, tt)) (unfold recv_message has_key in refl)

-- A periodic timer that fired at 2.0 s.
abbrev ticking : Timer
ticking = record {
  periodic = true;
  period = 100000;
  delay = 0;
  timeout = some 100;
  active = true;
  running = true;
  skip = false;
  last = some 2000000;
  ticks = 2000000 ∷ [];
}

activated_ticks_example :
    let p = activate_port (setup 0 (new_port 100)) in
    let q = deactivate_port p in
    ticks_after
      (taken 2000000 p.sent (
        expiries (2100000 ∷ 2200000 ∷ [])
        ++ taken 2250000 (behind p.sent q.sent) (expiries (2300000 ∷ []))))
      p.thread
    ≡ newest_first (2100000 ∷ 2200000 ∷ []) []
activated_ticks_example =
    activated_ticks 100 0 2000000 2250000 (2100000 ∷ 2200000 ∷ []) (2300000 ∷ []) refl
