-- ===== src/Actor/Part/Lifecycle.antt =====
-- The states of a part of src/riaps/run/part.py, and what its thread is told of them.
use riaps_pycom.Prelude.{
  ℕ, ◌≡◌, refl, ◌∙◌, Bool, true, false, Option, none, some, List, [], ◌∷◌, if◌then◌else◌, arith,
}
use riaps_pycom.Actor.Port.{PortInfo}
use riaps_pycom.Actor.Thread.{build}
use riaps_pycom.Actor.Part.{
  State, starting, initial, ready, active, inactive, passive, Part, after, init, finish_setup,
  send_control, register_endpoint, wait_for, Waited, all_done, invalid, waits, provides,
  handle_reinstate, Call, set_up, activated, deactivated, passivated, reactivated, checkpointed,
  reinstated, call, calls,
}

-- The states that a part can pass to from a state.
unfoldable pub may_become : State → State → Bool
may_become initial initial = true
may_become initial ready = true
may_become ready ready = true
may_become ready active = true
may_become active active = true
may_become active inactive = true
may_become active passive = true
may_become inactive inactive = true
may_become inactive active = true
may_become passive passive = true
may_become passive active = true
may_become _ _ = false

-- The states that a part takes after its construction.
unfoldable pub in_use : State → Bool
in_use initial = true
in_use ready = true
in_use active = true
in_use inactive = true
in_use passive = true
in_use _ = false

finished :
    (w : Waited) (q : Part)
    → q.state ≡ initial
    → may_become initial (after (finish_setup w q)).state ≡ true
unfolding may_become
finished (all_done l) q h = refl
finished invalid q h = rw h refl
finished waits q h = rw h refl

handle_reinstate_state :
    (l : List (Option PortInfo)) (p : Part) → (after (handle_reinstate l p)).state ≡ p.state
unfolding handle_reinstate
handle_reinstate_state [] p = refl
handle_reinstate_state (none ∷ l) p = refl
handle_reinstate_state (some i ∷ l) p =
    handle_reinstate_state l (if provides i.port_kind then register_endpoint i p else p)
    ∙ ground arith

call_moves :
    (c : Call) (p : Part)
    → in_use p.state ≡ true
    → may_become p.state (after (call c p)).state ≡ true
unfolding call may_become in_use
call_moves (set_up l) p h =
    ground (arith, finished (wait_for l) (send_control build (record p { control = true })))
call_moves (reinstated l) p h = ground (arith, handle_reinstate_state l p)
call_moves activated p h = ground arith
call_moves deactivated p h = ground arith
call_moves passivated p h = ground arith
call_moves reactivated p h = ground arith
call_moves checkpointed p h = ground arith
call_moves c p h = ground arith

in_use-may_become : (s t : State) → may_become s t ≡ true → in_use t ≡ true
unfolding may_become in_use
in_use-may_become starting t h = cc
in_use-may_become s t h = ground arith

calls_in_use : (l : List Call) (p : Part) → in_use p.state ≡ true → in_use (calls l p).state ≡ true
unfolding calls
calls_in_use [] p h = h
calls_in_use (c ∷ l) p h =
    calls_in_use l (after (call c p)) (in_use-may_become p.state _ (call_moves c p h))

-- Whatever methods a part gets called with after its construction, in whatever order, and whether
-- they raise exceptions or not: it is in one of the states Initial, Ready, Active, Inactive and
-- Passive, so never checkpointing nor destroyed, and each call moves it along the state machine
-- or leaves it where it is. No call takes it back to Initial from another state.
pub calls_move :
    (name type_name : ℕ) (l : List Call) (c : Call)
    → (in_use (calls l (init name type_name)).state ≡ true)
      × (may_become
            (calls l (init name type_name)).state
            (after (call c (calls l (init name type_name)))).state
          ≡ true)
unfolding in_use init
calls_move name type_name l c =
    let u = calls_in_use l (init name type_name) refl in
    (u, call_moves c (calls l (init name type_name)) u)
