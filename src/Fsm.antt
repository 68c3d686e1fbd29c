-- ===== src/Fsm.antt =====
-- src/riaps/run/fsm.py: the finite-state machine component. States and events are numbers, for the
-- identity of the enumeration's members; `C` is the data of the component that the class is mixed
-- into.
pub mod Transitions
pub mod Firing
use riaps_pycom.Prelude.{
  ℕ, Bool, true, false, ◌&&◌, Option, none, some, List, [], ◌∷◌, ◌++◌, Dict, lookup, insert,
  has_key, if◌then◌else◌, ◌==◌,
}

-- What the default handlers log.
pub data Log : Type 0 where
  nondeterminism unhandled : (event state : ℕ) → Log
  no_transition : (event : ℕ) → Log

pub record Self (C : Type 0) : Type 0 where
  pub current : ℕ
  pub comp : C
  pub msgs : Dict (Option (List ℕ))
  pub logs : List Log

-- One decorated method: FSM.on(event, state, guard, then)(func)
pub record Transition (C : Type 0) : Type 0 where
  pub guard : Self C → Bool
  pub then_ : Option ℕ
  pub func : Self C → Self C

pub record Registration (C : Type 0) : Type 0 where
  pub event : ℕ
  pub state : ℕ
  pub trans : Transition C

-- The attributes that FSM.on adds to an event: `__on__`, and the lists under the states' ids.
pub record Event (C : Type 0) : Type 0 where
  pub on_states : List ℕ
  pub lists : Dict (List (Transition C))

-- What port.recv() did for the event's port, if the component has one.
pub data Incoming : Type 0 where
  no_port failed : Incoming
  received : List ℕ → Incoming

module _ {C : Type 0} where
  abbrev pub or_empty : Option (List (Transition C)) → List (Transition C)
  or_empty none = []
  or_empty (some l) = l

  abbrev pub or_new : Option (Event C) → Event C
  or_new none = record { on_states = []; lists = [] }
  or_new (some e) = e

  -- FSM.on.__call__
  unfoldable pub on_call : Registration C → Dict (Event C) → Dict (Event C)
  on_call r events =
      let e = or_new (lookup r.event events) in
      insert r.event
        (record {
          on_states = e.on_states ++ r.state ∷ [];
          lists = insert r.state (or_empty (lookup r.state e.lists) ++ r.trans ∷ []) e.lists;
        })
        events

  -- The decorators run in the order of the class body; the latest is the head of the list.
  unfoldable pub declare : List (Registration C) → Dict (Event C)
  unfolding on_call
  declare [] = []
  declare (r ∷ rs) = on_call r (declare rs)

  -- FSM.__init__: `on_map[id(state)] = tlist` for each state of `__on__`
  unfoldable pub collect_states :
      List ℕ → Dict (List (Transition C)) → Dict (List (Transition C)) → Dict (List (Transition C))
  collect_states [] lists on_map = on_map
  collect_states (state ∷ states) lists on_map =
      collect_states states lists (insert state (or_empty (lookup state lists)) on_map)

  unfoldable pub collect_map : Option (Event C) → Option (Dict (List (Transition C)))
  unfolding collect_states
  collect_map none = none
  collect_map (some e) = some (collect_states e.on_states e.lists [])

-- The maps of the class that `_update` reads.
pub record Machine (C : Type 0) : Type 0 where
  pub trans_map : ℕ → Option (Dict (List (Transition C)))
  pub entry_map : ℕ → Option (Self C → Self C)
  pub exit_map : ℕ → Option (Self C → Self C)

module _ {C : Type 0} where
  abbrev pub run_hook : Option (Self C → Self C) → Self C → Self C
  run_hook none s = s
  run_hook (some f) s = f s

  abbrev pub log : Log → Self C → Self C
  log l s = record s { logs = l ∷ s.logs }

  -- _port_setup and _recv_message: a port without a message gets an empty one, and an exception
  -- of recv leaves it.
  abbrev port_setup : ℕ → Self C → Self C
  port_setup event s =
      if has_key event s.msgs then s else record s { msgs = insert event none s.msgs }

  unfoldable pub recv_message : ℕ → Incoming → Self C → Self C
  recv_message event no_port s = s
  recv_message event failed s = port_setup event s
  recv_message event (received m) s =
      let s1 = port_setup event s in record s1 { msgs = insert event (some m) s1.msgs }

module _ {C : Type 0} (machine : Machine C) where
  abbrev next_state : Option ℕ → ℕ → ℕ
  next_state none current = current
  next_state (some state) current = state

  -- The body of the first transition that fires. A method may have set the state itself, and a
  -- transition without `then` keeps what it finds after the method. `cid` is the id of the state
  -- at the start of the update.
  unfoldable pub fire : ℕ → Transition C → Self C → Self C
  fire cid trans s =
      let s1 = trans.func (run_hook (machine.exit_map cid) s) in
      let next = next_state trans.then_ s1.current in
      let s2 = run_hook (machine.entry_map next) s1 in record s2 { current = next }

  -- The loop over the transitions of an event in a state.
  unfoldable pub attempt : (event prev : ℕ) → Bool → List (Transition C) → Self C → Self C
  unfolding fire
  attempt event prev fired [] s = s
  attempt event prev fired (trans ∷ tlist) s = elim (trans.guard s) [
    | false ↦ attempt event prev fired tlist s
    | true ↦ elim fired [
      | true ↦ attempt event prev true tlist (log (nondeterminism event prev) s)
      | false ↦ attempt event prev true tlist (fire prev trans s)
    ]
  ]

  abbrev pub in_state : ℕ → Option (List (Transition C)) → Self C → Self C
  in_state event none s = log (unhandled event s.current) s
  in_state event (some []) s = log (unhandled event s.current) s
  in_state event (some (trans ∷ tlist)) s = attempt event s.current false (trans ∷ tlist) s

  -- `if on_map`: an empty map counts as none. The state is the one from before the message came.
  abbrev pub on_event : ℕ → ℕ → Option (Dict (List (Transition C))) → Self C → Self C
  on_event event current none s = log (no_transition event) s
  on_event event current (some []) s = log (no_transition event) s
  on_event event current (some (l ∷ on_map)) s = in_state event (lookup current (l ∷ on_map)) s

  -- FSM._update
  unfoldable pub update : (event : ℕ) → Incoming → Self C → Self C
  unfolding recv_message attempt
  update event incoming s =
      on_event event s.current (machine.trans_map event) (recv_message event incoming s)
