-- ===== src/Actor/Thread/Handlers.antt =====
-- src/riaps/run/comp.py: the calls of the handlers of a component (executeHandlerFor).
use riaps_pycom.Prelude.{
  ℕ, Bool, true, false, Option, none, some, List, [], ◌∷◌, if◌then◌else◌, ◌==◌, ltb, lookup, ◌&&◌,
}
use riaps_pycom.Actor.Port.{Port}
use riaps_pycom.Actor.Thread.{
  Thread, Handled, App, Action, Event, join, leave, emit, handle_deadline, report_deadline,
  report_exception, unbound_port, add_group_socket, del_group_socket,
}

-- `spent > deadline`, where the port has a deadline
abbrev pub late : (deadline spent : ℕ) → Bool
late deadline spent = if deadline == 0 then false else ltb deadline spent

module _ {C : Type 0} where
  -- What Component.joinGroup and leaveGroup do to the thread, called from a handler: false if one
  -- of them raised an exception, which ends the handler.
  unfoldable pub act : List Action → Thread C → Bool × Thread C
  unfolding add_group_socket del_group_socket
  act [] t = (true, t)
  act (join group socket priority ∷ l) t = act l (add_group_socket group socket priority t)
  act (leave group socket ∷ l) t = elim (del_group_socket group socket t) [
    | none ↦ (false, t)
    | some t1 ↦ act l t1
  ]

  abbrev pub and_returned : Bool → Bool × Thread C → Bool × Thread C
  and_returned returned (acted, t) = (acted && returned, t)

  -- An exception inside a `try`, and one outside of any
  abbrev pub caught : Bool × Thread C → Thread C
  caught (true, t) = t
  caught (false, t) = emit report_exception t

  abbrev pub or_raise : Bool × Thread C → Option (Thread C)
  or_raise (true, t) = some t
  or_raise (false, t) = none

  abbrev after_group : Handled C → Bool × Thread C → Thread C
  after_group h (acted, t) = if acted && h.returned then t else emit report_exception t

module _ {C : Type 0} (app : App C) where
  -- A call of one of the component's own handlers that the thread calls by itself: whether it
  -- returned, and the thread.
  unfoldable pub call_back : Event → Thread C → Bool × Thread C
  unfolding act
  call_back e t =
      let h = app.on_event e t.comp in
      and_returned h.returned (act h.actions (emit e (record t { comp = h.comp })))

  abbrev pub after_port : (name : ℕ) → Port → Handled C → Bool × Thread C → Thread C
  after_port name p h (acted, t) =
      if acted && h.returned
      then if late p.deadline h.spent
        then caught (call_back (handle_deadline name) (emit report_deadline t))
        else t
      else emit report_exception t

  -- The call of the handler of a port, inside the `try`
  unfoldable pub handle_port : (name : ℕ) → Port → Thread C → Thread C
  unfolding act call_back
  handle_port name p t = elim (app.on name) [
    | none ↦ emit report_exception t
    | some f ↦
        (let h = f t.comp in after_port name p h (act h.actions (record t { comp = h.comp })))
  ]

  -- group.handleMessage()
  unfoldable pub handle_group : (group : ℕ) → Thread C → Thread C
  unfolding act
  handle_group group t =
      let h = app.on_group group t.comp in
      after_group h (act h.actions (record t { comp = h.comp }))

  -- executeHandlerFor. `none` is an exception that leaves it: the name of the port is looked up
  -- outside of the `try`.
  unfoldable pub execute_handler_for : (socket : ℕ) → Thread C → Option (Thread C)
  execute_handler_for socket t =
      let t1 = record t { served = socket ∷ t.served } in
      elim (lookup socket t.sock2port) [
        | some _ ↦ elim (lookup socket t.sock2name) [
          | none ↦ none
          | some name ↦ elim (lookup name t.ports) [
            | none ↦ none
            | some p ↦ some (handle_port name p t1)
          ]
        ]
        | none ↦ elim (lookup socket t.sock2group) [
          | some group ↦ some (handle_group group t1)
          | none ↦ some (emit unbound_port t1)
        ]
      ]
