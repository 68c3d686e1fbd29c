-- ===== src/Coord/Outcome.antt =====
-- What a handler of GroupThread (src/riaps/run/dc.py) ends in: the thread goes on, or an exception
-- that no clause catches ends it. The state that was reached stays beside the exception.
use riaps_pycom.Prelude.{ℕ, Option, none, some}
use riaps_pycom.Coord.Message.{
  Net, Note, ForLeader, ForMember, Effect, publish, notify, to_leader, to_member,
}
use riaps_pycom.Coord.Thread.{Thread, emit}

pub data Exception : Type 0 where
  zmq_error port_error : (errno : ℕ) → Exception
  struct_error attribute_error assertion_error type_error : Exception

pub data Outcome : Type 0 where
  ok : Thread → Outcome
  raised : Exception → Thread → Outcome

infixl 5 ◌>>=◌
abbrev pub ◌>>=◌ : Outcome → (Thread → Outcome) → Outcome
ok t >>= f = f t
raised e t >>= f = raised e t

-- The thread as the handler left it, returning or not.
abbrev pub after : Outcome → Thread
after (ok t) = t
after (raised e t) = t

-- Sends of run/dcPorts.py. `fault` is the error number with which zmq refuses the message, if it
-- does: the port turns the ZMQError into a PortError.
abbrev pub through : Option ℕ → Effect → Thread → Outcome
through none effect t = ok (emit effect t)
through (some errno) effect t = raised (port_error errno) t

unfoldable pub send_group : Option ℕ → Net → Thread → Outcome
send_group fault m = through fault (publish m)

-- A member that is not connected to a leader sends nothing, and the caller does not hear of it.
unfoldable pub send_to_leader : Option ℕ → ForLeader → Thread → Outcome
send_to_leader fault m t = elim t.query [
  | none ↦ ok t
  | some server ↦ through fault (to_leader m) t
]

unfoldable pub send_to_member : Option ℕ → ForMember → Thread → Outcome
send_to_member fault m t = through fault (to_member t.identity m) t

-- `except zmq.error.ZMQError`: reply with the error
abbrev pub catch_zmq : Outcome → Outcome
catch_zmq (raised (zmq_error errno) t) = ok (emit (notify (Note.err errno)) t)
catch_zmq outcome = outcome
