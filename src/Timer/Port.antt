-- ===== src/Timer/Port.antt =====
-- src/riaps/run/timPort.py: the port of a timer, by which a component drives the timer's thread. The
-- period and the delay are fields of the thread; the commands wait in the socket.
pub mod Driving
use riaps_pycom.Prelude.{
  ℕ, Bool, true, false, Option, none, some, List, [], ◌∷◌, ◌++◌, if◌then◌else◌, ◌==◌, ltb,
}
use riaps_pycom.Timer.{Timer, init, Command, terminate, activate, deactivate, start, cancel, halt}

pub record TimPort : Type 0 where
  -- the period of the model, in milliseconds
  pub period : ℕ
  pub thread : Option Timer
  -- the commands that were sent to the thread, in their order
  pub sent : List Command

-- The argument of setPeriod and setDelay: a float, in microseconds and not negative, or another.
pub data Argument : Type 0 where
  float : ℕ → Argument
  other : Argument

pub data Result : Type 0 where
  ok : TimPort → Result
  operation_error : Result

-- TimPort.__init__
unfoldable pub new_port : (period : ℕ) → TimPort
new_port period = record { period = period; thread = none; sent = [] }

-- `delay` is what the thread has before setDelay.
unfoldable pub setup : (delay : ℕ) → TimPort → TimPort
setup delay p = record p { thread = some (init p.period delay) }

-- What an operation sends if there is a thread
abbrev pub send_all : (Timer → List Command) → TimPort → TimPort
send_all f p = elim p.thread [ none ↦ p | some t ↦ record p { sent = p.sent ++ f t } ]

-- A thread without a period has 0; its getPeriod is None.
abbrev period_of : Timer → Option ℕ
period_of t = if t.period == 0 then none else some t.period

unfoldable pub get_period : TimPort → Option ℕ
get_period p = elim p.thread [ none ↦ none | some t ↦ period_of t ]

abbrev pub activation : Timer → List Command
activation t = elim (period_of t) [ none ↦ activate ∷ [] | some n ↦ activate ∷ start ∷ [] ]

unfoldable pub activate_port : TimPort → TimPort
activate_port p = send_all activation p

unfoldable pub deactivate_port : TimPort → TimPort
deactivate_port p = send_all (λ t. deactivate ∷ []) p

-- terminate waits for the end of the thread.
unfoldable pub terminate_port : TimPort → TimPort
terminate_port p = send_all (λ t. terminate ∷ []) p

unfoldable pub launch : TimPort → TimPort
launch p = send_all (λ t. start ∷ []) p

unfoldable pub cancel_port : TimPort → TimPort
cancel_port p = send_all (λ t. cancel ∷ []) p

unfoldable pub halt_port : TimPort → TimPort
halt_port p = send_all (λ t. halt ∷ []) p

unfoldable pub running : TimPort → Option Bool
running p = elim p.thread [ none ↦ none | some t ↦ some t.running ]

abbrev pub checked : Argument → (ℕ → TimPort) → Result
checked other f = operation_error
checked (float n) f = if ltb 0 n then ok (f n) else operation_error

abbrev pub change : (Timer → Timer) → TimPort → TimPort
change f p = elim p.thread [ none ↦ p | some t ↦ record p { thread = some (f t) } ]

unfoldable pub set_period : Argument → TimPort → Result
set_period a p = checked a (λ n. change (λ t. record t { period = n }) p)

unfoldable pub set_delay : Argument → TimPort → Result
set_delay a p = checked a (λ n. change (λ t. record t { delay = n }) p)
