-- ===== src/Timer.antt =====
-- src/riaps/run/timPort.py: the timer thread. Times are microseconds, the timeout of the poller is
-- milliseconds, and `none` waits for ever.
pub mod Ticks
pub mod Port
use riaps_pycom.Prelude.{
  ℕ, ◌+◌, ◌-◌, ◌*◌, ◌/◌, Bool, true, false, ◌&&◌, Option, none, some, List, [], ◌∷◌, ltb, ◌==◌,
  if◌then◌else◌,
}

-- TimerThread.Command
pub data Command : Type 0 where
  terminate activate deactivate start cancel halt : Command

pub record Timer : Type 0 where
  pub periodic : Bool
  pub period : ℕ
  pub delay : ℕ
  pub timeout : Option ℕ
  pub active : Bool
  pub running : Bool
  pub skip : Bool
  pub last : Option ℕ
  -- the ticks sent to the component, the newest first
  pub ticks : List ℕ

-- TimerThread.__init__ and the head of `run`; the period is the model's, in milliseconds
unfoldable pub init : (period_ms : ℕ) → (delay : ℕ) → Timer
init period_ms delay = record {
  periodic = if period_ms == 0 then false else true;
  period = period_ms * 1000;
  delay = delay;
  timeout = none;
  active = false;
  running = false;
  skip = false;
  last = none;
  ticks = [];
}

-- `msg == None`: the poller timed out
unfoldable pub on_timeout : (now : ℕ) → Timer → Timer
on_timeout now t =
    if t.active
    then (let t1 = record t { last = some now } in
        let t2 =
          if t.running
          then if t.periodic && t.skip
            then record t1 { skip = false }
            else record t1 { ticks = now ∷ t.ticks }
          else t1 in
        if t.periodic
        then record t2 { timeout = some (t.period / 1000) }
        else record t2 { running = false; timeout = none })
    else record t { timeout = none }

-- `int(delay * 1000)` of the time that is left. The poller takes a negative number as no timeout.
unfoldable pub rest_of_period : (now last period : ℕ) → Option ℕ
rest_of_period now last period =
    if ltb (last + period) now
    then if ltb (now - (last + period)) 1000 then some 0 else none
    else some ((last + period - now) / 1000)

unfoldable pub on_cancel : (now : ℕ) → Timer → Timer
unfolding rest_of_period
on_cancel now t =
    if t.periodic
    then elim t.last [
      | none ↦ t
      | some last ↦ record t { timeout = rest_of_period now last t.period; skip = true }
    ]
    else record t { running = false; timeout = none }

-- START for a timer that is not active is an error, and changes nothing.
unfoldable pub on_start : Timer → Timer
on_start t =
    if t.active
    then record t {
      timeout = some (if t.periodic then t.period / 1000 else t.delay / 1000);
      running = true;
    }
    else t

-- A command that arrives before the timeout. TERMINATE leaves the loop.
unfoldable pub on_command : (now : ℕ) → Command → Timer → Option Timer
unfolding on_cancel on_start
on_command now terminate t = none
on_command now activate t = some (record t { active = true; last = none })
on_command now deactivate t = some (record t { active = false; timeout = none; last = none })
on_command now start t = some (on_start t)
on_command now cancel t = some (on_cancel now t)
on_command now halt t = some (record t { timeout = none; running = false })

-- What one `waitFor` returns: a command, or nothing within the timeout.
pub data Wait : Type 0 where
  command : (now : ℕ) → Command → Wait
  expired : (now : ℕ) → Wait

-- `none` after TERMINATE
unfoldable pub step : Wait → Timer → Option Timer
unfolding on_command on_timeout
step (command now c) t = on_command now c t
step (expired now) t = some (on_timeout now t)

-- TimerThread.run
unfoldable pub run : List Wait → Timer → Timer
unfolding step
run [] t = t
run (w ∷ waits) t = elim (step w t) [ none ↦ t | some t1 ↦ run waits t1 ]
