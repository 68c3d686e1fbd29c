-- ===== src/Actor/Run.antt =====
-- src/riaps/run/comp.py: ComponentThread.run. The fuel counts the turns of the main loop.
pub mod Turns
pub mod Batch
pub mod Raising
use riaps_pycom.Prelude.{
  ℕ, suc, zero, ◌+◌, ◌≤◌, ◌<◌, ◌≡◌, ◌≢◌, refl, subst, Bool, true, false, Option, none, some, List,
  [], ◌∷◌, if◌then◌else◌, length, inl, inr, Option-cases, Bool-cases, arith,
}
use riaps_pycom.Actor.Thread.{Thread, App, Command, setup_poller}
use riaps_pycom.Actor.Thread.Commands.{run_command}
use riaps_pycom.Actor.Jobs.{is_nil}
use riaps_pycom.Actor.Scheduler.{
  Polled, Scheduled, returned, waiting, crashed, Popped, Resumed, resumes, stops, fails,
  queue_empty, failed, ran, batch_scheduler, priority_scheduler, rr_scheduler, priority_loop,
  rr_loop, pop_entry, pop_job, priority_polled, rr_polled,
}

-- The `scheduler` of a component's type
pub data SchedulerType : Type 0 where
  default priority rr other : SchedulerType

-- What the thread has come to: it left the loop and stopped, it waits for a message, or an
-- exception ended it.
pub data Outcome (C : Type 0) : Type 0 where
  stopped : Thread C → Outcome C
  waits : Thread C → Outcome C
  died : Outcome C
  out_of_fuel : Outcome C

module _ {C : Type 0} (app : App C) where
  -- setupScheduler; `none` for a type that is unknown
  unfoldable pub setup_scheduler :
      SchedulerType → Option ((sockets : List ℕ) → List Polled → Thread C → Scheduled C)
  setup_scheduler default = some (batch_scheduler app)
  setup_scheduler priority = some (priority_scheduler app)
  setup_scheduler rr = some (rr_scheduler app)
  setup_scheduler other = none

  -- `toStop = runCommand()` if there is a command
  unfoldable pub receive : Option Command → Thread C → Option (Thread C)
  receive none t = some t
  receive (some c) t = elim (run_command app c t) [
    | none ↦ none
    | some (stop, u) ↦ some (record u { to_stop = stop })
  ]

  -- A scheduler is called with the sockets that are left, if there are any.
  unfoldable pub schedule :
      ((sockets : List ℕ) → List Polled → Thread C → Scheduled C)
      → (sockets : List ℕ) → List Polled
      → Thread C
      → Scheduled C
  schedule f [] polls t = returned polls t
  schedule f (s ∷ l) polls t = f (s ∷ l) polls t

  -- The `while True` of run
  unfoldable pub loop :
      ℕ
      → ((sockets : List ℕ) → List Polled → Thread C → Scheduled C)
      → List Polled
      → Thread C
      → Outcome C
  unfolding receive schedule
  loop zero f polls t = out_of_fuel
  loop (suc n) f [] t = waits t
  loop (suc n) f (p ∷ polls) t = elim (receive p.command t) [
    | none ↦ died
    | some u ↦ elim u.to_stop [
      | true ↦ stopped u
      | false ↦ elim (schedule f p.sockets polls u) [
        | crashed ↦ died
        | waiting v ↦ waits v
        | returned rest v ↦ elim v.to_stop [ true ↦ stopped v | false ↦ loop n f rest v ]
      ]
    ]
  ]

  -- run, after setupControl and setupSockets: without a scheduler the thread stops at once.
  unfoldable pub run : ℕ → SchedulerType → List Polled → Thread C → Outcome C
  unfolding setup_scheduler loop
  run n k polls t = elim (setup_scheduler k) [
    | none ↦ stopped (setup_poller t)
    | some f ↦
        loop n f polls
          (record (setup_poller t) { pq = []; tc = 0; dq = []; last = none; to_stop = false })
  ]
