-- ===== src/Actor/Scheduler.antt =====
-- src/riaps/run/comp.py: the three schedulers of a component thread. What the polls of zmq return is
-- an explicit list, one element for each call of `poll`.
pub mod Queue
pub mod Balance
pub mod Turns
pub mod Order
pub mod Arrival
pub mod Pushing
pub mod Enduring
pub mod Survival
use riaps_pycom.Prelude.{
  ℕ, Bool, true, false, Option, none, some, List, [], ◌∷◌, ◌++◌, if◌then◌else◌,
}
use riaps_pycom.Actor.Thread.{Thread, App, Command, Entry, Job}
use riaps_pycom.Actor.Thread.Handlers.{execute_handler_for}
use riaps_pycom.Actor.Thread.Commands.{run_command}
use riaps_pycom.Actor.Jobs.{is_nil, push_all, schedule_jobs, last_tag}

-- The sockets that were ready, in the order of the dictionary. Where the control socket is one of
-- them, there is a command on it.
pub record Polled : Type 0 where
  pub command : Option Command
  pub sockets : List ℕ

-- How a scheduler ends: it returned, with the polls that are left; it waits in `poll` for more than
-- the list has; or an exception left it.
pub data Scheduled (C : Type 0) : Type 0 where
  returned : List Polled → Thread C → Scheduled C
  waiting : Thread C → Scheduled C
  crashed : Scheduled C

-- One pass through the inner loop of a scheduler up to the test of its queue: the tag and the
-- thread after the handler.
pub data Popped (C : Type 0) : Type 0 where
  queue_empty failed : Popped C
  ran : (tag : ℕ) → Thread C → Popped C

-- What a scheduler does with a poll.
pub data Resumed (C : Type 0) : Type 0 where
  resumes stops : Thread C → Resumed C
  fails : Resumed C

module _ {C : Type 0} where
  abbrev pub popped : ℕ → Option (Thread C) → Popped C
  popped tag none = failed
  popped tag (some t) = ran tag t

  abbrev pub resumed : Option (Thread C) → Resumed C
  resumed none = fails
  resumed (some t) = resumes t

module _ {C : Type 0} (app : App C) where
  -- toStop = runCommand(), and the rest unless the thread stops
  unfoldable pub obey : Command → (Thread C → Resumed C) → Thread C → Resumed C
  obey c rest t = elim (run_command app c t) [
    | none ↦ fails
    | some (stop, t1) ↦
        if stop then stops (record t1 { to_stop = true }) else rest (record t1 { to_stop = false })
  ]

  unfoldable pub priority_polled :
      Option Command → (sockets : List ℕ) (tag : ℕ) → Thread C → Resumed C
  unfolding obey
  priority_polled none sockets tag t = resumed (push_all (some tag) sockets t)
  priority_polled (some c) sockets tag t = obey c (λ t1. resumed (push_all (some tag) sockets t1)) t

  -- Sockets that come without a command are not looked at: the `break` stands under the test for
  -- the control socket.
  unfoldable pub rr_polled : Option Command → (sockets : List ℕ) (tag : ℕ) → Thread C → Resumed C
  unfolding obey
  rr_polled none sockets tag t = resumes t
  rr_polled (some c) sockets tag t =
      obey c
        (λ t1. if is_nil sockets then resumes t1 else resumed (schedule_jobs (some tag) sockets t1))
        t

  -- heappop and executeHandlerFor
  unfoldable pub pop_entry : Thread C → Popped C
  pop_entry t = elim t.pq [
    | [] ↦ queue_empty
    | e ∷ q ↦ popped e.pri (execute_handler_for app e.socket (record t { pq = q }))
  ]

  -- dq.pop, the update of `last`, and executeHandlerFor
  unfoldable pub pop_job : Thread C → Popped C
  pop_job t = elim t.dq [
    | [] ↦ queue_empty
    | j ∷ q ↦
        popped j.tag
          (execute_handler_for app j.socket (record t { dq = q; last = last_tag (some j.tag) q }))
  ]

  -- The inner and the outer loop, from a pop on; each pass takes one poll.
  unfoldable pub priority_loop : List Polled → Thread C → Scheduled C
  priority_loop [] t = elim (pop_entry t) [
    | queue_empty ↦ returned [] t
    | failed ↦ crashed
    | ran tag t1 ↦ if is_nil t1.pq then returned [] t1 else waiting t1
  ]
  priority_loop (p ∷ polls) t = elim (pop_entry t) [
    | queue_empty ↦ returned (p ∷ polls) t
    | failed ↦ crashed
    | ran tag t1 ↦ elim (is_nil t1.pq) [
      | true ↦ returned (p ∷ polls) t1
      | false ↦ elim (priority_polled p.command p.sockets tag t1) [
        | fails ↦ crashed
        | stops t2 ↦ returned polls t2
        | resumes t2 ↦ priority_loop polls t2
      ]
    ]
  ]

  unfoldable pub rr_loop : List Polled → Thread C → Scheduled C
  rr_loop [] t = elim (pop_job t) [
    | queue_empty ↦ returned [] t
    | failed ↦ crashed
    | ran tag t1 ↦ if is_nil t1.dq then returned [] t1 else waiting t1
  ]
  rr_loop (p ∷ polls) t = elim (pop_job t) [
    | queue_empty ↦ returned (p ∷ polls) t
    | failed ↦ crashed
    | ran tag t1 ↦ elim (is_nil t1.dq) [
      | true ↦ returned (p ∷ polls) t1
      | false ↦ elim (rr_polled p.command p.sockets tag t1) [
        | fails ↦ crashed
        | stops t2 ↦ returned polls t2
        | resumes t2 ↦ rr_loop polls t2
      ]
    ]
  ]

  unfoldable pub priority_scheduler : List ℕ → List Polled → Thread C → Scheduled C
  priority_scheduler sockets polls t = elim (push_all none sockets t) [
    | none ↦ crashed
    | some t1 ↦ priority_loop polls t1
  ]

  unfoldable pub rr_scheduler : List ℕ → List Polled → Thread C → Scheduled C
  rr_scheduler sockets polls t = elim (schedule_jobs none sockets t) [
    | none ↦ crashed
    | some t1 ↦ rr_loop polls t1
  ]

  unfoldable pub batch_scheduler : List ℕ → List Polled → Thread C → Scheduled C
  batch_scheduler [] polls t = returned polls t
  batch_scheduler (s ∷ l) polls t = elim (execute_handler_for app s t) [
    | none ↦ crashed
    | some t1 ↦ batch_scheduler l polls t1
  ]
