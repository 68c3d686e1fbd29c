-- ===== src/Actor/Run/Turns.antt =====
-- The main loop of src/riaps/run/comp.py against the number of the polls.
use riaps_pycom.Prelude.{
  ℕ, suc, zero, ◌≤◌, ◌<◌, ◌≢◌, Bool, true, false, Option, none, some, List, [], ◌∷◌, length, inl,
  inr, Option-cases, arith,
}
use riaps_pycom.Actor.Thread.{Thread, App}
use riaps_pycom.Actor.Thread.Handlers.{execute_handler_for}
use riaps_pycom.Actor.Jobs.{is_nil, push_all, schedule_jobs}
use riaps_pycom.Actor.Scheduler.{
  Polled, Scheduled, returned, waiting, crashed, Popped, Resumed, resumes, stops, fails,
  queue_empty, failed, ran, batch_scheduler, priority_scheduler, rr_scheduler, priority_loop,
  rr_loop, pop_entry, pop_job, priority_polled, rr_polled,
}
use riaps_pycom.Actor.Run.{
  SchedulerType, default, priority, rr, other, Outcome, stopped, waits, died, out_of_fuel, receive,
  schedule, loop, run,
}

-- A scheduler leaves no more polls than it was given.
abbrev Within : {C : Type 0} → ℕ → Scheduled C → Type 0
Within n (returned rest t) = length rest ≤ n
Within n (waiting t) = Unit
Within n crashed = Unit

Within-suc : {C : Type 0} (n : ℕ) (r : Scheduled C) → Within n r → Within (suc n) r
Within-suc n (returned rest t) h = omega arith
Within-suc n (waiting t) h = tt
Within-suc n crashed h = tt

-- A pass through the loop of a scheduler takes one poll, and goes on with `next`.
module _ {C : Type 0} (p : Polled) (polls : List Polled) (next : Thread C → Scheduled C)
    (within : (v : Thread C) → Within (length polls) (next v)) where
  resume-Within :
      (r : Resumed C)
      → Within
          (suc (length polls))
          (elim r [ fails ↦ crashed | stops v ↦ returned polls v | resumes v ↦ next v ])
  resume-Within fails = tt
  resume-Within (stops v) = omega arith
  resume-Within (resumes v) = Within-suc (length polls) _ (within v)

  test-Within :
      (empty : Bool) (u : Thread C) (r : Resumed C)
      → Within (suc (length polls)) (elim empty [
        | true ↦ returned (p ∷ polls) u
        | false ↦ elim r [ fails ↦ crashed | stops v ↦ returned polls v | resumes v ↦ next v ]
      ])
  test-Within true u r = omega arith
  test-Within false u r = resume-Within r

  pass-Within :
      (empty : Thread C → Bool) (polled : ℕ → Thread C → Resumed C) (t : Thread C) (o : Popped C)
      → Within (suc (length polls)) (elim o [
        | queue_empty ↦ returned (p ∷ polls) t
        | failed ↦ crashed
        | ran tag u ↦ elim (empty u) [
          | true ↦ returned (p ∷ polls) u
          | false ↦ elim (polled tag u) [
            | fails ↦ crashed
            | stops v ↦ returned polls v
            | resumes v ↦ next v
          ]
        ]
      ])
  pass-Within empty polled t queue_empty = omega arith
  pass-Within empty polled t failed = tt
  pass-Within empty polled t (ran tag u) = test-Within (empty u) u (polled tag u)

module _ {C : Type 0} (app : App C) where
  priority_loop-Within :
      (polls : List Polled) (t : Thread C) → Within (length polls) (priority_loop app polls t)
  unfolding priority_loop
  priority_loop-Within [] t = ground arith
  priority_loop-Within (p ∷ polls) t =
      pass-Within p polls (λ v. priority_loop app polls v) (λ v. priority_loop-Within polls v)
        (λ u. is_nil u.pq) (λ tag u. priority_polled app p.command p.sockets tag u) t
        (pop_entry app t)

  rr_loop-Within :
      (polls : List Polled) (t : Thread C) → Within (length polls) (rr_loop app polls t)
  unfolding rr_loop
  rr_loop-Within [] t = ground arith
  rr_loop-Within (p ∷ polls) t =
      pass-Within p polls (λ v. rr_loop app polls v) (λ v. rr_loop-Within polls v)
        (λ u. is_nil u.dq) (λ tag u. rr_polled app p.command p.sockets tag u) t (pop_job app t)

  batch_scheduler-Within :
      (sockets : List ℕ) (polls : List Polled) (t : Thread C)
      → Within (length polls) (batch_scheduler app sockets polls t)
  unfolding batch_scheduler
  batch_scheduler-Within [] polls t = omega arith
  batch_scheduler-Within (s ∷ l) polls t = elim (Option-cases (execute_handler_for app s t)) [
    | inl e ↦ rw (e, batch_scheduler) tt
    | inr (u, e) ↦ rw (e, batch_scheduler) (batch_scheduler-Within l polls u)
  ]

  priority_scheduler-Within :
      (sockets : List ℕ) (polls : List Polled) (t : Thread C)
      → Within (length polls) (priority_scheduler app sockets polls t)
  unfolding priority_scheduler
  priority_scheduler-Within sockets polls t = elim (Option-cases (push_all none sockets t)) [
    | inl e ↦ rw (e, priority_scheduler) tt
    | inr (u, e) ↦ rw (e, priority_scheduler) (priority_loop-Within polls u)
  ]

  rr_scheduler-Within :
      (sockets : List ℕ) (polls : List Polled) (t : Thread C)
      → Within (length polls) (rr_scheduler app sockets polls t)
  unfolding rr_scheduler
  rr_scheduler-Within sockets polls t = elim (Option-cases (schedule_jobs none sockets t)) [
    | inl e ↦ rw (e, rr_scheduler) tt
    | inr (u, e) ↦ rw (e, rr_scheduler) (rr_loop-Within polls u)
  ]

  ended :
      (stop : Bool) (v : Thread C) {o : Outcome C}
      → o ≢ out_of_fuel
      → ◌≢◌ {A = Outcome C} (elim stop [ true ↦ stopped v | false ↦ o ]) out_of_fuel
  ended true v h = λ e. cc
  ended false v h = h

  -- What the loop needs of a scheduler.
  abbrev IsThrifty : ((sockets : List ℕ) → List Polled → Thread C → Scheduled C) → Type 0
  IsThrifty f =
      (sockets : List ℕ) (polls : List Polled) (t : Thread C)
      → Within (length polls) (f sockets polls t)

  schedule-Within :
      (f : (sockets : List ℕ) → List Polled → Thread C → Scheduled C)
      → IsThrifty f
      → IsThrifty (schedule app f)
  unfolding schedule
  schedule-Within f h [] polls t = omega arith
  schedule-Within f h (s ∷ l) polls t = h (s ∷ l) polls t

  loop_ends :
      (n : ℕ) (f : (sockets : List ℕ) → List Polled → Thread C → Scheduled C)
      → (polls : List Polled) (t : Thread C) → IsThrifty f
      → length polls < n
      → loop app n f polls t ≢ out_of_fuel
  unfolding loop
  loop_ends zero f polls t h b = absurd (omega arith)
  loop_ends (suc n) f [] t h b = λ e. cc
  loop_ends (suc n) f (p ∷ polls) t h b =
      received (receive app p.command t) (λ u. schedule-Within f h p.sockets polls u)
        (λ rest v k. loop_ends n f rest v h (omega arith))
    where
      scheduled :
          (s : Scheduled C)
          → Within (length polls) s
          → ((rest : List Polled) (v : Thread C)
              → length rest ≤ length polls
              → loop app n f rest v ≢ out_of_fuel)
          → ◌≢◌ {A = Outcome C}
              (elim s [
                | crashed ↦ died
                | waiting v ↦ waits v
                | returned rest v ↦ elim v.to_stop [
                  | true ↦ stopped v
                  | false ↦ loop app n f rest v
                ]
              ])
              out_of_fuel
      scheduled crashed w k = λ e. cc
      scheduled (waiting v) w k = λ e. cc
      scheduled (returned rest v) w k = ended v.to_stop v (k rest v w)

      received :
          (o : Option (Thread C))
          → ((u : Thread C) → Within (length polls) (schedule app f p.sockets polls u))
          → ((rest : List Polled) (v : Thread C)
              → length rest ≤ length polls
              → loop app n f rest v ≢ out_of_fuel)
          → ◌≢◌ {A = Outcome C}
              (elim o [
                | none ↦ died
                | some u ↦ elim u.to_stop [
                  | true ↦ stopped u
                  | false ↦ elim (schedule app f p.sockets polls u) [
                    | crashed ↦ died
                    | waiting v ↦ waits v
                    | returned rest v ↦ elim v.to_stop [
                      | true ↦ stopped v
                      | false ↦ loop app n f rest v
                    ]
                  ]
                ]
              ])
              out_of_fuel
      received none w k = λ e. cc
      received (some u) w k = ended u.to_stop u (scheduled _ (w u) k)

  -- The main loop of a component's thread takes at least one poll each turn, whichever scheduler
  -- the component has: with more fuel than polls the thread never runs out of it, but stops, waits
  -- for a message, or ends in an exception.
  pub run_ends :
      (n : ℕ) (k : SchedulerType) (polls : List Polled) (t : Thread C)
      → length polls < n
      → run app n k polls t ≢ out_of_fuel
  unfolding run
  run_ends n default polls t h = loop_ends n (batch_scheduler app) polls _ batch_scheduler-Within h
  run_ends n priority polls t h =
      loop_ends n (priority_scheduler app) polls _ priority_scheduler-Within h
  run_ends n rr polls t h = loop_ends n (rr_scheduler app) polls _ rr_scheduler-Within h
  run_ends n other polls t h = λ e. cc
