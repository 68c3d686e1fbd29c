-- ===== src/Samples/Actor/Schedules.antt =====
-- The schedulers on the component of three ports.
use riaps_pycom.Prelude.{
  ℕ, ◌*◌, ◌≡◌, ◌↔◌, ◌⊎◌, refl, inr, true, none, some, List, [], ◌∷◌, ◌++◌, length, arith, has_key,
  lookup, if◌then◌else◌, ◌==◌,
}
use riaps_pycom.Actor.Thread.{Thread, Entry, Job, limit_cpu}
use riaps_pycom.Actor.Thread.Serving.{IsServable}
use riaps_pycom.Actor.Jobs.{push_all, push, before, tag_of, rotate}
use riaps_pycom.Actor.Scheduler.{Polled, rr_loop, pop_entry, ran, returned}
use riaps_pycom.Actor.Scheduler.Order.{pop_entry-push_all}
use riaps_pycom.Actor.Scheduler.Arrival.{IsAscending, IsNumbered, waiting_at, of_priority}
use riaps_pycom.Actor.Scheduler.Turns.{served_after, polls_after, rr_loop-serves, length-rotate}
use riaps_pycom.Samples.Actor.{app, thread}

servable :
    (s n : ℕ)
    → lookup s thread.sock2name ≡ some n
    → has_key n thread.ports ≡ true
    → IsServable thread s
servable s n e h = inr (n, e, h)

subscriber : IsServable thread 2
subscriber = servable 2 10 (unfold lookup in refl) (unfold has_key in refl)

timer : IsServable thread 3
timer = servable 3 11 (unfold lookup in refl) (unfold has_key in refl)

-- While the first message is handled, a limit is exceeded and the timer fires again.
abbrev later : List Polled
later = record { command = some limit_cpu; sockets = 3 ∷ [] } ∷ []

abbrev entry : (pri cnt socket : ℕ) → Entry
entry pri cnt socket = record { pri = pri; cnt = cnt; socket = socket }

abbrev queued_thread : Thread ℕ
queued_thread = record thread { pq = entry 0 1 2 ∷ entry 1 0 3 ∷ []; tc = 2 }

pop_entry-push_all_example :
    IsAscending (entry 0 1 2 ∷ entry 1 0 3 ∷ [])
    × ((k : ℕ)
        → waiting_at k (entry 0 1 2 ∷ entry 1 0 3 ∷ [])
          ≡ waiting_at k [] ++ of_priority k thread.sock2prio (3 ∷ 2 ∷ []))
    × (v : Thread ℕ) × (pop_entry app queued_thread ≡ ran 0 v)
    × (v.served ≡ 2 ∷ [])
    × (v.pq ≡ entry 1 0 3 ∷ [])
    × IsNumbered v.tc (entry 1 0 3 ∷ [])
pop_entry-push_all_example =
    pop_entry-push_all app none (3 ∷ 2 ∷ []) thread queued_thread (entry 0 1 2) (entry 1 0 3 ∷ [])
      tt tt (unfold has_key in (refl, (refl, tt)))
      (unfold push_all push before tag_of lookup has_key in refl) refl subscriber

abbrev job : (tag socket : ℕ) → Job
job tag socket = record { tag = tag; socket = socket }

abbrev round : Thread ℕ
round = record thread { dq = job 0 2 ∷ job 1 3 ∷ []; last = some 1 }

-- The subscriber's second message is not looked at.
abbrev quiet_poll : List Polled
quiet_poll = record { command = none; sockets = 2 ∷ [] } ∷ []

rr_loop-serves_example :
    (u : Thread ℕ) × (rr_loop app quiet_poll round
      ≡ returned (polls_after (job 0 2 ∷ job 1 3 ∷ []) quiet_poll) u)
    × (u.dq ≡ [])
    × (u.served ≡ served_after (job 0 2 ∷ job 1 3 ∷ []) [])
rr_loop-serves_example =
    rr_loop-serves app (job 0 2) (job 1 3 ∷ []) quiet_poll round refl (subscriber, (timer, tt))
      (refl, tt) (omega arith)

abbrev three_jobs : List Job
three_jobs = job 0 2 ∷ job 1 3 ∷ job 2 8 ∷ []

length-rotate_example :
    let first : ℕ = 1 in
    (length (rotate first three_jobs) ≡ (if first == 0 then length three_jobs else 2 * first))
    × ((length (rotate first three_jobs) ≡ length three_jobs)
        ↔ ((first ≡ 0) ⊎ (2 * first ≡ length three_jobs)))
length-rotate_example = length-rotate 1 three_jobs (omega arith)
