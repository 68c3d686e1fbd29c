-- ===== src/Actor/Scheduler/Turns.antt =====
-- The order in which the round-robin scheduler of src/riaps/run/comp.py serves its deque.
use riaps_pycom.Prelude.{
  ℕ, ◌-◌, ◌≤◌, ◌*◌, ◌≡◌, ◌↔◌, ◌⊎◌, refl, true, false, Option, none, some, List, [], ◌∷◌,
  if◌then◌else◌, ◌==◌, All, length, lookup, has_key, length-append, arith,
}
use riaps_pycom.Actor.Thread.{Thread, App, Job}
use riaps_pycom.Actor.Thread.Serving.{IsServable, IsServable-same}
use riaps_pycom.Actor.Thread.Served.{execute_handler_for-Returns}
use riaps_pycom.Actor.Jobs.{
  last_tag, rotate, take, drop, sorted, place, jobs_of, schedule_jobs, tag_of,
}
use riaps_pycom.Actor.Scheduler.{
  Polled, returned, crashed, ran, rr_polled, pop_job, rr_loop, rr_scheduler,
}

-- The sockets of the first jobs, the latest first, before what was served already.
unfoldable pub served_after : List Job → List ℕ → List ℕ
served_after [] served = served
served_after (j ∷ q) served = served_after q (j.socket ∷ served)

-- The polls that are left after one for each job but the last
unfoldable pub polls_after : List Job → List Polled → List Polled
polls_after [] polls = polls
polls_after (j ∷ []) polls = polls
polls_after (j ∷ k ∷ q) [] = []
polls_after (j ∷ k ∷ q) (p ∷ polls) = polls_after (k ∷ q) polls

abbrev pub NoCommand : List Polled → Type 0
NoCommand polls = All (λ (p : Polled). p.command ≡ none) polls

module _ {C : Type 0} (app : App C) where
  pop_job_lem :
      (j : Job) (q : List Job) (t : Thread C)
      → t.dq ≡ j ∷ q
      → IsServable t j.socket
      → (u : Thread C) × (pop_job app t ≡ ran j.tag u)
        × (u.dq ≡ q)
        × (u.served ≡ j.socket ∷ t.served)
        × ((s : ℕ) → IsServable t s → IsServable u s)
  unfolding pop_job
  pop_job_lem j q t e h =
      let (u, f, k) =
        execute_handler_for-Returns app j.socket
          (record t { dq = q; last = last_tag (some j.tag) q }) h in
      (u, rw (e, f, pop_job) refl, k.dq, k.served, λ s. IsServable-same s k)

  group_tag :
      (s n : ℕ) (tag : Option ℕ) (t : Thread C)
      → has_key s t.sock2port ≡ false
      → has_key s t.sock2group ≡ true
      → lookup s t.sock2prio ≡ some n
      → tag_of s tag t ≡ some n
  unfolding tag_of
  group_tag s n tag t p g k = rw (p, g) k

  equal_tags :
      (a b n : ℕ) (t : Thread C)
      → (a == b) ≡ false
      → tag_of a none t ≡ some n
      → tag_of b (some n) t ≡ some n
      → schedule_jobs none (a ∷ b ∷ []) t ≡ none
  unfolding schedule_jobs jobs_of sorted place
  equal_tags a b n t ne p q =
      rw (p, schedule_jobs, jobs_of) (rw (q, schedule_jobs, jobs_of) (ground arith))

  -- Two groups that the component joined with one priority: when the sockets of both are ready, the
  -- round-robin scheduler compares the sockets, and the exception ends the thread.
  pub equal_priorities_crash :
      (a b n : ℕ) (polls : List Polled) (t : Thread C)
      → (a == b) ≡ false
      → has_key a t.sock2port ≡ false
      → has_key b t.sock2port ≡ false
      → has_key a t.sock2group ≡ true
      → has_key b t.sock2group ≡ true
      → lookup a t.sock2prio ≡ some n
      → lookup b t.sock2prio ≡ some n
      → rr_scheduler app (a ∷ b ∷ []) polls t ≡ crashed
  unfolding rr_scheduler
  equal_priorities_crash a b n polls t ne pa pb ga gb ka kb =
      rw
        (
          equal_tags a b n t ne (group_tag a n none t pa ga ka) (group_tag b n (some n) t pb gb kb),
          rr_scheduler,
        )
        refl

  servable :
      (t u : Thread C) (q : List Job)
      → ((s : ℕ) → IsServable t s → IsServable u s)
      → All (λ (j : Job). IsServable t j.socket) q
      → All (λ (j : Job). IsServable u j.socket) q
  servable t u [] f h = tt
  servable t u (j ∷ q) f h = (f j.socket h.0, servable t u q f h.1)

  -- While no command comes, the round-robin scheduler serves the jobs of its deque in their order,
  -- each once, whatever sockets the polls report meanwhile: none of those is put in the deque. It
  -- returns with an empty deque when one poll has followed each job but the last.
  pub rr_loop-serves :
      (j : Job) (q : List Job) (polls : List Polled) (t : Thread C)
      → t.dq ≡ j ∷ q
      → All (λ (i : Job). IsServable t i.socket) (j ∷ q)
      → NoCommand polls
      → length q ≤ length polls
      → (u : Thread C) × (rr_loop app polls t ≡ returned (polls_after (j ∷ q) polls) u)
        × (u.dq ≡ [])
        × (u.served ≡ served_after (j ∷ q) t.served)
  unfolding rr_loop polls_after served_after rr_polled
  rr_loop-serves j [] [] t e h n b =
      let (u, f, d, v, k) = pop_job_lem j [] t e h.0 in (u, rw (f, d, rr_loop) refl, d, v)
  rr_loop-serves j [] (p ∷ polls) t e h n b =
      let (u, f, d, v, k) = pop_job_lem j [] t e h.0 in (u, rw (f, d, rr_loop) refl, d, v)
  rr_loop-serves j (i ∷ q) [] t e h n b = absurd (omega arith)
  rr_loop-serves j (i ∷ q) (p ∷ polls) t e h n b =
      let (u, f, d, v, k) = pop_job_lem j (i ∷ q) t e h.0 in
      let (w, g, d2, v2) =
        rr_loop-serves i q polls u d (servable t u (i ∷ q) k h.1) n.1 (omega arith) in
      (w, rw (f, d, n.0, rr_loop) g, d2, rw v2 (rw v refl))

length-take : (n : ℕ) (l : List Job) → n ≤ length l → length (take n l) ≡ n
unfolding take
length-take n [] h = omega arith
length-take n (j ∷ l) h = ground (arith, length-take (n - 1) l)

length-drop : (n : ℕ) (l : List Job) → n ≤ length l → length (drop n l) ≡ length l - n
unfolding drop
length-drop n [] h = omega arith
length-drop n (j ∷ l) h = ground (arith, length-drop (n - 1) l)

-- How many jobs the rotation of a list of jobs at an index leaves: all of them at index 0, and
-- twice the index otherwise. So the jobs keep their number only if they are rotated at 0 or
-- exactly in the middle; before the middle jobs get lost, and behind it some come twice.
pub length-rotate :
    (first : ℕ) (jobs : List Job)
    → first ≤ length jobs
    → (length (rotate first jobs) ≡ (if first == 0 then length jobs else 2 * first))
      × ((length (rotate first jobs) ≡ length jobs) ↔ ((first ≡ 0) ⊎ (2 * first ≡ length jobs)))
unfolding rotate
length-rotate first jobs h = ground (
  arith,
  length-append (drop (length jobs - first) jobs) (take first jobs),
  length-append jobs (take first jobs),
  length-drop (length jobs - first) jobs,
  length-take first jobs,
)
