-- ===== src/Actor/Scheduler/Balance.antt =====
-- The balance of the loop of the priority scheduler of src/riaps/run/comp.py.
use riaps_pycom.Prelude.{
  ℕ, ◌+◌, ◌≡◌, refl, ap, subst, Bool, true, false, Option, none, some, List, [], ◌∷◌, if◌then◌else◌,
  arith,
}
use riaps_pycom.Actor.Thread.{Thread, App, Entry}
use riaps_pycom.Actor.Thread.Handlers.{execute_handler_for}
use riaps_pycom.Actor.Thread.Served.{ServedSame, execute_handler_for_lem}
use riaps_pycom.Actor.Jobs.{is_nil}
use riaps_pycom.Actor.Scheduler.{
  popped, Polled, returned, waiting, crashed, Popped, queue_empty, failed, ran, Resumed, resumes,
  stops, fails, priority_polled, pop_entry, priority_loop,
}
use riaps_pycom.Actor.Scheduler.Queue.{
  count, queued, reported, kills, Accounts, priority_polled_lem, Balanced, Quiet,
}

module _ {C : Type 0} (app : App C) where
  abbrev Popping : ℕ → Thread C → Popped C → Type 0
  Popping s t queue_empty = Unit
  Popping s t failed = Unit
  Popping s t (ran tag u) = count s u.served + queued s u.pq ≡ count s t.served + queued s t.pq

  Popping-popped :
      (s : ℕ) (e : Entry) (r : List Entry) (t : Thread C) (o : Option (Thread C))
      → ◌≡◌ {A = List Entry} (e ∷ r) t.pq
      → ServedSame app e.socket (record t { pq = r }) o
      → Popping s t (popped e.pri o)
  unfolding count queued
  Popping-popped s e r t none h k = tt
  Popping-popped s e r t (some u) h k = ground (arith, ap (queued s) h)

  pop_entry_lem : (s : ℕ) (t : Thread C) → Popping s t (pop_entry app t)
  unfolding pop_entry
  pop_entry_lem s t = from t.pq refl
    where
      from :
          (q : List Entry)
          → q ≡ t.pq
          → Popping s t (elim q [
            | [] ↦ queue_empty
            | e ∷ r ↦ popped e.pri (execute_handler_for app e.socket (record t { pq = r }))
          ])
      from [] h = tt
      from (e ∷ r) h =
          Popping-popped s e r t _ h (execute_handler_for_lem app e.socket (record t { pq = r }))

  resumed_balance :
      (s n : ℕ) (polls : List Polled) (t : Thread C) (r : Resumed C)
      → Accounts s n t r
      → ((u : Thread C)
          → Balanced s
              (count s u.served + queued s u.pq + reported s polls)
              (priority_loop app polls u))
      → Balanced s (count s t.served + queued s t.pq + (n + reported s polls)) (elim r [
        | fails ↦ crashed
        | stops u ↦ returned polls u
        | resumes u ↦ priority_loop app polls u
      ])
  resumed_balance s n polls t (resumes u) a ih =
      let e : count s u.served + queued s u.pq + reported s polls
          ≡ count s t.served + queued s t.pq + (n + reported s polls) =
        omega (arith, a.0, ap (count s) a.1) in
      subst (λ (k : ℕ). Balanced s k (priority_loop app polls u)) e (ih u)
  resumed_balance s n polls t (stops u) a ih = absurd a
  resumed_balance s n polls t fails a ih = tt

  -- The end of a pass: the queue is empty, or a poll is waited for.
  ended :
      (s n : ℕ) (t u : Thread C) (q : List Entry)
      → count s u.served + queued s u.pq ≡ n
      → Balanced s n (if is_nil q then returned [] u else waiting u)
  unfolding reported
  ended s n t u [] h = omega (arith, h)
  ended s n t u (e ∷ q) h = h

  passed :
      (s : ℕ) (p : Polled) (polls : List Polled) (tag n : ℕ) (u : Thread C) (empty : Bool)
      → count s u.served + queued s u.pq ≡ n
      → ((v : Thread C)
          → Balanced s
              (count s v.served + queued s v.pq + reported s polls)
              (priority_loop app polls v))
      → kills p.command ≡ false
      → Balanced s (n + (count s p.sockets + reported s polls)) (elim empty [
        | true ↦ returned (p ∷ polls) u
        | false ↦ elim (priority_polled app p.command p.sockets tag u) [
          | fails ↦ crashed
          | stops v ↦ returned polls v
          | resumes v ↦ priority_loop app polls v
        ]
      ])
  unfolding reported
  passed s p polls tag n u true h ih k = omega (arith, h)
  passed s p polls tag n u false h ih k =
      subst
        (λ (m : ℕ).
          Balanced s (m + (count s p.sockets + reported s polls))
            (elim (priority_polled app p.command p.sockets tag u) [
              | fails ↦ crashed
              | stops v ↦ returned polls v
              | resumes v ↦ priority_loop app polls v
            ]))
        h
        (resumed_balance s (count s p.sockets) polls u _
          (priority_polled_lem app s p.command p.sockets tag u k) ih)

  pub priority_loop_lem :
      (s : ℕ) (polls : List Polled) (t : Thread C)
      → Quiet polls
      → Balanced s (count s t.served + queued s t.pq + reported s polls) (priority_loop app polls t)
  unfolding priority_loop reported
  priority_loop_lem s [] t q = at (pop_entry app t) (pop_entry_lem s t)
    where
      at :
          (o : Popped C)
          → Popping s t o
          → Balanced s (count s t.served + queued s t.pq + 0) (elim o [
            | queue_empty ↦ returned [] t
            | failed ↦ crashed
            | ran tag u ↦ if is_nil u.pq then returned [] u else waiting u
          ])
      at queue_empty h = refl
      at failed h = tt
      at (ran tag u) h = ended s _ t u u.pq (omega (arith, h))
  priority_loop_lem s (p ∷ polls) t q =
      at (pop_entry app t) (pop_entry_lem s t) (λ u. priority_loop_lem s polls u q.1)
    where
      at :
          (o : Popped C)
          → Popping s t o
          → ((u : Thread C)
              → Balanced s
                  (count s u.served + queued s u.pq + reported s polls)
                  (priority_loop app polls u))
          → Balanced s
              (count s t.served + queued s t.pq + (count s p.sockets + reported s polls))
              (elim o [
                | queue_empty ↦ returned (p ∷ polls) t
                | failed ↦ crashed
                | ran tag u ↦ elim (is_nil u.pq) [
                  | true ↦ returned (p ∷ polls) u
                  | false ↦ elim (priority_polled app p.command p.sockets tag u) [
                    | fails ↦ crashed
                    | stops v ↦ returned polls v
                    | resumes v ↦ priority_loop app polls v
                  ]
                ]
              ])
      at queue_empty h ih = refl
      at failed h ih = tt
      at (ran tag u) h ih = passed s p polls tag _ u (is_nil u.pq) h ih q.0
