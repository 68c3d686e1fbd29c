-- ===== src/Actor/Scheduler/Order.antt =====
-- The order in which the priority scheduler of src/riaps/run/comp.py serves its queue.
use riaps_pycom.Prelude.{
  ℕ, ◌+◌, ◌≡◌, refl, subst, true, Option, some, List, [], ◌∷◌, ◌++◌, inl, inr, Option-cases,
  if◌then◌else◌, ◌==◌, ◌||◌, ◌∙◌, ap, sym, All, Dict, has_key, lookup, append-nil, append_assoc,
  arith,
}
use riaps_pycom.Actor.Thread.{Thread, App, Entry}
use riaps_pycom.Actor.Thread.Serving.{IsServable}
use riaps_pycom.Actor.Thread.Served.{execute_handler_for-Returns}
use riaps_pycom.Actor.Jobs.{push, push_all, tag_of}
use riaps_pycom.Actor.Scheduler.{ran, pop_entry}
use riaps_pycom.Actor.Scheduler.Arrival.{
  IsAscending, IsNumbered, waiting_at, of_priority, push-IsAscending, waiting_at-push,
  IsNumbered-push, IsNumbered-suc,
}

arrived :
    (k pri s : ℕ) (priorities : Dict ℕ) (l w : List ℕ)
    → lookup s priorities ≡ some pri
    → (w ++ (if pri == k then s ∷ [] else [])) ++ of_priority k priorities l
      ≡ w ++ of_priority k priorities (s ∷ l)
unfolding of_priority
arrived k pri s priorities l w h =
    append_assoc w (if pri == k then s ∷ [] else []) (of_priority k priorities l)
    ∙ ap (λ r. w ++ r) (ground arith)

module _ {C : Type 0} where
  abbrev with_entry : (pri s : ℕ) → Thread C → Thread C
  with_entry pri s u = record u {
    pq = push (record { pri = pri; cnt = u.tc; socket = s }) u.pq;
    tc = u.tc + 1;
  }

  -- The sockets are those of ports or groups.
  abbrev pub AreOwned : Thread C → List ℕ → Type 0
  AreOwned t l = All (λ (s : ℕ). (has_key s t.sock2port || has_key s t.sock2group) ≡ true) l

  -- The queue after the sockets of a list were put in the queue of `t`.
  pub record Queued (l : List ℕ) (t u : Thread C) : Type 0 where
    pub ascending : IsAscending u.pq
    pub numbered : IsNumbered u.tc u.pq
    pub arrival : (k : ℕ) → waiting_at k u.pq ≡ waiting_at k t.pq ++ of_priority k t.sock2prio l

  own_tag :
      (s : ℕ) (tag : Option ℕ) (t : Thread C)
      → (has_key s t.sock2port || has_key s t.sock2group) ≡ true
      → tag_of s tag t ≡ lookup s t.sock2prio
  unfolding tag_of
  own_tag s tag t h = ground arith

  push_all-Queued :
      (tag : Option ℕ) (l : List ℕ) (t u : Thread C)
      → IsAscending t.pq
      → IsNumbered t.tc t.pq
      → AreOwned t l
      → push_all tag l t ≡ some u
      → Queued l t u
  unfolding push_all of_priority
  push_all-Queued tag [] t u a n o e =
      let k : t ≡ u = ground arith in
      subst (λ (v : Thread C). Queued [] t v) k
        (record {
          ascending = a;
          numbered = n;
          arrival = λ k. sym (append-nil (waiting_at k t.pq));
        })
  push_all-Queued tag (s ∷ l) t u a n o e = elim (Option-cases (tag_of s tag t)) [
    | inl f ↦ absurd (ground arith)
    | inr (pri, f) ↦
        let x : Entry = record { pri = pri; cnt = t.tc; socket = s } in
        let r =
          push_all-Queued (some pri) l (with_entry pri s t) u (push-IsAscending x t.pq n a)
            (IsNumbered-push (t.tc + 1) x t.pq (omega arith) (IsNumbered-suc t.tc t.pq n)) o.1
            (ground arith) in
        record {
          ascending = r.ascending;
          numbered = r.numbered;
          arrival = λ k.
              r.arrival k
              ∙ ap (λ w. w ++ of_priority k t.sock2prio l) (waiting_at-push k x t.pq n a)
              ∙ arrived k pri s t.sock2prio l (waiting_at k t.pq) (sym (own_tag s tag t o.0) ∙ f);
        }
  ]

module _ {C : Type 0} (app : App C) where
  -- The queue of the priority scheduler is kept in the order of the priorities, the smallest first,
  -- and of their arrival within one priority; no two of its entries are equal in both, so that their
  -- sockets are never compared. When the sockets of a poll, of ports or of groups, have been put in
  -- such a queue, it is in order again; the sockets that wait with a priority are those that waited
  -- with it before, and then those of the poll that have the priority, in the order of the poll.
  -- The handler that runs next is that of the first entry, and leaves the rest in order.
  pub pop_entry-push_all :
      (tag : Option ℕ) (l : List ℕ) (t u : Thread C) (e : Entry) (q : List Entry)
      → IsAscending t.pq
      → IsNumbered t.tc t.pq
      → AreOwned t l
      → push_all tag l t ≡ some u
      → u.pq ≡ e ∷ q
      → IsServable u e.socket
      → IsAscending (e ∷ q)
        × ((k : ℕ) → waiting_at k (e ∷ q) ≡ waiting_at k t.pq ++ of_priority k t.sock2prio l)
        × (v : Thread C) × (pop_entry app u ≡ ran e.pri v)
        × (v.served ≡ e.socket ∷ u.served)
        × (v.pq ≡ q)
        × IsNumbered v.tc q
  unfolding pop_entry
  pop_entry-push_all tag l t u e q a n o f g s =
      let (v, h, k) = execute_handler_for-Returns app e.socket (record u { pq = q }) s in
      let r = push_all-Queued tag l t u a n o f in
      let m = subst (IsNumbered u.tc) g r.numbered in
      (
        subst IsAscending g r.ascending,
        λ i. ap (waiting_at i) (sym g) ∙ r.arrival i,
        v,
        rw (g, h, pop_entry) refl,
        k.served,
        k.pq,
        subst (λ i. IsNumbered i q) (sym k.tc) m.1,
      )
