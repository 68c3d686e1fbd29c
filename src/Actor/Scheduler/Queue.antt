-- ===== src/Actor/Scheduler/Queue.antt =====
-- The accounts of the priority scheduler of src/riaps/run/comp.py: what becomes of a socket that a
-- poll reports.
use riaps_pycom.Prelude.{
  ℕ, suc, ◌+◌, ◌≡◌, refl, Bool, true, false, Option, none, some, List, [], ◌∷◌, inl, inr,
  Option-cases, if◌then◌else◌, ◌==◌, All, arith,
}
use riaps_pycom.Actor.Thread.{Thread, App, Command, kill, Entry}
use riaps_pycom.Actor.Thread.Commands.{run_command}
use riaps_pycom.Actor.Thread.Serving.{SameQueues}
use riaps_pycom.Actor.Thread.Served.{run_command_lem}
use riaps_pycom.Actor.Jobs.{push, push_all, tag_of}
use riaps_pycom.Actor.Scheduler.{
  Polled, Scheduled, returned, waiting, crashed, Resumed, resumes, stops, fails, obey, resumed,
  priority_polled,
}

-- How often a socket stands in a list, in the queue, and in the polls to come.
unfoldable pub count : ℕ → List ℕ → ℕ
count s [] = 0
count s (x ∷ l) = let rest = count s l in if x == s then suc rest else rest

unfoldable pub queued : ℕ → List Entry → ℕ
queued s [] = 0
queued s (e ∷ q) = let rest = queued s q in if e.socket == s then suc rest else rest

unfoldable pub reported : ℕ → List Polled → ℕ
reported s [] = 0
reported s (p ∷ polls) = count s p.sockets + reported s polls

queued-push :
    (s : ℕ) (e : Entry) (q : List Entry)
    → queued s (push e q) ≡ (if e.socket == s then suc (queued s q) else queued s q)
unfolding queued push
queued-push s e [] = refl
queued-push s e (x ∷ q) = ground (arith, queued-push s e q)

abbrev pub is_kill : Command → Bool
is_kill kill = true
is_kill _ = false

abbrev pub kills : Option Command → Bool
kills none = false
kills (some c) = is_kill c

module _ {C : Type 0} where
  -- The thread with the sockets of a list in the queue.
  abbrev pub Pushed : ℕ → List ℕ → Thread C → Option (Thread C) → Type 0
  Pushed s l t none = Unit
  Pushed s l t (some u) = (queued s u.pq ≡ count s l + queued s t.pq) × (u.served ≡ t.served)

  abbrev pub with_entry : (pri x : ℕ) → Thread C → Thread C
  with_entry pri x t = record t {
    pq = push (record { pri = pri; cnt = t.tc; socket = x }) t.pq;
    tc = t.tc + 1;
  }

  Pushed-cons :
      (s pri x : ℕ) (l : List ℕ) (t : Thread C) (o : Option (Thread C))
      → Pushed s l (with_entry pri x t) o
      → Pushed s (x ∷ l) t o
  unfolding count
  Pushed-cons s pri x l t none h = tt
  Pushed-cons s pri x l t (some u) h =
      ground (arith, queued-push s (record { pri = pri; cnt = t.tc; socket = x }) t.pq)

  pub push_all_lem :
      (s : ℕ) (tag : Option ℕ) (l : List ℕ) (t : Thread C) → Pushed s l t (push_all tag l t)
  unfolding push_all count
  push_all_lem s tag [] t = (omega arith, refl)
  push_all_lem s tag (x ∷ l) t = elim (Option-cases (tag_of x tag t)) [
    | inl e ↦ rw (e, push_all) tt
    | inr (pri, e) ↦
        rw (e, push_all)
          (Pushed-cons s pri x l t _ (push_all_lem s (some pri) l (with_entry pri x t)))
  ]

  -- The sockets of a poll are queued, and none is served.
  abbrev pub Accounts : ℕ → ℕ → Thread C → Resumed C → Type 0
  Accounts s n t (resumes u) = (queued s u.pq ≡ n + queued s t.pq) × (u.served ≡ t.served)
  Accounts s n t (stops u) = ⊥
  Accounts s n t fails = Unit

  Accounts-resumed :
      (s : ℕ) (l : List ℕ) (t v : Thread C) (o : Option (Thread C))
      → v.pq ≡ t.pq
      → v.served ≡ t.served
      → Pushed s l v o
      → Accounts s (count s l) t (resumed o)
  Accounts-resumed s l t v none e f h = tt
  Accounts-resumed s l t v (some u) e f h = ground arith

  -- A command that is no kill does not stop the thread, and leaves the queues as they are.
  abbrev pub Obeyed : Thread C → Option (Bool × Thread C) → Type 0
  Obeyed t none = Unit
  Obeyed t (some (stop, u)) = (stop ≡ false) × SameQueues t u

module _ {C : Type 0} (app : App C) where
  pub run_command-goes_on :
      (c : Command) (t : Thread C) → is_kill c ≡ false → Obeyed t (run_command app c t)
  unfolding run_command
  run_command-goes_on kill t h = cc
  run_command-goes_on c t h = ground (arith, run_command_lem app c t)

  obey_lem :
      (s tag : ℕ) (c : Command) (sockets : List ℕ) (t : Thread C)
      → is_kill c ≡ false
      → Accounts s (count s sockets) t (obey app c (λ u. resumed (push_all (some tag) sockets u)) t)
  unfolding obey
  obey_lem s tag c sockets t h = at (run_command app c t) (run_command-goes_on c t h)
    where
      at :
          (o : Option (Bool × Thread C))
          → Obeyed t o
          → Accounts s (count s sockets) t (elim o [
            | none ↦ fails
            | some (stop, u) ↦
                if stop
                then stops (record u { to_stop = true })
                else resumed (push_all (some tag) sockets (record u { to_stop = false }))
          ])
      at none k = tt
      at (some (stop, u)) k = rw k.0 (
          Accounts-resumed s sockets t (record u { to_stop = false }) _ k.1.pq k.1.served
            (push_all_lem s (some tag) sockets (record u { to_stop = false })))

  pub priority_polled_lem :
      (s : ℕ) (c : Option Command) (sockets : List ℕ) (tag : ℕ) (t : Thread C)
      → kills c ≡ false
      → Accounts s (count s sockets) t (priority_polled app c sockets tag t)
  unfolding priority_polled
  priority_polled_lem s none sockets tag t h =
      Accounts-resumed s sockets t t _ refl refl (push_all_lem s (some tag) sockets t)
  priority_polled_lem s (some c) sockets tag t h = obey_lem s tag c sockets t h

-- The jobs of a socket, served and to be served, at the end of a scheduler.
abbrev pub Balanced : {C : Type 0} → ℕ → ℕ → Scheduled C → Type 0
Balanced s total (returned rest t) = count s t.served + queued s t.pq + reported s rest ≡ total
Balanced s total (waiting t) = count s t.served + queued s t.pq ≡ total
Balanced s total crashed = Unit

abbrev pub Quiet : List Polled → Type 0
Quiet polls = All (λ (p : Polled). kills p.command ≡ false) polls
