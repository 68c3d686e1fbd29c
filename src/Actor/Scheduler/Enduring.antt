-- ===== src/Actor/Scheduler/Enduring.antt =====
-- The loop of the priority scheduler of src/riaps/run/comp.py and the exceptions of its steps.
use riaps_pycom.Prelude.{
  ℕ, ◌≡◌, ◌≢◌, refl, sym, subst, Bool, true, false, Option, none, some, List, [], ◌∷◌,
  if◌then◌else◌, All, arith,
}
use riaps_pycom.Actor.Thread.{Thread, App, Command, port_update, Entry}
use riaps_pycom.Actor.Thread.Handlers.{execute_handler_for}
use riaps_pycom.Actor.Thread.Commands.{run_command}
use riaps_pycom.Actor.Thread.Serving.{CommandSame, IsServable}
use riaps_pycom.Actor.Thread.Served.{execute_handler_for-Returns, run_command_lem}
use riaps_pycom.Actor.Thread.Sound.{IsTame, IsSound, accepts}
use riaps_pycom.Actor.Thread.Obedience.{Obeys, run_command-Obeys}
use riaps_pycom.Actor.Thread.Handling.{alike, IsServable-sound, Sound, execute-Sound}
use riaps_pycom.Actor.Scheduler.Pushing.{AllServable, push_all-Sound}
use riaps_pycom.Actor.Jobs.{is_nil, push_all}
use riaps_pycom.Actor.Scheduler.{
  Polled, Scheduled, returned, waiting, crashed, Popped, popped, queue_empty, failed, ran, Resumed,
  resumed, resumes, stops, fails, obey, priority_polled, pop_entry, priority_loop,
}

-- What a poll brings can be handled: an update is for a port that connects, and the sockets are
-- those of ports with input, or of no port.
abbrev pub IsAccepted : {C : Type 0} → Thread C → Option Command → Type 0
IsAccepted t none = Unit
IsAccepted t (some c) = accepts c t ≡ true

abbrev pub IsBenign : {C : Type 0} → Thread C → Polled → Type 0
IsBenign t p = IsAccepted t p.command × All (IsServable t) p.sockets

module _ {C : Type 0} (app : App C) (t : Thread C) (tame : IsTame app t) where
  abbrev Survived : Resumed C → Type 0
  Survived (resumes v) = IsSound t v × AllServable t v.pq
  Survived (stops v) = Unit
  Survived fails = ⊥

  push_all-Survived :
      (tag : ℕ) (l : List ℕ) (u : Thread C)
      → IsSound t u
      → All (IsServable t) l
      → AllServable t u.pq
      → Survived (resumed (push_all (some tag) l u))
  push_all-Survived tag l u h a q =
      let (v, e, g, r) = push_all-Sound t (some tag) l u h a tt q in rw (e, resumed) (g, r)

  pub accepts_sound :
      (c : Command) (u : Thread C) → IsSound t u → accepts c t ≡ true → accepts c u ≡ true
  unfolding accepts
  accepts_sound (port_update n d) u h a = rw (h.kinds n) a
  accepts_sound c u h a = ground arith

  priority_polled-Survived :
      (c : Option Command) (l : List ℕ) (tag : ℕ) (u : Thread C)
      → IsAccepted t c
      → IsSound t u
      → All (IsServable t) l
      → AllServable t u.pq
      → Survived (priority_polled app c l tag u)
  unfolding priority_polled obey
  priority_polled-Survived none l tag u k h a q = push_all-Survived tag l u h a q
  priority_polled-Survived (some c) l tag u k h a q =
      at (run_command app c u) (run_command-Obeys app t tame c u h (accepts_sound c u h k))
        (run_command_lem app c u)
    where
      at :
          (o : Option (Bool × Thread C))
          → Obeys t o
          → CommandSame u o
          → Survived (elim o [
            | none ↦ fails
            | some (stop, v) ↦
                if stop
                then stops (record v { to_stop = true })
                else resumed (push_all (some tag) l (record v { to_stop = false }))
          ])
      at none m n = m
      at (some (true, v)) m n = tt
      at (some (false, v)) m n =
          let w = record v { to_stop = false } in
          push_all-Survived tag l w (alike t v w (ground arith) refl m) a
            (subst (AllServable t) (sym n.pq) q)

  -- A pop leaves the thread sound, and the rest of its queue.
  abbrev Popping : Thread C → Popped C → Type 0
  Popping u queue_empty = Unit
  Popping u failed = ⊥
  Popping u (ran tag v) = IsSound t v × AllServable t v.pq

  Popping-popped :
      (e : Entry) (r : List Entry) (u : Thread C)
      → IsSound t u
      → IsServable t e.socket
      → AllServable t r
      → Popping u (popped e.pri (execute_handler_for app e.socket (record u { pq = r })))
  Popping-popped e r u h s q =
      let w = record u { pq = r } in
      let k = alike t u w (ground arith) refl h in
      let (v, f, m) =
        execute_handler_for-Returns app e.socket w (IsServable-sound t e.socket w k s) in
      rw (f, popped)
        (
          subst (Sound app t tame) f (execute-Sound app t tame e.socket w k),
          subst (AllServable t) (sym m.pq) q,
        )

  pop_entry-Popping :
      (u : Thread C) → IsSound t u → AllServable t u.pq → Popping u (pop_entry app u)
  unfolding pop_entry
  pop_entry-Popping u h q = from u.pq q
    where
      from :
          (r : List Entry)
          → AllServable t r
          → Popping u (elim r [
            | [] ↦ queue_empty
            | e ∷ l ↦ popped e.pri (execute_handler_for app e.socket (record u { pq = l }))
          ])
      from [] k = tt
      from (e ∷ l) k = Popping-popped e l u h k.0 k.1

  resumed_survives :
      (polls : List Polled) (r : Resumed C)
      → Survived r
      → ((v : Thread C) → IsSound t v → AllServable t v.pq → priority_loop app polls v ≢ crashed)
      → ◌≢◌ {A = Scheduled C}
          (elim r [
            | fails ↦ crashed
            | stops v ↦ returned polls v
            | resumes v ↦ priority_loop app polls v
          ])
          crashed
  resumed_survives polls (resumes v) s ih = ih v s.0 s.1
  resumed_survives polls (stops v) s ih = λ e. cc
  resumed_survives polls fails s ih = absurd s

  tested_survives :
      (empty : Bool) (u : Thread C) (polls : List Polled) {s : Scheduled C}
      → s ≢ crashed
      → ◌≢◌ {A = Scheduled C} (elim empty [ true ↦ returned polls u | false ↦ s ]) crashed
  tested_survives true u polls h = λ e. cc
  tested_survives false u polls h = h

  ended_survives :
      (empty : Bool) (u : Thread C)
      → ◌≢◌ {A = Scheduled C} (if empty then returned [] u else waiting u) crashed
  ended_survives true u = λ e. cc
  ended_survives false u = λ e. cc

  pub priority_loop-ne-crashed :
      (polls : List Polled) (u : Thread C)
      → IsSound t u
      → AllServable t u.pq
      → All (IsBenign t) polls
      → priority_loop app polls u ≢ crashed
  unfolding priority_loop
  priority_loop-ne-crashed [] u h q b = at (pop_entry app u) (pop_entry-Popping u h q)
    where
      at :
          (o : Popped C)
          → Popping u o
          → ◌≢◌ {A = Scheduled C}
              (elim o [
                | queue_empty ↦ returned [] u
                | failed ↦ crashed
                | ran tag v ↦ if is_nil v.pq then returned [] v else waiting v
              ])
              crashed
      at queue_empty k = λ e. cc
      at failed k = absurd k
      at (ran tag v) k = ended_survives (is_nil v.pq) v
  priority_loop-ne-crashed (p ∷ polls) u h q b =
      at (pop_entry app u) (pop_entry-Popping u h q)
        (λ v k r. priority_loop-ne-crashed polls v k r b.1)
    where
      at :
          (o : Popped C)
          → Popping u o
          → ((v : Thread C)
              → IsSound t v
              → AllServable t v.pq
              → priority_loop app polls v ≢ crashed)
          → ◌≢◌ {A = Scheduled C}
              (elim o [
                | queue_empty ↦ returned (p ∷ polls) u
                | failed ↦ crashed
                | ran tag v ↦ elim (is_nil v.pq) [
                  | true ↦ returned (p ∷ polls) v
                  | false ↦ elim (priority_polled app p.command p.sockets tag v) [
                    | fails ↦ crashed
                    | stops w ↦ returned polls w
                    | resumes w ↦ priority_loop app polls w
                  ]
                ]
              ])
              crashed
      at queue_empty k ih = λ e. cc
      at failed k ih = absurd k
      at (ran tag v) k ih = tested_survives (is_nil v.pq) v (p ∷ polls) (
          resumed_survives polls _
            (priority_polled-Survived p.command p.sockets tag v b.0.0 k.0 b.0.1 k.1) ih)
