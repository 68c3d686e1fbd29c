-- ===== src/Actor/Run/Batch.antt =====
-- The main loop of src/riaps/run/comp.py with the default scheduler, against the polls.
use riaps_pycom.Prelude.{
  ℕ, suc, zero, ◌<◌, ◌≡◌, refl, subst, Bool, true, false, Option, none, some, List, [], ◌∷◌, length,
  ◌∙◌, inl, inr, if◌then◌else◌, Bool-cases, All, Dict, ap, arith,
}
use riaps_pycom.Actor.Port.{Port}
use riaps_pycom.Actor.Thread.{Thread, App, Command, kill, setup_poller, poll_ports, poll_port}
use riaps_pycom.Actor.Thread.Commands.{run_command}
use riaps_pycom.Actor.Thread.Handlers.{execute_handler_for}
use riaps_pycom.Actor.Thread.Serving.{IsServable}
use riaps_pycom.Actor.Thread.Served.{execute_handler_for-Returns}
use riaps_pycom.Actor.Thread.Sound.{IsTame, IsSound, IsSound-itself}
use riaps_pycom.Actor.Thread.Handling.{alike, IsServable-sound, Sound, execute-Sound}
use riaps_pycom.Actor.Thread.Obedience.{Obeys, run_command-Obeys}
use riaps_pycom.Actor.Thread.Poller.{are_apart, setup_poller-IsWired}
use riaps_pycom.Actor.Scheduler.{Polled, returned, batch_scheduler}
use riaps_pycom.Actor.Scheduler.Queue.{kills, Obeyed, run_command-goes_on}
use riaps_pycom.Actor.Scheduler.Enduring.{IsAccepted, IsBenign, accepts_sound}
use riaps_pycom.Actor.Run.{default, stopped, waits, receive, schedule, loop, run}

-- The sockets of the polls before the first that brings a `kill`, the latest first.
abbrev pub all_before : List ℕ → List ℕ → List ℕ
all_before [] served = served
all_before (s ∷ l) served = all_before l (s ∷ served)

unfoldable pub until_kill : List Polled → List ℕ → List ℕ
until_kill [] served = served
until_kill (p ∷ polls) served =
    let rest = until_kill polls (all_before p.sockets served) in
    if kills p.command then served else rest

unfoldable pub is_killed : List Polled → Bool
is_killed [] = false
is_killed (p ∷ polls) = let rest = is_killed polls in if kills p.command then true else rest

module _ {C : Type 0} (app : App C) (t : Thread C) (tame : IsTame app t) where
  -- A thread that goes on, and has served `l`
  record GoesOn (l : List ℕ) (u : Thread C) : Type 0 where
    sound : IsSound t u
    on : u.to_stop ≡ false
    served : u.served ≡ l

  served_one :
      (s : ℕ) (l : List ℕ) (u : Thread C)
      → GoesOn l u
      → IsServable t s
      → (v : Thread C) × (execute_handler_for app s u ≡ some v) × GoesOn (s ∷ l) v
  served_one s l u g h =
      let (v, e, k) = execute_handler_for-Returns app s u (IsServable-sound t s u g.sound h) in
      (
        v,
        e,
        record {
          sound = subst (Sound app t tame) e (execute-Sound app t tame s u g.sound);
          on = k.to_stop ∙ g.on;
          served = k.served ∙ ap (λ r. s ∷ r) g.served;
        },
      )

  served_all :
      (sockets l : List ℕ) (polls : List Polled) (u : Thread C)
      → GoesOn l u
      → All (IsServable t) sockets
      → (v : Thread C) × (batch_scheduler app sockets polls u ≡ returned polls v)
        × GoesOn (all_before sockets l) v
  unfolding batch_scheduler
  served_all [] l polls u g h = (u, refl, g)
  served_all (s ∷ sockets) l polls u g h =
      let (v, e, k) = served_one s l u g h.0 in
      let (w, f, m) = served_all sockets (s ∷ l) polls v k h.1 in (w, rw (e, batch_scheduler) f, m)

  scheduled_all :
      (sockets l : List ℕ) (polls : List Polled) (u : Thread C)
      → GoesOn l u
      → All (IsServable t) sockets
      → (v : Thread C) × (schedule app (batch_scheduler app) sockets polls u ≡ returned polls v)
        × GoesOn (all_before sockets l) v
  unfolding schedule
  scheduled_all [] l polls u g h = (u, refl, g)
  scheduled_all (s ∷ sockets) l polls u g h = served_all (s ∷ sockets) l polls u g h

  received_on :
      (c : Option Command) (l : List ℕ) (u : Thread C)
      → GoesOn l u
      → IsAccepted t c
      → kills c ≡ false
      → (v : Thread C) × (receive app c u ≡ some v) × GoesOn l v
  unfolding receive
  received_on none l u g a k = (u, refl, g)
  received_on (some c) l u g a k =
      at (run_command app c u)
        (run_command-Obeys app t tame c u g.sound (accepts_sound app t tame c u g.sound a))
        (run_command-goes_on app c u k)
    where
      at :
          (o : Option (Bool × Thread C))
          → Obeys t o
          → Obeyed u o
          → (v : Thread C) × (◌≡◌ {A = Option (Thread C)}
              (elim o [ none ↦ none | some (stop, w) ↦ some (record w { to_stop = stop }) ])
              (some v))
            × GoesOn l v
      at none m n = absurd m
      at (some (stop, w)) m n =
          let v = record w { to_stop = stop } in
          (
            v,
            refl,
            record {
              sound = alike t w v (ground arith) refl m;
              on = n.0;
              served = n.1.served ∙ g.served;
            },
          )

  received_kill :
      (c : Option Command) (u : Thread C)
      → kills c ≡ true
      → receive app c u ≡ some (record u { to_stop = true })
  unfolding receive run_command
  received_kill none u k = cc
  received_kill (some kill) u k = refl
  received_kill (some c) u k = cc

  loop_serves :
      (n : ℕ) (polls : List Polled) (l : List ℕ) (u : Thread C)
      → GoesOn l u
      → All (IsBenign t) polls
      → length polls < n
      → (v : Thread C) × (loop app n (batch_scheduler app) polls u
          ≡ (if is_killed polls then stopped v else waits v))
        × (v.served ≡ until_kill polls l)
  unfolding loop is_killed until_kill
  loop_serves zero polls l u g b h = absurd (omega arith)
  loop_serves (suc n) [] l u g b h = (u, refl, g.served)
  loop_serves (suc n) (p ∷ polls) l u g b h = elim (Bool-cases (kills p.command)) [
    | inl k ↦
        (record u { to_stop = true }, rw (k, received_kill p.command u k, loop) refl, rw k g.served)
    | inr k ↦
        let (v, e, m) = received_on p.command l u g b.0.0 k in
        let (w, f, r) = scheduled_all p.sockets l polls v m b.0.1 in
        let (x, i, j) = loop_serves n polls (all_before p.sockets l) w r b.1 (omega arith) in
        (x, rw (k, e, m.on, f, r.on, loop) i, rw k j)
  ]

module _ {C : Type 0} where
  poll_port_served : (n : ℕ) (p : Port) (t : Thread C) → (poll_port n p t).served ≡ t.served
  unfolding poll_port
  poll_port_served n p t = ground arith

  poll_ports_served : (d : Dict Port) (t : Thread C) → (poll_ports d t).served ≡ t.served
  unfolding poll_ports
  poll_ports_served [] t = refl
  poll_ports_served ((n, p) ∷ d) t = poll_ports_served d (poll_port n p t) ∙ poll_port_served n p t

  setup_poller_served : (t : Thread C) → (setup_poller t).served ≡ t.served
  unfolding setup_poller
  setup_poller_served t = poll_ports_served t.ports _

module _ {C : Type 0} (app : App C) where
  -- With the default scheduler, the thread of a component serves each socket that the polls report,
  -- once and in the order of the polls, up to the first poll that brings the `kill` of its part. It
  -- stops there, and serves none of that poll's sockets; if no poll brings a `kill`, it waits for
  -- the next message when all are served. So it ends in no exception, and one turn of the loop for
  -- each poll and one more are enough. This is so if the ports' sockets are different, the sockets
  -- that are reported are those of ports with input or of no port, the updates are for ports that
  -- connect, the component's own handlers of commands and deadlines return and leave no group, and
  -- the groups that it joins meanwhile have sockets of their own.
  pub batch_run :
      (n : ℕ) (polls : List Polled) (t : Thread C)
      → are_apart t.ports (t.control ∷ []) ≡ true
      → IsTame app (setup_poller t)
      → All (IsBenign (setup_poller t)) polls
      → length polls < n
      → (v : Thread C) × (run app n default polls t
          ≡ (if is_killed polls then stopped v else waits v))
        × (v.served ≡ until_kill polls t.served)
  unfolding run
  batch_run n polls t a tame b h =
      let u = setup_poller t in
      let w = record u { pq = []; tc = 0; dq = []; last = none; to_stop = false } in
      loop_serves app u tame n polls t.served w
        (record {
          sound = alike u u w (ground arith) refl (IsSound-itself u (setup_poller-IsWired t a));
          on = refl;
          served = setup_poller_served t;
        })
        b h
