-- ===== src/Timer/Port/Driving.antt =====
-- A component drives a periodic timer through its port (src/riaps/run/timPort.py).
use riaps_pycom.Prelude.{
  ℕ, ◌≡◌, refl, subst, true, false, Option, none, some, List, [], ◌∷◌, ◌++◌, ◌==◌, arith,
}
use riaps_pycom.Timer.{
  Timer, init, Command, activate, deactivate, start, on_timeout, on_start, on_command, step, Wait,
  command, run,
}
use riaps_pycom.Timer.Ticks.{expiries, newest_first}
use riaps_pycom.Timer.Port.{activation, new_port, setup, activate_port, deactivate_port}

-- The thread takes the commands, all at one time, before the rest.
abbrev pub taken : (now : ℕ) → List Command → List Wait → List Wait
taken now [] rest = rest
taken now (c ∷ l) rest = command now c ∷ taken now l rest

-- The commands behind those that an earlier state of the port had sent
abbrev pub behind : List Command → List Command → List Command
behind [] l = l
behind (c ∷ k) [] = []
behind (c ∷ k) (d ∷ l) = behind k l

-- What the thread has come to, from its start, after the waits.
abbrev pub ticks_after : List Wait → Option Timer → List ℕ
ticks_after waits none = []
ticks_after waits (some t) = (run waits t).ticks

idle : (times : List ℕ) (t : Timer) → t.active ≡ false → (run (expiries times) t).ticks ≡ t.ticks
unfolding run step on_timeout
idle [] t a = refl
idle (now ∷ times) t a = ground (arith, idle times (on_timeout now t))

ticking :
    (times later : List ℕ) (stop : ℕ) (t : Timer)
    → t.periodic ≡ true
    → t.active ≡ true
    → t.skip ≡ false
    → t.running ≡ true
    → (run (expiries times ++ command stop deactivate ∷ expiries later) t).ticks
      ≡ newest_first times t.ticks
unfolding run step on_timeout on_command newest_first
ticking [] later stop t p a s r =
    idle later (record t { active = false; timeout = none; last = none }) refl
ticking (now ∷ times) later stop t p a s r =
    ground (arith, ticking times later stop (on_timeout now t))

-- The commands of an activation and a deactivation, at a thread as it starts.
driven :
    (now stop : ℕ) (times later : List ℕ) (t : Timer) (l : List Command)
    → t.periodic ≡ true
    → t.skip ≡ false
    → activate ∷ start ∷ [] ≡ l
    → (run
        (taken now l
          (expiries times ++ taken stop (behind l (l ++ deactivate ∷ [])) (expiries later)))
        t).ticks
      ≡ newest_first times t.ticks
unfolding run step on_command on_start newest_first
driven now stop times later t l p s e =
    subst
      (λ (k : List Command).
        (run
          (taken now k
            (expiries times ++ taken stop (behind k (k ++ deactivate ∷ [])) (expiries later)))
          t).ticks
        ≡ newest_first times t.ticks)
      e
      (ticking times later stop (on_start (record t { active = true; last = none })) p refl s refl)

-- A component activates the port of a periodic timer that was set up, and deactivates it later:
-- the thread ticks at each timeout between the two, and at none after the second.
pub activated_ticks :
    (period delay now stop : ℕ) (times later : List ℕ)
    → (period == 0) ≡ false
    → (let p = activate_port (setup delay (new_port period)) in
        let q = deactivate_port p in
        ticks_after
          (taken now p.sent (expiries times ++ taken stop (behind p.sent q.sent) (expiries later)))
          p.thread
        ≡ newest_first times [])
unfolding activate_port deactivate_port setup new_port init
activated_ticks period delay now stop times later h =
    let t = init period delay in
    let p : t.periodic ≡ true = ground arith in
    let n : (t.period == 0) ≡ false = ground arith in
    driven now stop times later t (activation t) p refl (ground arith)
