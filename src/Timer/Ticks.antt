-- ===== src/Timer/Ticks.antt =====
-- When the timer of src/riaps/run/timPort.py ticks.
use riaps_pycom.Prelude.{
  ℕ, ◌+◌, ◌/◌, ◌≤◌, ◌≡◌, refl, true, false, if◌then◌else◌, none, some, List, [], ◌∷◌, arith,
}
use riaps_pycom.Timer.{cancel, Timer, on_timeout, on_cancel, on_start, Wait, command, expired, run}

-- Nothing but timeouts, at the given times.
abbrev pub expiries : List ℕ → List Wait
expiries [] = []
expiries (now ∷ times) = expired now ∷ expiries times

-- The times in front of earlier ticks, the newest first.
unfoldable pub newest_first : List ℕ → List ℕ → List ℕ
newest_first [] ticks = ticks
newest_first (now ∷ times) ticks = newest_first times (now ∷ ticks)

-- A periodic timer that is active and is not to skip a firing waits for its period after each
-- timeout. It ticks at each of them if it is running, and at none if it is not.
pub periodic_ticks :
    (times : List ℕ) (t : Timer)
    → t.periodic ≡ true
    → t.active ≡ true
    → t.skip ≡ false
    → t.timeout ≡ some (t.period / 1000)
    → let t' = run (expiries times) t in
      (t'.ticks ≡ (if t.running then newest_first times t.ticks else t.ticks))
      × (t'.timeout ≡ some (t.period / 1000))
      × (t'.running ≡ t.running)
unfolding run newest_first
periodic_ticks [] t p a s o = ground arith
periodic_ticks (now ∷ times) t p a s o = ground (arith, periodic_ticks times (on_timeout now t))

spent_timer :
    (times : List ℕ) (t : Timer)
    → t.periodic ≡ false
    → t.running ≡ false
    → ((run (expiries times) t).ticks ≡ t.ticks) × ((run (expiries times) t).running ≡ false)
unfolding run
spent_timer [] t p r = (refl, r)
spent_timer (now ∷ times) t p r = ground (arith, spent_timer times (on_timeout now t))

-- A sporadic timer that is active ticks once for each start, at the first timeout: then it is
-- not running and waits for a command, and no further timeout makes it tick again.
pub sporadic_once :
    (now : ℕ) (later : List ℕ) (t : Timer)
    → t.periodic ≡ false
    → t.active ≡ true
    → let t1 = on_timeout now (on_start t) in
      let t' = run (expiries (now ∷ later)) (on_start t) in
      (t1.timeout ≡ none) × (t'.ticks ≡ now ∷ t.ticks) × (t'.running ≡ false)
unfolding run on_start
sporadic_once now later t p a = ground (arith, spent_timer later (on_timeout now (on_start t)))

-- A cancelled periodic timer that has fired and is running skips exactly one firing: the timeout
-- of the rest of the period sends nothing, and the next one ticks again.
pub cancel_skips_one :
    (now first second last : ℕ) (t : Timer)
    → t.periodic ≡ true
    → t.active ≡ true
    → t.running ≡ true
    → t.last ≡ some last
    → let t' = run (command now cancel ∷ expired first ∷ expired second ∷ []) t in
      (t'.ticks ≡ second ∷ t.ticks) × (t'.skip ≡ false) × (t'.timeout ≡ some (t.period / 1000))
unfolding run
cancel_skips_one now first second last t p a r l = ground arith

-- If the cancel is handled a millisecond or more after the end of the period, the timeout is
-- negative and the poller waits for ever: the timer does not fire again by itself.
pub late_cancel_blocks :
    (now last : ℕ) (t : Timer)
    → t.periodic ≡ true
    → t.last ≡ some last
    → last + t.period + 1000 ≤ now
    → (on_cancel now t).timeout ≡ none
unfolding on_cancel
late_cancel_blocks now last t p l h = ground arith
