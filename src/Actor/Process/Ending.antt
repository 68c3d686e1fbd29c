-- ===== src/Actor/Process/Ending.antt =====
-- The end of an actor (src/riaps/run/actor.py).
use riaps_pycom.Prelude.{
  ◌≡◌, refl, Bool, true, false, [], ◌∷◌, inl, inr, Bool-cases, if◌then◌else◌, Dict, arith,
}
use riaps_pycom.Actor.Thread.{deactivate, kill}
use riaps_pycom.Actor.Part.{
  Part, State, active, inactive, ok, raised, state_error, send_control, call, deactivated,
  terminated,
}
use riaps_pycom.Actor.Process.{Actor, finished, broke, for_each, done, part_raised, terminate}

abbrev is_active : State → Bool
is_active active = true
is_active _ = false

unfoldable pub all_active : Dict Part → Bool
all_active [] = true
all_active ((n, p) ∷ l) = let rest = all_active l in if is_active p.state then rest else false

-- A part that was deactivated, and one that was told to end as well
abbrev pub stopped : Part → Part
stopped p = record (send_control deactivate p) { state = inactive }

unfoldable pub all_ended : Dict Part → Dict Part
all_ended [] = []
all_ended ((n, p) ∷ l) = (n, send_control kill (stopped p)) ∷ all_ended l

-- The parts up to the first that is not active are deactivated.
unfoldable pub stopped_before : Dict Part → Dict Part
stopped_before [] = []
stopped_before ((n, p) ∷ l) =
    let rest = stopped_before l in if is_active p.state then (n, stopped p) ∷ rest else (n, p) ∷ l

all_stopped : Dict Part → Dict Part
all_stopped [] = []
all_stopped ((n, p) ∷ l) = (n, stopped p) ∷ all_stopped l

deactivate_lem :
    (p : Part)
    → call deactivated p ≡ (if is_active p.state then ok (stopped p) else raised state_error p)
unfolding call
deactivate_lem p = ground arith

for_each-deactivated :
    (l : Dict Part)
    → for_each (call deactivated) l
      ≡ (if all_active l then finished (all_stopped l) else broke state_error (stopped_before l))
unfolding for_each all_active all_stopped stopped_before
for_each-deactivated [] = refl
for_each-deactivated ((n, p) ∷ l) = ground (arith, deactivate_lem p, for_each-deactivated l)

for_each-terminated :
    (l : Dict Part) → for_each (call terminated) (all_stopped l) ≡ finished (all_ended l)
unfolding for_each all_stopped all_ended call
for_each-terminated [] = refl
for_each-terminated ((n, p) ∷ l) = rw (for_each-terminated l) refl

-- An actor ends only if all its parts are active: then each part is deactivated, and after all of
-- them each is told to end. If some part is not active, the exception of the first such part ends
-- `terminate`: the active parts before it are deactivated, the others stay as they are, and no part
-- is told to end.
pub terminate_lem :
    (a : Actor)
    → terminate a ≡ (
        if all_active a.components
        then done (record a { components = all_ended a.components })
        else part_raised state_error (record a { components = stopped_before a.components }))
unfolding terminate
terminate_lem a = elim (Bool-cases (all_active a.components)) [
  | inl e ↦ rw (for_each-deactivated a.components, e, for_each-terminated a.components) refl
  | inr e ↦ rw (for_each-deactivated a.components, e) refl
]
