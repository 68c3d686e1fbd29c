-- ===== src/Deploy/ProcessManager/Watching.antt =====
-- The process manager of src/riaps/deplo/procm.py: which processes are restarted when they end.
use riaps_pycom.Prelude.{
  ℕ, ◌≡◌, refl, true, false, Option, none, some, ◌∷◌, lookup, lookup-insert, lookup-delete,
  if◌then◌else◌, ◌==◌, arith,
}
use riaps_pycom.Deploy.ProcessManager.{
  Monitor, Manager, new_monitor, setup, monitor, release, process_ends,
}

-- Each monitor in the table watches under the name by which the table has it, and is neither
-- released nor terminated.
pub record IsWatching (mgr : Manager) : Type 0 where
  pub watches :
      (name : ℕ) (m : Monitor)
      → lookup name mgr.monitors ≡ some m
      → (m.proc_name ≡ name) × (m.released ≡ false) × (m.terminated ≡ false)

abbrev watched : (name proc : ℕ) → Option Monitor → Monitor
watched name proc none = new_monitor name proc
watched name proc (some old) = setup old.proc_name proc old

abbrev Watches : ℕ → Monitor → Type 0
Watches name m = (m.proc_name ≡ name) × (m.released ≡ false) × (m.terminated ≡ false)

watched-Watches :
    (name proc : ℕ) (o : Option Monitor)
    → ((m : Monitor) → o ≡ some m → Watches name m)
    → Watches name (watched name proc o)
unfolding new_monitor setup
watched-Watches name proc none h = (refl, refl, refl)
watched-Watches name proc (some old) h = h old refl

-- After `monitor` the process is watched under its name. A thread that was there keeps its flags,
-- the others are left alone, and so the table goes on watching.
pub monitor_watches :
    (name proc : ℕ) (mgr : Manager)
    → IsWatching mgr
    → (m : Monitor) × (m.proc ≡ proc)
      × IsWatching (monitor name proc mgr)
      × ((other : ℕ)
          → lookup other (monitor name proc mgr).monitors
            ≡ (if name == other then some m else lookup other mgr.monitors))
unfolding monitor
monitor_watches name proc mgr w =
    let m = watched name proc (lookup name mgr.monitors) in
    let seen = λ (other : ℕ). lookup-insert name other m mgr.monitors in
    (
      m,
      ground arith,
      record {
        watches = λ other k h. ground (
          arith,
          seen other,
          watched-Watches name proc (lookup name mgr.monitors) (w.watches name),
          w.watches other k,
        );
      },
      λ other. ground (arith, seen other),
    )

-- Once `release` has taken a process from the table, its end asks for no restart. A process whose
-- restart is under way is not released: the table is left as it is.
pub release_lets_go :
    (name : ℕ) (mgr : Manager) (m : Monitor)
    → IsWatching mgr
    → lookup name mgr.monitors ≡ some m
    → IsWatching (release name mgr)
      × (if m.unexpected
          then release name mgr ≡ mgr
          else ((lookup name (release name mgr).monitors ≡ none)
              × ((release name mgr).detached ≡ record m { released = true } ∷ mgr.detached)
              × ((process_ends (record m { released = true })).requests ≡ m.requests)
              × ((process_ends m).requests ≡ name ∷ m.requests)))
unfolding release process_ends
release_lets_go name mgr m w e = (
  record {
    watches = λ other k h. ground (arith, lookup-delete name other mgr.monitors, w.watches other k);
  },
  ground (arith, lookup-delete name name mgr.monitors, w.watches name m e),
)
