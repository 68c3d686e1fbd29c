-- ===== src/Deploy/ProcessManager.antt =====
-- src/riaps/deplo/procm.py: the processes that the deployment service watches. A monitor thread is
-- an object of its own, which the manager's table names.
pub mod Watching
use riaps_pycom.Prelude.{
  ℕ, Bool, true, false, ◌||◌, Option, none, some, List, [], ◌∷◌, ◌++◌, Dict, lookup, insert, delete,
  if◌then◌else◌,
}

-- ProcessMonitor: the process that it waits for, its flags, and the restarts it has asked for.
pub record Monitor : Type 0 where
  pub proc_name : ℕ
  pub proc : ℕ
  pub terminated : Bool
  pub released : Bool
  pub unexpected : Bool
  pub alive : Bool
  pub requests : List ℕ

-- ProcessManager.monitors, with the threads: the record of a name and the state of its thread.
pub record Manager : Type 0 where
  pub monitors : Dict Monitor
  -- threads whose name has been deleted from the table
  pub detached : List Monitor
  pub unknown : List ℕ

unfoldable pub new_monitor : (name proc : ℕ) → Monitor
new_monitor name proc = record {
  proc_name = name;
  proc = proc;
  terminated = false;
  released = false;
  unexpected = false;
  alive = true;
  requests = [];
}

-- ProcessMonitor.setup
unfoldable pub setup : (name proc : ℕ) → Monitor → Monitor
setup name proc m = record m { proc_name = name; proc = proc }

-- ProcessManager.monitor: an existing thread is set up for the new process, under its old name.
unfoldable pub monitor : (name proc : ℕ) → Manager → Manager
unfolding setup new_monitor
monitor name proc mgr = record mgr {
  monitors =
      insert name
        (elim (lookup name mgr.monitors) [
          | none ↦ new_monitor name proc
          | some old ↦ setup old.proc_name proc old
        ])
        mgr.monitors;
}

-- ProcessManager.release: a thread that waits for a restart is left alone.
unfoldable pub release : ℕ → Manager → Manager
release name mgr = elim (lookup name mgr.monitors) [
  | none ↦ record mgr { unknown = name ∷ mgr.unknown }
  | some m ↦ if m.unexpected then mgr else record mgr {
    monitors = delete name mgr.monitors;
    detached = record m { released = true } ∷ mgr.detached;
  }
]

-- The process of a monitor ends: `self.proc.wait()` returns in ProcessMonitor.run.
unfoldable pub process_ends : Monitor → Monitor
process_ends m =
    if m.terminated || m.released
    then record m { alive = false }
    else record m { unexpected = true; requests = m.proc_name ∷ m.requests }

-- The parent answers a request: the loop waits for the process again.
unfoldable pub restarted : Monitor → Monitor
restarted m = record m { unexpected = false }
