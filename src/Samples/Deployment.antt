-- ===== src/Samples/Deployment.antt =====
-- An application database on an association list (src/riaps/deplo/appdb.py), and a table of
-- monitored processes (src/riaps/deplo/procm.py).
use riaps_pycom.Prelude.{
  ◌≡◌, refl, true, false, none, some, [], ◌∷◌, Dict, lookup, insert, delete, lookup-insert,
  lookup-delete, contains, arith, Bool, Option, List, codes, if◌then◌else◌,
}
use riaps_pycom.Deploy.Client.{Rep, ReqSocket, DeplClient}
use riaps_pycom.Deploy.AppDbase.{
  ActorRecord, Value, names, actors, Store, get_apps, add_app, del_app,
}
use riaps_pycom.Deploy.AppDbase.Laws.{del_app-add_app}
use riaps_pycom.Deploy.ProcessManager.{Manager, new_monitor}

abbrev listed : Store
listed = record {
  Db = Dict Value;
  get = lookup;
  put = insert;
  delete = delete;
  get-put = lookup-insert;
  get-delete = lookup-delete;
}

abbrev sensor : ActorRecord
sensor = record { actor = 7; rest = 1 ∷ [] }

-- Applications 10 and 11 are known, and 10 has an actor.
abbrev apps_db : Dict Value
apps_db = (0, names (10 ∷ 11 ∷ [])) ∷ (10, actors (sensor ∷ [])) ∷ (11, actors []) ∷ []

apps_known : get_apps listed false apps_db ≡ some (10 ∷ 11 ∷ [])
unfolding get_apps lookup
apps_known = refl

del_app-add_app_example :
    let (ok, db') = del_app listed 12 (add_app listed 12 apps_db).1 in
    (ok ≡ true) × (get_apps listed false db' ≡ some (10 ∷ 11 ∷ [])) × (lookup 12 db' ≡ none)
del_app-add_app_example =
    del_app-add_app listed 12 apps_db (λ e. ground arith) apps_known (unfold contains in refl)

abbrev watching : Manager
watching = record { monitors = (5, new_monitor 5 400) ∷ []; detached = []; unknown = [] }

-- A REQ socket: whether it waits, and what its receipts will return
abbrev ReqState : Type 0
ReqState = Bool × List (Option Rep)

abbrev receive : Bool → List (Option Rep) → Option Rep × ReqState
receive waits [] = (none, (waits, []))
receive waits (none ∷ l) = (none, (waits, l))
receive waits (some r ∷ l) = (some r, (false, l))

abbrev req_socket : ReqSocket
req_socket = record {
  Sock = ReqState;
  send = λ q s. if s.0 then none else some (true, s.1);
  recv = λ s. receive s.0 s.1;
}

-- The service misses the first request, and would answer the second.
abbrev depl_client : DeplClient req_socket
depl_client = record {
  app_name = codes "app";
  actor_name = codes "act";
  is_device = false;
  socket = some (false, none ∷ some (Rep.report_event true) ∷ []);
  channel = [];
  uuid = none;
}
