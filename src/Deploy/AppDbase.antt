-- ===== src/Deploy/AppDbase.antt =====
-- src/riaps/deplo/appdb.py: the application database, over the transactions of a key-value store
-- (lmdb).
pub mod Laws
use riaps_pycom.Prelude.{
  ℕ, ◌≡◌, Bool, true, false, not, Option, none, some, List, [], ◌∷◌, ◌++◌, keep, contains,
  if◌then◌else◌, ◌==◌,
}

-- DeploActorRecord, by the name of its actor and the rest of it
pub record ActorRecord : Type 0 where
  pub actor : ℕ
  pub rest : List ℕ

-- What is stored under a key, before pickling: a list of application names, a list of actor
-- records, or another object.
pub data Value : Type 0 where
  names : List ℕ → Value
  actors : List ActorRecord → Value
  object : List ℕ → Value

-- lmdb: one named store, read and written by transactions. `get` of a key that has just been put
-- or replaced gives the value, of one that has been deleted gives none, and other keys are left
-- alone. `put` and `replace` write alike; put's result is true, for overwrite is lmdb's default.
pub record Store : Type 1 where
  pub Db : Type 0
  pub get : ℕ → Db → Option Value
  pub put : ℕ → Value → Db → Db
  pub delete : ℕ → Db → Db
  pub get-put :
      (k j : ℕ) (v : Value) (db : Db) → get j (put k v db) ≡ (if k == j then some v else get j db)
  pub get-delete : (k j : ℕ) (db : Db) → get j (delete k db) ≡ (if k == j then none else get j db)

-- The keys of AppDbase that are not application names. Distinct texts are distinct numbers.
abbrev pub riaps_apps : ℕ
riaps_apps = 0

abbrev pub riaps_disco : ℕ
riaps_disco = 1

abbrev pub riaps_disco_cmd : ℕ
riaps_disco_cmd = 2

abbrev pub or_default : Option Value → Value → Value
or_default none default = default
or_default (some v) default = v

-- `appList.remove(appName)`: the first occurrence
unfoldable pub remove_first : ℕ → List ℕ → List ℕ
remove_first a [] = []
remove_first a (x ∷ xs) = let rest = remove_first a xs in if x == a then xs else x ∷ rest

module _ (store : Store) where
  open store use {Db, get, put, delete}

  unfoldable pub get_key_value : ℕ → Value → Db → Value
  get_key_value key default db = or_default (get key db) default

  unfoldable pub del_disco_command : Db → Db
  del_disco_command db = delete riaps_disco_cmd db

  unfoldable pub get_disco : Db → Option Value
  get_disco db = get riaps_disco db

  unfoldable pub set_disco : Value → Db → Db
  set_disco disco db = put riaps_disco disco db

  unfoldable pub get_disco_command : Db → Option Value
  get_disco_command db = get riaps_disco_cmd db

  unfoldable pub set_disco_command : Value → Db → Db
  set_disco_command cmd db = put riaps_disco_cmd cmd db

  -- A value of another kind trips the assertion on its type: `none`. A database that has just
  -- been created is not read.
  abbrev as_names : Value → Option (List ℕ)
  as_names (names l) = some l
  as_names _ = none

  unfoldable pub get_apps : (create : Bool) → Db → Option (List ℕ)
  unfolding get_key_value
  get_apps create db = if create then some [] else as_names (get_key_value riaps_apps (names []) db)

  abbrev with_app : ℕ → Option Value → Db → Bool × Db
  with_app app none db = (true, put riaps_apps (names (app ∷ [])) db)
  with_app app (some (names l)) db =
      (true, put riaps_apps (names (if contains app l then l else l ++ app ∷ [])) db)
  with_app app (some _) db = (false, db)

  -- An exception on the way, such as a list operation on another object, is passed over: `false`.
  unfoldable pub add_app : ℕ → Db → Bool × Db
  add_app app db = with_app app (get riaps_apps db) db

  abbrev without_app : ℕ → Value → Db → Bool × Db
  without_app app (names l) db =
      if contains app l
      then (true, put riaps_apps (names (remove_first app l)) (delete app db))
      else (false, db)
  without_app app _ db = (false, db)

  unfoldable pub del_app : ℕ → Db → Bool × Db
  unfolding get_key_value
  del_app app db = without_app app (get_key_value riaps_apps (names []) db) db

  -- An empty list of the store is read as a list of records.
  abbrev records : Option Value → Option (List ActorRecord)
  records none = some []
  records (some (actors l)) = some l
  records (some (names [])) = some []
  records (some _) = none

  abbrev put_records : ℕ → Option (List ActorRecord) → Db → Bool × Db
  put_records app none db = (false, db)
  put_records app (some l) db = (true, put app (actors l) db)

  unfoldable pub add_app_actor : ℕ → ActorRecord → Db → Bool × Db
  add_app_actor app actor db =
      put_records app
        (elim (records (get app db)) [ none ↦ none | some l ↦ some (l ++ actor ∷ []) ]) db

  unfoldable pub get_app_actors : ℕ → Db → Value
  unfolding get_key_value
  get_app_actors app db = get_key_value app (actors []) db

  abbrev first : List ActorRecord → Option ActorRecord
  first [] = none
  first (a ∷ l) = some a

  unfoldable pub get_app_actor : (app actor : ℕ) → Db → Option ActorRecord
  get_app_actor app actor db = elim (records (get app db)) [
    | none ↦ none
    | some l ↦ first (keep (λ a. a.actor == actor) l)
  ]

  unfoldable pub del_app_actor : (app actor : ℕ) → Db → Bool × Db
  del_app_actor app actor db =
      put_records app
        (elim (records (get app db)) [
          | none ↦ none
          | some l ↦ some (keep (λ a. not (a.actor == actor)) l)
        ])
        db

  unfoldable pub delete_apps : List ℕ → Db → Db
  delete_apps [] db = db
  delete_apps (app ∷ apps) db = delete_apps apps (delete app db)

  -- closeDbase, up to the close: every application and the two keys above are deleted
  unfoldable pub close_dbase : (create : Bool) → Db → Option Db
  unfolding get_apps delete_apps
  close_dbase create db = elim (get_apps create db) [
    | none ↦ none
    | some apps ↦ some (delete riaps_apps (delete riaps_disco (delete_apps apps db)))
  ]
