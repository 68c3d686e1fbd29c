-- ===== src/Deploy/AppDbase/Laws.antt =====
-- The application database of src/riaps/deplo/appdb.py: what a reader sees after a write.
use riaps_pycom.Prelude.{
  contains-snoc, ℕ, ◌≡◌, refl, ◌≢◌, Option-cases, inl, inr, true, false, not, none, some, List, [],
  ◌∷◌, ◌++◌, keep, contains, if◌then◌else◌, ◌==◌, arith,
}
use riaps_pycom.Deploy.AppDbase.{
  ActorRecord, names, actors, Store, riaps_apps, remove_first, get_apps, add_app, del_app,
  add_app_actor, get_app_actor, del_app_actor, records,
}

-- Removing what was added last gives the list back.
remove_first-snoc :
    (a : ℕ) (xs : List ℕ) → contains a xs ≡ false → remove_first a (xs ++ a ∷ []) ≡ xs
unfolding contains remove_first
remove_first-snoc a [] h = ground arith
remove_first-snoc a (x ∷ xs) h = ground (arith, remove_first-snoc a xs)

keep-snoc_none :
    (actor : ℕ) (l : List ActorRecord) (r : ActorRecord)
    → keep (λ a. a.actor == actor) l ≡ []
    → r.actor ≡ actor
    → keep (λ a. a.actor == actor) (l ++ r ∷ []) ≡ r ∷ []
unfolding keep
keep-snoc_none actor [] r h e = ground arith
keep-snoc_none actor (x ∷ l) r h e = ground (arith, keep-snoc_none actor l r)

keep-keep-not :
    (actor : ℕ) (l : List ActorRecord)
    → keep (λ a. a.actor == actor) (keep (λ a. not (a.actor == actor)) l) ≡ []
unfolding keep
keep-keep-not actor [] = refl
keep-keep-not actor (x ∷ l) = ground (arith, keep-keep-not actor l)

keep-keep_other :
    (actor other : ℕ) (l : List ActorRecord)
    → (other == actor) ≡ false
    → keep (λ a. a.actor == other) (keep (λ a. not (a.actor == actor)) l)
      ≡ keep (λ a. a.actor == other) l
unfolding keep
keep-keep_other actor other [] h = refl
keep-keep_other actor other (x ∷ l) h = ground (arith, keep-keep_other actor other l h)

module _ (store : Store) where
  open store use {Db, get, put, delete, get-put, get-delete}

  -- An application that has been added is listed, once; adding it again changes no list, and the
  -- other keys of the database stay as they were.
  pub add_app-get_apps :
      (app k : ℕ) (db : Db) {apps : List ℕ}
      → k ≢ riaps_apps
      → get_apps store false db ≡ some apps
      → let (ok, db') = add_app store app db in
        (ok ≡ true)
        × (get_apps store false db' ≡ some (if contains app apps then apps else apps ++ app ∷ []))
        × (get k db' ≡ get k db)
  unfolding get_apps add_app contains
  add_app-get_apps app k db {apps} ne h =
      let fresh = names (app ∷ []) in
      let more = names (if contains app apps then apps else apps ++ app ∷ []) in
      (
        ground arith,
        ground
            (arith, get-put riaps_apps riaps_apps fresh db, get-put riaps_apps riaps_apps more db),
        ground (arith, get-put riaps_apps k fresh db, get-put riaps_apps k more db),
      )

  add_app-stored :
      (app : ℕ) (db : Db) {apps : List ℕ}
      → get_apps store false db ≡ some apps
      → contains app apps ≡ false
      → get riaps_apps (add_app store app db).1 ≡ some (names (apps ++ app ∷ []))
  unfolding get_apps add_app contains
  add_app-stored app db {apps} h f = ground (
    arith,
    get-put riaps_apps riaps_apps (names (app ∷ [])) db,
    get-put riaps_apps riaps_apps (names (apps ++ app ∷ [])) db,
  )

  -- Deleting an application that has just been added gives the old list back, and its records are
  -- gone. The name is not the key of the list.
  pub del_app-add_app :
      (app : ℕ) (db : Db) {apps : List ℕ}
      → app ≢ riaps_apps
      → get_apps store false db ≡ some apps
      → contains app apps ≡ false
      → let (ok, db') = del_app store app (add_app store app db).1 in
        (ok ≡ true) × (get_apps store false db' ≡ some apps) × (get app db' ≡ none)
  unfolding del_app get_apps
  del_app-add_app app db {apps} ne h f =
      let db1 = (add_app store app db).1 in
      let left = names (remove_first app (apps ++ app ∷ [])) in
      ground (
        arith,
        add_app-stored app db h f,
        contains-snoc app app apps,
        remove_first-snoc app apps f,
        get-put riaps_apps riaps_apps left (delete app db1),
        get-put riaps_apps app left (delete app db1),
        get-delete app app db1,
      )

  -- An actor record that has been added to an application with no record of that name is found
  -- under its name.
  pub add_app_actor-get :
      (app : ℕ) (record_ : ActorRecord) (db : Db)
      → get_app_actor store app record_.actor db ≡ none
      → (add_app_actor store app record_ db).0 ≡ true
      → get_app_actor store app record_.actor (add_app_actor store app record_ db).1 ≡ some record_
  unfolding get_app_actor add_app_actor
  add_app_actor-get app r db h ok = elim (Option-cases (records store (get app db))) [
    | inl e ↦ absurd (ground arith)
    | inr (l, e) ↦
        ground (arith, get-put app app (actors (l ++ r ∷ [])) db, keep-snoc_none r.actor l r)
  ]

  -- Deleting a name removes the record under it, and no record of another name.
  pub del_app_actor-get :
      (app actor other : ℕ) (db : Db)
      → (del_app_actor store app actor db).0 ≡ true
      → get_app_actor store app other (del_app_actor store app actor db).1
        ≡ (if other == actor then none else get_app_actor store app other db)
  unfolding get_app_actor del_app_actor
  del_app_actor-get app actor other db ok = elim (Option-cases (records store (get app db))) [
    | inl e ↦ absurd (ground arith)
    | inr (l, e) ↦
        let kept = keep (λ a. not (a.actor == actor)) l in
        ground (
          arith,
          get-put app app (actors kept) db,
          keep-keep-not actor l,
          keep-keep_other actor other l,
        )
  ]
