-- ===== src/Disco/Service/Lifecycle.antt =====
-- src/riaps/discd/discs.py: what a registered actor's services become when the actor leaves.
use riaps_pycom.Prelude.{
  text_eq-append, ℕ, ◌≡◌, refl, Bool, false, none, some, [], ◌∷◌, ◌++◌, Text, text_eq, text_eq_refl,
  Table, Lacks, find, assign, erase, find-assign, find-erase, arith,
}
use riaps_pycom.Disco.Dbase.{Dbase}
use riaps_pycom.Disco.Keys.{Site, slash, actor_key, base_key, build_insert_key_value_pair}
use riaps_pycom.Disco.Service.{
  Entry, socket, port, nothing, Pairs, Service, Reply, Handled, replied, raised, PortPath, add_pair,
  has_pair, setup_client, unsetup_client, local_key, global_key, handle_service_reg, remove_all,
  detach_all,
}

-- The pairs under which the service `p` at `host:port` is registered by this site.
abbrev pub Registers : Site → PortPath → (host port : Text) → Text × Text → Type 0
Registers site p host port_ pair =
    build_insert_key_value_pair site p.app_name p.actor_name p.msg_type p.kind p.scope host port_
    ≡ some pair

apart :
    (app t u : Text)
    → text_eq [] app ≡ false
    → Lacks slash app
    → text_eq (app ++ t) (slash ∷ u) ≡ false
unfolding text_eq
apart [] t u h l = cc
apart (x ∷ app) t u h l = ground (arith, l.0)

abbrev entries : (base loc glob key : Text) → (new_port : ℕ) → Table Entry → Table Entry
entries base loc glob key n d =
    assign key nothing (assign glob (port n) (assign loc (port n) (assign base (socket n) d)))

find-base :
    (base loc glob key : Text) (n : ℕ) (d : Table Entry)
    → text_eq loc base ≡ false
    → text_eq glob base ≡ false
    → text_eq key base ≡ false
    → find base (entries base loc glob key n d) ≡ some (socket n)
find-base base loc glob key n d hl hg hk =
    let d1 = assign base (socket n) d in
    let d2 = assign loc (port n) d1 in
    let d3 = assign glob (port n) d2 in
    ground (
      arith,
      find-assign key base nothing d3,
      find-assign glob base (port n) d2,
      find-assign loc base (port n) d1,
      find-assign base base (socket n) d,
      text_eq_refl base,
    )

find-local :
    (base loc glob key : Text) (n : ℕ) (d : Table Entry)
    → text_eq key loc ≡ false
    → find loc (entries base loc glob key n d) ≡ some (port n)
find-local base loc glob key n d hk =
    let d1 = assign base (socket n) d in
    let d2 = assign loc (port n) d1 in
    let d3 = assign glob (port n) d2 in
    ground (
      arith,
      find-assign key loc nothing d3,
      find-assign glob loc (port n) d2,
      find-assign loc loc (port n) d1,
      text_eq_refl loc,
    )

find-global :
    (base loc glob key : Text) (n : ℕ) (d : Table Entry)
    → text_eq key glob ≡ false
    → find glob (entries base loc glob key n d) ≡ some (port n)
find-global base loc glob key n d hk =
    let d2 = assign loc (port n) (assign base (socket n) d) in
    let d3 = assign glob (port n) d2 in
    ground
      (arith, find-assign key glob nothing d3, find-assign glob glob (port n) d2, text_eq_refl glob)

find-erased :
    (base loc glob : Text) (d : Table Entry)
    → find base (erase glob (erase loc (erase base d))) ≡ none
find-erased base loc glob d = ground (
  arith,
  find-erase glob base (erase loc (erase base d)),
  find-erase loc base (erase base d),
  find-erase base base d,
  text_eq_refl base,
)

module _ {S : Type 0} (dbase : Dbase S) where
  open dbase use {insert, fetch, remove, detach}

  -- The state that a registration reaches.
  abbrev pub reached : Handled S → Service S
  reached (replied reply s) = s
  reached (raised failure s) = s

  pub handle_service_reg-kept :
      (p : PortPath) (host port_ : Text) (s : Service S) (pair : Text × Text) {pairs : Pairs}
      → Registers s.site p host port_ pair
      → find (actor_key p.app_name p.actor_name) s.registrations ≡ some pairs
      → let after = handle_service_reg dbase p host port_ s in
        let s' = reached after in
        (after ≡ replied Reply.service_reg s')
        × (s'.dbase ≡ (insert pair.0 pair.1 s.dbase).0)
        × (find (actor_key p.app_name p.actor_name) s'.registrations ≡ some (add_pair pair pairs))
        × (s'.site ≡ s.site)
        × (s'.clients ≡ s.clients)
        × (s'.enrollments ≡ s.enrollments)
  unfolding handle_service_reg
  handle_service_reg-kept p host port_ s pair {pairs} h f =
      let key = actor_key p.app_name p.actor_name in
      ground (arith, find-assign key key (add_pair pair pairs) s.registrations, text_eq_refl key)

  unsetup_client-ports :
      (app actor : Text) (s : Service S) {e e' : Entry} {n : ℕ} {rs es : Pairs}
      → find (base_key app actor) s.clients ≡ some e
      → find (local_key s.site app actor) s.clients ≡ some (port n)
      → find (global_key s.site app actor) s.clients ≡ some e'
      → find (actor_key app actor) s.registrations ≡ some rs
      → find (actor_key app actor) s.enrollments ≡ some es
      → let after = unsetup_client dbase app actor s in
        let s' = reached after in
        (after ≡ replied (Reply.actor_unreg (some n)) s')
        × (s'.dbase ≡ detach_all dbase es (remove_all dbase rs s.dbase))
        × (s'.clients
            ≡ erase
                (global_key s.site app actor)
                (erase (local_key s.site app actor) (erase (base_key app actor) s.clients)))
        × (s'.registrations ≡ erase (actor_key app actor) s.registrations)
        × (s'.enrollments ≡ erase (actor_key app actor) s.enrollments)
  unfolding unsetup_client
  unsetup_client-ports app actor s b l g r e = ground arith

  find-unsetup :
      (app actor : Text) (s : Service S)
      → find (base_key app actor) s.clients ≡ none
      → unsetup_client dbase app actor s ≡ replied (Reply.actor_unreg none) s
  unfolding unsetup_client
  find-unsetup app actor s h = ground arith

  -- An actor that registers, registers a service and leaves again: its own port is returned to it
  -- both times, the service is written and the same pair is removed, and no registration is kept.
  -- Leaving once more returns no port and changes nothing. This holds for an application with a
  -- name without slash, and for addresses that are not empty.
  pub actor_leaves :
      (p : PortPath) (is_device : Bool) (new_port : ℕ) (host port_ : Text) (s : Service S)
      (pair : Text × Text)
      → let app = p.app_name in
        let actor = p.actor_name in
        let s1 = setup_client dbase app actor is_device new_port s in
        let registered = handle_service_reg dbase p host port_ s1 in
        let s2 = reached registered in
        let left = unsetup_client dbase app actor s2 in
        let s3 = reached left in
        text_eq [] app ≡ false
        → Lacks slash app
        → text_eq [] s.site.mac_address ≡ false
        → text_eq [] s.site.host_address ≡ false
        → Registers s1.site p host port_ pair
        → (registered ≡ replied Reply.service_reg s2)
          × (left ≡ replied (Reply.actor_unreg (some new_port)) s3)
          × (s3.dbase ≡ (remove pair.0 pair.1 (insert pair.0 pair.1 s.dbase).0).0)
          × (find (actor_key app actor) s3.registrations ≡ none)
          × (unsetup_client dbase app actor s3 ≡ replied (Reply.actor_unreg none) s3)
  unfolding setup_client add_pair has_pair remove_all detach_all
  actor_leaves p is_device new_port host port_ s pair ha hl hm hh h =
      let app = p.app_name in
      let actor = p.actor_name in
      let base = base_key app actor in
      let key = actor_key app actor in
      let loc = local_key s.site app actor in
      let glob = global_key s.site app actor in
      let s1 = setup_client dbase app actor is_device new_port s in
      let s2 = reached (handle_service_reg dbase p host port_ s1) in
      let s3 = reached (unsetup_client dbase app actor s2) in
      let (sent, db2, reg2, site2, clients2, enr2) =
        handle_service_reg-kept p host port_ s1 pair {pairs = []} h
          (ground (arith, find-assign key key [] s.registrations, text_eq_refl key)) in
      let b =
        find-base base loc glob key new_port s.clients (text_eq-append base s.site.mac_address hm)
          (text_eq-append base s.site.host_address hh) (apart app _ _ ha hl) in
      let l = find-local base loc glob key new_port s.clients (apart app _ _ ha hl) in
      let g = find-global base loc glob key new_port s.clients (apart app _ _ ha hl) in
      let (left, db3, clients3, reg3, enr3) =
        unsetup_client-ports app actor s2 {e = socket new_port} {e' = port new_port} {n = new_port}
          {rs = pair ∷ []} {es = []} (rw clients2 b) (rw (site2, clients2) l)
          (rw (site2, clients2) g) (reg2)
          (rw enr2 (ground (arith, find-assign key key [] s.enrollments, text_eq_refl key))) in
      (
        sent,
        left,
        rw (db3, db2) refl,
        rw reg3 (ground (arith, find-erase key key s2.registrations, text_eq_refl key)),
        find-unsetup app actor s3
            (rw (clients3, site2, clients2) (find-erased base loc glob s1.clients)),
      )
