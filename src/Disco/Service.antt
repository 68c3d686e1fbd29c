-- ===== src/Disco/Service.antt =====
-- DiscoService of src/riaps/discd/discs.py, over a discovery database. The service is one thread:
-- a request is handled and answered whole. An exception ends it, at the state that was reached.
pub mod Lifecycle
pub mod Requests
use riaps_pycom.Prelude.{
  ℕ, Bool, true, false, ◌&&◌, Option, none, some, List, [], ◌∷◌, ◌++◌, map, Text, text_eq, has_text,
  add_text, discard_text, split, Table, find, assign, erase, if◌then◌else◌,
}
use riaps_pycom.Disco.Dbase.{Dbase}
use riaps_pycom.Disco.Keys.{
  Kind, Scope, Site, Client, colon, base_key, actor_key, build_insert_key_value_pair,
  build_lookup_key,
}

pub data Failure : Type 0 where
  key_error value_error assertion_error index_error : Failure

-- A value of `self.clients`: a socket under the base key, its port under the local and the global
-- key, and an empty list under the actor's.
pub data Entry : Type 0 where
  socket : (port : ℕ) → Entry
  port : ℕ → Entry
  nothing : Entry

abbrev pub Pairs : Type 0
Pairs = List (Text × Text)

pub record Service (S : Type 0) : Type 0 where
  pub site : Site
  pub dbase : S
  pub registrations : Table Pairs
  pub enrollments : Table Pairs
  pub clients : Table Entry
  pub client_updates : List (Text × Text × List Text)

pub data Reply : Type 0 where
  actor_reg actor_unreg : (port : Option ℕ) → Reply
  service_reg service_unreg service_unlookup group_join : Reply
  service_lookup : (sockets : List (Text × Text)) → Reply

pub data Handled (S : Type 0) : Type 0 where
  replied : Reply → Service S → Handled S
  raised : Failure → Service S → Handled S

pub record PortPath : Type 0 where
  pub app_name : Text
  pub actor_name : Text
  pub msg_type : Text
  pub kind : Kind
  pub scope : Scope

pub data Request : Type 0 where
  actor_reg : (app actor : Text) (is_device : Bool) (new_port : ℕ) → Request
  actor_unreg : (app actor : Text) → Request
  service_reg service_unreg : PortPath → (host port : Text) → Request
  service_lookup service_unlookup : (app msg_type : Text) → Kind → Scope → Client → Request
  group_join : Request

abbrev pub pair_eq : Text × Text → Text × Text → Bool
pair_eq (k, v) (j, w) = text_eq k j && text_eq v w

unfoldable pub has_pair : Text × Text → Pairs → Bool
has_pair p [] = false
has_pair p (q ∷ l) = let rest = has_pair p l in if pair_eq q p then true else rest

-- `|= {p}` and `-= {p}` on a set of pairs
unfoldable pub add_pair : Text × Text → Pairs → Pairs
add_pair p l = if has_pair p l then l else p ∷ l

unfoldable pub discard_pair : Text × Text → Pairs → Pairs
discard_pair p [] = []
discard_pair p (q ∷ l) = let rest = discard_pair p l in if pair_eq q p then rest else q ∷ rest

abbrev pub local_key : Site → (app actor : Text) → Text
local_key site app actor = base_key app actor ++ site.mac_address

abbrev pub global_key : Site → (app actor : Text) → Text
global_key site app actor = base_key app actor ++ site.host_address

module _ {S : Type 0} (dbase : Dbase S) where
  open dbase use {insert, fetch, remove, detach}

  -- setupClient; `new_port` is the random port that the socket binds
  unfoldable pub setup_client : (app actor : Text) → Bool → (new_port : ℕ) → Service S → Service S
  setup_client app actor is_device new_port s =
      let base = base_key app actor in
      record s {
        site = record s.site {
          devices = if is_device then add_text base s.site.devices else s.site.devices;
        };
        clients = assign (actor_key app actor) nothing (
            assign (global_key s.site app actor) (port new_port) (
              assign (local_key s.site app actor) (port new_port)
                (assign base (socket new_port) s.clients)));
        registrations = assign (actor_key app actor) [] s.registrations;
        enrollments = assign (actor_key app actor) [] s.enrollments;
      }

  unfoldable pub remove_all : Pairs → S → S
  remove_all [] db = db
  remove_all ((key, value) ∷ pairs) db = remove_all pairs (remove key value db).0

  unfoldable pub detach_all : Pairs → S → S
  detach_all [] db = db
  detach_all ((key, target) ∷ pairs) db = detach_all pairs (detach key target db)

  abbrev pub pairs_of : Option Pairs → Pairs
  pairs_of none = []
  pairs_of (some pairs) = pairs

  abbrev has_entry : Text → Table Entry → Bool
  has_entry k d = elim (find k d) [ none ↦ false | some e ↦ true ]

  abbrev port_of : Option Entry → Option ℕ
  port_of (some (port p)) = some p
  port_of _ = none

  -- The dictionaries of an actor that was never registered lack its key.
  abbrev forget_actor : Text → Option Pairs → Option Pairs → Reply → Service S → Handled S
  forget_actor key none e reply s = raised key_error s
  forget_actor key (some r) none reply s =
      raised key_error (record s { registrations = erase key s.registrations })
  forget_actor key (some r) (some e) reply s = replied reply (record s {
    registrations = erase key s.registrations;
    enrollments = erase key s.enrollments;
  })

  -- unsetupClient. The client's services leave the database, and its own lookups are detached.
  -- The entry of the actor's key stays in `clients`.
  unfoldable pub unsetup_client : (app actor : Text) → Service S → Handled S
  unfolding remove_all detach_all
  unsetup_client app actor s =
      let base = base_key app actor in
      let local_port = find (local_key s.site app actor) s.clients in
      let key = actor_key app actor in
      if has_entry base s.clients
      then if has_entry (local_key s.site app actor) s.clients
          && has_entry (global_key s.site app actor) s.clients
        then forget_actor key (find key s.registrations) (find key s.enrollments)
            (Reply.actor_unreg (port_of local_port))
            (record s {
              site = record s.site { devices = discard_text base s.site.devices };
              clients =
                  erase (global_key s.site app actor)
                    (erase (local_key s.site app actor) (erase base s.clients));
              dbase =
                  detach_all (pairs_of (find key s.enrollments))
                    (remove_all (pairs_of (find key s.registrations)) s.dbase);
            })
        else raised assertion_error s
      else replied (Reply.actor_unreg none) s

  -- `self.registrations[regKey] |= {(key,value)}`: the database has been written before a missing
  -- key is found
  abbrev register : Text → Text × Text → List Text → Option Pairs → Service S → Handled S
  register reg_key pair told none s = raised key_error s
  register reg_key pair told (some pairs) s =
      let s1 = record s { registrations = assign reg_key (add_pair pair pairs) s.registrations } in
      replied Reply.service_reg (elim told [
        | [] ↦ s1
        | c ∷ cs ↦ record s1 { client_updates = s1.client_updates ++ (pair.0, pair.1, c ∷ cs) ∷ [] }
      ])

  abbrev pair_of : PortPath → Site → (host port : Text) → Option (Text × Text)
  pair_of p site host port_ =
      build_insert_key_value_pair site p.app_name p.actor_name p.msg_type p.kind p.scope host port_

  unfoldable pub handle_service_reg : PortPath → (host port : Text) → Service S → Handled S
  unfolding build_insert_key_value_pair
  handle_service_reg p host port_ s = elim (pair_of p s.site host port_) [
    | none ↦ raised value_error s
    | some pair ↦
        let (db1, told) = insert pair.0 pair.1 s.dbase in
        let key = actor_key p.app_name p.actor_name in
        register key pair told (find key s.registrations) (record s { dbase = db1 })
  ]

  abbrev unregister : Text → Text × Text → Option Pairs → Service S → Handled S
  unregister reg_key pair none s = raised key_error s
  unregister reg_key pair (some pairs) s =
      replied Reply.service_unreg
        (record s { registrations = assign reg_key (discard_pair pair pairs) s.registrations })

  unfoldable pub handle_service_unreg : PortPath → (host port : Text) → Service S → Handled S
  unfolding build_insert_key_value_pair
  handle_service_unreg p host port_ s = elim (pair_of p s.site host port_) [
    | none ↦ raised value_error s
    | some pair ↦
        let key = actor_key p.app_name p.actor_name in
        unregister key pair (find key s.registrations)
          (record s { dbase = (remove pair.0 pair.1 s.dbase).0 })
  ]
