-- ===== src/Disco/Service/Requests.antt =====
-- DiscoService of src/riaps/discd/discs.py: lookups, and the dispatch of the requests.
use riaps_pycom.Prelude.{Option, none, some, List, [], ◌∷◌, Text, split, find, assign}
use riaps_pycom.Disco.Dbase.{Dbase}
use riaps_pycom.Disco.Keys.{Kind, Scope, Client, colon, actor_key, build_lookup_key}
use riaps_pycom.Disco.Service.{
  key_error, index_error, Pairs, Service, Reply, Handled, replied, raised, Request, add_pair,
  discard_pair, setup_client, unsetup_client, handle_service_reg, handle_service_unreg,
}

module _ {S : Type 0} (dbase : Dbase S) where
  open dbase use {insert, fetch, remove, detach}

  -- `pair = str(elt).split(':')`, host and port of each provider; one piece is an IndexError
  abbrev pub host_port : List Text → Option (Text × Text)
  host_port (host ∷ port_ ∷ rest) = some (host, port_)
  host_port _ = none

  unfoldable pub sockets_of : List Text → Option (List (Text × Text))
  sockets_of [] = some []
  sockets_of (value ∷ values) =
      let rest = sockets_of values in
      elim (host_port (split colon value)) [
        | none ↦ none
        | some pair ↦ elim rest [ none ↦ none | some pairs ↦ some (pair ∷ pairs) ]
      ]

  abbrev answer : Option (List (Text × Text)) → Service S → Handled S
  answer none s = raised index_error s
  answer (some sockets) s = replied (Reply.service_lookup sockets) s

  abbrev enrol : Text → Text × Text → List Text → Option Pairs → Service S → Handled S
  enrol reg_key pair values none s = raised key_error s
  enrol reg_key pair values (some pairs) s =
      answer (sockets_of values)
        (record s { enrollments = assign reg_key (add_pair pair pairs) s.enrollments })

  unfoldable pub handle_service_lookup :
      (app msg_type : Text) → Kind → Scope → Client → Service S → Handled S
  unfolding build_lookup_key sockets_of
  handle_service_lookup app msg_type kind scope c s =
      elim (build_lookup_key s.site app msg_type kind scope c) [
        | none ↦ raised key_error s
        | some pair ↦
            let (db1, values) = fetch pair.0 pair.1 s.dbase in
            let key = actor_key app c.actor_name in
            enrol key pair values (find key s.enrollments) (record s { dbase = db1 })
      ]

  abbrev withdraw : Text → Text × Text → Option Pairs → Service S → Handled S
  withdraw reg_key pair none s = raised key_error s
  withdraw reg_key pair (some pairs) s =
      replied Reply.service_unlookup
        (record s { enrollments = assign reg_key (discard_pair pair pairs) s.enrollments })

  unfoldable pub handle_service_unlookup :
      (app msg_type : Text) → Kind → Scope → Client → Service S → Handled S
  unfolding build_lookup_key
  handle_service_unlookup app msg_type kind scope c s =
      elim (build_lookup_key s.site app msg_type kind scope c) [
        | none ↦ raised key_error s
        | some pair ↦
            let key = actor_key app c.actor_name in
            withdraw key pair (find key s.enrollments)
              (record s { dbase = detach pair.0 pair.1 s.dbase })
      ]

  unfoldable pub handle : Request → Service S → Handled S
  unfolding setup_client unsetup_client handle_service_reg handle_service_unreg
      handle_service_lookup handle_service_unlookup
  handle (Request.actor_reg app actor is_device new_port) s =
      replied (Reply.actor_reg (some new_port)) (setup_client dbase app actor is_device new_port s)
  handle (Request.actor_unreg app actor) s = unsetup_client dbase app actor s
  handle (Request.service_reg p host port_) s = handle_service_reg dbase p host port_ s
  handle (Request.service_unreg p host port_) s = handle_service_unreg dbase p host port_ s
  handle (Request.service_lookup app msg_type kind scope c) s =
      handle_service_lookup app msg_type kind scope c s
  handle (Request.service_unlookup app msg_type kind scope c) s =
      handle_service_unlookup app msg_type kind scope c s
  handle Request.group_join s = replied Reply.group_join s
