-- ===== src/Disco/Update.antt =====
-- handleUpdate of src/riaps/discd/discs.py: the note of a new service goes to the actors of this
-- host.
pub mod RoundTrip
use riaps_pycom.Prelude.{
  Bool, true, false, Option, none, some, List, [], ◌∷◌, Text, text_eq, split, Table, find,
  if◌then◌else◌,
}
use riaps_pycom.Disco.Keys.{Scope, global, local, internal, slash, colon, base_key}
use riaps_pycom.Disco.Service.{Entry, Service}

-- What the service reads from the text of a client.
pub record Target : Type 0 where
  pub app_name : Text
  pub actor_name : Text
  pub actor_host : Text
  pub instance_name : Text
  pub port_name : Text
  pub scope : Scope

abbrev scope_of : List Text → Scope
scope_of (mac ∷ []) = local
scope_of (mac ∷ actor ∷ []) = internal
scope_of _ = global

abbrev with_port : (app actor host instance_ : Text) → List Text → Option Target
with_port app actor host inst [] = none
with_port app actor host inst (port_name ∷ rest) = some (record {
  app_name = app;
  actor_name = actor;
  actor_host = host;
  instance_name = inst;
  port_name = port_name;
  scope = scope_of rest;
})

-- The pieces between the slashes, the first of them skipped; fewer than six are an IndexError.
abbrev target : List Text → Option Target
target (skip ∷ app ∷ actor ∷ host ∷ inst ∷ port_mac_act ∷ rest) =
    with_port app actor host inst (split colon port_mac_act)
target _ = none

unfoldable pub parse_client : Text → Option Target
parse_client client = target (split slash client)

-- portUpdate, as it goes to the actor's socket.
pub record Update : Type 0 where
  pub to : Target
  pub host : Text
  pub port : Text

abbrev known : Text → Table Entry → Bool
known key clients = elim (find key clients) [ none ↦ false | some e ↦ true ]

-- Clients that are not registered here, or are on another host, are skipped.
abbrev pub is_here : {S : Type 0} → Service S → Target → Bool
is_here s t =
    if known (base_key t.app_name t.actor_name) s.clients
    then text_eq s.site.host_address t.actor_host
    else false

module _ {S : Type 0} where
  unfoldable pub updates : (host port : Text) → List Text → Service S → Option (List Update)
  unfolding parse_client
  updates host port_ [] s = some []
  updates host port_ (client ∷ clients) s =
      let rest = updates host port_ clients s in
      elim (parse_client client) [
        | none ↦ none
        | some t ↦ elim rest [
          | none ↦ none
          | some us ↦
              some (if is_here s t then record { to = t; host = host; port = port_ } ∷ us else us)
        ]
      ]

  abbrev notify_all : List Text → List Text → Service S → Option (List Update)
  notify_all (host ∷ port_ ∷ rest) clients s = updates host port_ clients s
  notify_all _ clients s = none

  unfoldable pub handle_update : Text × Text × List Text → Service S → Option (List Update)
  unfolding updates
  handle_update (key, value, clients) s = notify_all (split colon value) clients s
