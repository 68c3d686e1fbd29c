-- ===== src/Samples/Discovery.antt =====
-- A redis server of association lists (src/riaps/discd/dbase_redis.py), and a host with one actor
-- (src/riaps/discd/discs.py).
use riaps_pycom.Prelude.{
  has_text-add_text, has_text-discard_text, ◌≡◌, ◌↔◌, refl, true, false, not, Option, none, some,
  List, [], ◌∷◌, Text, codes, text_eq, text_eq→≡, has_text, add_text, discard_text, split_from,
  Table, find, assign, find-assign, arith,
}
use riaps_pycom.Disco.Dbase.{SetStore}
use riaps_pycom.Disco.Redis.{clients_key, Redis, redis_dbase, insert, fetch, detach}
use riaps_pycom.Disco.Redis.Notifying.{has_value, fetch-meets-insert}
use riaps_pycom.Disco.Keys.{
  Kind, Scope, global, local, internal, Site, Client, provider, kind_text, owner, is_device_name,
  build_insert_key, build_lookup_key_only, build_insert_key_value_pair, build_value, client_text,
  actor_key,
}
use riaps_pycom.Disco.Keys.Meeting.{registration-meets-lookup}
use riaps_pycom.Disco.Service.{
  socket, Service, Reply, replied, PortPath, setup_client, unsetup_client, handle_service_reg,
}
use riaps_pycom.Disco.Service.Lifecycle.{reached, actor_leaves}
use riaps_pycom.Disco.Update.{handle_update, updates}
use riaps_pycom.Disco.Update.RoundTrip.{IsPlain, target_of, update_to, handle_update-client_text}

abbrev pub members : Option (List Text) → List Text
members none = []
members (some l) = l

abbrev pub listed_sets : SetStore
listed_sets = record {
  Db = Table (List Text);
  smembers = λ k db. members (find k db);
  sadd = λ k v db. assign k (add_text v (members (find k db))) db;
  srem = λ k v db. assign k (discard_text v (members (find k db))) db;
  exists = λ k db. elim (members (find k db)) [ [] ↦ false | v ∷ l ↦ true ];
  has-sadd = λ k v j u db. ground (
    arith,
    find-assign k j (add_text v (members (find k db))) db,
    has_text-add_text u v (members (find k db)),
    text_eq→≡ k j,
  );
  has-srem = λ k v j u db. ground (
    arith,
    find-assign k j (discard_text v (members (find k db))) db,
    has_text-discard_text u v (members (find k db)),
    text_eq→≡ k j,
  );
  smembers-absent = λ k db h. ground arith;
}

-- Nothing is stored, and the service has subscribed to no key.
abbrev pub empty_redis : Redis listed_sets
empty_redis = record { db = []; sub_keys = []; subscribed = []; unsubscribed = [] }

abbrev topic_key : Text
topic_key = codes "/app/Msg/pub"

abbrev address : Text
address = codes "10.0.0.2:5001"

abbrev teller : Text
teller = codes "/app/act/10.0.0.1/comp/port"

fetch-meets-insert_example :
    let looked_up = (fetch listed_sets topic_key teller empty_redis).0 in
    (has_text address
        (fetch listed_sets topic_key teller (insert listed_sets topic_key address empty_redis).0).1
      ≡ true)
    × (has_text teller (insert listed_sets topic_key address looked_up).1
        ≡ not (has_value listed_sets topic_key address empty_redis))
    × (has_text teller
          (insert listed_sets topic_key address (detach listed_sets topic_key teller looked_up)).1
        ≡ false)
fetch-meets-insert_example = fetch-meets-insert listed_sets topic_key address teller empty_redis

abbrev pub host1 : Site
host1 = record { mac_address = codes "0a1b"; host_address = codes "10.0.0.1"; devices = [] }

abbrev host2 : Site
host2 = record { mac_address = codes "0a1c"; host_address = codes "10.0.0.2"; devices = [] }

registration-meets-lookup_example :
    let registered = build_insert_key host1 (codes "app") (codes "act") (codes "Msg") Kind.pub_ in
    let asked = λ (s : Scope).
      build_lookup_key_only host2 (codes "app") (codes "Msg") Kind.sub s (codes "other") in
    (registered global ≡ asked global)
    × ((registered local ≡ asked local) ↔ (host1.mac_address ≡ host2.mac_address))
    × ((registered internal ≡ asked internal)
        ↔ ((host1.mac_address ≡ host2.mac_address) × (codes "act" ≡ codes "other")))
registration-meets-lookup_example =
    registration-meets-lookup host1 host2 (codes "app") (codes "Msg") (codes "act") (codes "other")
      Kind.sub Kind.pub_ (codes "act") (codes "other") (unfold provider in refl)
      (unfold owner is_device_name has_text in refl) (unfold owner is_device_name has_text in refl)
      (ground arith) (ground arith)

abbrev pub service1 : Service (Redis listed_sets)
service1 = record {
  site = host1;
  dbase = empty_redis;
  registrations = [];
  enrollments = [];
  clients = [];
  client_updates = [];
}

abbrev publisher : PortPath
publisher = record {
  app_name = codes "app";
  actor_name = codes "act";
  msg_type = codes "Msg";
  kind = Kind.pub_;
  scope = global;
}

actor_leaves_example :
    let dbase = redis_dbase listed_sets in
    let s1 = setup_client dbase (codes "app") (codes "act") false 6000 service1 in
    let registered = handle_service_reg dbase publisher (codes "10.0.0.1") (codes "5001") s1 in
    let s2 = reached dbase registered in
    let left = unsetup_client dbase (codes "app") (codes "act") s2 in
    let s3 = reached dbase left in
    (registered ≡ replied Reply.service_reg s2)
    × (left ≡ replied (Reply.actor_unreg (some 6000)) s3)
    × (s3.dbase
        ≡ (dbase.remove topic_key
            (codes "10.0.0.1:5001")
            (dbase.insert topic_key (codes "10.0.0.1:5001") empty_redis).0).0)
    × (find (actor_key (codes "app") (codes "act")) s3.registrations ≡ none)
    × (unsetup_client dbase (codes "app") (codes "act") s3 ≡ replied (Reply.actor_unreg none) s3)
actor_leaves_example =
    actor_leaves (redis_dbase listed_sets) publisher false 6000 (codes "10.0.0.1") (codes "5001")
      service1 (topic_key, codes "10.0.0.1:5001") (unfold text_eq in refl) (ground arith)
      (unfold text_eq in refl) (unfold text_eq in refl)
      (unfold build_insert_key_value_pair setup_client owner has_text kind_text in refl)

abbrev subscriber : Client
subscriber = record {
  actor_host = codes "10.0.0.1";
  actor_name = codes "act";
  instance_name = codes "comp";
  port_name = codes "port";
}

subscriber-IsPlain : IsPlain host1 (codes "app") subscriber
subscriber-IsPlain = record {
  app_plain = ground arith;
  actor_plain = ground arith;
  host_plain = ground arith;
  instance_plain = ground arith;
  port_plain = ground arith;
  mac_plain = ground arith;
}

abbrev serving : Service (Redis listed_sets)
serving = record service1 { clients = (codes "/app/act/", socket 6000) ∷ [] }

handle_update-client_text_example :
    handle_update
      (
        topic_key,
        build_value (codes "10.0.0.2") (codes "5001"),
        client_text host1 (codes "app") global subscriber ∷ [],
      )
      serving
    ≡ some (
        update_to (target_of (codes "app") global subscriber) (codes "10.0.0.2") (codes "5001")
        ∷ [])
handle_update-client_text_example =
    handle_update-client_text serving (codes "app") global subscriber {e = socket 6000} topic_key
      (codes "10.0.0.2") (codes "5001") [] {us = []} subscriber-IsPlain
      (unfold find text_eq in refl) refl (ground arith) (ground arith)
      (unfold handle_update build_value split_from updates in refl)

-- One value under the key, and one client that has looked it up.
abbrev looked_up : Redis listed_sets
looked_up = record {
  db = (topic_key, address ∷ []) ∷ (clients_key listed_sets topic_key, teller ∷ []) ∷ [];
  sub_keys = topic_key ∷ [];
  subscribed = [];
  unsubscribed = [];
}
