-- ===== src/Samples/Client.antt =====
-- Two actors of one application on the host of the discovery samples, which talk to the discovery
-- service through their clients (src/riaps/run/disco.py).
use riaps_pycom.Prelude.{
  ◌≡◌, refl, sym, subst, if_either, Bool-cases, inl, inr, if◌then◌else◌, true, false, some, List,
  [], ◌∷◌, Text, codes, text_eq, has_text, add_text, split_from, find, assign, arith,
}
use riaps_pycom.Disco.Keys.{
  Kind, global, provider, build_value, build_insert_key, build_insert_key_value_pair, kind_text,
  owner, is_device_name,
}
use riaps_pycom.Disco.Redis.{Redis, redis_dbase, insert, fetch, clients_key, add_sub}
use riaps_pycom.Disco.Service.{Service, handle_service_reg}
use riaps_pycom.Disco.Service.Requests.{sockets_of, handle}
use riaps_pycom.Disco.Client.{
  Asked, service_reg, DiscoClient, Bundle, Endpoint, done, register_endpoint, role, path_of,
}
use riaps_pycom.Disco.Client.Exchange.{provider_found, redis_dbase-Finds}
use riaps_pycom.Disco.Client.Answers.{served, after_request, offers}
use riaps_pycom.Samples.Discovery.{listed_sets, service1}

abbrev client : (actor : Text) → DiscoClient
client actor = record {
  app_name = codes "app";
  actor_name = actor;
  is_device = false;
  global_host = codes "10.0.0.1";
  local_host = codes "127.0.0.1";
  open_ = true;
  channel = 6000 ∷ [];
  pending_rpc = false;
}

abbrev bundle : (part_name port_num : Text) → Kind → Bundle
bundle part_name port_num kind = record {
  part_name = part_name;
  kind = kind;
  scope = global;
  port_name = codes "port";
  msg_type = codes "Msg";
  port_num = port_num;
}

abbrev giver : Bundle
giver = bundle (codes "source") (codes "5001") Kind.pub_

abbrev taker : Bundle
taker = bundle (codes "sink") (codes "0") Kind.sub

abbrev service2 : Service (Redis listed_sets)
service2 = record service1 {
  registrations = (codes "app/act", []) ∷ [];
  enrollments = (codes "app/other", []) ∷ [];
}

abbrev registration : Asked
registration = service_reg (path_of giver (client (codes "act"))) (codes "10.0.0.1") (codes "5001")

abbrev service3 : Service (Redis listed_sets)
service3 = after_request (redis_dbase listed_sets) 0 registration service2

abbrev one_service : Redis listed_sets
one_service = record {
  db = (codes "/app/Msg/pub", codes "10.0.0.1:5001" ∷ []) ∷ [];
  sub_keys = [];
  subscribed = [];
  unsubscribed = [];
}

stored : service3.dbase ≡ one_service
unfolding handle handle_service_reg build_insert_key_value_pair build_insert_key build_value owner
    is_device_name has_text kind_text insert find assign add_text text_eq clients_key
stored = refl

fetched :
    (key teller : Text)
    → (fetch listed_sets key teller one_service).1
      ≡ (if text_eq (codes "/app/Msg/pub") key then codes "10.0.0.1:5001" ∷ [] else [])
unfolding fetch add_sub find
fetched key teller = elim (Bool-cases (text_eq (codes "/app/Msg/pub") key)) [
  | inl h ↦ ground arith
  | inr h ↦ ground arith
]

abbrev Readable : List Text → Type 0
Readable values = (l : List (Text × Text)) × (sockets_of (redis_dbase listed_sets) values ≡ some l)

one_value :
    (key teller : Text)
    → (l : List (Text × Text)) × (sockets_of
          (redis_dbase listed_sets)
          (fetch listed_sets key teller service3.dbase).1
        ≡ some l)
one_value key teller =
    subst (λ (db : Redis listed_sets). Readable (fetch listed_sets key teller db).1) (sym stored)
      (subst Readable (sym (fetched key teller)) (
        if_either Readable (text_eq (codes "/app/Msg/pub") key) (codes "10.0.0.1:5001" ∷ []) []
          ((codes "10.0.0.1", codes "5001") ∷ [], unfold sockets_of split_from in refl)
          ([], unfold sockets_of in refl)))

provider_found_example :
    let dbase = redis_dbase listed_sets in
    (register_endpoint (served dbase 0 service2) giver (client (codes "act"))
      ≡ done [] (client (codes "act")))
    × (l : List Endpoint) × (register_endpoint
          (served dbase 0 service3)
          taker
          (client (codes "other"))
        ≡ done l (client (codes "other")))
    × (offers (codes "10.0.0.1") (codes "5001") l ≡ true)
provider_found_example =
    provider_found (redis_dbase listed_sets) 0 giver taker (client (codes "act"))
      (client (codes "other")) service2 [] [] (redis_dbase-Finds listed_sets) refl refl refl refl
      refl refl (unfold role in refl) (unfold provider in refl) (unfold find text_eq in refl)
      (unfold find text_eq in refl) (ground arith) (ground arith) one_value
