-- ===== src/Disco/Client/Exchange.antt =====
-- The client of the discovery service (src/riaps/run/disco.py) against the service
-- (src/riaps/discd/discs.py).
use riaps_pycom.Prelude.{
  ℕ, ◌≡◌, refl, sym, ◌∙◌, subst, true, false, some, List, [], ◌∷◌, ◌++◌, Text, has_text, find,
  Lacks, arith,
}
use riaps_pycom.Disco.Keys.{Kind, colon, provider, actor_key, client_text}
use riaps_pycom.Disco.Dbase.{Dbase, SetStore}
use riaps_pycom.Disco.Redis
use riaps_pycom.Disco.Redis.{redis_dbase}
use riaps_pycom.Disco.Redis.Notifying.{insert_notifies, fetch_enrols}
use riaps_pycom.Disco.Service.{Service, Pairs}
use riaps_pycom.Disco.Service.Requests.{sockets_of}
use riaps_pycom.Disco.Client.{
  Asked, service_reg, service_lookup, Rep, Answer, answered, DiscoClient, Bundle, Endpoint, done,
  rpc_disco, host_of, path_of, client_of, endpoints, handle_reg_req, handle_lookup_req, role,
  provides, asks, register_endpoint,
}
use riaps_pycom.Disco.Client.Answers.{
  is_internal, offers, same_key, Finds, served, after_request, parsed, reg_lem, lookup_lem,
}

provides_lem : (k : Kind) (o : Kind) → provider k ≡ some o → role k ≡ asks → role o ≡ provides
unfolding provider role
provides_lem k o p r = ground arith

provider_lem :
    (disco : Asked → Answer) (b : Bundle) (c : DiscoClient)
    → role b.kind ≡ provides
    → c.open_ ≡ true
    → disco (service_reg (path_of b c) (host_of b.scope c) b.port_num)
      ≡ answered (Rep.service_reg true)
    → register_endpoint disco b c ≡ done [] (record c { pending_rpc = false })
unfolding register_endpoint handle_reg_req rpc_disco
provider_lem disco b c r o d = ground arith

asker_lem :
    (disco : Asked → Answer) (b : Bundle) (c : DiscoClient) (l : List (Text × Text))
    → role b.kind ≡ asks
    → c.open_ ≡ true
    → disco (service_lookup c.app_name b.msg_type b.kind b.scope (client_of b c))
      ≡ answered (Rep.service_lookup true l)
    → register_endpoint disco b c ≡ done (endpoints b l) (record c { pending_rpc = false })
unfolding register_endpoint handle_lookup_req rpc_disco
asker_lem disco b c l r o d =
    rw (r, register_endpoint) (rw (o, handle_lookup_req, rpc_disco) (rw (d, rpc_disco) refl))

module _ {S : Type 0} (dbase : Dbase S) where
  open dbase use {fetch}

  -- An actor registers a port that provides a service, and then another actor of the application
  -- on the same host registers a port that asks for it, of the matching kind, the same message type
  -- and the same global or local scope. Neither raises an exception, and the second is given the
  -- provider's address for its port. Both actors must be registered and connected, the host and
  -- the port of the provider hold no colon, a value is found in the database after it was inserted,
  -- and what stands in the database reads as hosts and ports.
  pub provider_found :
      (new_port : ℕ) (b1 b2 : Bundle) (c1 c2 : DiscoClient) (s : Service S) (rs es : Pairs)
      → Finds dbase
      → c1.open_ ≡ true
      → c2.open_ ≡ true
      → c2.app_name ≡ c1.app_name
      → b2.msg_type ≡ b1.msg_type
      → b2.scope ≡ b1.scope
      → is_internal b1.scope ≡ false
      → role b2.kind ≡ asks
      → provider b2.kind ≡ some b1.kind
      → find (actor_key c1.app_name c1.actor_name) s.registrations ≡ some rs
      → find (actor_key c1.app_name c2.actor_name) s.enrollments ≡ some es
      → Lacks colon (host_of b1.scope c1)
      → Lacks colon b1.port_num
      → (let q : Asked = service_reg (path_of b1 c1) (host_of b1.scope c1) b1.port_num in
          let s1 = after_request dbase new_port q s in
          ((key client : Text)
            → (l : List (Text × Text)) × (sockets_of dbase (fetch key client s1.dbase).1 ≡ some l))
          → (register_endpoint (served dbase new_port s) b1 c1
              ≡ done [] (record c1 { pending_rpc = false }))
            × (l : List Endpoint) × (register_endpoint (served dbase new_port s1) b2 c2
                ≡ done l (record c2 { pending_rpc = false }))
            × (offers (host_of b1.scope c1) b1.port_num l ≡ true))
  provider_found n b1 b2 c1 c2 s rs es fi o1 o2 ea em ec ni r p f g lh lp readable =
      let host = host_of b1.scope c1 in
      let (key, k1, k2) =
        same_key s.site c1.app_name b1.msg_type c1.actor_name c2.actor_name b2.kind b1.kind b1.scope
          p ni in
      let (a, d, st, en) = reg_lem dbase n (path_of b1 c1) host b1.port_num key s rs k1 f in
      let s1 = after_request dbase n (service_reg (path_of b1 c1) host b1.port_num) s in
      let ct = client_text s1.site c2.app_name b2.scope (client_of b2 c2) in
      let (l, e) = readable key ct in
      let v =
        subst (λ (db : S). has_text (host ++ colon ∷ b1.port_num) (fetch key ct db).1 ≡ true)
          (sym d) (fi key (host ++ colon ∷ b1.port_num) ct s.dbase) in
      (
        provider_lem (served dbase n s) b1 c1 (provides_lem b2.kind b1.kind p r) o1 a,
        endpoints b2 l,
        asker_lem (served dbase n s1) b2 c2 l r o2 (
            lookup_lem dbase n c2.app_name b2.msg_type key b2.kind b2.scope b2 c2 s1 es l
              (rw (ea, em, ec, st) k2) (rw (ea, en) g) e),
        parsed dbase b2 host b1.port_num _ l lh lp v e,
      )

-- The database on redis is one.
pub redis_dbase-Finds : (store : SetStore) → Finds (redis_dbase store)
redis_dbase-Finds store key value client db =
    let (kept, told, clients) = insert_notifies store key value client db in
    let (found, enrolled, subscribed, same) =
      fetch_enrols store key value client (Redis.insert store key value db).0 in
    found ∙ kept
