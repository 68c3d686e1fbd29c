-- ===== src/Disco/Client/Answers.antt =====
-- What the discovery service (src/riaps/discd/discs.py) answers to its clients
-- (src/riaps/run/disco.py).
use riaps_pycom.Prelude.{
  ℕ, ◌≡◌, refl, sym, ◌∙◌, ap, subst, Bool, true, false, ◌&&◌, Option, none, some, List, [], ◌∷◌,
  ◌++◌, append-nil, if◌then◌else◌, Text, text_eq, text_eq_refl, text_eq→≡, has_text, find, Lacks,
  split, split_from-piece, split_from-last, Bool-cases, inl, inr, arith,
}
use riaps_pycom.Disco.Keys.{
  Kind, Scope, global, local, internal, Site, colon, provider, actor_key, service_key,
  build_insert_key, build_insert_key_value_pair, build_lookup_key, build_lookup_key_only,
  build_value, client_text,
}
use riaps_pycom.Disco.Dbase.{Dbase}
use riaps_pycom.Disco.Service.{Service, Reply, Handled, replied, raised, Request, PortPath, Pairs}
use riaps_pycom.Disco.Service.Requests.{host_port, sockets_of, handle_service_lookup, handle}
use riaps_pycom.Disco.Service.Lifecycle.{reached, handle_service_reg-kept}
use riaps_pycom.Disco.Client.{
  Asked, actor_reg, actor_unreg, service_reg, service_unreg, service_lookup, service_unlookup, Rep,
  other, Answer, not_answered, answered, DiscoClient, Bundle, Endpoint, client_of, endpoints,
}

-- The request as the service reads it; `new_port` is the port that it binds for a new actor.
abbrev request : (new_port : ℕ) → Asked → Request
request new_port (actor_reg app actor is_device) = Request.actor_reg app actor is_device new_port
request new_port (actor_unreg app actor) = Request.actor_unreg app actor
request new_port (service_reg p host port) = Request.service_reg p host port
request new_port (service_unreg p host port) = Request.service_unreg p host port
request new_port (service_lookup app m k s c) = Request.service_lookup app m k s c
request new_port (service_unlookup app m k s c) = Request.service_unlookup app m k s c

-- An actor that was not registered has no port to be told, and gets no answer.
abbrev reply_of : Reply → Answer
reply_of (Reply.actor_reg none) = not_answered
reply_of (Reply.actor_reg (some p)) = answered (Rep.actor_reg true p)
reply_of (Reply.actor_unreg none) = not_answered
reply_of (Reply.actor_unreg (some p)) = answered (Rep.actor_unreg true p)
reply_of Reply.service_reg = answered (Rep.service_reg true)
reply_of Reply.service_unreg = answered (Rep.service_unreg true)
reply_of Reply.service_unlookup = answered (Rep.service_unlookup true)
reply_of Reply.group_join = answered other
reply_of (Reply.service_lookup sockets) = answered (Rep.service_lookup true sockets)

abbrev answer_of : {S : Type 0} → Handled S → Answer
answer_of (replied r s) = reply_of r
answer_of (raised f s) = not_answered

abbrev pub is_internal : Scope → Bool
is_internal internal = true
is_internal _ = false

-- Whether an endpoint has the address
unfoldable pub offers : (host port : Text) → List Endpoint → Bool
offers host port [] = false
offers host port ((part, name, h, p) ∷ l) =
    let rest = offers host port l in if text_eq h host && text_eq p port then true else rest

pub same_key :
    (site : Site) (app msg_type actor client : Text) (wanted offered : Kind) (s : Scope)
    → provider wanted ≡ some offered
    → is_internal s ≡ false
    → (key : Text) × (build_insert_key site app actor msg_type offered s ≡ some key)
      × (build_lookup_key_only site app msg_type wanted s client ≡ some key)
unfolding build_insert_key build_lookup_key_only
same_key site app m a c k o global p h = (
  service_key app m o,
  ap some (append-nil (service_key app m o)),
  rw (p, build_lookup_key_only) refl,
)
same_key site app m a c k o local p h =
    (service_key app m o ++ colon ∷ site.mac_address, refl, rw (p, build_lookup_key_only) refl)
same_key site app m a c k o internal p h = cc

module _ {S : Type 0} (dbase : Dbase S) where
  open dbase use {insert, fetch}

  -- A database in which a value is found after it was inserted.
  abbrev pub Finds : Type 0
  Finds =
      (key value client : Text) (db : S)
      → has_text value (fetch key client (insert key value db).0).1 ≡ true

  -- What the service answers in a state, and its state after the request.
  abbrev pub served : (new_port : ℕ) → Service S → Asked → Answer
  served new_port s q = answer_of (handle dbase (request new_port q) s)

  abbrev pub after_request : (new_port : ℕ) → Asked → Service S → Service S
  after_request new_port q s = reached dbase (handle dbase (request new_port q) s)

  inverted :
      (o : Option (Text × Text)) (r : Option (List (Text × Text))) (l : List (Text × Text))
      → ◌≡◌ {A = Option (List (Text × Text))}
          (elim o [
            | none ↦ none
            | some pair ↦ elim r [ none ↦ none | some pairs ↦ some (pair ∷ pairs) ]
          ])
          (some l)
      → (q : Text × Text) × (m : List (Text × Text)) × (o ≡ some q) × (r ≡ some m) × (l ≡ q ∷ m)
  inverted none r l e = cc
  inverted (some q) none l e = cc
  inverted (some q) (some m) l e = (q, m, refl, refl, ground arith)

  pieces :
      (host port : Text)
      → Lacks colon host
      → Lacks colon port
      → split colon (host ++ colon ∷ port) ≡ host ∷ port ∷ []
  pieces host port h p =
      split_from-piece colon [] host port h
      ∙ ap (λ (l : List Text). host ∷ l) (split_from-last colon [] port p)

  same_pieces :
      (host port : Text) (t : List Text) (q : Text × Text)
      → t ≡ host ∷ port ∷ []
      → host_port dbase t ≡ some q
      → (q.0 ≡ host) × (q.1 ≡ port)
  same_pieces host port [] q e f = cc
  same_pieces host port (x ∷ []) q e f = cc
  same_pieces host port (x ∷ y ∷ t) q e f = ground arith

  first_offers :
      (b : Bundle) (host port : Text) (q : Text × Text) (m : List (Text × Text))
      → (q.0 ≡ host) × (q.1 ≡ port)
      → offers host port (endpoints b (q ∷ m)) ≡ true
  unfolding offers
  first_offers b host port (x, y) m h = ground (arith, text_eq_refl host, text_eq_refl port)

  later_offers :
      (b : Bundle) (host port : Text) (q : Text × Text) (m : List (Text × Text))
      → offers host port (endpoints b m) ≡ true
      → offers host port (endpoints b (q ∷ m)) ≡ true
  unfolding offers
  later_offers b host port (x, y) m h = ground arith

  later_has :
      (u v : Text) (l : List Text)
      → text_eq v u ≡ false
      → has_text u (v ∷ l) ≡ true
      → has_text u l ≡ true
  unfolding has_text
  later_has u v l h k = ground arith

  pub parsed :
      (b : Bundle) (host port : Text) (values : List Text) (l : List (Text × Text))
      → Lacks colon host
      → Lacks colon port
      → has_text (host ++ colon ∷ port) values ≡ true
      → sockets_of dbase values ≡ some l
      → offers host port (endpoints b l) ≡ true
  unfolding sockets_of has_text
  parsed b host port [] l h p k e = cc
  parsed b host port (v ∷ values) l h p k e =
      let (q, m, f, g, j) =
        inverted (host_port dbase (split colon v)) (sockets_of dbase values) l e in
      let value = host ++ colon ∷ port in
      subst (λ (x : List (Text × Text)). offers host port (endpoints b x) ≡ true) (sym j)
        (elim (Bool-cases (text_eq v value))
          as (λ o. offers host port (endpoints b (q ∷ m)) ≡ true) [
            | inl d ↦ first_offers b host port q m (
                same_pieces host port (split colon v) q
                  (ap (split colon) (text_eq→≡ v value d) ∙ pieces host port h p) f)
            | inr d ↦
                later_offers b host port q m
                  (parsed b host port values m h p (later_has value v values d k) g)
          ])

  -- The answer to a registration, and what it leaves.
  pub reg_lem :
      (new_port : ℕ) (p : PortPath) (host port key : Text) (s : Service S) (pairs : Pairs)
      → build_insert_key s.site p.app_name p.actor_name p.msg_type p.kind p.scope ≡ some key
      → find (actor_key p.app_name p.actor_name) s.registrations ≡ some pairs
      → (served new_port s (service_reg p host port) ≡ answered (Rep.service_reg true))
        × ((after_request new_port (service_reg p host port) s).dbase
            ≡ (insert key (host ++ colon ∷ port) s.dbase).0)
        × ((after_request new_port (service_reg p host port) s).site ≡ s.site)
        × ((after_request new_port (service_reg p host port) s).enrollments ≡ s.enrollments)
  unfolding handle build_insert_key_value_pair build_value
  reg_lem new_port p host port key s pairs k f =
      let (a, d, r, st, c, en) =
        handle_service_reg-kept dbase p host port s (key, host ++ colon ∷ port)
          (rw (k, build_insert_key_value_pair) refl) f in
      (ap answer_of a, d, st, en)

  -- The values under a key after a value was inserted under it
  abbrev pub values_at : (key value client : Text) → S → List Text
  values_at key value client db = (fetch key client (insert key value db).0).1

  pub lookup_lem :
      (new_port : ℕ) (app msg_type key : Text) (kind : Kind) (scope : Scope) (b : Bundle)
      (c : DiscoClient) (s : Service S) (pairs : Pairs) (l : List (Text × Text))
      → build_lookup_key_only s.site app msg_type kind scope c.actor_name ≡ some key
      → find (actor_key app c.actor_name) s.enrollments ≡ some pairs
      → sockets_of dbase (fetch key (client_text s.site app scope (client_of b c)) s.dbase).1
        ≡ some l
      → served new_port s (service_lookup app msg_type kind scope (client_of b c))
        ≡ answered (Rep.service_lookup true l)
  unfolding handle handle_service_lookup build_lookup_key
  lookup_lem new_port app m key k sc b c s pairs l e f g =
      rw (e, handle_service_lookup, build_lookup_key)
        (rw (f, handle_service_lookup) (rw (g, handle_service_lookup) refl))
