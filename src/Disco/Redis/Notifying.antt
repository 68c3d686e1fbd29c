-- ===== src/Disco/Redis/Notifying.antt =====
-- The redis database of src/riaps/discd/dbase_redis.py: who is told of a value.
use riaps_pycom.Prelude.{
  has_text-add_text, has_text-discard_text, false, text_eq-append, ℕ, ◌≡◌, refl, Bool, true, not,
  ◌&&◌, List, [], ◌∷◌, ◌++◌, Text, codes, text_eq, text_eq_refl, has_text, add_text, arith,
}
use riaps_pycom.Disco.Dbase.{SetStore}
use riaps_pycom.Disco.Redis.{Redis, clients_key, insert, fetch, remove, detach, del_sub}

-- The key of the clients is another than the key itself.
longer-ne : (s : Text) (c : ℕ) (t : Text) → text_eq s (s ++ c ∷ t) ≡ false
unfolding text_eq
longer-ne [] c t = refl
longer-ne (x ∷ s) c t = ground (arith, longer-ne s c t)

has-add_text : (s : Text) (l : List Text) → has_text s (add_text s l) ≡ true
has-add_text s l = ground (arith, has_text-add_text s s l, text_eq_refl s)

module _ (store : SetStore) where
  open store use {Db, smembers, sadd, srem, exists, has-sadd, has-srem, smembers-absent}

  abbrev pub has_value : (key value : Text) → Redis store → Bool
  has_value key value r = has_text value (smembers key r.db)

  abbrev pub has_client : (key client : Text) → Redis store → Bool
  has_client key client r = has_text client (smembers (clients_key store key) r.db)

  absent_value :
      (key value : Text) (db : Db)
      → exists key db ≡ false
      → has_text value (smembers key db) ≡ false
  absent_value key value db h = rw (smembers-absent key db h) (unfold has_text in refl)

  -- A value is there after it was inserted, whether or not it was before; the clients that are
  -- to be told are those of the key if the value is new, and nobody otherwise.
  pub insert_notifies :
      (key value client : Text) (r : Redis store)
      → let (r', told) = insert store key value r in
        (has_value key value r' ≡ true)
        × (has_text client told ≡ (not (has_value key value r) && has_client key client r))
        × (has_client key client r' ≡ has_client key client r)
  unfolding insert has_text
  insert_notifies key value client r = ground (
    arith,
    has-sadd key value key value r.db,
    has-sadd key value (clients_key store key) client r.db,
    longer-ne key b'_' (codes "clients"),
    text_eq_refl key,
    text_eq_refl value,
    absent_value key value r.db,
  )

  -- A lookup returns the values of the key, and makes the client one of those to be told; the key
  -- is subscribed to, and the values stay.
  pub fetch_enrols :
      (key value client : Text) (r : Redis store)
      → let (r', values) = fetch store key client r in
        (has_text value values ≡ has_value key value r)
        × (has_client key client r' ≡ true)
        × (has_text key r'.sub_keys ≡ true)
        × (has_value key value r' ≡ has_value key value r)
  unfolding fetch has_text
  fetch_enrols key value client r = ground (
    arith,
    has-sadd (clients_key store key) client (clients_key store key) client r.db,
    has-sadd (clients_key store key) client key value r.db,
    text_eq-append key (codes "_clients") (unfold text_eq in refl),
    text_eq_refl (clients_key store key),
    text_eq_refl client,
    absent_value key value r.db,
    has-add_text key r.sub_keys,
  )

  -- A lookup and a registration under its key never miss one another. If the service was
  -- registered first, the lookup returns it; if the lookup came first, the client is told by the
  -- registration exactly if the value is new, and is not told if it was detached in between.
  pub fetch-meets-insert :
      (key value client : Text) (r : Redis store)
      → (has_text value (fetch store key client (insert store key value r).0).1 ≡ true)
        × (has_text client (insert store key value (fetch store key client r).0).1
            ≡ not (has_value key value r))
        × (has_text client
              (insert store key value (detach store key client (fetch store key client r).0)).1
            ≡ false)
  unfolding detach
  fetch-meets-insert key value client r =
      let r1 = (insert store key value r).0 in
      let r2 = (fetch store key client r).0 in
      let r3 = detach store key client r2 in
      let (found, enrolled, subscribed, kept) = fetch_enrols key value client r in
      let (found', enrolled', subscribed', kept') = fetch_enrols key value client r1 in
      let (there, told, same) = insert_notifies key value client r in
      let (there', told', same') = insert_notifies key value client r2 in
      let (there'', told'', same'') = insert_notifies key value client r3 in
      (
        ground arith,
        ground arith,
        ground (
          arith,
          has-srem (clients_key store key) client (clients_key store key) client r2.db,
          text_eq_refl (clients_key store key),
          text_eq_refl client,
        ),
      )

  -- The removal of the last value of a key ends the subscription of this service to the key,
  -- and leaves the clients of the key where they are: a client that has looked the key up is
  -- still among those to be told, by a service that no longer hears of new values.
  pub last_removal_unsubscribes :
      (key value client : Text) (r : Redis store)
      → has_client key client r ≡ true
      → (remove store key value r).1 ≡ []
      → let r' = (remove store key value r).0 in
        (has_text key r'.sub_keys ≡ false) × (has_client key client r' ≡ true)
  unfolding remove del_sub
  last_removal_unsubscribes key value client r h last = ground (
    arith,
    has_text-discard_text key key r.sub_keys,
    text_eq_refl key,
    has-srem key value (clients_key store key) client r.db,
    longer-ne key b'_' (codes "clients"),
  )
