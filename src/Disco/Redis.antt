-- ===== src/Disco/Redis.antt =====
-- src/riaps/discd/dbase_redis.py: the discovery database on redis sets. An error of the
-- connection, which becomes a DatabaseError, is not modelled.
pub mod Notifying
use riaps_pycom.Prelude.{
  ◌≡◌, Bool, true, false, ◌&&◌, Option, none, some, List, [], ◌∷◌, ◌++◌, map, Text, codes, text_eq,
  has_text, add_text, discard_text, if◌then◌else◌,
}
use riaps_pycom.Disco.Dbase.{Dbase, SetStore}

module _ (store : SetStore) where
  open store use {Db, smembers, sadd, srem, exists}

  -- The connection, the keys that this service has subscribed to, and the subscriptions of its
  -- pubsub channel, the newest first.
  pub record Redis : Type 0 where
    pub db : Db
    pub sub_keys : List Text
    pub subscribed : List Text
    pub unsubscribed : List Text

  abbrev pub clients_key : Text → Text
  clients_key key = key ++ codes "_clients"

  abbrev pub full_key : Text → Text
  full_key key = codes "__keyspace@0__:" ++ key

  unfoldable pub add_sub : Text → Redis → Redis
  add_sub key r =
      if has_text key r.sub_keys
      then r
      else record r { sub_keys = add_text key r.sub_keys; subscribed = full_key key ∷ r.subscribed }

  unfoldable pub del_sub : Text → Redis → Redis
  del_sub key r =
      if has_text key r.sub_keys
      then record r {
        sub_keys = discard_text key r.sub_keys;
        unsubscribed = full_key key ∷ r.unsubscribed;
      }
      else r

  unfoldable pub insert : (key value : Text) → Redis → Redis × List Text
  insert key value r =
      if exists key r.db && has_text value (smembers key r.db)
      then (r, [])
      else (let db1 = sadd key value r.db in
          (record r { db = db1 }, smembers (clients_key key) db1))

  unfoldable pub fetch : (key client : Text) → Redis → Redis × List Text
  unfolding add_sub
  fetch key client r =
      let r1 = add_sub key r in
      let values = if exists key r1.db then smembers key r1.db else [] in
      (record r1 { db = sadd (clients_key key) client r1.db }, values)

  abbrev unless_empty : Text → List Text → Redis → Redis
  unless_empty key [] r = del_sub key r
  unless_empty key (v ∷ values) r = r

  unfoldable pub remove : (key value : Text) → Redis → Redis × List Text
  unfolding del_sub
  remove key value r =
      let r1 = record r { db = srem key value r.db } in
      let values = smembers key r1.db in (unless_empty key values r1, values)

  unfoldable pub detach : (key target : Text) → Redis → Redis
  detach key target r = record r { db = srem (clients_key key) target r.db }

  -- The notes for a key: one for each of its values, all with the same clients.
  abbrev notes : Text → List Text → List Text → List (Text × Text × List Text)
  notes key [] clients = []
  notes key (v ∷ values) clients = (key, v, clients) ∷ notes key values clients

  abbrev notes_of : List Text → Redis → List (Text × Text × List Text)
  notes_of [] r = []
  notes_of (key ∷ keys) r =
      notes key (smembers key r.db) (smembers (clients_key key) r.db) ++ notes_of keys r

  -- fetchUpdates: `keys` are the keys of the messages that wait on the pubsub channel
  unfoldable pub fetch_updates : (keys : List Text) → Redis → List (Text × Text × List Text)
  fetch_updates keys r = elim r.sub_keys [ [] ↦ [] | k ∷ ks ↦ notes_of keys r ]

  abbrev pub redis_dbase : Dbase Redis
  redis_dbase = record { insert = insert; fetch = fetch; remove = remove; detach = detach }
