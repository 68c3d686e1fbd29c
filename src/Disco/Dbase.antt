-- ===== src/Disco/Dbase.antt =====
-- The operations of a discovery database that the service uses (src/riaps/discd/dbase.py), and
-- what the redis server offers to the implementation of them (src/riaps/discd/dbase_redis.py).
use riaps_pycom.Prelude.{
  ◌≡◌, Bool, true, false, ◌&&◌, List, [], Text, text_eq, has_text, if◌then◌else◌,
}

-- DiscoDbase, over the state of an implementation.
pub record Dbase (S : Type 0) : Type 0 where
  pub insert : (key value : Text) → S → S × List Text
  pub fetch : (key client : Text) → S → S × List Text
  pub remove : (key value : Text) → S → S × List Text
  pub detach : (key target : Text) → S → S

-- redis: sets of texts under keys. A member that is added is there, one that is removed is not,
-- and other members and other keys are left alone. A key exists if its set has a member.
pub record SetStore : Type 1 where
  pub Db : Type 0
  pub smembers : Text → Db → List Text
  pub sadd : (key value : Text) → Db → Db
  pub srem : (key value : Text) → Db → Db
  pub exists : Text → Db → Bool
  pub has-sadd :
      (k v j u : Text) (db : Db)
      → has_text u (smembers j (sadd k v db))
        ≡ (if text_eq k j && text_eq v u then true else has_text u (smembers j db))
  pub has-srem :
      (k v j u : Text) (db : Db)
      → has_text u (smembers j (srem k v db))
        ≡ (if text_eq k j && text_eq v u then false else has_text u (smembers j db))
  pub smembers-absent : (k : Text) (db : Db) → exists k db ≡ false → smembers k db ≡ []
