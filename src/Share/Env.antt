-- ===== src/Share/Env.antt =====
-- What shares.go calls outside its own code, as an interface: the database behind GORM, the
-- key-value client, JSON, SHA-256 with base64, and the presigned URLs of the object store.
use notevault.Prelude.{ℕ, ◌≡◌, Bool, true, false, List, Text, same_text}
use notevault.Prelude.Result.{Error, Result, ok, err, map_result}
use notevault.Prelude.Codec.{Codec, IsJson, IsTotal}
use notevault.Kv.Store.{KvStore, KvLaws, IsReliable}
use notevault.Share.Record.{SharePermissions, ShareRecord, Share}

-- The queries on the table of shares. Reading changes nothing. Rows marked as deleted are not found.
pub record ShareDb : Type 1 where
  pub Rows : Type 0
  -- `Create(row)`
  pub create : Share → Rows → Result (Unit {0}) × Rows
  -- `Where("share_id = ?", id).First(&sh)`
  pub first : Text → Rows → Result Share
  -- `Where("owner = ? AND (expire_at IS NULL OR expire_at > ?)", user, now).Order(...).Find(...)`
  pub find : Text → ℕ → Rows → Result (List Share)
  -- `Delete(&sh)`
  pub delete : Share → Rows → Result (Unit {0}) × Rows
  -- `Model(&model.Share{}).Where("share_id = ?", id).Updates(...)`: the permissions and `updated_at`
  pub update_permissions : Text → Text → ℕ → Rows → Result (Unit {0}) × Rows

abbrev pub set_permissions : Text → ℕ → Share → Share
set_permissions json t row = record row { permissions_json = json; updated_at = t }

-- What a database does with a primary key: an insertion succeeds only at an unused key, each
-- statement touches its own row only, and a statement that fails changes nothing. GORM sets
-- `updated_at` of a new row by its own clock.
pub record ShareDbLaws (db : ShareDb) : Type 0 where
  pub first_id :
      (id : Text) (s : db.Rows) (row : Share) → db.first id s ≡ ok row → row.share_id ≡ id
  pub create_unused :
      (row : Share) (s : db.Rows)
      → (db.create row s).0 ≡ ok tt
      → (e : Error) × (db.first row.share_id s ≡ err e)
  -- Instants come back to the nanosecond, as from SQLite; a database that rounds them, as PostgreSQL
  -- does, keeps this law for the instants that it can hold.
  pub create_ok :
      (row : Share) (s : db.Rows)
      → (db.create row s).0 ≡ ok tt
      → (t : ℕ) × (db.first row.share_id (db.create row s).1 ≡ ok (record row { updated_at = t }))
  pub create_other :
      (row : Share) (id : Text) (s : db.Rows)
      → same_text row.share_id id ≡ false
      → db.first id (db.create row s).1 ≡ db.first id s
  pub create_err :
      (row : Share) (id : Text) (s : db.Rows) (e : Error)
      → (db.create row s).0 ≡ err e
      → db.first id (db.create row s).1 ≡ db.first id s
  pub delete_ok :
      (row : Share) (s : db.Rows)
      → (db.delete row s).0 ≡ ok tt
      → (e : Error) × (db.first row.share_id (db.delete row s).1 ≡ err e)
  pub delete_other :
      (row : Share) (id : Text) (s : db.Rows)
      → same_text row.share_id id ≡ false
      → db.first id (db.delete row s).1 ≡ db.first id s
  pub delete_err :
      (row : Share) (id : Text) (s : db.Rows) (e : Error)
      → (db.delete row s).0 ≡ err e
      → db.first id (db.delete row s).1 ≡ db.first id s
  pub update_ok :
      (id json : Text) (t : ℕ) (s : db.Rows)
      → (db.update_permissions id json t s).0 ≡ ok tt
      → db.first id (db.update_permissions id json t s).1
        ≡ map_result (set_permissions json t) (db.first id s)
  pub update_other :
      (id json : Text) (t : ℕ) (j : Text) (s : db.Rows)
      → same_text id j ≡ false
      → db.first j (db.update_permissions id json t s).1 ≡ db.first j s
  pub update_err :
      (id json : Text) (t : ℕ) (j : Text) (s : db.Rows) (e : Error)
      → (db.update_permissions id json t s).0 ≡ err e
      → db.first j (db.update_permissions id json t s).1 ≡ db.first j s

-- A `ShareService`: its clients may be nil. `buckets` is the configuration of the object store.
pub record ShareEnv : Type 1 where
  pub kv : KvStore
  pub db : ShareDb
  pub has_kv : Bool
  pub has_db : Bool
  pub has_s3 : Bool
  pub buckets : List Text
  -- `PresignedGetObject` for a bucket, a key and a number of nanoseconds
  pub presign : Text → Text → ℕ → Result Text
  -- SHA-256 in raw URL base64
  pub digest : Text → Text
  pub record_json : Codec ShareRecord
  pub keys_json : Codec (List Text)
  pub perms_json : Codec SharePermissions

-- The clients are there, and do what they promise.
pub record ShareLaws (env : ShareEnv) : Type 0 where
  pub kv_law : KvLaws env.kv
  pub db_law : ShareDbLaws env.db
  pub record_law : IsJson env.record_json
  pub keys_law : IsJson env.keys_json
  pub perms_law : IsJson env.perms_json
  pub with_kv : env.has_kv ≡ true
  pub with_db : env.has_db ≡ true

-- Beside that, writing to the cache never fails.
pub record CacheNeverFails (env : ShareEnv) : Type 0 where
  pub reliable : IsReliable env.kv
  pub total : IsTotal env.record_json

-- The state that the service works on.
pub record World (env : ShareEnv) : Type 0 where
  pub rows : env.db.Rows
  pub cache : env.kv.State
