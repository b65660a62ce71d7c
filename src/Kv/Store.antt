-- ===== src/Kv/Store.antt =====
-- pkg/internal/storage/kv/kv.go: the interface `KVStore`, and what its clients rely on.
use notevault.Prelude.{ℕ, ◌≡◌, ◌⊎◌, Bool, true, false, List, Text, has_prefix, same_text}
use notevault.Prelude.Result.{Error, Result, ok, err}
use notevault.Prelude.Int.{ℤ}
use notevault.Kv.Ttl.{ttl_magic}

-- The methods of `KVStore`. Each takes what its calls of `time.Now` return: one reading, and for
-- `keys` one for each key that it visits.
pub record KvStore : Type 1 where
  pub State : Type 0
  pub get : ℕ → Text → State → Result Text × State
  pub set : ℕ → Text → Text → ℤ → State → Result (Unit {0}) × State
  pub delete : Text → State → Result (Unit {0}) × State
  pub exists : ℕ → Text → State → Result Bool × State
  pub keys : (Text → ℕ) → Text → State → Result (List Text) × State

-- At some time `get` returns `v` for the key `k`.
abbrev pub Hit : (kv : KvStore) → kv.State → Text → Text → Type 0
Hit kv s k v = (now : ℕ) × ((kv.get now k s).0 ≡ ok v)

-- Each operation leaves only the hits that it allows: reading, testing and listing leave those of
-- before, a write adds its value under its key, and a deletion takes the key's away. Of writes of a
-- value that starts with the marker of ttl.go nothing is said.
pub record KvLaws (kv : KvStore) : Type 0 where
  pub get_hit :
      (now : ℕ) (k j v : Text) (s : kv.State) → Hit kv (kv.get now k s).1 j v → Hit kv s j v
  pub exists_hit :
      (now : ℕ) (k j v : Text) (s : kv.State) → Hit kv (kv.exists now k s).1 j v → Hit kv s j v
  pub keys_hit :
      (now : Text → ℕ) (pattern j v : Text) (s : kv.State)
      → Hit kv (kv.keys now pattern s).1 j v
      → Hit kv s j v
  pub set_hit :
      (now : ℕ) (k w : Text) (ttl : ℤ) (j v : Text) (s : kv.State)
      → has_prefix w ttl_magic ≡ false
      → (kv.set now k w ttl s).0 ≡ ok tt
      → Hit kv (kv.set now k w ttl s).1 j v
      → ((same_text k j ≡ true) × (v ≡ w)) ⊎ ((same_text k j ≡ false) × Hit kv s j v)
  -- A write that fails may have taken place.
  pub set_err_hit :
      (now : ℕ) (k w : Text) (ttl : ℤ) (j v : Text) (s : kv.State) (e : Error)
      → has_prefix w ttl_magic ≡ false
      → (kv.set now k w ttl s).0 ≡ err e
      → Hit kv (kv.set now k w ttl s).1 j v
      → ((same_text k j ≡ true) × (v ≡ w)) ⊎ Hit kv s j v
  pub delete_hit :
      (k j v : Text) (s : kv.State)
      → (kv.delete k s).0 ≡ ok tt
      → Hit kv (kv.delete k s).1 j v
      → (same_text k j ≡ false) × Hit kv s j v
  pub delete_err_hit :
      (k j v : Text) (s : kv.State) (e : Error)
      → (kv.delete k s).0 ≡ err e
      → Hit kv (kv.delete k s).1 j v
      → Hit kv s j v

-- Writing and deleting never fail.
pub record IsReliable (kv : KvStore) : Type 0 where
  pub set_ok : (now : ℕ) (k w : Text) (ttl : ℤ) (s : kv.State) → (kv.set now k w ttl s).0 ≡ ok tt
  pub delete_ok : (k : Text) (s : kv.State) → (kv.delete k s).0 ≡ ok tt
