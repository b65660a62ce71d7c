-- ===== src/Cache.antt =====
-- pkg/cache/cache.go: the generic cache over a key-value store. `local` is `useLocalTTL`, and the
-- codecs are `sonic` at the wrapper, at the wrapper's expiry alone, and at the type of the values.
-- Each method takes what its calls of `time.Now` return, those of the store first.
pub mod Coherence
pub mod Clearing
mod Tests
use notevault.Prelude.{
  ℕ, Bool, not, ◌&&◌, Option, none, some, List, [], ◌∷◌, Text, codes, if◌then◌else◌,
}
use notevault.Prelude.Result.{
  Result, ok, err, wrap_error, marshal_failed, unmarshal_failed, cache_miss,
}
use notevault.Prelude.Int.{ℤ, pos, is_positive, leb_int, time_add, unix_nano}
use notevault.Prelude.Codec.{Codec}
use notevault.Prelude.Exec.{Exec, pure, raise, lift, attempt, ◌>>=◌, ◌>>◌}
use notevault.Kv.Store.{KvStore}

-- The wrapper `{p, e}`.
pub record CacheItem : Type 0 where
  pub payload : Text
  pub expires_at : ℤ

-- `item.ExpiresAt > 0 && time.Now().UnixNano() > item.ExpiresAt`
unfoldable pub is_over : ℕ → ℤ → Bool
is_over now expires_at = is_positive expires_at && not (leb_int (unix_nano now) expires_at)

-- The expiry that `Set` writes.
unfoldable pub expires_at : ℕ → ℤ → ℤ
expires_at now ttl = if is_positive ttl then unix_nano (time_add now ttl) else pos 0

module _ (kv : KvStore) (local : Bool) (item_json : Codec CacheItem) where
  -- The wrapper around the bytes of the store; without the local wrapper they are the payload, which
  -- does not expire.
  unfoldable pub unwrap : Text → Result CacheItem
  unwrap bytes =
      if local
      then wrap_error unmarshal_failed (item_json.unmarshal bytes)
      else ok (record { payload = bytes; expires_at = pos 0 })

  unfoldable pub wrap : ℕ → Text → ℤ → Result Text
  unfolding expires_at
  wrap now payload ttl =
      if local
      then wrap_error marshal_failed
          (item_json.marshal (record { payload = payload; expires_at = expires_at now ttl }))
      else ok payload

  unfoldable pub delete : Text → Exec kv.State (Unit {0})
  delete key = kv.delete key

  unfoldable pub exists : (kv_now : ℕ) → Text → Exec kv.State Bool
  exists kv_now key = kv.exists kv_now key

  module _ {T : Type 0} (json : Codec T) where
    unfoldable pub get : (kv_now now : ℕ) → Text → Exec kv.State T
    unfolding unwrap is_over
    get kv_now now key = do
      bytes ← kv.get kv_now key
      item ← lift (unwrap bytes)
      if is_over now item.expires_at
          then (do attempt (kv.delete key); raise cache_miss)
          else lift (wrap_error unmarshal_failed (json.unmarshal item.payload))

    unfoldable pub set : (kv_now now : ℕ) → Text → T → ℤ → Exec kv.State (Unit {0})
    unfolding wrap
    set kv_now now key value ttl = do
      payload ← lift (wrap_error marshal_failed (json.marshal value))
      bytes ← lift (wrap now payload ttl)
      kv.set kv_now key bytes ttl

    -- `getter` is what the call of the getter returns, where it is called.
    unfoldable pub get_or_set :
        (kv_now now kv_now' now' : ℕ) → Text → Result T → ℤ → Exec kv.State T
    unfolding get set
    get_or_set kv_now now kv_now' now' key getter ttl = do
      cached ← attempt (get kv_now now key)
      elim cached [
        | some value ↦ pure value
        | none ↦ (do value ← lift getter; attempt (set kv_now' now' key value ttl); pure value)
      ]

  -- `for _, key := range keys`
  unfoldable pub delete_keys : List Text → Exec kv.State (Unit {0})
  delete_keys [] = pure tt
  delete_keys (key ∷ keys) = do kv.delete key; delete_keys keys

  unfoldable pub clear : (Text → ℕ) → Exec kv.State (Unit {0})
  unfolding delete_keys
  clear kv_now = do keys ← kv.keys kv_now (codes "*"); delete_keys keys

  -- The loop of the cleanup, which passes over errors; `expiry` reads the expiry of a wrapper.
  unfoldable pub clean_keys :
      (Text → Result ℤ) → (kv_now now : Text → ℕ) → List Text → kv.State → kv.State
  unfolding is_over
  clean_keys expiry kv_now now [] s = s
  clean_keys expiry kv_now now (key ∷ keys) s =
      let (read, s1) = kv.get (kv_now key) key s in
      let next = clean_keys expiry kv_now now keys s1 in
      let next_deleted = clean_keys expiry kv_now now keys (kv.delete key s1).1 in
      elim read [
        | err e ↦ next
        | ok bytes ↦ elim (expiry bytes) [
          | err e ↦ next
          | ok at ↦ if is_over (now key) at then next_deleted else next
        ]
      ]

  unfoldable pub run_cleanup_once :
      (Text → Result ℤ) → (keys_now kv_now now : Text → ℕ) → kv.State → kv.State
  unfolding clean_keys
  run_cleanup_once expiry keys_now kv_now now s =
      if not local
      then s
      else let (listed, s1) = kv.keys keys_now (codes "*") s in
        elim listed [ err e ↦ s1 | ok keys ↦ clean_keys expiry kv_now now keys s1 ]
