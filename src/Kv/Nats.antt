-- ===== src/Kv/Nats.antt =====
-- pkg/internal/storage/kv/nats_kv.go: the store over a bucket of NATS JetStream.
pub mod Laws
mod Tests
use notevault.Prelude.{
  ℕ, ◌≡◌, ◌⊎◌, Bool, true, false, not, ◌&&◌, ◌||◌, Option, none, some, List, [], ◌∷◌, Text,
  is_empty, same_text, if◌then◌else◌,
}
use notevault.Prelude.Result.{
  Error, Result, ok, err, wrap_error, key_not_found, get_failed, set_failed, delete_failed,
  check_failed, keys_failed,
}
use notevault.Prelude.Int.{ℤ}
use notevault.Prelude.Codec.{Codec}
use notevault.Kv.Ttl.{TtlValue, Decoded, encode_with_ttl, decode_with_ttl}
use notevault.Kv.Store.{KvStore}

-- `nats.KeyValue`. `get` answers `none` for `ErrKeyNotFound`; reading changes nothing.
pub record KeyValue : Type 1 where
  pub Entries : Type 0
  pub get : Text → Entries → Result (Option Text)
  pub put : Text → Text → Entries → Result (Unit {0}) × Entries
  pub delete : Text → Entries → Result (Unit {0}) × Entries
  pub keys : Entries → Result (List Text)

-- What a bucket gives back is what was put there last; a call that fails may have taken place.
pub record KeyValueLaws (kv : KeyValue) : Type 0 where
  pub put_ok :
      (k v j w : Text) (s : kv.Entries)
      → (kv.put k v s).0 ≡ ok tt
      → kv.get j (kv.put k v s).1 ≡ ok (some w)
      → ((same_text k j ≡ true) × (w ≡ v)) ⊎ ((same_text k j ≡ false) × (kv.get j s ≡ ok (some w)))
  pub put_err :
      (k v j w : Text) (s : kv.Entries) (e : Error)
      → (kv.put k v s).0 ≡ err e
      → kv.get j (kv.put k v s).1 ≡ ok (some w)
      → ((same_text k j ≡ true) × (w ≡ v)) ⊎ (kv.get j s ≡ ok (some w))
  pub delete_ok :
      (k j w : Text) (s : kv.Entries)
      → (kv.delete k s).0 ≡ ok tt
      → kv.get j (kv.delete k s).1 ≡ ok (some w)
      → (same_text k j ≡ false) × (kv.get j s ≡ ok (some w))
  pub delete_err :
      (k j w : Text) (s : kv.Entries) (e : Error)
      → (kv.delete k s).0 ≡ err e
      → kv.get j (kv.delete k s).1 ≡ ok (some w)
      → kv.get j s ≡ ok (some w)

module _ (json : Codec TtlValue) (kv : KeyValue) where
  -- An expired entry is deleted, whether this succeeds or not.
  abbrev get_decoded : Text → kv.Entries → Result Decoded → Result Text × kv.Entries
  get_decoded key s (err e) = (err e, s)
  get_decoded key s (ok d) =
      if d.expired then (err (key_not_found key), (kv.delete key s).1) else (ok d.value, s)

  abbrev exists_decoded : Text → kv.Entries → Result Decoded → Result Bool × kv.Entries
  exists_decoded key s (err e) = (err e, s)
  exists_decoded key s (ok d) = if d.expired then (ok false, (kv.delete key s).1) else (ok true, s)

  unfoldable pub get : (now : ℕ) → Text → kv.Entries → Result Text × kv.Entries
  get now key s = elim (kv.get key s) [
    | err e ↦ (err (get_failed e), s)
    | ok none ↦ (err (key_not_found key), s)
    | ok (some b) ↦ get_decoded key s (decode_with_ttl json b now)
  ]

  unfoldable pub set :
      (now : ℕ) → Text → Text → (ttl : ℤ) → kv.Entries → Result (Unit {0}) × kv.Entries
  set now key value ttl s = elim (encode_with_ttl json now value ttl) [
    | err e ↦ (err e, s)
    | ok (encoded, _) ↦ (wrap_error set_failed (kv.put key encoded s).0, (kv.put key encoded s).1)
  ]

  unfoldable pub delete : Text → kv.Entries → Result (Unit {0}) × kv.Entries
  delete key s = (wrap_error delete_failed (kv.delete key s).0, (kv.delete key s).1)

  unfoldable pub exists : (now : ℕ) → Text → kv.Entries → Result Bool × kv.Entries
  exists now key s = elim (kv.get key s) [
    | err e ↦ (err (check_failed e), s)
    | ok none ↦ (ok false, s)
    | ok (some b) ↦ exists_decoded key s (decode_with_ttl json b now)
  ]

  -- The test of a key in `Keys`: an entry that cannot be read or decoded counts as there.
  abbrev pub is_over_now : ℕ → Result (Option Text) → Bool
  is_over_now now (err e) = false
  is_over_now now (ok none) = false
  is_over_now now (ok (some b)) = elim (decode_with_ttl json b now) [
    | err e ↦ false
    | ok d ↦ d.expired
  ]

  unfoldable pub visit_keys : (Text → ℕ) → Text → List Text → kv.Entries → List Text × kv.Entries
  visit_keys now pattern [] s = ([], s)
  visit_keys now pattern (k ∷ ks) s =
      let skipped = not (is_empty pattern) && not (same_text k pattern) in
      let over = not skipped && is_over_now (now k) (kv.get k s) in
      let (listed, s') = visit_keys now pattern ks (if over then (kv.delete k s).1 else s) in
      (if skipped || over then listed else k ∷ listed, s')

  unfoldable pub keys : (Text → ℕ) → Text → kv.Entries → Result (List Text) × kv.Entries
  unfolding visit_keys
  keys now pattern s = elim (kv.keys s) [
    | err e ↦ (err (keys_failed e), s)
    | ok all ↦ let (listed, s') = visit_keys now pattern all s in (ok listed, s')
  ]

-- `NATSKV` with these methods.
abbrev pub nats_kv : Codec TtlValue → KeyValue → KvStore
nats_kv json kv = record {
  State = kv.Entries;
  get = get json kv;
  set = set json kv;
  delete = delete json kv;
  exists = exists json kv;
  keys = keys json kv;
}
