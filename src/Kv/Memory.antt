-- ===== src/Kv/Memory.antt =====
-- pkg/internal/storage/kv/memory.go: the store over `sync.Map`, one call at a time. The map holds
-- byte slices only, since `Set` is all that writes to it; so the casts of the source succeed.
pub mod Laws
pub mod Keys
use notevault.Prelude.{
  ℕ, ◌≡◌, Bool, true, false, not, ◌&&◌, Option, none, some, List, [], ◌∷◌, Text, is_empty,
  same_text, if◌then◌else◌,
}
use notevault.Prelude.Result.{Result, ok, err, key_not_found}
use notevault.Prelude.Int.{ℤ}
use notevault.Prelude.Assoc
use notevault.Prelude.Assoc.{Assoc, lookup, insert, remove}
use notevault.Prelude.Codec.{Codec}
use notevault.Kv.Ttl.{TtlValue, Decoded, encode_with_ttl, decode_with_ttl}
use notevault.Kv.Store.{KvStore}

module _ (json : Codec TtlValue) where
  -- `Get` and `Exists` end alike: an expired entry is dropped.
  abbrev get_decoded : Text → Assoc Text → Result Decoded → Result Text × Assoc Text
  get_decoded key m (err e) = (err e, m)
  get_decoded key m (ok d) =
      if d.expired then (err (key_not_found key), remove key m) else (ok d.value, m)

  abbrev exists_decoded : Text → Assoc Text → Result Decoded → Result Bool × Assoc Text
  exists_decoded key m (err e) = (err e, m)
  exists_decoded key m (ok d) = if d.expired then (ok false, remove key m) else (ok true, m)

  unfoldable pub get : (now : ℕ) → Text → Assoc Text → Result Text × Assoc Text
  get now key m = elim (lookup key m) [
    | none ↦ (err (key_not_found key), m)
    | some b ↦ get_decoded key m (decode_with_ttl json b now)
  ]

  unfoldable pub set :
      (now : ℕ) → Text → Text → (ttl : ℤ) → Assoc Text → Result (Unit {0}) × Assoc Text
  set now key value ttl m = elim (encode_with_ttl json now value ttl) [
    | ok (encoded, _) ↦ (ok tt, insert key encoded m)
    | err e ↦ (err e, m)
  ]

  unfoldable pub delete : Text → Assoc Text → Result (Unit {0}) × Assoc Text
  delete key m = (ok tt, remove key m)

  unfoldable pub exists : (now : ℕ) → Text → Assoc Text → Result Bool × Assoc Text
  exists now key m = elim (lookup key m) [
    | none ↦ (ok false, m)
    | some b ↦ exists_decoded key m (decode_with_ttl json b now)
  ]

  -- What the range function does with an entry: `none` leaves it out, and an expired one is deleted.
  abbrev is_expired : Result Decoded → Bool
  is_expired (err e) = false
  is_expired (ok d) = d.expired

  abbrev visit : (Text → ℕ) → Text → Text → Text → Option Bool
  visit now pattern k b =
      if not (is_empty pattern) && not (same_text k pattern)
      then none
      else some (is_expired (decode_with_ttl json b (now k)))

  -- The range over the entries `rest` of the map `m`, which gathers the keys.
  unfoldable pub range : (Text → ℕ) → Text → Assoc Text → Assoc Text → List Text × Assoc Text
  range now pattern [] m = ([], m)
  range now pattern ((k, b) ∷ rest) m = elim (visit now pattern k b) [
    | none ↦ range now pattern rest m
    | some true ↦ range now pattern rest (remove k m)
    | some false ↦ let (ks, m') = range now pattern rest m in (k ∷ ks, m')
  ]

  unfoldable pub keys : (Text → ℕ) → Text → Assoc Text → Result (List Text) × Assoc Text
  unfolding range
  keys now pattern m = let (ks, m') = range now pattern m m in (ok ks, m')

-- `NewMemoryKV` returns the empty map with these methods.
abbrev pub memory_kv : Codec TtlValue → KvStore
memory_kv json = record {
  State = Assoc Text;
  get = get json;
  set = set json;
  delete = delete json;
  exists = exists json;
  keys = keys json;
}
