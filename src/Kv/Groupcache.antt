-- ===== src/Kv/Groupcache.antt =====
-- pkg/internal/storage/kv/groupcache.go: the store over a group of groupcache, on one node.
pub mod Stale
mod Tests
use notevault.Prelude.{
  ℕ, ◌≡◌, Bool, false, not, ◌&&◌, ◌||◌, none, some, List, [], ◌∷◌, Text, is_empty, same_text,
  if◌then◌else◌,
}
use notevault.Prelude.Assoc
use notevault.Prelude.Assoc.{Assoc, lookup, insert, remove}
use notevault.Prelude.Result.{Error, Result, ok, err, key_not_found, get_failed}
use notevault.Prelude.Int.{ℤ}
use notevault.Prelude.Codec.{Codec}
use notevault.Kv.Ttl.{TtlValue, Decoded, encode_with_ttl, decode_with_ttl}
use notevault.Kv.Store.{KvStore}

-- `groupcache.Group`: `Get` asks its getter for a key that it does not hold.
pub record Group : Type 1 where
  pub Held : Type 0
  pub get : (Text → Result Text) → Text → Held → Result Text × Held

-- A value that was loaded is held, and never loaded again; so that of a key may not change.
pub record GroupLaws (group : Group) : Type 0 where
  pub holds :
      (getter later : Text → Result Text) (k v : Text) (held : group.Held)
      → (group.get getter k held).0 ≡ ok v
      → (group.get later k (group.get getter k held).1).0 ≡ ok v

-- `GroupcacheKV`: the group and the map that its getter reads.
pub record GroupcacheKv (group : Group) : Type 0 where
  pub cache : group.Held
  pub local_data : Assoc Text

-- `groupcacheGetter.Get`
unfoldable pub getter_get : Assoc Text → Text → Result Text
unfolding lookup
getter_get values key = elim (lookup key values) [
  | none ↦ err (key_not_found key)
  | some value ↦ ok value
]

module _ (json : Codec TtlValue) (group : Group) where
  unfoldable pub set :
      (now : ℕ)
      → Text
      → Text
      → (ttl : ℤ) → GroupcacheKv group
      → Result (Unit {0}) × GroupcacheKv group
  set now key value ttl g = elim (encode_with_ttl json now value ttl) [
    | err e ↦ (err e, g)
    | ok (encoded, _) ↦ (ok tt, record g { local_data = insert key encoded g.local_data })
  ]

  unfoldable pub delete : Text → GroupcacheKv group → Result (Unit {0}) × GroupcacheKv group
  delete key g = (ok tt, record g { local_data = remove key g.local_data })

  abbrev get_decoded : Text → GroupcacheKv group → Result Decoded → Result Text × GroupcacheKv group
  get_decoded key g (err e) = (err e, g)
  get_decoded key g (ok d) =
      if d.expired then (err (key_not_found key), (delete key g).1) else (ok d.value, g)

  unfoldable pub get : (now : ℕ) → Text → GroupcacheKv group → Result Text × GroupcacheKv group
  unfolding delete getter_get
  get now key g =
      let (loaded, held) = group.get (getter_get g.local_data) key g.cache in
      let g' : GroupcacheKv group = record g { cache = held } in
      elim loaded [
        | err e ↦ (err (get_failed e), g')
        | ok bytes ↦ get_decoded key g' (decode_with_ttl json bytes now)
      ]

  abbrev exists_decoded : Result Decoded → Result Bool
  exists_decoded (err e) = err e
  exists_decoded (ok d) = ok (not d.expired)

  unfoldable pub exists : (now : ℕ) → Text → GroupcacheKv group → Result Bool × GroupcacheKv group
  exists now key g = elim (lookup key g.local_data) [
    | none ↦ (ok false, g)
    | some b ↦ (exists_decoded (decode_with_ttl json b now), g)
  ]

  abbrev is_over_now : Result Decoded → Bool
  is_over_now (err e) = false
  is_over_now (ok d) = d.expired

  -- The range over the map; an expired entry is left out, and stays there.
  unfoldable pub listed_keys : (Text → ℕ) → Text → Assoc Text → List Text
  listed_keys now pattern [] = []
  listed_keys now pattern ((k, b) ∷ rest) =
      let listed = listed_keys now pattern rest in
      let skipped = not (is_empty pattern) && not (same_text k pattern) in
      if skipped || is_over_now (decode_with_ttl json b (now k)) then listed else k ∷ listed

  unfoldable pub keys :
      (Text → ℕ) → Text → GroupcacheKv group → Result (List Text) × GroupcacheKv group
  unfolding listed_keys
  keys now pattern g = (ok (listed_keys now pattern g.local_data), g)

-- `GroupcacheKV` with these methods.
abbrev pub groupcache_kv : Codec TtlValue → Group → KvStore
groupcache_kv json group = record {
  State = GroupcacheKv group;
  get = get json group;
  set = set json group;
  delete = delete json group;
  exists = exists json group;
  keys = keys json group;
}
