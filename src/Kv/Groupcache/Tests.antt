-- ===== src/Kv/Groupcache/Tests.antt =====
-- Runs of the store over groupcache on a small group, and its theorem at concrete values.
use notevault.Prelude.{
  ◌≡◌, refl, inl, inr, true, none, some, [], ◌∷◌, arith, Text, codes, same_text, same_text_refl,
  has_prefix, drop_prefix, Option-cases,
}
use notevault.Prelude.Assoc.{Assoc, lookup, insert, remove, lookup-insert}
use notevault.Prelude.Result.{Result, ok, err, Result-cases}
use notevault.Prelude.Int.{pos}
use notevault.Kv.Ttl.{encode_with_ttl, decode_with_ttl}
use notevault.Kv.Store.{KvLaws}
use notevault.Kv.Groupcache.{
  Group, GroupLaws, GroupcacheKv, getter_get, get, set, delete, exists, listed_keys, keys,
  groupcache_kv,
}
use notevault.Kv.Groupcache.Stale.{deleted_key_is_read}
use notevault.Sample.Wire.{wires, ttl_json}

abbrev filled : Text → Assoc Text → Result Text → Result Text × Assoc Text
filled k held (err e) = (err e, held)
filled k held (ok v) = (ok v, insert k v held)

-- A group that holds all that it loads.
abbrev group_get : (Text → Result Text) → Text → Assoc Text → Result Text × Assoc Text
group_get getter k held = elim (lookup k held) [
  | some v ↦ (ok v, held)
  | none ↦ filled k held (getter k)
]

abbrev group : Group
group = record { Held = Assoc Text; get = group_get }

group-GroupLaws : GroupLaws group
group-GroupLaws = record {
  holds = λ getter later k v held loaded. elim (Option-cases (lookup k held)) [
    | inr (w, there) ↦ ground (arith, there, loaded)
    | inl missing ↦ elim (Result-cases (getter k)) [
      | inr (e, failed) ↦ absurd (ground (arith, missing, failed, loaded))
      | inl (w, found) ↦
          ground (arith, missing, found, loaded, lookup-insert k k w held, same_text_refl k)
    ]
  ];
}

abbrev k : Text
k = codes "k"

abbrev v : Text
v = codes "v"

abbrev empty : GroupcacheKv group
empty = record { cache = []; local_data = [] }

abbrev written : GroupcacheKv group
written = (set ttl_json group 0 k v (pos 0) empty).1

runs : Unit {0}
unfolding get set delete exists listed_keys keys getter_get lookup insert remove encode_with_ttl
    decode_with_ttl wires same_text has_prefix drop_prefix
runs = tt

lists :
    ((keys ttl_json group (λ j. 0) [] written).0 ≡ ok (k ∷ []))
    × ((exists ttl_json group 0 k written).0 ≡ ok true)
unfolding runs
lists = (refl, refl)

-- After a read a new value is not seen.
hides_a_write :
    (get ttl_json group 0 k
      (set ttl_json group 0 k (codes "w") (pos 0) (get ttl_json group 0 k written).1).1).0
    ≡ ok v
unfolding runs
hides_a_write = refl

reads : (get ttl_json group 0 k written).0 ≡ ok v
unfolding runs
reads = refl

deleted_key_is_read_example :
    ((delete ttl_json group k (get ttl_json group 0 k written).1).0 ≡ ok tt)
    × (((get ttl_json group 0 k (delete ttl_json group k (get ttl_json group 0 k written).1).1).0
          ≡ ok v)
        × ¬ KvLaws (groupcache_kv ttl_json group))
deleted_key_is_read_example = deleted_key_is_read ttl_json group group-GroupLaws 0 k v written reads
