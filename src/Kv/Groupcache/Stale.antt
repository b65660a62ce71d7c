-- ===== src/Kv/Groupcache/Stale.antt =====
-- Reads of the store over groupcache after a deletion.
use notevault.Prelude.{ℕ, ◌≡◌, refl, sym, ap, ◌∙◌, inl, inr, arith, Text, same_text_refl}
use notevault.Prelude.Result.{ok, Result-cases}
use notevault.Prelude.Codec.{Codec}
use notevault.Kv.Ttl.{TtlValue}
use notevault.Kv.Store.{KvLaws}
use notevault.Kv.Groupcache.{Group, GroupLaws, GroupcacheKv, getter_get, get, delete, groupcache_kv}

module _ (json : Codec TtlValue) (group : Group) (law : GroupLaws group) where
  -- A read that returned a value loaded its bytes, and left the map alone.
  get-loaded :
      (now : ℕ) (k v : Text) (g : GroupcacheKv group)
      → (get json group now k g).0 ≡ ok v
      → (b : Text) × (((group.get (getter_get g.local_data) k g.cache).0 ≡ ok b)
          × ((get json group now k g).1.cache ≡ (group.get (getter_get g.local_data) k g.cache).1))
  unfolding get
  get-loaded now k v g found =
      elim (Result-cases (group.get (getter_get g.local_data) k g.cache).0) [
        | inr (e, failed) ↦ absurd (ground arith)
        | inl (b, loaded) ↦ (b, (loaded, ground (arith, loaded)))
      ]

  -- What a read returns depends only on the bytes that the group gives.
  get-same :
      (now : ℕ) (k : Text) (g g' : GroupcacheKv group)
      → (group.get (getter_get g.local_data) k g.cache).0
        ≡ (group.get (getter_get g'.local_data) k g'.cache).0
      → (get json group now k g).0 ≡ (get json group now k g').0
  unfolding get
  get-same now k g g' same = elim (Result-cases (group.get (getter_get g.local_data) k g.cache).0) [
    | inr (e, failed) ↦ ground (arith, same, failed)
    | inl (b, loaded) ↦ ground (arith, same, loaded)
  ]

  -- A read that returned a value, a deletion of the key and a read at the same time: the deletion
  -- succeeds, and the second read returns the value as well. So the store does not keep the promises of
  -- the interface `KVStore`.
  pub deleted_key_is_read :
      (now : ℕ) (k v : Text) (g : GroupcacheKv group)
      → (get json group now k g).0 ≡ ok v
      → ((delete json group k (get json group now k g).1).0 ≡ ok tt)
        × (((get json group now k (delete json group k (get json group now k g).1).1).0 ≡ ok v)
            × ¬ KvLaws (groupcache_kv json group))
  unfolding get delete
  deleted_key_is_read now k v g found =
      let (b, (loaded, held)) = get-loaded now k v g found in
      let after = (delete json group k (get json group now k g).1).1 in
      let again : (group.get (getter_get after.local_data) k after.cache).0 ≡ ok b =
        ap (λ c. (group.get (getter_get after.local_data) k c).0) held
        ∙ law.holds (getter_get g.local_data) (getter_get after.local_data) k b g.cache loaded in
      let stale = get-same now k after g (again ∙ sym loaded) ∙ found in
      (
        refl,
        (
          stale,
          λ laws. ground (
            arith,
            (laws.delete_hit k k v (get json group now k g).1 refl (now, stale)).0,
            same_text_refl k,
          ),
        ),
      )
