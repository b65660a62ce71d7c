-- ===== src/Cache/Clearing.antt =====
-- `Clear` and the cleanup of cache.go over the memory store.
use notevault.Prelude.{
  ℕ, ◌≡◌, refl, Bool, false, none, [], ◌∷◌, arith, Text, codes, is_empty, same_text_iff,
}
use notevault.Prelude.Result.{Result, ok}
use notevault.Prelude.Int.{ℤ}
use notevault.Prelude.Assoc.{Assoc, lookup}
use notevault.Prelude.Codec.{Codec}
use notevault.Kv.Ttl.{TtlValue}
use notevault.Kv.Memory.{keys, range, memory_kv}
use notevault.Cache.{CacheItem, clear, delete_keys, clean_keys, run_cleanup_once}

module _ (json : Codec TtlValue) (now : Text → ℕ) (pattern : Text)
    (some_pattern : is_empty pattern ≡ false) where
  range-unmatched :
      (rest m : Assoc Text) → lookup pattern rest ≡ none → range json now pattern rest m ≡ ([], m)
  unfolding range lookup
  range-unmatched [] m fresh = refl
  range-unmatched ((k, b) ∷ rest) m fresh =
      ground (arith, some_pattern, same_text_iff k pattern, range-unmatched rest m (ground arith))

-- Over the memory store, `Clear` succeeds and leaves everything where no key is called `*`, and so
-- does a run of the cleanup.
pub clear_keeps_all :
    (json : Codec TtlValue) (local : Bool) (item_json : Codec CacheItem) (expiry : Text → Result ℤ)
    (keys_now kv_now now : Text → ℕ) (m : Assoc Text)
    → lookup (codes "*") m ≡ none
    → (clear (memory_kv json) local item_json keys_now m ≡ (ok tt, m))
      × (run_cleanup_once (memory_kv json) local item_json expiry keys_now kv_now now m ≡ m)
unfolding clear delete_keys run_cleanup_once clean_keys keys
clear_keeps_all json local item_json expiry keys_now kv_now now m fresh =
    let nothing = range-unmatched json keys_now (codes "*") refl m m fresh in
    (ground (arith, nothing), ground (arith, nothing))
