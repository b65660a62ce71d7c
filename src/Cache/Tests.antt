-- ===== src/Cache/Tests.antt =====
-- The theorems about the generic cache at the memory store, for values that are lists of texts.
use notevault.Prelude.{
  ℕ, ◌*◌, ◌≡◌, refl, true, none, List, [], ◌∷◌, Text, codes, same_text, has_prefix, drop_prefix,
}
use notevault.Prelude.Result.{ok}
use notevault.Prelude.Int.{ℤ, pos}
use notevault.Prelude.Assoc.{Assoc, lookup, insert, remove}
use notevault.Kv.Ttl.{encode_with_ttl, decode_with_ttl}
use notevault.Kv.Store.{KvStore}
use notevault.Kv.Memory
use notevault.Kv.Memory.{memory_kv}
use notevault.Kv.Memory.Laws.{memory_kv-KvLaws, get-eq-reading}
use notevault.Cache.{
  is_over, expires_at, unwrap, wrap, get, set, get_or_set, clear, run_cleanup_once,
}
use notevault.Cache.Coherence.{Agrees, get_or_set-Agrees}
use notevault.Cache.Clearing.{clear_keeps_all}
use notevault.Sample.Wire.{wires, ttl_json, ttl_json-IsJson, keys_json, keys_json-IsJson}
use notevault.Sample.Items.{item_json, item_json-IsJson, put_item, get_item}

abbrev store : KvStore
store = memory_kv ttl_json

abbrev k : Text
k = codes "k"

abbrev value : List Text
value = codes "v" ∷ []

abbrev noon : ℕ
noon = 63900000000 * 1000000000

abbrev minute : ℤ
minute = pos 60000000000

abbrev stored : Assoc Text
stored = (set store true item_json keys_json noon noon k value minute []).1

-- To name on the `unfolding` line of a run.
runs : Unit {0}
unfolding get set wrap unwrap is_over expires_at get_or_set wires put_item get_item lookup insert
    remove encode_with_ttl decode_with_ttl same_text has_prefix drop_prefix Memory.get Memory.set
runs = tt

nothing-Agrees : Agrees store true item_json keys_json [] k value
unfolding lookup
nothing-Agrees b hit = absurd (cc (get-eq-reading ttl_json hit.0 k [], hit.1))

get_or_set-Agrees_example :
    ((get_or_set store true item_json keys_json noon noon noon noon k (ok value) minute []).0
      ≡ ok value)
    × Agrees store true item_json keys_json
        (get_or_set store true item_json keys_json noon noon noon noon k (ok value) minute []).1
        k
        value
get_or_set-Agrees_example =
    get_or_set-Agrees store (memory_kv-KvLaws ttl_json ttl_json-IsJson) true item_json
      item_json-IsJson keys_json keys_json-IsJson noon noon noon noon k value minute []
      nothing-Agrees

no_star : lookup (codes "*") stored ≡ none
unfolding runs
no_star = refl

clear_keeps_all_example :
    (clear store true item_json (λ j. noon) stored ≡ (ok tt, stored))
    × (run_cleanup_once store true item_json
          (λ t. ok (pos 1))
          (λ j. noon)
          (λ j. noon)
          (λ j. noon)
          stored
        ≡ stored)
clear_keeps_all_example =
    clear_keeps_all ttl_json true item_json (λ t. ok (pos 1)) (λ j. noon) (λ j. noon) (λ j. noon)
      stored no_star
