-- ===== src/Kv/Nats/Tests.antt =====
-- Runs of the store over NATS on a small bucket, and its theorem at concrete values.
use notevault.Prelude.{
  ℕ, ◌+◌, ◌*◌, ◌≡◌, refl, false, [], ◌∷◌, map, Text, codes, same_text, has_prefix, drop_prefix,
}
use notevault.Prelude.Assoc.{Assoc, lookup, insert, remove}
use notevault.Prelude.Result.{ok, err, key_not_found}
use notevault.Prelude.Int.{pos}
use notevault.Kv.Ttl.{encode_with_ttl, decode_with_ttl}
use notevault.Kv.Nats.{KeyValue, get, set, delete, exists, visit_keys, keys}
use notevault.Sample.Wire.{wires, ttl_json}

-- A bucket that never fails.
abbrev bucket : KeyValue
bucket = record {
  Entries = Assoc Text;
  get = λ k s. ok (lookup k s);
  put = λ k v s. (ok tt, insert k v s);
  delete = λ k s. (ok tt, remove k s);
  keys = λ s. ok (map (λ e. e.0) s);
}

abbrev second : ℕ
second = 1000000000

abbrev noon : ℕ
noon = 63900000000 * second

abbrev k : Text
k = codes "k"

abbrev v : Text
v = codes "v"

-- `v` under `k` for ten seconds.
abbrev written : Assoc Text
written = (set ttl_json bucket noon k v (pos (10 * second)) []).1

runs : Unit {0}
unfolding get set delete exists visit_keys keys lookup insert remove encode_with_ttl decode_with_ttl
    wires same_text has_prefix drop_prefix
runs = tt

reads : (get ttl_json bucket (noon + 9 * second) k written).0 ≡ ok v
unfolding runs
reads = refl

forgets :
    (get ttl_json bucket (noon + 10 * second) k written ≡ (err (key_not_found k), []))
    × (exists ttl_json bucket (noon + 10 * second) k written ≡ (ok false, []))
unfolding runs
forgets = (refl, refl)

lists :
    ((keys ttl_json bucket (λ j. noon) [] written).0 ≡ ok (k ∷ []))
    × (keys ttl_json bucket (λ j. noon + 10 * second) k written ≡ (ok [], []))
unfolding runs
lists = (refl, refl)
