-- ===== src/Kv/Tests.antt =====
-- Runs of the memory store, and its theorems at concrete values.
use notevault.Prelude.{
  ℕ, ◌+◌, ◌*◌, ◌≡◌, refl, inl, true, false, [], ◌∷◌, ◌++◌, arith, Text, codes, same_text,
  has_prefix, drop_prefix, if◌then◌else◌,
}
use notevault.Prelude.Result.{Error, ok, err, key_not_found, unmarshal_failed}
use notevault.Prelude.Int.{pos}
use notevault.Prelude.Assoc.{Assoc, lookup, insert, remove}
use notevault.Kv.Ttl.{ttl_magic, encode_with_ttl, decode_with_ttl}
use notevault.Kv.Ttl.Laws.{is_over, is_over-early, is_over-late}
use notevault.Kv.Memory.{get, set, exists, keys}
use notevault.Kv.Memory.Laws.{get-set, get-set_marked}
use notevault.Sample.Wire.{wires, ttl_json, ttl_json-IsJson}

abbrev second : ℕ
second = 1000000000

abbrev noon : ℕ
noon = 63900000000 * second

abbrev k : Text
k = codes "k"

abbrev v : Text
v = codes "v"

-- `v` under `k` for ten seconds.
abbrev stored : Assoc Text
stored = (set ttl_json noon k v (pos (10 * second)) []).1

runs : Unit {0}
unfolding get set exists keys lookup insert remove encode_with_ttl decode_with_ttl wires same_text
    has_prefix drop_prefix
runs = tt

there : (get ttl_json (noon + 9 * second) k stored).0 ≡ ok v
unfolding runs
there = refl

gone : get ttl_json (noon + 10 * second) k stored ≡ (err (key_not_found k), [])
unfolding runs
gone = refl

listed : (keys ttl_json (λ j. noon) [] stored).0 ≡ ok (k ∷ [])
unfolding runs
listed = refl

set_ok : (set ttl_json noon k v (pos (10 * second)) []).0 ≡ ok tt
unfolding runs
set_ok = refl

get-set_example : (get ttl_json (noon + 9 * second) k stored).0 ≡ (
    if same_text k k
    then (if is_over noon (pos (10 * second)) (noon + 9 * second)
        then err (key_not_found k)
        else ok v)
    else (get ttl_json (noon + 9 * second) k []).0)
get-set_example =
    get-set ttl_json ttl_json-IsJson noon k v (pos (10 * second)) (noon + 9 * second) k [] set_ok
      (inl refl)

is_over-early_example : is_over noon (pos (10 * second)) (noon + 9 * second) ≡ false
is_over-early_example = is_over-early noon (10 * second) (noon + 9 * second) (omega arith)

is_over-late_example : is_over noon (pos (10 * second)) (noon + 10 * second) ≡ true
is_over-late_example =
    is_over-late noon (10 * second) (noon + 10 * second) (omega arith) (omega arith) (omega arith)

empty_unreadable : ttl_json.unmarshal [] ≡ err (Error.external [])
unfolding runs
empty_unreadable = refl

get-set_marked_example :
    (get ttl_json noon k (set ttl_json noon k (ttl_magic ++ []) (pos 0) []).1).0
    ≡ err (unmarshal_failed (Error.external []))
get-set_marked_example =
    get-set_marked ttl_json noon k [] (pos 0) noon [] (Error.external []) refl empty_unreadable
