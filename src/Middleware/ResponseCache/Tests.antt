-- ===== src/Middleware/ResponseCache/Tests.antt =====
-- Runs of the response cache over the memory store, and its theorems there.
use notevault.Prelude.{
  ℕ, ◌*◌, ◌≤◌, ◌≡◌, refl, ◌⊎◌, true, false, Option, none, some, List, [], ◌∷◌, ◌++◌, arith, Text,
  codes, same_text, same_text_iff, has_prefix, drop_prefix, length, if◌then◌else◌,
}
use mathlib.Core.List.{Perm}
use mathlib.Core.List.Perm
use notevault.Prelude.{trim_space, text_after, text_before, join_with, sort_texts, has_text}
use notevault.Prelude.Result.{ok}
use notevault.Prelude.Int.{ℤ, pos}
use notevault.Prelude.Assoc
use notevault.Prelude.Assoc.{Assoc, lookup, insert, remove}
use notevault.Kv.Ttl.{encode_with_ttl, decode_with_ttl}
use notevault.Kv.Store.{KvStore}
use notevault.Kv.Memory
use notevault.Kv.Memory.{memory_kv}
use notevault.Kv.Memory.Laws.{memory_kv-KvLaws}
use notevault.Cache
use notevault.Cache.{is_over, expires_at, unwrap, wrap}
use notevault.Middleware.ResponseCache.Http.{
  Request, Action, set_status, write_body, write_string, header_get, header_set, write, act,
  act_all, new_writer,
}
use notevault.Middleware.ResponseCache.Config.{
  default_cache_config, with_defaults, build_method_set, in_status_set,
}
use notevault.Middleware.ResponseCache.Key.{
  query_part, query_text, vary_text, key_text, build_default_key,
}
use notevault.Middleware.ResponseCache.Key.Order.{
  build_default_key_any_order, build_default_key_ignores_path,
}
use notevault.Middleware.ResponseCache.Capture.{
  is_zero, capture_write, capture_act, capture_all, new_capture,
}
use notevault.Middleware.ResponseCache.Capture.Exact.{written_of, writes_string, capture_exact}
use notevault.Middleware.ResponseCache.Handler.{
  should_bypass, cache_key, StoreJob, Outcome, set_all, serve_entry, parse_cache_control_ttl,
  store_ttl, new_entry, process_and_store, handle, run_job,
}
use notevault.Middleware.ResponseCache.Handler.Hits.{Clock, hit_serves_stored}
use notevault.Middleware.ResponseCache.Handler.Serving.{seen, miss_is_transparent}
use notevault.Sample.Wire.{wires, ttl_json, ttl_json-IsJson}
use notevault.Sample.Items.{item_json, item_json-IsJson, put_item, get_item}
use notevault.Sample.Entries.{entry_json, entry_json-IsJson, put_entry, get_entry}

abbrev same : Text → Text
same t = t

abbrev no_duration : Text → Option ℤ
no_duration t = none

abbrev no_age : ℕ → ℤ → Text
no_age now stored = []

abbrev store : KvStore
store = memory_kv ttl_json

abbrev noon : ℕ
noon = 63900000000 * 1000000000

abbrev clock : Clock
clock = record { kv_now = noon; now = noon; since = noon; stored = noon }

abbrev from : Text → Text → Request
from path user = record {
  method = codes "GET";
  full_path = codes "/shares/:id";
  url_path = path;
  query = [];
  header = λ h. if same_text h (codes "X-User") then user else [];
}

abbrev ann : Request
ann = from (codes "/shares/1") (codes "ann")

abbrev bob : Request
bob = from (codes "/shares/2") (codes "bob")

-- The chain answers with the path.
abbrev chain : Request → List Action
chain req = set_status 200 ∷ write_body req.url_path ∷ []

abbrev run : Request → Assoc Text → Outcome × Assoc Text
run req s =
    handle same same no_duration no_age store true item_json entry_json noon noon noon noon
      default_cache_config req chain new_writer s

-- To name on the `unfolding` line of a run.
runs : Unit {0}
unfolding handle run_job default_cache_config with_defaults build_method_set in_status_set
    should_bypass cache_key query_part query_text vary_text key_text build_default_key serve_entry
    set_all parse_cache_control_ttl store_ttl new_entry process_and_store capture_write capture_act
    capture_all header_get header_set write act act_all written_of trim_space text_after text_before
    join_with sort_texts has_text same_text has_prefix drop_prefix lookup insert remove Assoc.keys
    encode_with_ttl decode_with_ttl wires put_item get_item put_entry get_entry Memory.get
    Memory.set Cache.get Cache.set is_over expires_at unwrap wrap
runs = tt

abbrev job_or : StoreJob → Option StoreJob → StoreJob
job_or other none = other
job_or other (some j) = j

abbrev no_job : StoreJob
no_job = record {
  key = [];
  entry = record { status = 0; header = []; body = []; etag = []; stored_at = pos 0 };
  ttl = pos 0;
}

-- What ann's request leaves to store.
job : StoreJob
unfolding runs
job = job_or no_job (run ann []).0.job

leaves_job : (run ann []).0.job ≡ some job
unfolding runs job
leaves_job = refl

stores_job :
    (run_job same same no_duration no_age store true item_json entry_json noon noon job []).0
    ≡ ok tt
unfolding runs job
stores_job = refl

abbrev stored : Assoc Text
stored = (run_job same same no_duration no_age store true item_json entry_json noon noon job []).1

same_key : cache_key same (with_defaults default_cache_config) bob ≡ job.key
unfolding runs job
same_key = refl

is_hit : (run bob stored).0.ran ≡ false
unfolding runs job
is_hit = refl

-- bob asks for another share and gets what ann got.
gets_another_share : (run bob stored).0.writer.body ≡ codes "/shares/1"
unfolding runs job
gets_another_share = refl

not_marked : (run ann []).0.writer.sent ≡ some []
unfolding runs
not_marked = refl

hit_serves_stored_example :
    (let out = (run bob stored).0.writer in
      (((bob.header (codes "If-None-Match") ≡ job.entry.etag)
          × (out.status ≡ 304)
          × (out.body ≡ []))
        ⊎ ((out.status ≡ (act_all same (chain ann) new_writer).status)
            × (out.body ≡ (
                if same_text (codes "GET") (codes "HEAD")
                then []
                else [] ++ written_of (chain ann)))))
      × ((writes_string (chain ann) ≡ true)
          ⊎ ((act_all same (chain ann) new_writer).body ≡ [] ++ written_of (chain ann))))
hit_serves_stored_example =
    hit_serves_stored same same no_duration no_age store (memory_kv-KvLaws ttl_json ttl_json-IsJson)
      true item_json item_json-IsJson entry_json entry_json-IsJson clock clock noon noon
      default_cache_config ann bob chain chain new_writer new_writer [] [] job leaves_job stores_job
      same_key is_hit refl

abbrev long : List Action
long = write_body (codes "abc") ∷ write_body (codes "def") ∷ []

cuts : (capture_all same long (new_capture (pos 4) new_writer)).buf ≡ codes "abcd"
unfolding runs
cuts = refl

-- A status after the body is ignored.
keeps_sent_status :
    (act_all same (write_body (codes "abc") ∷ set_status 500 ∷ []) new_writer).status ≡ 200
unfolding runs
keeps_sent_status = refl

-- What `WriteString` sends is not captured.
misses_strings :
    (let c = capture_all same (write_string (codes "abc") ∷ []) (new_capture (pos 4) new_writer) in
      (c.buf ≡ []) × (c.truncated ≡ false) × (c.writer.body ≡ codes "abc"))
unfolding runs
misses_strings = (refl, refl, refl)

capture_exact_example :
    (let c = capture_all same long (new_capture (pos 4) new_writer) in
      (c.writer ≡ act_all same long new_writer)
      × ((c.buf ≡ written_of long) ⊎ ((c.truncated ≡ true) × (4 ≤ length (written_of long))))
      × ((is_zero (pos 4) ≡ true) ⊎ (length c.buf ≤ 4))
      × ((writes_string long ≡ true) ⊎ (c.writer.body ≡ [] ++ written_of long)))
capture_exact_example = capture_exact same (pos 4) long new_writer

abbrev query : Text → Text → Assoc (List Text)
query k j = (k, codes "1" ∷ []) ∷ (j, codes "1" ∷ []) ∷ []

abbrev k : Text
k = codes "k"

abbrev j : Text
j = codes "j"

swapped : (i : Text) → lookup i (query k j) ≡ lookup i (query j k)
unfolding lookup same_text
swapped i = ground (arith, same_text_iff k i, same_text_iff j i)

swap_names : Perm (Assoc.keys (query k j)) (Assoc.keys (query j k))
unfolding Assoc.keys
swap_names = Perm.swap j k []

same_key_swapped :
    build_default_key same (record ann { query = query k j }) []
    ≡ build_default_key same (record ann { query = query j k }) []
same_key_swapped =
    build_default_key_any_order same [] (record ann { query = query k j }) (query j k) swap_names
      swapped

build_default_key_ignores_path_example :
    build_default_key same ann [] ≡ build_default_key same bob []
build_default_key_ignores_path_example =
    build_default_key_ignores_path same ann (codes "/shares/2") bob.header refl

miss_is_transparent_example :
    ((run ann []).0.ran ≡ false)
    ⊎ (seen (run ann []).0.writer ≡ seen (act_all same (chain ann) new_writer))
miss_is_transparent_example =
    miss_is_transparent same same no_duration no_age store true item_json entry_json noon noon noon
      noon default_cache_config ann chain new_writer []
