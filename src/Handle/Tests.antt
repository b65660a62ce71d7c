-- ===== src/Handle/Tests.antt =====
-- Runs of the handlers over small stores, and their theorem at concrete values.
use notevault.Prelude.{
  ℕ, ◌≡◌, refl, inl, inr, Bool, true, false, ◌||◌, Option, none, some, List, [], ◌∷◌, arith, Text,
  codes, same_text, ◌==◌, if◌then◌else◌,
}
use notevault.Prelude.{trim_space}
use notevault.Prelude.Assoc.{Assoc, lookup}
use notevault.Prelude.Result.{Result, ok}
use notevault.Prelude.Int.{ℤ, pos}
use notevault.Prelude.Codec.{Codec}
use notevault.Kv.Memory
use notevault.Kv.Memory.{memory_kv}
use notevault.Kv.Memory.Laws.{memory_kv-KvLaws}
use notevault.Kv.Store.{KvStore}
use notevault.Files.Catalog.{FileRow}
use notevault.Files.Catalog.Search.{SearchFilesRequest, SearchFilesResponse}
use notevault.Handle.User.{Reply, check_user}
use notevault.Handle.Search.{with_paging, search_cache_key, search_answer, search_files}
use notevault.Handle.Search.Coherence.{Agrees, key_of, outcome_of, search_files-Agrees}
use notevault.Handle.Month.{parse_year_month}
use notevault.Sample.Files.{list_files_db}
use notevault.Sample.Searches.{response_json, response_json-IsJson}
use notevault.Sample.Wire.{ttl_json, ttl_json-IsJson}

abbrev ann : Text
ann = codes "ann@x"

-- Texts with an `@` somewhere.
abbrev is_email : Text → Bool
is_email [] = false
is_email (c ∷ s) = c == b'@' || is_email s

runs : Unit {0}
unfolding check_user trim_space parse_year_month same_text
runs = tt

names_the_caller :
    (check_user true is_email (record { header = codes " ann@x "; query = codes "bob@x" })
      ≡ some ann)
    × ((check_user true is_email (record { header = []; query = codes "ann@x" }) ≡ some ann)
        × ((check_user true is_email (record { header = []; query = [] }) ≡ none)
            × (check_user false is_email (record { header = []; query = [] })
                ≡ some (codes "test-user@example.com"))))
unfolding runs
names_the_caller = (refl, (refl, (refl, refl)))

abbrev date : ℕ → ℕ × ℕ × ℕ
date t = (2025, 9, 1)

-- The texts that a test names.
abbrev atoi : Text → Option ℤ
atoi text = if same_text text (codes "13") then some (pos 13) else none

reads_the_month :
    (parse_year_month atoi date [] [] 0 ≡ inl (2025, 9))
    × ((parse_year_month atoi date [] (codes "13") 0 ≡ inr (codes "invalid month"))
        × (parse_year_month atoi date (codes "x") [] 0 ≡ inr (codes "invalid year")))
unfolding runs
reads_the_month = (refl, (refl, refl))

abbrev kv : KvStore
kv = memory_kv ttl_json

abbrev ask : Text → SearchFilesRequest
ask category = record {
  keyword = [];
  prefix = [];
  category = category;
  content_type = [];
  min_size = pos 0;
  max_size = pos 0;
  start = none;
  end = none;
  page = pos 0;
  page_size = pos 0;
  sort_by = [];
  sort_order = [];
}

-- A codec that shows the category alone, and a hash that shows all.
abbrev category_json : Codec SearchFilesRequest
category_json = record { marshal = λ req. ok req.category; unmarshal = λ b. ok (ask b) }

abbrev hash : Text → Text
hash text = text

abbrev format : ℕ → Text
format t = []

abbrev work : SearchFilesRequest
work = ask (codes "work")

abbrev rows : List FileRow
rows =
    record {
      user = ann;
      object_key = codes "ann@x/a";
      file_name = codes "a";
      size = 1;
      etag = [];
      content_type = [];
      category = codes "work";
      description = [];
      tags_json = [];
      bucket = [];
      version_id = [];
      storage_class = [];
      last_modified = 0;
      updated_at = 0;
    }
    ∷ []

abbrev MemoryAgrees : Assoc Text → Text → Result SearchFilesResponse → Type 0
MemoryAgrees =
    Agrees format list_files_db hash category_json response_json kv
      (memory_kv-KvLaws ttl_json ttl_json-IsJson) response_json-IsJson

nothing_hits : (key : Text) (outcome : Result SearchFilesResponse) → MemoryAgrees [] key outcome
unfolding Memory.get lookup
nothing_hits key outcome b res (now, hit) reads = absurd (ground (arith, hit))

abbrev key : SearchFilesRequest → Text
key =
    key_of format list_files_db hash category_json response_json kv
      (memory_kv-KvLaws ttl_json ttl_json-IsJson) response_json-IsJson ann

abbrev outcome : SearchFilesRequest → Result SearchFilesResponse
outcome =
    outcome_of format list_files_db hash category_json response_json kv
      (memory_kv-KvLaws ttl_json ttl_json-IsJson) response_json-IsJson rows ann

apart : same_text (key work) (key (ask [])) ≡ false
unfolding search_cache_key with_paging same_text
apart = refl

abbrev handled : Reply SearchFilesResponse × Assoc Text
handled =
    search_files format list_files_db hash category_json response_json kv 0 0 true (some ann)
      (ok work) rows []

search_files-Agrees_example :
    (handled.0 ≡ search_answer (outcome work))
    × MemoryAgrees handled.1 (key work) (outcome work)
    × MemoryAgrees handled.1 (key (ask [])) (outcome (ask []))
search_files-Agrees_example =
    search_files-Agrees format list_files_db hash category_json response_json kv
      (memory_kv-KvLaws ttl_json ttl_json-IsJson) response_json-IsJson 0 0 true ann ann work
      (ask []) rows [] (nothing_hits (key work) (outcome work))
      (nothing_hits (key (ask [])) (outcome (ask []))) apart
