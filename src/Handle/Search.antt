-- ===== src/Handle/Search.antt =====
-- pkg/internal/handle/files_list.go: `SearchFiles`, which keeps its answers in the key-value store.
pub mod Coherence
use notevault.Prelude.{
  ℕ, ◌+◌, ◌*◌, Bool, not, Option, none, some, [], ◌++◌, Text, codes, is_empty, if◌then◌else◌,
}
use notevault.Prelude.Result.{Error, Result, ok, err}
use notevault.Prelude.Int.{ℤ, pos, nanoseconds}
use notevault.Prelude.Codec.{Codec}
use notevault.Kv.Store.{KvStore}
use notevault.Files.Catalog.{FilesDb}
use notevault.Files.Catalog.Search
use notevault.Files.Catalog.Search.{SearchFilesRequest, SearchFilesResponse, page_number, page_size}
use notevault.Handle.User.{Reply, bad_request, failed, found}

abbrev pub search_cache_ttl : ℤ
search_cache_ttl = pos (60 * nanoseconds)

-- The defaults of the paging.
unfoldable pub with_paging : SearchFilesRequest → SearchFilesRequest
unfolding page_number page_size
with_paging req = record req {
  page = pos (page_number req.page);
  page_size = pos (page_size req.page_size);
}

-- `sha1` is the hash in hexadecimal; a request that cannot be written is left out of it.
unfoldable pub search_cache_key :
    (Text → Text) → Codec SearchFilesRequest → Text → SearchFilesRequest → Text
search_cache_key sha1 req_json user req =
    let body : Text = elim (req_json.marshal req) [ ok b ↦ b | err e ↦ [] ] in
    codes "search:files:" ++ sha1 ((user ++ codes "|/files/search|v1") ++ body)

abbrev pub search_answer : Result SearchFilesResponse → Reply SearchFilesResponse
search_answer (err e) = failed e
search_answer (ok res) = found res

-- What the handler makes of the store's search_answer: `none` is a miss.
abbrev pub cached_response : Codec SearchFilesResponse → Result Text → Option SearchFilesResponse
cached_response json (err e) = none
cached_response json (ok b) =
    if is_empty b then none else elim (json.unmarshal b) [ ok res ↦ some res | err e ↦ none ]

module _ (format : ℕ → Text) (db : FilesDb) (sha1 : Text → Text)
    (req_json : Codec SearchFilesRequest) (json : Codec SearchFilesResponse) (kv : KvStore) where
  -- The write of a new search_answer, whose error is dropped.
  abbrev pub stored : ℕ → Text → Result SearchFilesResponse → kv.State → kv.State
  stored now key (err e) s = s
  stored now key (ok res) s = elim (json.marshal res) [
    | err e ↦ s
    | ok b ↦ (kv.set now key b search_cache_ttl s).1
  ]

  abbrev from_cache :
      ℕ
      → Text
      → Result SearchFilesResponse
      → Option SearchFilesResponse
      → kv.State
      → Reply SearchFilesResponse × kv.State
  from_cache now key outcome (some res) s = (found res, s)
  from_cache now key outcome none s = (search_answer outcome, stored now key outcome s)

  -- `user` is what `checkUser` gives, and `body` what binding the request gives; the clock is read in
  -- the store's `Get` and in its `Set`.
  unfoldable pub search_files :
      (get_now set_now : ℕ) (has_kv : Bool)
      → Option Text
      → Result SearchFilesRequest
      → db.Rows
      → kv.State
      → Reply SearchFilesResponse × kv.State
  unfolding with_paging search_cache_key
  search_files get_now set_now has_kv none body rows s = (bad_request (codes "missing user"), s)
  search_files get_now set_now has_kv (some user) (err e) rows s =
      (bad_request (codes "invalid request body"), s)
  search_files get_now set_now has_kv (some user) (ok req) rows s =
      let q = with_paging req in
      let key = search_cache_key sha1 req_json user q in
      let outcome = Search.search_files format db user (some q) rows in
      if not has_kv
      then (search_answer outcome, s)
      else from_cache set_now key outcome (cached_response json (kv.get get_now key s).0)
          (kv.get get_now key s).1
