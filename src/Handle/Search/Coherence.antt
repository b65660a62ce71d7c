-- ===== src/Handle/Search/Coherence.antt =====
-- When the answers that the handler of searches keeps are right.
use notevault.Prelude.{
  ℕ, ◌≡◌, refl, sym, ap, ◌∙◌, subst, ◌⊎◌, inl, inr, Bool, true, false, Option, none, some, arith,
  Text, same_text,
}
use notevault.Prelude.Result.{Result, ok, err, Result-cases}
use notevault.Prelude.Codec.{Codec, IsJson}
use notevault.Kv.Store.{KvStore, KvLaws, Hit}
use notevault.Files.Catalog.{FilesDb}
use notevault.Files.Catalog.Search
use notevault.Files.Catalog.Search.{SearchFilesRequest, SearchFilesResponse}
use notevault.Handle.Search.{
  search_cache_ttl, with_paging, search_cache_key, search_answer, cached_response, stored,
  from_cache, search_files,
}

module _ (format : ℕ → Text) (db : FilesDb) (sha1 : Text → Text)
    (req_json : Codec SearchFilesRequest) (json : Codec SearchFilesResponse) (kv : KvStore)
    (law : KvLaws kv) (lossless : IsJson json) where
  -- All that the store may return under a key reads as the outcome of a search.
  abbrev pub Agrees : kv.State → Text → Result SearchFilesResponse → Type 0
  Agrees s key outcome =
      (b : Text) (res : SearchFilesResponse)
      → Hit kv s key b
      → cached_response json (ok b) ≡ some res
      → outcome ≡ ok res

  Agrees-get :
      (now : ℕ) (k key : Text) (outcome : Result SearchFilesResponse) (s : kv.State)
      → Agrees s key outcome
      → Agrees (kv.get now k s).1 key outcome
  Agrees-get now k key outcome s agrees b res hit reads =
      agrees b res (law.get_hit now k key b s hit) reads

  written-reads :
      (res r : SearchFilesResponse) (b : Text)
      → json.marshal res ≡ ok b
      → cached_response json (ok b) ≡ some r
      → res ≡ r
  written-reads res r b written reads =
      ground
        (arith, written, reads, lossless.round_trip res b written, lossless.not_empty res b written)

  own-write :
      (k key b c : Text) (res r : SearchFilesResponse) (outcome : Result SearchFilesResponse)
      → json.marshal res ≡ ok b
      → (same_text k key ≡ false) ⊎ (outcome ≡ ok res)
      → same_text k key ≡ true
      → c ≡ b
      → cached_response json (ok c) ≡ some r
      → outcome ≡ ok r
  own-write k key b c res r outcome written (inl other) same bytes reads =
      absurd (ground (arith, other, same))
  own-write k key b c res r outcome written (inr right) same bytes reads =
      right
      ∙ ap ok (
          written-reads res r b written (ap (λ t. cached_response json (ok t)) (sym bytes) ∙ reads))

  -- A write under a key keeps what other keys hold, and is right under its own.
  Agrees-set :
      (now : ℕ) (k key b : Text) (res : SearchFilesResponse) (outcome : Result SearchFilesResponse)
      (s : kv.State)
      → json.marshal res ≡ ok b
      → (same_text k key ≡ false) ⊎ (outcome ≡ ok res)
      → Agrees s key outcome
      → Agrees (kv.set now k b search_cache_ttl s).1 key outcome
  Agrees-set now k key b res outcome s written fits agrees c r hit reads =
      let plain = lossless.not_marked res b written in
      elim (Result-cases (kv.set now k b search_cache_ttl s).0) [
        | inl (u, done) ↦ elim (law.set_hit now k b search_cache_ttl key c s plain done hit) [
          | inr (other, before) ↦ agrees c r before reads
          | inl (same, bytes) ↦ own-write k key b c res r outcome written fits same bytes reads
        ]
        | inr (e, failed) ↦
            elim (law.set_err_hit now k b search_cache_ttl key c s e plain failed hit) [
              | inr before ↦ agrees c r before reads
              | inl (same, bytes) ↦ own-write k key b c res r outcome written fits same bytes reads
            ]
      ]

  Agrees-stored :
      (now : ℕ) (k key : Text) (done outcome : Result SearchFilesResponse) (s : kv.State)
      → (same_text k key ≡ false) ⊎ (outcome ≡ done)
      → Agrees s key outcome
      → Agrees (stored format db sha1 req_json json kv now k done s) key outcome
  Agrees-stored now k key (err e) outcome s fits agrees = agrees
  Agrees-stored now k key (ok res) outcome s fits agrees = elim (Result-cases (json.marshal res)) [
    | inr (e, unwritten) ↦ subst (λ t. Agrees t key outcome) (ground (arith, unwritten)) agrees
    | inl (b, written) ↦
        subst (λ t. Agrees t key outcome) (ground (arith, written))
          (Agrees-set now k key b res outcome s written fits agrees)
  ]

  -- The outcome of a search for a request, as the handler makes it.
  abbrev pub outcome_of : db.Rows → Text → SearchFilesRequest → Result SearchFilesResponse
  outcome_of rows user req = Search.search_files format db user (some (with_paging req)) rows

  abbrev pub key_of : Text → SearchFilesRequest → Text
  key_of user req = search_cache_key sha1 req_json user (with_paging req)

  from_cache-search_answer :
      (now : ℕ) (key : Text) (outcome : Result SearchFilesResponse)
      (hit : Option SearchFilesResponse) (s : kv.State)
      → ((res : SearchFilesResponse) → hit ≡ some res → outcome ≡ ok res)
      → (from_cache format db sha1 req_json json kv now key outcome hit s).0 ≡ search_answer outcome
  from_cache-search_answer now key outcome none s right = refl
  from_cache-search_answer now key outcome (some res) s right =
      ap search_answer (sym (right res refl))

  from_cache-Agrees :
      (now : ℕ) (k key : Text) (done outcome : Result SearchFilesResponse)
      (hit : Option SearchFilesResponse) (s : kv.State)
      → (same_text k key ≡ false) ⊎ (outcome ≡ done)
      → Agrees s key outcome
      → Agrees (from_cache format db sha1 req_json json kv now k done hit s).1 key outcome
  from_cache-Agrees now k key done outcome none s fits agrees =
      Agrees-stored now k key done outcome s fits agrees
  from_cache-Agrees now k key done outcome (some res) s fits agrees = agrees

  found-right :
      (now : ℕ) (key : Text) (outcome : Result SearchFilesResponse) (s : kv.State) (r : Result Text)
      (res : SearchFilesResponse)
      → (kv.get now key s).0 ≡ r
      → Agrees s key outcome
      → cached_response json r ≡ some res
      → outcome ≡ ok res
  found-right now key outcome s (err e) res got agrees reads = absurd (ground (arith, reads))
  found-right now key outcome s (ok b) res got agrees reads = agrees b res (now, got) reads

  -- Over a store that keeps its promises, where all that it may return for the key of a request reads as
  -- the outcome of the search: the handler answers as the search does, whatever fails in the store, and
  -- the same holds afterwards, for this request and for each other whose key is another one.
  pub search_files-Agrees :
      (get_now set_now : ℕ) (has_kv : Bool) (user other_user : Text)
      (req other : SearchFilesRequest) (rows : db.Rows) (s : kv.State)
      → Agrees s (key_of user req) (outcome_of rows user req)
      → Agrees s (key_of other_user other) (outcome_of rows other_user other)
      → same_text (key_of user req) (key_of other_user other) ≡ false
      → ((search_files format db sha1 req_json json kv get_now set_now has_kv
            (some user)
            (ok req)
            rows
            s).0
          ≡ search_answer (outcome_of rows user req))
        × Agrees
            (search_files format db sha1 req_json json kv get_now set_now has_kv
              (some user)
              (ok req)
              rows
              s).1
            (key_of user req)
            (outcome_of rows user req)
        × Agrees
            (search_files format db sha1 req_json json kv get_now set_now has_kv
              (some user)
              (ok req)
              rows
              s).1
            (key_of other_user other)
            (outcome_of rows other_user other)
  unfolding search_files
  search_files-Agrees get_now set_now false user other_user req other rows s agrees agrees' apart =
      (refl, agrees, agrees')
  search_files-Agrees get_now set_now true user other_user req other rows s agrees agrees' apart =
      let key = key_of user req in
      let outcome = outcome_of rows user req in
      let (r, s1) = kv.get get_now key s in
      let hit = cached_response json r in
      (
        from_cache-search_answer set_now key outcome hit s1
            (λ res reads. found-right get_now key outcome s r res refl agrees reads),
        from_cache-Agrees set_now key key outcome outcome hit s1 (inr refl)
            (Agrees-get get_now key key outcome s agrees),
        from_cache-Agrees set_now key (key_of other_user other) outcome
            (outcome_of rows other_user other) hit s1 (inl apart)
            (Agrees-get get_now key (key_of other_user other) _ s agrees'),
      )
