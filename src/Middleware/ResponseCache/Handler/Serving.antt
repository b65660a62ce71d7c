-- ===== src/Middleware/ResponseCache/Handler/Serving.antt =====
-- The steps of the handler of cache.go: what is stored, and what a stored entry gives.
use notevault.Prelude.{
  ℕ, ◌≡◌, refl, sym, ap, ◌∙◌, ◌⊎◌, inl, inr, Bool, true, false, not, ◌||◌, Option, none, some, List,
  ◌++◌, arith, Text, codes, is_empty, same_text, same_text_iff, if◌then◌else◌, Bool-cases,
  Option-cases,
}
use notevault.Prelude.Result.{ok, Result-cases}
use notevault.Prelude.Int.{ℤ}
use notevault.Prelude.Codec.{Codec}
use notevault.Kv.Store.{KvStore}
use notevault.Cache
use notevault.Cache.{CacheItem}
use notevault.Middleware.ResponseCache.Http.{Header, Request, Writer, Action, act_all, write}
use notevault.Middleware.ResponseCache.Config.{
  CacheConfig, with_defaults, build_method_set, in_status_set, ResponseCacheEntry,
}
use notevault.Middleware.ResponseCache.Capture.{CaptureWriter, capture_all, new_capture}
use notevault.Middleware.ResponseCache.Capture.Exact.{written_of, capture_exact}
use notevault.Middleware.ResponseCache.Handler.{
  should_bypass, cache_key, StoreJob, serve_entry, store_ttl, new_entry, process_and_store, handle,
}

module _ (canonical : Text → Text) (hash : Text → Text) (parse : Text → Option ℤ)
    (age : ℕ → ℤ → Text) where
  -- A response is stored only if it was captured whole.
  process_and_store-job :
      (now : ℕ) (cfg : CacheConfig) (req : Request) (key : Text) (bw : CaptureWriter) (j : StoreJob)
      → (process_and_store canonical hash parse age now cfg req key bw).1 ≡ some j
      → (bw.truncated ≡ false)
        × (j.key ≡ key)
        × (j.entry ≡ new_entry canonical hash parse age now bw)
        × (in_status_set bw.writer.status cfg.status_codes ≡ true)
  unfolding process_and_store
  process_and_store-job now cfg req key bw j stored =
      elim (Option-cases
        (store_ttl canonical hash parse age cfg req bw.writer.status bw.writer.header)) [
          | inl forbidden ↦ absurd (ground arith)
          | inr (ttl, allowed) ↦
              elim (Bool-cases
                (not (in_status_set bw.writer.status cfg.status_codes) || bw.truncated)) [
                  | inl refused ↦ absurd (ground arith)
                  | inr kept ↦
                      let made : StoreJob = record {
                        key = key;
                        entry = new_entry canonical hash parse age now bw;
                        ttl = ttl;
                      } in
                      let same : made ≡ j = ground arith in
                      (
                        ground arith,
                        sym (ap (λ (k : StoreJob). k.key) same),
                        sym (ap (λ (k : StoreJob). k.entry) same),
                        ground arith,
                      )
                ]
        ]

  new_entry-fields :
      (now : ℕ) (bw : CaptureWriter)
      → ((new_entry canonical hash parse age now bw).status ≡ bw.writer.status)
        × ((new_entry canonical hash parse age now bw).body ≡ bw.buf)
  unfolding new_entry
  new_entry-fields now bw = (refl, refl)

  -- Before anything was sent, a stored entry is served with its status, and with its body unless the request is a HEAD; or, where
  -- the client names its tag, with 304 and no body.
  pub serve_entry_lem :
      (now : ℕ) (req : Request) (e : ResponseCacheEntry) (w : Writer)
      → w.sent ≡ none
      → (let out = serve_entry canonical hash parse age now req e w in
          ((req.header (codes "If-None-Match") ≡ e.etag) × (out.status ≡ 304) × (out.body ≡ w.body))
          ⊎ ((out.status ≡ e.status)
              × (out.body
                  ≡ (if same_text req.method (codes "HEAD") then w.body else w.body ++ e.body))))
  unfolding serve_entry write
  serve_entry_lem now req e w fresh = elim (Bool-cases (is_empty e.etag)) [
    | inl untagged ↦ inr (ground arith, ground arith)
    | inr tagged ↦ elim (Bool-cases (same_text (req.header (codes "If-None-Match")) e.etag)) [
      | inl known ↦ inl ((same_text_iff _ _).0 known, ground arith, ground arith)
      | inr unknown ↦ inr (ground arith, ground arith)
    ]
  ]

  module _ (kv : KvStore) (local : Bool) (item_json : Codec CacheItem)
      (json : Codec ResponseCacheEntry) where
    -- A request that is answered from the cache.
    pub handle-hit :
        (kv_now now since stored : ℕ) (cfg : CacheConfig) (req : Request)
        (chain : Request → List Action) (w : Writer) (s : kv.State)
        → (handle canonical hash parse age kv local item_json json kv_now now since stored cfg req
            chain w s).0.ran
          ≡ false
        → (e : ResponseCacheEntry) × ((Cache.get kv local item_json json kv_now now
              (cache_key hash (with_defaults cfg) req)
              s).0
            ≡ ok e)
          × ((handle canonical hash parse age kv local item_json json kv_now now since stored cfg
                req chain w s).0.writer
              ≡ serve_entry canonical hash parse age since req e w)
    unfolding handle
    handle-hit kv_now now since stored config req chain w s hit =
        let cfg = with_defaults config in
        elim (Bool-cases (should_bypass cfg (build_method_set cfg.methods) req)) [
          | inl bypassed ↦ absurd (ground arith)
          | inr tried ↦
              elim (Result-cases
                (Cache.get kv local item_json json kv_now now (cache_key hash cfg req) s).0) [
                  | inl (e, found) ↦ (e, found, ground arith)
                  | inr (x, missed) ↦ absurd (ground arith)
                ]
        ]

    -- A request that leaves a response to store.
    pub handle-job :
        (kv_now now since stored : ℕ) (cfg : CacheConfig) (req : Request)
        (chain : Request → List Action) (w : Writer) (s : kv.State) (j : StoreJob)
        → (handle canonical hash parse age kv local item_json json kv_now now since stored cfg req
            chain w s).0.job
          ≡ some j
        → (j.key ≡ cache_key hash (with_defaults cfg) req)
          × (j.entry.status ≡ (act_all canonical (chain req) w).status)
          × (j.entry.body ≡ written_of (chain req))
          × (in_status_set j.entry.status (with_defaults cfg).status_codes ≡ true)
    unfolding handle
    handle-job kv_now now since stored config req chain w s j job =
        let cfg = with_defaults config in
        let bw = capture_all canonical (chain req) (new_capture cfg.max_body_bytes w) in
        elim (Bool-cases (should_bypass cfg (build_method_set cfg.methods) req)) [
          | inl bypassed ↦ absurd (ground arith)
          | inr tried ↦
              elim (Result-cases
                (Cache.get kv local item_json json kv_now now (cache_key hash cfg req) s).0) [
                  | inl (e, found) ↦ absurd (ground arith)
                  | inr (x, missed) ↦
                      let (whole, key, entry, kept) =
                        process_and_store-job stored cfg req (cache_key hash cfg req) bw j
                          (ground arith) in
                      let (same, complete, bounded, plain) =
                        capture_exact canonical cfg.max_body_bytes (chain req) w in
                      let status =
                        ap (λ (e : ResponseCacheEntry). e.status) entry
                        ∙ (new_entry-fields stored bw).0 in
                      (
                        key,
                        status ∙ ap (λ (v : Writer). v.status) same,
                        ap (λ (e : ResponseCacheEntry). e.body) entry
                            ∙ (new_entry-fields stored bw).1
                            ∙ (elim complete [
                              | inl all ↦ all
                              | inr (cut, long) ↦ absurd (cc (whole, cut))
                            ]),
                        ap (λ n. in_status_set n cfg.status_codes) status ∙ kept,
                      )
                ]
        ]

-- What a client gets of a writer: the status, the header as the first write sent it, and the body.
abbrev pub seen : Writer → ℕ × Option Header × Text
seen w = (w.status, w.sent, w.body)

module _ (canonical : Text → Text) (hash : Text → Text) (parse : Text → Option ℤ)
    (age : ℕ → ℤ → Text) where
  process_and_store-seen :
      (now : ℕ) (cfg : CacheConfig) (req : Request) (key : Text) (bw : CaptureWriter)
      → seen (process_and_store canonical hash parse age now cfg req key bw).0 ≡ seen bw.writer
  unfolding process_and_store
  process_and_store-seen now cfg req key bw =
      elim (Bool-cases (not (in_status_set bw.writer.status cfg.status_codes) || bw.truncated)) [
        | inl refused ↦ ground arith
        | inr kept ↦ ground arith
      ]

  -- A request that the cache does not answer reaches the rest of the chain, and its client gets what the
  -- chain gives without the cache: the same status, the same header from the first write on, the same
  -- body. So the marks that the cache sets after a response with a body, `X-Cache: MISS` and the tag,
  -- are not sent.
  pub miss_is_transparent :
      (kv : KvStore) (local : Bool) (item_json : Codec CacheItem) (json : Codec ResponseCacheEntry)
      (kv_now now since stored : ℕ) (cfg : CacheConfig) (req : Request)
      (chain : Request → List Action) (w : Writer) (s : kv.State)
      → (let out =
            (handle canonical hash parse age kv local item_json json kv_now now since stored cfg req
              chain w s).0 in
          (out.ran ≡ false) ⊎ (seen out.writer ≡ seen (act_all canonical (chain req) w)))
  unfolding handle
  miss_is_transparent kv local item_json json kv_now now since stored config req chain w s =
      let cfg = with_defaults config in
      let bw = capture_all canonical (chain req) (new_capture cfg.max_body_bytes w) in
      elim (Bool-cases (should_bypass cfg (build_method_set cfg.methods) req)) [
        | inl bypassed ↦ inr (ground arith)
        | inr tried ↦
            elim (Result-cases
              (Cache.get kv local item_json json kv_now now (cache_key hash cfg req) s).0) [
                | inl (e, found) ↦ inl (ground arith)
                | inr (x, missed) ↦
                    let same = process_and_store-seen stored cfg req (cache_key hash cfg req) bw in
                    let plain =
                      ap seen (capture_exact canonical cfg.max_body_bytes (chain req) w).0 in
                    inr (ground (arith, same ∙ plain))
              ]
      ]
