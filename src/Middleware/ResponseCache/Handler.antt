-- ===== src/Middleware/ResponseCache/Handler.antt =====
-- The handler of `CacheMiddleware` in cache.go, one request at a time.
pub mod Serving
pub mod Hits
use notevault.Prelude.{
  ℕ, ◌+◌, ◌-◌, Bool, true, false, not, ◌&&◌, ◌||◌, Option, none, some, List, [], ◌∷◌, ◌++◌, Text,
  codes, is_empty, same_text, if◌then◌else◌,
}
use notevault.Prelude.{to_lower, trim_space, has_text, text_after, contains_text, text_before}
use notevault.Prelude.Result.{Result, ok, err}
use notevault.Prelude.Int.{ℤ, pos, is_positive, unix_nano}
use notevault.Prelude.Assoc.{insert}
use notevault.Prelude.Codec.{Codec}
use notevault.Kv.Store.{KvStore}
use notevault.Cache
use notevault.Cache.{CacheItem}
use notevault.Middleware.ResponseCache.Http.{
  Header, Request, Writer, Action, first_value, header_get, header_set, with_header, with_status,
  write, act_all,
}
use notevault.Middleware.ResponseCache.Config.{
  CacheConfig, with_defaults, build_method_set, in_status_set, ResponseCacheEntry,
}
use notevault.Middleware.ResponseCache.Key.{build_default_key}
use notevault.Middleware.ResponseCache.Capture.{CaptureWriter, capture_all, new_capture}

-- `shouldBypass`
unfoldable pub should_bypass : CacheConfig → List Text → Request → Bool
unfolding has_text
should_bypass cfg method_set req =
    (elim cfg.skipper [ some skip ↦ skip req | none ↦ false ])
    || not (has_text req.method method_set)
    || (not (is_empty cfg.bypass_header) && not (is_empty (req.header cfg.bypass_header)))

-- `cfg.KeyFunc(c)`
unfoldable pub cache_key : (Text → Text) → CacheConfig → Request → Text
unfolding build_default_key
cache_key hash cfg req = elim cfg.key_func [
  | some f ↦ f req
  | none ↦ build_default_key hash req cfg.vary_headers
]

-- The first values of a header map.
abbrev pub first_values : Header → List (Text × Text)
first_values [] = []
first_values ((k, []) ∷ h) = first_values h
first_values ((k, v ∷ vs) ∷ h) = (k, v) ∷ first_values h

-- The call that the goroutine makes after the response: `appcache.Set(ctx, cfg.Cache, k, e, ttl)`.
pub record StoreJob : Type 0 where
  pub key : Text
  pub entry : ResponseCacheEntry
  pub ttl : ℤ

-- What a request leaves: whether the rest of the chain ran, the writer, and the call to come.
pub record Outcome : Type 0 where
  pub ran : Bool
  pub writer : Writer
  pub job : Option StoreJob

-- `parse` is `time.ParseDuration` without its error; `age` renders the time since an instant.
module _ (canonical : Text → Text) (hash : Text → Text) (parse : Text → Option ℤ)
    (age : ℕ → ℤ → Text) where
  -- `for k, v := range entry.Header { h.Set(k, v) }`
  unfoldable pub set_all : List (Text × Text) → Header → Header
  unfolding header_set
  set_all [] h = h
  set_all ((k, v) ∷ kvs) h = set_all kvs (header_set canonical k v h)

  abbrev with_entry_header : ℕ → ResponseCacheEntry → Writer → Writer
  with_entry_header now e w =
      let h = set_all e.header w.header in
      let h = if is_empty e.etag then h else header_set canonical (codes "ETag") e.etag h in
      let h = header_set canonical (codes "Age") (age now e.stored_at) h in
      record w { header = header_set canonical (codes "X-Cache") (codes "HIT") h }

  -- `serveFromCache`, of an entry that the cache has
  unfoldable pub serve_entry : ℕ → Request → ResponseCacheEntry → Writer → Writer
  unfolding set_all header_set write same_text
  serve_entry now req e w =
      let headed = with_entry_header now e w in
      if not (is_empty e.etag) && same_text (req.header (codes "If-None-Match")) e.etag
      then with_status canonical 304 headed
      else if same_text req.method (codes "HEAD")
      then with_status canonical e.status headed
      else write canonical e.body (with_status canonical e.status headed)

  -- The duration behind `max-age=`, if it is positive.
  abbrev max_age : Option Text → ℤ
  max_age none = pos 0
  max_age (some part) = elim (parse (trim_space (text_before part b',') ++ codes "s")) [
    | some d ↦ if is_positive d then d else pos 0
    | none ↦ pos 0
  ]

  -- `parseCacheControlTTL`: `none` forbids to store.
  unfoldable pub parse_cache_control_ttl : Header → Option ℤ
  unfolding header_get text_after text_before trim_space
  parse_cache_control_ttl h =
      let cc = to_lower (header_get canonical h (codes "Cache-Control")) in
      if is_empty cc
      then some (pos 0)
      else if contains_text cc (codes "no-store") || contains_text cc (codes "private")
      then none
      else some (max_age (text_after cc (codes "max-age=")))

  -- The time to live that the configuration and the response give; `none` where nothing is stored.
  unfoldable pub store_ttl : CacheConfig → Request → ℕ → Header → Option ℤ
  unfolding parse_cache_control_ttl
  store_ttl cfg req status h =
      let override =
        (if cfg.respect_cache_control then parse_cache_control_ttl h else some (pos 0)) in
      elim override [
        | none ↦ none
        | some d ↦
            let ttl : ℤ = elim cfg.ttl_func [
              | some f ↦ f req status
              | none ↦ if is_positive d then d else cfg.ttl
            ] in
            if is_positive ttl then some ttl else none
      ]

  abbrev with_etag : Header → Text → Writer → Writer
  with_etag h etag w =
      if is_empty (header_get canonical h (codes "ETag"))
      then with_header canonical (codes "ETag") etag w
      else w

  -- The entry of a response, with the entity tag that it has or that its body gives.
  unfoldable pub new_entry : ℕ → CaptureWriter → ResponseCacheEntry
  unfolding header_get insert
  new_entry now bw =
      let own = header_get canonical bw.writer.header (codes "ETag") in
      let made = b'"' ∷ (hash bw.buf ++ b'"' ∷ []) in
      let headers = first_values bw.writer.header in
      record {
        status = bw.writer.status;
        header = if is_empty own then insert (codes "ETag") made headers else headers;
        body = bw.buf;
        etag = if is_empty own then made else own;
        stored_at = unix_nano now;
      }

  -- `processAndStore`
  unfoldable pub process_and_store :
      ℕ → CacheConfig → Request → Text → CaptureWriter → Writer × Option StoreJob
  unfolding in_status_set store_ttl new_entry header_get header_set
  process_and_store now cfg req key bw =
      let w = bw.writer in
      if not (in_status_set w.status cfg.status_codes) || bw.truncated
      then (w, none)
      else elim (store_ttl cfg req w.status w.header) [
        | none ↦ (w, none)
        | some ttl ↦
            let e = new_entry now bw in
            (
              with_header canonical (codes "X-Cache") (codes "MISS") (with_etag w.header e.etag w),
              some (record { key = key; entry = e; ttl = ttl }),
            )
      ]

  module _ (kv : KvStore) (local : Bool) (item_json : Codec CacheItem)
      (json : Codec ResponseCacheEntry) where
    -- What the calls of `time.Now` return: in the cache's `Get`, while a response is served, and where
    -- one is stored.
    -- `chain` is the rest of the chain: the calls that it makes on its writer.
    abbrev answer :
        ℕ
        → ℕ
        → CacheConfig
        → Request
        → (Request → List Action)
        → Writer
        → Result ResponseCacheEntry
        → Outcome
    answer since stored cfg req chain w (ok e) = record {
      ran = false;
      writer = serve_entry since req e w;
      job = none;
    }
    answer since stored cfg req chain w (err x) =
        let bw = capture_all canonical (chain req) (new_capture cfg.max_body_bytes w) in
        let (w', job) = process_and_store stored cfg req (cache_key hash cfg req) bw in
        record { ran = true; writer = w'; job = job }

    unfoldable pub handle :
        (kv_now now since stored : ℕ)
        → CacheConfig
        → Request
        → (Request → List Action)
        → Writer
        → kv.State
        → Outcome × kv.State
    unfolding with_defaults build_method_set should_bypass cache_key serve_entry process_and_store
        capture_all
    handle kv_now now since stored config req chain w s =
        let cfg = with_defaults config in
        if should_bypass cfg (build_method_set cfg.methods) req
        then (record { ran = true; writer = act_all canonical (chain req) w; job = none }, s)
        else (let (found, s') =
              Cache.get kv local item_json json kv_now now (cache_key hash cfg req) s in
            (answer since stored cfg req chain w found, s'))

    -- The goroutine, which drops the error.
    unfoldable pub run_job : (kv_now now : ℕ) → StoreJob → kv.State → Result (Unit {0}) × kv.State
    run_job kv_now now job s =
        Cache.set kv local item_json json kv_now now job.key job.entry job.ttl s
