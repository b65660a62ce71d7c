-- ===== src/Middleware/ResponseCache/Handler/Hits.antt =====
-- The response cache of cache.go answers with what it stored.
use notevault.Prelude.{
  ℕ, ◌≡◌, sym, ap, ◌∙◌, ◌⊎◌, inl, inr, Bool, true, false, Bool-cases, Option, none, some, List,
  ◌++◌, Text, codes, same_text, if◌then◌else◌,
}
use notevault.Prelude.Result.{ok}
use notevault.Prelude.Int.{ℤ}
use notevault.Prelude.Codec.{Codec, IsJson}
use notevault.Kv.Store.{KvStore, KvLaws}
use notevault.Cache
use notevault.Cache.{CacheItem}
use notevault.Cache.Coherence.{get-set_value}
use notevault.Middleware.ResponseCache.Http.{Request, Writer, Action, act_all}
use notevault.Middleware.ResponseCache.Config.{CacheConfig, with_defaults, ResponseCacheEntry}
use notevault.Middleware.ResponseCache.Capture.Exact.{written_of, writes_string, act_all-body}
use notevault.Middleware.ResponseCache.Handler.{cache_key, StoreJob, Outcome, handle, run_job}
use notevault.Middleware.ResponseCache.Handler.Serving.{serve_entry_lem, handle-hit, handle-job}

-- The readings of the clock while a request is handled.
pub record Clock : Type 0 where
  pub kv_now : ℕ
  pub now : ℕ
  pub since : ℕ
  pub stored : ℕ

module _ (canonical : Text → Text) (hash : Text → Text) (parse : Text → Option ℤ)
    (age : ℕ → ℤ → Text) (kv : KvStore) (law : KvLaws kv) (local : Bool)
    (item_json : Codec CacheItem) (item_law : IsJson item_json) (json : Codec ResponseCacheEntry)
    (json_law : IsJson json) where
  abbrev respond :
      Clock
      → CacheConfig
      → Request
      → (Request → List Action)
      → Writer
      → kv.State
      → Outcome × kv.State
  respond c cfg req chain w s =
      handle canonical hash parse age kv local item_json json c.kv_now c.now c.since c.stored cfg
        req chain w s

  -- Over a store that keeps its promises: after a response was stored, a request with the same key that
  -- is answered from the cache, on a writer that has sent nothing, gets the status of that response and,
  -- unless it is a HEAD, all bytes that the chain wrote for it with `Write`; or 304 and no body, if it
  -- names the tag that was stored. Where that chain did not call `WriteString`, those bytes are the
  -- whole body of the response. The rest of the chain may be another one by then.
  pub hit_serves_stored :
      (c c' : Clock) (at at' : ℕ) (cfg : CacheConfig) (req req' : Request)
      (chain chain' : Request → List Action) (w w' : Writer) (s t : kv.State) (j : StoreJob)
      → (respond c cfg req chain w s).0.job ≡ some j
      → (run_job canonical hash parse age kv local item_json json at at' j t).0 ≡ ok tt
      → cache_key hash (with_defaults cfg) req' ≡ j.key
      → (respond c' cfg req' chain' w'
          (run_job canonical hash parse age kv local item_json json at at' j t).1).0.ran
        ≡ false
      → w'.sent ≡ none
      → (let out =
            (respond c' cfg req' chain' w'
              (run_job canonical hash parse age kv local item_json json at at' j t).1).0.writer in
          (((req'.header (codes "If-None-Match") ≡ j.entry.etag)
              × (out.status ≡ 304)
              × (out.body ≡ w'.body))
            ⊎ ((out.status ≡ (act_all canonical (chain req) w).status)
                × (out.body ≡ (
                    if same_text req'.method (codes "HEAD")
                    then w'.body
                    else w'.body ++ written_of (chain req)))))
          × ((writes_string (chain req) ≡ true)
              ⊎ ((act_all canonical (chain req) w).body ≡ w.body ++ written_of (chain req))))
  unfolding run_job
  hit_serves_stored c c' at at' cfg req req' chain chain' w w' s t j job done key hit fresh =
      let (made, status, body, kept) =
        handle-job canonical hash parse age kv local item_json json c.kv_now c.now c.since c.stored
          cfg req chain w s j job in
      let after = (run_job canonical hash parse age kv local item_json json at at' j t).1 in
      let (e, found, served) =
        handle-hit canonical hash parse age kv local item_json json c'.kv_now c'.now c'.since
          c'.stored cfg req' chain' w' after hit in
      let same =
        (get-set_value kv law local item_json item_law json json_law at at' c'.kv_now c'.now j.key
          j.entry e j.ttl t done
          (ap (λ k. (Cache.get kv local item_json json c'.kv_now c'.now k after).0) (sym key)
            ∙ found)).0 in
      (
        elim (serve_entry_lem canonical hash parse age c'.since req' e w' fresh) [
          | inl (tag, not_modified, unchanged) ↦ inl (
            tag ∙ ap (λ (x : ResponseCacheEntry). x.etag) same,
            ap (λ (v : Writer). v.status) served ∙ not_modified,
            ap (λ (v : Writer). v.body) served ∙ unchanged,
          )
          | inr (stat, bod) ↦ inr (
            ap (λ (v : Writer). v.status) served
                ∙ stat
                ∙ ap (λ (x : ResponseCacheEntry). x.status) same
                ∙ status,
            ap (λ (v : Writer). v.body) served
                ∙ bod
                ∙ ap (λ t. if same_text req'.method (codes "HEAD") then w'.body else w'.body ++ t)
                    (ap (λ (x : ResponseCacheEntry). x.body) same ∙ body),
          )
        ],
        elim (Bool-cases (writes_string (chain req))) [
          | inl strings ↦ inl strings
          | inr plain ↦ inr (act_all-body canonical (chain req) w plain)
        ],
      )
