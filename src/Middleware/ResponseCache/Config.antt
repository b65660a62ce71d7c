-- ===== src/Middleware/ResponseCache/Config.antt =====
-- The configuration and the stored responses of cache.go.
use notevault.Prelude.{
  ℕ, ◌*◌, ◌^◌, Bool, true, false, ◌||◌, Option, none, List, [], ◌∷◌, map, Text, codes, is_empty,
  ◌==◌, if◌then◌else◌,
}
use notevault.Prelude.{to_upper}
use notevault.Prelude.Int.{ℤ, pos}
use notevault.Middleware.ResponseCache.Http.{Request}

abbrev pub default_max_body_bytes : ℤ
default_max_body_bytes = pos (2 ^ 20)

-- 30 seconds in nanoseconds
abbrev pub default_ttl : ℤ
default_ttl = pos (30 * 1000000000)

-- The functions of the configuration are `none` where they are nil. The cache itself is a parameter of
-- the handler, which panics without one.
pub record CacheConfig : Type 0 where
  pub ttl : ℤ
  pub ttl_func : Option (Request → ℕ → ℤ)
  pub methods : List Text
  pub status_codes : List ℕ
  pub key_func : Option (Request → Text)
  pub skipper : Option (Request → Bool)
  pub vary_headers : List Text
  pub respect_cache_control : Bool
  pub bypass_header : Text
  pub max_body_bytes : ℤ

unfoldable pub default_cache_config : CacheConfig
default_cache_config = record {
  ttl = default_ttl;
  ttl_func = none;
  methods = codes "GET" ∷ codes "HEAD" ∷ [];
  status_codes = 200 ∷ [];
  key_func = none;
  skipper = none;
  vary_headers = [];
  respect_cache_control = true;
  bypass_header = codes "X-Cache-Bypass";
  max_body_bytes = default_max_body_bytes;
}

abbrev or_list : {A : Type 0} → List A → List A → List A
or_list [] other = other
or_list (x ∷ xs) other = x ∷ xs

-- What `CacheMiddleware` fills in at its beginning; the default of the key stands in Key.
unfoldable pub with_defaults : CacheConfig → CacheConfig
with_defaults cfg = record cfg {
  methods = or_list cfg.methods (codes "GET" ∷ codes "HEAD" ∷ []);
  status_codes = or_list cfg.status_codes (200 ∷ []);
  bypass_header = if is_empty cfg.bypass_header then codes "X-Cache-Bypass" else cfg.bypass_header;
}

-- `buildMethodSet` and `buildStatusSet`; a set is the list of its members.
unfoldable pub build_method_set : List Text → List Text
build_method_set methods = map to_upper methods

unfoldable pub in_status_set : ℕ → List ℕ → Bool
in_status_set status [] = false
in_status_set status (s ∷ statuses) = s == status || in_status_set status statuses

-- `stored_at` is in nanoseconds of the Unix time.
pub record ResponseCacheEntry : Type 0 where
  pub status : ℕ
  pub header : List (Text × Text)
  pub body : Text
  pub etag : Text
  pub stored_at : ℤ
