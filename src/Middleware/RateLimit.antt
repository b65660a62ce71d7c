-- ===== src/Middleware/RateLimit.antt =====
-- pkg/middleware/rate_limit.go, one request, or one tick of the cleaning goroutine, at a time. The limiter of golang.org/x/time/rate is a
-- parameter, as is net.SplitHostPort; `rps` tells whether the configured rate is positive.
pub mod Isolation
mod Tests
use notevault.Prelude.{
  ℕ, Bool, true, not, ◌||◌, Option, none, some, Text, codes, is_empty, same_text, has_prefix,
  trim_prefix, [], length, ltb, if◌then◌else◌,
}
use notevault.Prelude.{trim_space, to_lower}
use notevault.Prelude.Assoc.{Assoc, lookup, insert}

pub record RateLimitConfig : Type 0 where
  pub enabled : Bool
  pub rps : Bool
  pub key : Text

-- `rate.NewLimiter(rate.Limit(cfg.RPS), cfg.Burst)`, and `Allow` at a time.
pub record RateLimiter : Type 1 where
  pub Limiter : Type 0
  pub new_limiter : Limiter
  pub allow : ℕ → Limiter → Bool × Limiter

-- What the middleware reads of a request.
pub record Request : Type 0 where
  pub header : Text → Text
  pub client_ip : Text
  pub remote_addr : Text

-- The variables that the handler closes over.
pub record Limits (lim : RateLimiter) : Type 0 where
  pub limiter : lim.Limiter
  pub limiters : Assoc lim.Limiter

unfoldable pub key_mode : RateLimitConfig → Text
unfolding trim_space
key_mode cfg = to_lower (trim_space cfg.key)

unfoldable pub is_global : RateLimitConfig → Bool
unfolding key_mode same_text
is_global cfg = same_text (key_mode cfg) (codes "global") || is_empty (key_mode cfg)

abbrev pub max_limiter_entries : ℕ
max_limiter_entries = 10000

module _ (split_host_port : Text → Option Text) where
  unfoldable pub client_ip : Request → Text
  client_ip req =
      if is_empty req.client_ip
      then (elim (split_host_port req.remote_addr) [ some host ↦ host | none ↦ req.remote_addr ])
      else req.client_ip

  -- `key == ""`, and what stands in for it
  abbrev or_else : Text → Text → Text
  or_else key other = if is_empty key then other else key

  unfoldable pub limit_key : RateLimitConfig → Request → Text
  unfolding key_mode client_ip has_prefix trim_prefix
  limit_key cfg req =
      or_else
        (if has_prefix (key_mode cfg) (codes "header:")
          then or_else (req.header (trim_prefix (key_mode cfg) (codes "header:"))) (client_ip req)
          else client_ip req)
        (codes "unknown")

  module _ (lim : RateLimiter) where
    -- `getLimiter`
    unfoldable pub get_limiter : Text → Assoc lim.Limiter → lim.Limiter
    unfolding lookup
    get_limiter key limiters = elim (lookup key limiters) [ some l ↦ l | none ↦ lim.new_limiter ]

    -- A round of the cleaning goroutine, at a tick of its ticker.
    unfoldable pub sweep : Limits lim → Limits lim
    sweep st =
        if ltb max_limiter_entries (length st.limiters) then record st { limiters = [] } else st

    -- The handler: whether the request goes on, and the variables after it.
    unfoldable pub handle : RateLimitConfig → ℕ → Request → Limits lim → Bool × Limits lim
    unfolding is_global limit_key get_limiter insert
    handle cfg now req st =
        if not cfg.enabled || not cfg.rps
        then (true, st)
        else if is_global cfg
        then (let (goes_on, l) = lim.allow now st.limiter in (goes_on, record st { limiter = l }))
        else (let key = limit_key cfg req in
            let (goes_on, l) = lim.allow now (get_limiter key st.limiters) in
            (goes_on, record st { limiters = insert key l st.limiters }))
