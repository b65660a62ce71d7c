-- ===== src/Middleware/RateLimit/Tests.antt =====
-- Runs of the rate limit with a limiter that lets two requests pass, and its theorem there.
use notevault.Prelude.{
  ℕ, ◌-◌, ◌≡◌, refl, true, false, Option, none, List, [], ◌∷◌, Text, codes, same_text, has_prefix,
  drop_prefix, trim_prefix, ltb,
}
use notevault.Prelude.{trim_space}
use notevault.Prelude.Assoc.{lookup, insert, keys}
use notevault.Middleware.RateLimit.{
  RateLimitConfig, RateLimiter, Request, Limits, key_mode, is_global, client_ip, limit_key,
  get_limiter, sweep, handle,
}
use notevault.Middleware.RateLimit.Isolation.{
  Step, request, tick, answers, answers_alone, answers-answers_alone,
}

abbrev two_pass : RateLimiter
two_pass = record { Limiter = ℕ; new_limiter = 2; allow = λ now n. (ltb 0 n, n - 1) }

abbrev by_user : RateLimitConfig
by_user = record { enabled = true; rps = true; key = codes " Header:X-User" }

abbrev no_port : Text → Option Text
no_port t = none

abbrev asks : Text → Request
asks user = record { header = λ h. user; client_ip = codes "10.0.0.1"; remote_addr = [] }

abbrev from : Text → Step
from user = request 0 (asks user)

abbrev ann : Text
ann = codes "ann"

abbrev bob : Text
bob = codes "bob"

abbrev start : Limits two_pass
start = record { limiter = 2; limiters = [] }

abbrev steps : List Step
steps = from ann ∷ from bob ∷ from ann ∷ tick ∷ from ann ∷ from bob ∷ []

-- To name on the `unfolding` line of a run.
runs : Unit {0}
unfolding key_mode is_global client_ip limit_key get_limiter handle trim_space same_text has_prefix
    drop_prefix trim_prefix lookup insert
runs = tt

reads_header : limit_key no_port by_user (asks ann) ≡ ann
unfolding runs
reads_header = refl

not_global : is_global by_user ≡ false
unfolding runs
not_global = refl

third_is_refused : answers no_port two_pass by_user ann steps start ≡ true ∷ true ∷ false ∷ []
unfolding runs answers sweep
third_is_refused = refl

answers-answers_alone_example :
    answers no_port two_pass by_user ann steps start
    ≡ answers_alone no_port two_pass by_user ann steps []
        (get_limiter no_port two_pass ann start.limiters)
unfolding keys
answers-answers_alone_example =
    answers-answers_alone no_port two_pass by_user ann refl refl not_global steps start
