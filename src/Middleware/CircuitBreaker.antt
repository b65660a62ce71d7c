-- ===== src/Middleware/CircuitBreaker.antt =====
-- pkg/middleware/circuit_breaker.go: `CircuitBreakerMiddleware`.
pub mod Replies
mod Tests
use notevault.Prelude.{
  ℕ, ◌-◌, Bool, false, not, Option, none, some, List, [], ◌∷◌, Text, codes, ltb, leb, if◌then◌else◌,
}
use notevault.Prelude.Assoc.{lookup, insert}
use notevault.Middleware.ResponseCache.Http.{Header, Writer, Action, act_all, write}

-- `configs.CircuitBreakerConfig`, as far as the handler and the test that trips read it.
pub record CircuitBreakerConfig : Type 0 where
  pub enabled : Bool
  pub min_requests : ℕ

-- `gobreaker.Counts`, as far as the test reads them
pub record Counts : Type 0 where
  pub requests : ℕ
  pub total_failures : ℕ

-- `ReadyToTrip`. `reaches f n` is the comparison of the quotient of two float64 with the failure rate.
unfoldable pub ready_to_trip : (ℕ → ℕ → Bool) → CircuitBreakerConfig → Counts → Bool
ready_to_trip reaches cfg counts =
    let total = counts.requests in
    if ltb total cfg.min_requests then false else reaches counts.total_failures total

-- `ErrOpenState` and `ErrTooManyRequests`
pub data Refusal : Type 0 where
  open_state too_many_requests : Refusal

-- `gobreaker.CircuitBreaker`, whose `Execute` refuses a request at once with an error, or runs it and
-- counts it as a success or a failure. Both may read the clock.
pub record Breaker : Type 1 where
  pub State : Type 0
  pub refuses : ℕ → State → Option Refusal × State
  pub counted : ℕ → Bool → State → State

module _ (canonical : Text → Text) where
  abbrev with_content_type : Option (List Text) → Header → Header
  with_content_type none h =
      insert (canonical (codes "Content-Type")) (codes "application/json; charset=utf-8" ∷ []) h
  with_content_type (some []) h =
      insert (canonical (codes "Content-Type")) (codes "application/json; charset=utf-8" ∷ []) h
  with_content_type (some (v ∷ vs)) h = h

  -- `c.AbortWithStatusJSON(503, …)`: the status of a response that was sent stays.
  unfoldable pub abort_unavailable : Text → Writer → Writer
  unfolding write lookup insert
  abort_unavailable json w =
      let status : ℕ = elim w.sent [ some h ↦ w.status | none ↦ 503 ] in
      let header =
        with_content_type (lookup (canonical (codes "Content-Type")) w.header) w.header in
      write canonical json (record w { status = status; header = header })

  -- `chain` is the rest of the chain. A middleware that returns without `Next` and `Abort` leaves it to
  -- gin, which runs it then.
  module _ (b : Breaker) (json : Text) where
    -- `cb.Execute` with `c.Next`, and the answer to its error. The clock is read before and after.
    abbrev executed : ℕ → List Action → Writer → Option Refusal × b.State → Writer × b.State
    executed later chain w (some open_state, s) = (abort_unavailable json w, s)
    executed later chain w (some too_many_requests, s) = (act_all canonical chain w, s)
    executed later chain w (none, s) =
        let w' = act_all canonical chain w in
        let failed = leb 500 w'.status in
        (if failed then abort_unavailable json w' else w', b.counted later (not failed) s)

    unfoldable pub handle :
        (now later : ℕ) → CircuitBreakerConfig → List Action → Writer → b.State → Writer × b.State
    unfolding act_all abort_unavailable
    handle now later cfg chain w s =
        if not cfg.enabled
        then (act_all canonical chain w, s)
        else executed later chain w (b.refuses now s)
