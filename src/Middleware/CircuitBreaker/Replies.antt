-- ===== src/Middleware/CircuitBreaker/Replies.antt =====
-- What clients see through the circuit breaker of circuit_breaker.go.
use notevault.Prelude.{
  ℕ, ◌≡◌, refl, inl, inr, true, false, none, some, List, [], ◌∷◌, map, arith, Text, All, leb,
  Bool-cases,
}
use notevault.Middleware.ResponseCache.Http.{Writer, Action, act_all}
use notevault.Middleware.CircuitBreaker.{CircuitBreakerConfig, too_many_requests, Breaker, handle}

-- A request: when its answer starts and ends, the calls of the rest of the chain, and its writer.
pub record Visit : Type 0 where
  pub now : ℕ
  pub later : ℕ
  pub chain : List Action
  pub writer : Writer

-- What a breaker promises while it is closed: it refuses nothing, and a success does not open it.
pub record StaysClosed (b : Breaker) (Closed : b.State → Type 0) : Type 0 where
  pub admits : (now : ℕ) (s : b.State) → Closed s → (b.refuses now s).0 ≡ none
  pub refuses_closed : (now : ℕ) (s : b.State) → Closed s → Closed (b.refuses now s).1
  pub success_closed : (later : ℕ) (s : b.State) → Closed s → Closed (b.counted later true s)

module _ (canonical : Text → Text) (b : Breaker) (json : Text) (cfg : CircuitBreakerConfig) where
  -- The response of the rest of the chain alone.
  abbrev pub plain : Visit → Writer
  plain v = act_all canonical v.chain v.writer

  -- The chain answers with no error of the server.
  abbrev pub IsHealthy : Visit → Type 0
  IsHealthy v = leb 500 (plain v).status ≡ false

  -- Visits one after the other.
  unfoldable pub serve : List Visit → b.State → List Writer × b.State
  unfolding handle
  serve [] s = ([], s)
  serve (v ∷ visits) s =
      let (w, s') = handle canonical b json v.now v.later cfg v.chain v.writer s in
      let (ws, s'') = serve visits s' in (w ∷ ws, s'')

  module _ (Closed : b.State → Type 0) (law : StaysClosed b Closed) where
    handle-closed :
        (v : Visit) (s : b.State)
        → IsHealthy v
        → Closed s
        → ((handle canonical b json v.now v.later cfg v.chain v.writer s).0 ≡ plain v)
          × Closed (handle canonical b json v.now v.later cfg v.chain v.writer s).1
    unfolding handle
    handle-closed v s healthy closed = elim (Bool-cases cfg.enabled) [
      | inr off ↦ ground (arith, off, closed)
      | inl on ↦ ground (
        arith,
        on,
        healthy,
        law.admits v.now s closed,
        law.success_closed v.later (b.refuses v.now s).1 (law.refuses_closed v.now s closed),
      )
    ]

    -- While the chain answers no request with an error of the server, a breaker that is closed leaves
    -- every response of a sequence as the chain makes it, and stays closed.
    pub healthy_app_is_untouched :
        (visits : List Visit) (s : b.State)
        → All IsHealthy visits
        → Closed s
        → ((serve visits s).0 ≡ map plain visits) × Closed (serve visits s).1
    unfolding serve
    healthy_app_is_untouched [] s healthy closed = (refl, closed)
    healthy_app_is_untouched (v ∷ visits) s healthy closed =
        let (same, closed') = handle-closed v s healthy.0 closed in
        let (rest, closed'') = healthy_app_is_untouched visits _ healthy.1 closed' in (cc, closed'')

  -- A request that the breaker refuses as one too many is answered by the chain all the same, and is not
  -- counted.
  pub half_open_lets_through :
      (v : Visit) (s : b.State)
      → (b.refuses v.now s).0 ≡ some too_many_requests
      → cfg.enabled ≡ true
      → handle canonical b json v.now v.later cfg v.chain v.writer s
        ≡ (plain v, (b.refuses v.now s).1)
  unfolding handle
  half_open_lets_through v s refused on = ground (arith, on, refused)
