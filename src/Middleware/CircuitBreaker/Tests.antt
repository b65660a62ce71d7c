-- ===== src/Middleware/CircuitBreaker/Tests.antt =====
-- Runs of the circuit breaker middleware over a small breaker, and its theorems at concrete values.
use notevault.Prelude.{
  ℕ, ◌+◌, ◌*◌, ◌≡◌, refl, ap, Bool, true, false, Option, none, some, List, [], ◌∷◌, map, Text,
  codes, same_text, ltb, leb, if◌then◌else◌,
}
use notevault.Prelude.Assoc.{lookup, insert}
use notevault.Middleware.ResponseCache.Http.{
  Writer, Action, set_status, write_body, act, act_all, write, new_writer, header_set,
}
use notevault.Middleware.CircuitBreaker.{
  CircuitBreakerConfig, Counts, ready_to_trip, Refusal, open_state, too_many_requests, Breaker,
  abort_unavailable, handle,
}
use notevault.Middleware.CircuitBreaker.Replies.{
  Visit, StaysClosed, serve, healthy_app_is_untouched,
}

-- When it opened, and what it counted.
record State : Type 0 where
  opened : Option ℕ
  counts : Counts

abbrev cfg : CircuitBreakerConfig
cfg = record { enabled = true; min_requests = 2 }

-- At least half of the requests
abbrev reaches : ℕ → ℕ → Bool
reaches f n = leb n (f * 2)

abbrev refusal : ℕ → Option ℕ → Option Refusal
refusal now none = none
refusal now (some t) = if ltb now (t + 30) then some open_state else some too_many_requests

abbrev add : Bool → Counts → Counts
add ok c = record {
  requests = c.requests + 1;
  total_failures = if ok then c.total_failures else c.total_failures + 1;
}

abbrev opened_after : ℕ → Bool → State → Option ℕ
opened_after later true s = s.opened
opened_after later false s =
    if ready_to_trip reaches cfg (add false s.counts) then some later else s.opened

abbrev breaker : Breaker
breaker = record {
  State = State;
  refuses = λ now s. (refusal now s.opened, s);
  counted = λ later ok s. record { opened = opened_after later ok s; counts = add ok s.counts };
}

abbrev IsClosed : State → Type 0
IsClosed s = s.opened ≡ none

breaker-StaysClosed : StaysClosed breaker IsClosed
breaker-StaysClosed = record {
  admits = λ now s closed. ap (refusal now) closed;
  refuses_closed = λ now s closed. closed;
  success_closed = λ later s closed. closed;
}

abbrev fresh : State
fresh = record { opened = none; counts = record { requests = 0; total_failures = 0 } }

abbrev same_name : Text → Text
same_name name = name

abbrev visit : ℕ → List Action → Visit
visit now chain = record { now = now; later = now; chain = chain; writer = new_writer }

abbrev good : Visit
good = visit 1 (write_body (codes "fine") ∷ [])

abbrev bad : Visit
bad = visit 2 (set_status 500 ∷ write_body (codes "oops") ∷ [])

abbrev json : Text
json = codes "{}"

-- To name on the `unfolding` line of a run.
runs : Unit {0}
unfolding act_all act write header_set lookup insert same_text abort_unavailable handle serve
    ready_to_trip
runs = tt

abbrev seen : List Writer → List (ℕ × Text)
seen = map (λ w. (w.status, w.body))

-- The failure opens the breaker; where it refuses a request as one too many, the chain answers.
opens_after_failures :
    seen
      (serve same_name breaker json cfg
        (good ∷ bad ∷ good ∷ visit 50 (write_body (codes "fine") ∷ []) ∷ [])
        fresh).0
    ≡ (200, codes "fine") ∷ (500, codes "oops{}") ∷ (503, json) ∷ (200, codes "fine") ∷ []
unfolding runs
opens_after_failures = refl

healthy_app_is_untouched_example :
    ((serve same_name breaker json cfg (good ∷ good ∷ []) fresh).0
      ≡ act_all same_name good.chain new_writer ∷ act_all same_name good.chain new_writer ∷ [])
    × IsClosed (serve same_name breaker json cfg (good ∷ good ∷ []) fresh).1
unfolding runs
healthy_app_is_untouched_example =
    healthy_app_is_untouched same_name breaker json cfg IsClosed breaker-StaysClosed
      (good ∷ good ∷ []) fresh (refl, (refl, tt)) refl
