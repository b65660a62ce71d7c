-- ===== src/Middleware/RateLimit/Isolation.antt =====
-- The keyed limiters of rate_limit.go do not see each other, but for the number of the keys.
use notevault.Prelude.{
  ℕ, ◌≡◌, refl, sym, ap, ◌∙◌, inl, inr, Bool, true, false, Option, List, [], ◌∷◌, arith, Text,
  same_text, same_text_iff, length, ltb, if◌then◌else◌, Bool-cases,
}
use notevault.Prelude.Assoc.{Assoc, lookup, insert, keys, lookup-insert}
use notevault.Middleware.RateLimit.{
  RateLimitConfig, RateLimiter, Request, Limits, is_global, limit_key, get_limiter, sweep, handle,
  max_limiter_entries,
}

-- What happens to the limiters: a request at a time, or a tick of the cleaning goroutine.
pub data Step : Type 0 where
  request : ℕ → Request → Step
  tick : Step

-- The known keys after a request of `key`.
unfoldable pub with_key : Text → List Text → List Text
with_key key [] = key ∷ []
with_key key (k ∷ ks) = if same_text k key then k ∷ ks else k ∷ with_key key ks

keys-insert {ℓ} :
    {V : Type ℓ} (k : Text) (v : V) (m : Assoc V) → keys (insert k v m) ≡ with_key k (keys m)
unfolding keys insert with_key
keys-insert k v [] = refl
keys-insert k v ((j, w) ∷ m) = elim (Bool-cases (same_text j k)) [
  | inl same ↦ rw same (ap (λ i. i ∷ keys m) (sym ((same_text_iff j k).0 same)))
  | inr other ↦ rw other (ap (λ ks. j ∷ ks) (keys-insert k v m))
]

length-keys {ℓ} : {V : Type ℓ} (m : Assoc V) → length (keys m) ≡ length m
unfolding keys
length-keys [] = refl
length-keys ((j, w) ∷ m) = omega (arith, length-keys m)

module _ (split_host_port : Text → Option Text) (lim : RateLimiter) (cfg : RateLimitConfig)
    (key : Text) where
  -- The answers to the requests of the key, in a run of all the steps.
  unfoldable pub answers : List Step → Limits lim → List Bool
  answers [] st = []
  answers (tick ∷ steps) st = answers steps (sweep split_host_port lim st)
  answers (request now req ∷ steps) st =
      let (goes_on, st') = handle split_host_port lim cfg now req st in
      let rest = answers steps st' in
      if same_text (limit_key split_host_port cfg req) key then goes_on ∷ rest else rest

  -- The answers of one limiter that gets the requests of the key alone, and of which other requests show
  -- their keys only: it starts anew at a tick that finds too many keys.
  unfoldable pub answers_alone : List Step → (known : List Text) → lim.Limiter → List Bool
  unfolding with_key
  answers_alone [] known l = []
  answers_alone (tick ∷ steps) known l =
      let many = ltb max_limiter_entries (length known) in
      answers_alone steps (if many then [] else known) (if many then lim.new_limiter else l)
  answers_alone (request now req ∷ steps) known l =
      let k = limit_key split_host_port cfg req in
      let known' = with_key k known in
      let others = answers_alone steps known' l in
      let (goes_on, l') = lim.allow now l in
      let rest = answers_alone steps known' l' in if same_text k key then goes_on ∷ rest else others

  abbrev limiter_of : Limits lim → lim.Limiter
  limiter_of st = get_limiter split_host_port lim key st.limiters

  sweep-keys :
      (st : Limits lim)
      → keys (sweep split_host_port lim st).limiters
        ≡ (if ltb max_limiter_entries (length (keys st.limiters)) then [] else keys st.limiters)
  unfolding sweep keys
  sweep-keys st =
      rw (length-keys st.limiters)
        (elim (Bool-cases (ltb max_limiter_entries (length st.limiters))) [
          | inl many ↦ rw many refl
          | inr few ↦ rw few refl
        ])

  sweep-limiter :
      (st : Limits lim)
      → limiter_of (sweep split_host_port lim st) ≡ (
          if ltb max_limiter_entries (length (keys st.limiters))
          then lim.new_limiter
          else limiter_of st)
  unfolding sweep get_limiter lookup
  sweep-limiter st =
      rw (length-keys st.limiters)
        (elim (Bool-cases (ltb max_limiter_entries (length st.limiters))) [
          | inl many ↦ rw many refl
          | inr few ↦ rw few refl
        ])

  module _ (on : cfg.enabled ≡ true) (rate : cfg.rps ≡ true) (keyed : is_global cfg ≡ false) where
    abbrev next : ℕ → Request → Limits lim → Limits lim
    next now req st = (handle split_host_port lim cfg now req st).1

    next-keys :
        (now : ℕ) (req : Request) (st : Limits lim)
        → keys (next now req st).limiters
          ≡ with_key (limit_key split_host_port cfg req) (keys st.limiters)
    unfolding handle
    next-keys now req st =
        let k = limit_key split_host_port cfg req in
        let l = (lim.allow now (get_limiter split_host_port lim k st.limiters)).1 in
        ground (arith, on, rate, keyed, keys-insert k l st.limiters)

    next-get_limiter :
        (now : ℕ) (req : Request) (st : Limits lim)
        → limiter_of (next now req st) ≡ (
            if same_text (limit_key split_host_port cfg req) key
            then (lim.allow now (limiter_of st)).1
            else limiter_of st)
    unfolding handle get_limiter
    next-get_limiter now req st =
        let k = limit_key split_host_port cfg req in
        let l = (lim.allow now (get_limiter split_host_port lim k st.limiters)).1 in
        ground (arith, on, rate, keyed, lookup-insert key k l st.limiters, same_text_iff k key)

    handle-allow :
        (now : ℕ) (req : Request) (st : Limits lim)
        → (handle split_host_port lim cfg now req st).0
          ≡ (lim.allow now
              (get_limiter split_host_port lim (limit_key split_host_port cfg req) st.limiters)).0
    unfolding handle
    handle-allow now req st = ground (arith, on, rate, keyed)

    -- Where the limit is on and not global, in any run of requests and ticks of the cleaning goroutine,
    -- the requests of a key get the answers of a limiter of their own, which starts anew at the ticks
    -- that find more than 10000 keys. So requests of other keys count by the number of their keys alone.
    pub answers-answers_alone :
        (steps : List Step) (st : Limits lim)
        → answers steps st ≡ answers_alone steps (keys st.limiters) (limiter_of st)
    unfolding answers answers_alone
    answers-answers_alone [] st = refl
    answers-answers_alone (tick ∷ steps) st =
        let after = sweep split_host_port lim st in
        answers-answers_alone steps after
        ∙ ap (λ ks. answers_alone steps ks (limiter_of after)) (sweep-keys st)
        ∙ ap
            (answers_alone steps (
              if ltb max_limiter_entries (length (keys st.limiters)) then [] else keys st.limiters))
            (sweep-limiter st)
    answers-answers_alone (request now req ∷ steps) st =
        let k = limit_key split_host_port cfg req in
        let known = with_key k (keys st.limiters) in
        let after = next now req st in
        let rest : answers steps after ≡ answers_alone steps known (limiter_of after) =
          answers-answers_alone steps after
          ∙ ap (λ ks. answers_alone steps ks (limiter_of after)) (next-keys now req st) in
        let kept = next-get_limiter now req st in
        elim (Bool-cases (same_text k key)) [
          | inr other ↦
              let same : limiter_of after ≡ limiter_of st = ground (arith, kept, other) in
              let alone = rest ∙ ap (answers_alone steps known) same in ground (arith, other, alone)
          | inl own ↦
              let first =
                handle-allow now req st
                ∙ ap (λ j. (lim.allow now (get_limiter split_host_port lim j st.limiters)).0)
                    ((same_text_iff k key).0 own) in
              let same : limiter_of after ≡ (lim.allow now (limiter_of st)).1 =
                ground (arith, kept, own) in
              let alone = rest ∙ ap (answers_alone steps known) same in
              ground (arith, own, alone, first)
        ]
