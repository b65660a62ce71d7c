-- ===== src/Share/Coherence.antt =====
-- The cache of shares agrees with the database: whatever it can answer is the record of the row.
use notevault.Prelude.{
  ℕ, ◌≡◌, refl, ◌⊎◌, inl, inr, true, false, ◌++◌, arith, Text, codes, same_text, same_text_iff,
  has_prefix, Bool-cases,
}
use notevault.Prelude.{drop_prefix-append}
use notevault.Prelude.Result.{Error, ok, err, Result-cases}
use notevault.Prelude.Int.{ℤ}
use notevault.Kv.Store.{Hit}
use notevault.Share.Record.{ShareRecord, Share, to_record}
use notevault.Share.Env.{ShareEnv, ShareLaws, World}
use notevault.Share.Cache.{share_key_prefix, make_share_key, kv_get, kv_del, cache_share}

-- The database holds a row under `id`, and the row reads as `r`.
abbrev pub Backed : (env : ShareEnv) → env.db.Rows → Text → ShareRecord → Type 0
Backed env rows id r =
    (row : Share) × (env.db.first id rows ≡ ok row)
    × (to_record env.keys_json env.perms_json row ≡ ok r)

pub record IsCoherent (env : ShareEnv) (w : World env) : Type 0 where
  pub at :
      (id b : Text)
      → Hit env.kv w.cache (make_share_key id) b
      → (r : ShareRecord) → env.record_json.unmarshal b ≡ ok r
      → Backed env w.rows id r

pub make_share_key_injective :
    (a b : Text) → same_text (make_share_key a) (make_share_key b) ≡ true → a ≡ b
unfolding make_share_key
make_share_key_injective a b h = cc (
  (same_text_iff (share_key_prefix ++ a) (share_key_prefix ++ b)).0 h,
  drop_prefix-append share_key_prefix a,
  drop_prefix-append share_key_prefix b,
)

pub make_share_key_ne :
    (a b : Text) → same_text (make_share_key a) (make_share_key b) ≡ false → same_text a b ≡ false
make_share_key_ne a b other = elim (Bool-cases (same_text a b)) [
  | inl same ↦
      ground (arith, same_text_iff a b, same_text_iff (make_share_key a) (make_share_key b))
  | inr differs ↦ differs
]

-- An action that leaves the rows alone and keeps the agreement.
abbrev pub Reads : (env : ShareEnv) → World env → World env → Type 0
Reads env w w' = (w'.rows ≡ w.rows) × (IsCoherent env w → IsCoherent env w')

pub Backed-by :
    (env : ShareEnv) (rows : env.db.Rows) (id j : Text) (r q : ShareRecord)
    → id ≡ j
    → q ≡ r
    → Backed env rows id r
    → Backed env rows j q
Backed-by env rows id j r q same equal (row, found, read) = (row, ground arith, ground arith)

abbrev pub with_cache : {env : ShareEnv} → World env → env.kv.State → World env
with_cache w cache = record w { cache = cache }

-- What the cache can answer after an action it could answer before.
OnlyLoses : (env : ShareEnv) → env.kv.State → env.kv.State → Type 0
OnlyLoses env s s' = (k b : Text) → Hit env.kv s' k b → Hit env.kv s k b

with_cache-Reads :
    (env : ShareEnv) (w : World env) (cache : env.kv.State)
    → OnlyLoses env w.cache cache
    → Reads env w (with_cache w cache)
unfolding OnlyLoses
with_cache-Reads env w cache loses = (
  refl,
  λ c. record { at = λ id b hit r read. c.at id b (loses (make_share_key id) b hit) r read },
)

module _ (env : ShareEnv) (law : ShareLaws env) where
  kv_get_world :
      (now : ℕ) (key : Text) (w : World env)
      → (kv_get env now key w).1 ≡ with_cache w (env.kv.get now key w.cache).1
  unfolding kv_get
  kv_get_world now key w = ground (arith, law.with_kv)

  pub kv_del_world :
      (key : Text) (w : World env)
      → kv_del env key w
        ≡ ((env.kv.delete key w.cache).0, with_cache w (env.kv.delete key w.cache).1)
  unfolding kv_del
  kv_del_world key w = ground (arith, law.with_kv)

  pub kv_get-Reads : (now : ℕ) (key : Text) (w : World env) → Reads env w (kv_get env now key w).1
  unfolding OnlyLoses
  kv_get-Reads now key w = rw (kv_get_world now key w) (
      with_cache-Reads env w (env.kv.get now key w.cache).1
        (λ k b hit. law.kv_law.get_hit now key k b w.cache hit))

  delete_loses : (key : Text) (s : env.kv.State) → OnlyLoses env s (env.kv.delete key s).1
  unfolding OnlyLoses
  delete_loses key s k b hit = elim (Result-cases (env.kv.delete key s).0) [
    | inl (u, done) ↦ (law.kv_law.delete_hit key k b s done hit).1
    | inr (e, failed) ↦ law.kv_law.delete_err_hit key k b s e failed hit
  ]

  pub kv_del-Reads : (key : Text) (w : World env) → Reads env w (kv_del env key w).1
  kv_del-Reads key w =
      rw (kv_del_world key w)
        (with_cache-Reads env w (env.kv.delete key w.cache).1 (delete_loses key w.cache))

  pub cache_share_world :
      (now : ℕ) (rec : ShareRecord) (ttl : ℤ) (w : World env) (b : Text)
      → env.record_json.marshal rec ≡ ok b
      → cache_share env now rec ttl w ≡ (
        (env.kv.set now (make_share_key rec.share_id) b ttl w.cache).0,
        with_cache w (env.kv.set now (make_share_key rec.share_id) b ttl w.cache).1,
      )
  unfolding cache_share
  cache_share_world now rec ttl w b written = ground (arith, law.with_kv)

  pub cache_share_refused :
      (now : ℕ) (rec : ShareRecord) (ttl : ℤ) (w : World env) (e : Error)
      → env.record_json.marshal rec ≡ err e
      → (cache_share env now rec ttl w).1 ≡ w
  unfolding cache_share
  cache_share_refused now rec ttl w e refused = ground (arith, law.with_kv)

  -- A hit after a write is the written share, or an old hit.
  set-Hit :
      (now : ℕ) (key b : Text) (ttl : ℤ) (k c : Text) (s : env.kv.State)
      → has_prefix b (codes "NVTTL1:") ≡ false
      → Hit env.kv (env.kv.set now key b ttl s).1 k c
      → ((same_text key k ≡ true) × (c ≡ b)) ⊎ Hit env.kv s k c
  set-Hit now key b ttl k c s plain hit = elim (Result-cases (env.kv.set now key b ttl s).0) [
    | inl (u, done) ↦ elim (law.kv_law.set_hit now key b ttl k c s plain done hit) [
      | inl new ↦ inl new
      | inr old ↦ inr old.1
    ]
    | inr (e, failed) ↦ law.kv_law.set_err_hit now key b ttl k c s e plain failed hit
  ]

  pub cache_share-Reads :
      (now : ℕ) (rec : ShareRecord) (ttl : ℤ) (w : World env)
      → Backed env w.rows rec.share_id rec
      → Reads env w (cache_share env now rec ttl w).1
  cache_share-Reads now rec ttl w backed = elim (Result-cases (env.record_json.marshal rec)) [
    | inr (e, refused) ↦ rw (cache_share_refused now rec ttl w e refused) (refl, λ c. c)
    | inl (b, written) ↦ rw (cache_share_world now rec ttl w b written) (
      refl,
      λ c. record {
        at = λ id d hit r read.
            elim (set-Hit now (make_share_key rec.share_id) b ttl (make_share_key id) d w.cache
              (law.record_law.not_marked rec b written) hit) [
                | inr old ↦ c.at id d old r read
                | inl (same, equal) ↦
                    Backed-by env w.rows rec.share_id id rec r
                      (make_share_key_injective rec.share_id id same)
                      (cc (law.record_law.round_trip rec b written)) backed
              ];
      },
    )
  ]
