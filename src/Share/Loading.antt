-- ===== src/Share/Loading.antt =====
-- Loading a share through the cache gives what the database alone gives.
use notevault.Prelude.{
  ℕ, ◌≡◌, refl, sym, ap, ◌∙◌, subst, ◌⊎◌, inl, inr, true, false, Option, none, some, arith, Text,
  is_empty, if◌then◌else◌, Bool-cases,
}
use notevault.Prelude.Result.{
  Error, Result, ok, err, Result-cases, share_expired, share_id_required,
}
use notevault.Prelude.Exec.{optional}
use notevault.Kv.Store.{Hit}
use notevault.Share.Record.{ShareRecord, Share, to_record}
use notevault.Share.Env.{ShareEnv, ShareLaws, World}
use notevault.Share.Cache.{
  LoadClock, is_expired, ttl_from_expire, make_share_key, kv_get, kv_del, cache_share, load_row,
  use_cached, get_share_cached,
}
use notevault.Share.Coherence.{
  Backed, IsCoherent, Reads, kv_get-Reads, kv_del-Reads, cache_share-Reads,
}

-- The share that the database holds under `id`, read at the time `now`.
abbrev pub fetch : (env : ShareEnv) → (now : ℕ) → Text → env.db.Rows → Result ShareRecord
fetch env now id rows = elim (env.db.first id rows) [
  | err e ↦ err e
  | ok row ↦
      if is_expired now row.expire_at
      then err share_expired
      else to_record env.keys_json env.perms_json row
]

-- The columns that a conversion takes over as they are.
pub to_record_columns :
    (env : ShareEnv) (row : Share) (r : ShareRecord)
    → to_record env.keys_json env.perms_json row ≡ ok r
    → (r.share_id ≡ row.share_id) × (r.owner ≡ row.owner) × (r.expire_at ≡ row.expire_at)
unfolding to_record
to_record_columns env row r h = ground arith

pub Reads-trans :
    {env : ShareEnv} {u v w : World env} → Reads env u v → Reads env v w → Reads env u w
Reads-trans a b = (b.0 ∙ a.0, λ c. b.1 (a.1 c))

Reads-refl : {env : ShareEnv} (w : World env) → Reads env w w
Reads-refl w = (refl, λ c. c)

module _ (env : ShareEnv) (law : ShareLaws env) where
  load_row_loaded :
      (clock : LoadClock) (id : Text) (w : World env) (row : Share) (rec : ShareRecord)
      → env.db.first id w.rows ≡ ok row
      → is_expired clock.check_row row.expire_at ≡ false
      → to_record env.keys_json env.perms_json row ≡ ok rec
      → load_row env clock id w ≡ (
        ok rec,
        (cache_share env clock.kv_set rec (ttl_from_expire clock.until rec.expire_at) w).1,
      )
  unfolding load_row
  load_row_loaded clock id w row rec found fresh read = ground (arith, law.with_db)

  load_row_result :
      (clock : LoadClock) (id : Text) (w : World env)
      → (load_row env clock id w).0 ≡ fetch env clock.check_row id w.rows
  unfolding load_row
  load_row_result clock id w = ground (arith, law.with_db)

  load_row_failed :
      (clock : LoadClock) (id : Text) (w : World env) (e : Error)
      → fetch env clock.check_row id w.rows ≡ err e
      → (load_row env clock id w).1 ≡ w
  unfolding load_row
  load_row_failed clock id w e h = ground (arith, law.with_db)

  -- A successful fetch, taken apart.
  pub fetch_ok :
      (now : ℕ) (id : Text) (rows : env.db.Rows) (rec : ShareRecord)
      → fetch env now id rows ≡ ok rec
      → (row : Share) × (env.db.first id rows ≡ ok row)
        × (is_expired now row.expire_at ≡ false)
        × (to_record env.keys_json env.perms_json row ≡ ok rec)
  fetch_ok now id rows rec h = elim (Result-cases (env.db.first id rows)) [
    | inl (row, found) ↦ (row, found, ground arith, ground arith)
    | inr (e, missing) ↦ ground arith
  ]

  load_row-Reads :
      (clock : LoadClock) (id : Text) (w : World env) → Reads env w (load_row env clock id w).1
  load_row-Reads clock id w = elim (Result-cases (fetch env clock.check_row id w.rows)) [
    | inr (e, failed) ↦ rw (load_row_failed clock id w e failed) (Reads-refl w)
    | inl (rec, h) ↦
        let (row, found, fresh, read) = fetch_ok clock.check_row id w.rows rec h in
        rw (load_row_loaded clock id w row rec found fresh read) (
          cache_share-Reads env law clock.kv_set rec (ttl_from_expire clock.until rec.expire_at) w (
            row,
            ground (
              arith,
              to_record_columns env row rec read,
              law.db_law.first_id id w.rows row found,
            ),
            read,
          ))
  ]

  use_cached_expired :
      (clock : LoadClock) (id : Text) (rec : ShareRecord) (w : World env)
      → is_expired clock.check_cached rec.expire_at ≡ true
      → use_cached env clock id (some rec) w
        ≡ load_row env clock id (kv_del env (make_share_key id) w).1
  unfolding use_cached
  use_cached_expired clock id rec w old = ground arith

  use_cached_fresh :
      (clock : LoadClock) (id : Text) (rec : ShareRecord) (w : World env)
      → is_expired clock.check_cached rec.expire_at ≡ false
      → use_cached env clock id (some rec) w ≡ (ok rec, w)
  unfolding use_cached
  use_cached_fresh clock id rec w fresh = ground arith

  use_cached-none :
      (clock : LoadClock) (id : Text) (w : World env)
      → use_cached env clock id none w ≡ load_row env clock id w
  unfolding use_cached
  use_cached-none clock id w = refl

  use_cached-Reads :
      (clock : LoadClock) (id : Text) (o : Option ShareRecord) (w : World env)
      → Reads env w (use_cached env clock id o w).1
  use_cached-Reads clock id none w = rw (use_cached-none clock id w) (load_row-Reads clock id w)
  use_cached-Reads clock id (some rec) w =
      elim (Bool-cases (is_expired clock.check_cached rec.expire_at)) [
        | inl old ↦
            rw (use_cached_expired clock id rec w old)
              (Reads-trans (kv_del-Reads env law (make_share_key id) w) (load_row-Reads clock id _))
        | inr fresh ↦ rw (use_cached_fresh clock id rec w fresh) (Reads-refl w)
      ]

  pub get_share_cached_empty :
      (clock : LoadClock) (id : Text) (w : World env)
      → is_empty id ≡ true
      → get_share_cached env clock id w ≡ (err share_id_required, w)
  unfolding get_share_cached
  get_share_cached_empty clock id w h = ground arith

  get_share_cached_steps :
      (clock : LoadClock) (id : Text) (w : World env)
      → is_empty id ≡ false
      → get_share_cached env clock id w
        ≡ use_cached env clock id
            (optional (kv_get env clock.kv_get (make_share_key id) w).0)
            (kv_get env clock.kv_get (make_share_key id) w).1
  unfolding get_share_cached
  get_share_cached_steps clock id w h = ground (arith, law.with_kv)

  pub get_share_cached-Reads :
      (clock : LoadClock) (id : Text) (w : World env)
      → Reads env w (get_share_cached env clock id w).1
  get_share_cached-Reads clock id w = elim (Bool-cases (is_empty id)) [
    | inl none_given ↦ rw (get_share_cached_empty clock id w none_given) (Reads-refl w)
    | inr given ↦ rw (get_share_cached_steps clock id w given) (
        Reads-trans (kv_get-Reads env law clock.kv_get (make_share_key id) w)
          (use_cached-Reads clock id _ _))
  ]

  -- What `kv_get` returns is what the cache answers, read as a record.
  kv_get-Hit :
      (now : ℕ) (key : Text) (w : World env) (rec : ShareRecord)
      → (kv_get env now key w).0 ≡ ok rec
      → (b : Text) × Hit env.kv w.cache key b × (env.record_json.unmarshal b ≡ ok rec)
  unfolding kv_get
  kv_get-Hit now key w rec h = elim (Result-cases (env.kv.get now key w.cache).0) [
    | inl (b, hit) ↦ (b, (now, hit), ground (arith, law.with_kv))
    | inr (e, miss) ↦ ground (arith, law.with_kv)
  ]

  pub Backed-fetch :
      (now : ℕ) (id : Text) (w : World env) (rec : ShareRecord)
      → Backed env w.rows id rec
      → is_expired now rec.expire_at ≡ false
      → fetch env now id w.rows ≡ ok rec
  Backed-fetch now id w rec (row, found, read) fresh =
      ground (arith, to_record_columns env row rec read)

  abbrev AsFetched : LoadClock → Text → World env → Result ShareRecord → Type 0
  AsFetched clock id w r =
      (r ≡ fetch env clock.check_cached id w.rows) ⊎ (r ≡ fetch env clock.check_row id w.rows)

  use_cached_exact :
      (clock : LoadClock) (id : Text) (o : Option ShareRecord) (w : World env)
      → ((rec : ShareRecord) → o ≡ some rec → Backed env w.rows id rec)
      → AsFetched clock id w (use_cached env clock id o w).0
  use_cached_exact clock id none w backed =
      inr (rw (use_cached-none clock id w) (load_row_result clock id w))
  use_cached_exact clock id (some rec) w backed =
      elim (Bool-cases (is_expired clock.check_cached rec.expire_at)) [
        | inl old ↦ inr (
            rw (use_cached_expired clock id rec w old) (
              load_row_result clock id (kv_del env (make_share_key id) w).1
              ∙ ap (fetch env clock.check_row id) (kv_del-Reads env law (make_share_key id) w).0))
        | inr fresh ↦ inl (
            rw (use_cached_fresh clock id rec w fresh)
              (sym (Backed-fetch clock.check_cached id w rec (backed rec refl) fresh)))
      ]

  optional-some : (r : Result ShareRecord) (rec : ShareRecord) → optional r ≡ some rec → r ≡ ok rec
  optional-some (ok a) rec h = ground arith
  optional-some (err e) rec h = cc

  cached-Backed :
      (now : ℕ) (id : Text) (w : World env)
      → IsCoherent env w
      → (rec : ShareRecord) → optional (kv_get env now (make_share_key id) w).0 ≡ some rec
      → Backed env (kv_get env now (make_share_key id) w).1.rows id rec
  cached-Backed now id w c rec h =
      let (b, hit, read) = kv_get-Hit now (make_share_key id) w rec (optional-some _ rec h) in
      subst (λ rows. Backed env rows id rec)
        (sym (kv_get-Reads env law now (make_share_key id) w).0) (c.at id b hit rec read)

  get_share_cached_result :
      (clock : LoadClock) (id : Text) (w : World env)
      → is_empty id ≡ false
      → IsCoherent env w
      → AsFetched clock id w (get_share_cached env clock id w).0
  get_share_cached_result clock id w given c =
      let w' = (kv_get env clock.kv_get (make_share_key id) w).1 in
      let rows = (kv_get-Reads env law clock.kv_get (make_share_key id) w).0 in
      let steps = ap (λ p. p.0) (get_share_cached_steps clock id w given) in
      elim (use_cached_exact clock id _ w' (cached-Backed clock.kv_get id w c)) [
        | inl h ↦ inl (steps ∙ h ∙ ap (fetch env clock.check_cached id) rows)
        | inr h ↦ inr (steps ∙ h ∙ ap (fetch env clock.check_row id) rows)
      ]

-- Where the cache agrees with the database, loading a share gives exactly what the database alone
-- gives at one of the two times at which the expiry is tested: the record, `share expired`, or the
-- database's error. It never changes a row, and the agreement stays.
pub get_share_cached_exact :
    (env : ShareEnv) (law : ShareLaws env) (clock : LoadClock) (id : Text) (w : World env)
    → is_empty id ≡ false
    → IsCoherent env w
    → (((get_share_cached env clock id w).0 ≡ fetch env clock.check_cached id w.rows)
        ⊎ ((get_share_cached env clock id w).0 ≡ fetch env clock.check_row id w.rows))
      × ((get_share_cached env clock id w).1.rows ≡ w.rows)
      × IsCoherent env (get_share_cached env clock id w).1
get_share_cached_exact env law clock id w given c =
    let (rows, keeps) = get_share_cached-Reads env law clock id w in
    (get_share_cached_result env law clock id w given c, rows, keeps c)
