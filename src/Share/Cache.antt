-- ===== src/Share/Cache.antt =====
-- shares.go below `// ---- 内部模型与工具 ----`: passwords, expiry, the key-value helpers, and how a
-- share is loaded through the cache.
use notevault.Prelude.{
  ℕ, ◌*◌, ◌++◌, Bool, false, not, Option, none, some, Text, codes, is_empty, trim_space, ltb,
  if◌then◌else◌,
}
use notevault.Prelude.Result.{
  Result, marshal_failed, unmarshal_failed, db_not_initialized, kv_client_nil, share_id_required,
  share_expired, wrap_error,
}
use notevault.Prelude.Int.{ℤ, pos, is_positive, pos_part, time_sub, nanoseconds}
use notevault.Prelude.Exec.{Exec, pure, lift, guard, attempt, ◌>>=◌, ◌>>◌}
use notevault.Share.Record.{SharePermissions, ShareRecord, to_record}
use notevault.Share.Env.{ShareEnv, World}

abbrev pub share_key_prefix : Text
share_key_prefix = codes "shares:v1:"

abbrev pub share_cache_default_ttl : ℕ
share_cache_default_ttl = 10 * 60 * nanoseconds

abbrev pub share_cache_max_ttl : ℕ
share_cache_max_ttl = 30 * 60 * nanoseconds

-- `now.After(*exp)`
unfoldable pub is_expired : ℕ → Option ℕ → Bool
is_expired now none = false
is_expired now (some exp) = ltb exp now

unfoldable pub make_share_key : Text → Text
make_share_key share_id = share_key_prefix ++ share_id

unfoldable pub hash_password : (Text → Text) → Text → Text
hash_password digest pw = if is_empty (trim_space pw) then codes "" else digest pw

-- `now` is what `time.Until` reads.
unfoldable pub ttl_from_expire : (now : ℕ) → Option ℕ → ℤ
ttl_from_expire now none = pos share_cache_default_ttl
ttl_from_expire now (some exp) =
    let d = time_sub exp now in
    if not (is_positive d)
    then pos 0
    else if ltb share_cache_max_ttl (pos_part d)
    then pos share_cache_max_ttl
    else d

-- What the calls of `time.Now` return while a share is loaded: in the cache's `Get`, at the test of
-- a cached share, at the test of a row, in `time.Until`, and in the cache's `Set`.
pub record LoadClock : Type 0 where
  pub kv_get : ℕ
  pub check_cached : ℕ
  pub check_row : ℕ
  pub until : ℕ
  pub kv_set : ℕ

module _ (env : ShareEnv) where
  -- The calls of the two stores, as actions on the whole state.
  abbrev pub on_rows {ℓ} :
      {A : Type ℓ} → (env.db.Rows → Result A × env.db.Rows) → World env → Result A × World env
  on_rows m w = let (r, rows) = m w.rows in (r, record w { rows = rows })

  abbrev pub on_cache : {A : Type 0} → Exec env.kv.State A → Exec (World env) A
  on_cache m w = let (r, cache) = m w.cache in (r, record w { cache = cache })

  unfoldable pub kv_get : (now : ℕ) → Text → Exec (World env) ShareRecord
  kv_get now key = do
    guard env.has_kv kv_client_nil
    b ← on_cache (env.kv.get now key)
    lift (wrap_error unmarshal_failed (env.record_json.unmarshal b))

  unfoldable pub kv_set : (now : ℕ) → Text → ShareRecord → ℤ → Exec (World env) (Unit {0})
  kv_set now key v ttl = do
    guard env.has_kv kv_client_nil
    b ← lift (wrap_error marshal_failed (env.record_json.marshal v))
    on_cache (env.kv.set now key b ttl)

  unfoldable pub kv_del : Text → Exec (World env) (Unit {0})
  kv_del key = do guard env.has_kv kv_client_nil; on_cache (env.kv.delete key)

  unfoldable pub cache_share : (now : ℕ) → ShareRecord → ℤ → Exec (World env) (Unit {0})
  unfolding kv_set make_share_key
  cache_share now rec ttl =
      if env.has_kv then kv_set now (make_share_key rec.share_id) rec ttl else pure tt

  unfoldable pub update_permissions_in_db :
      (now : ℕ) → Text → SharePermissions → Exec (World env) (Unit {0})
  update_permissions_in_db now share_id perms = do
    guard env.has_db db_not_initialized
    b ← lift (env.perms_json.marshal perms)
    on_rows (env.db.update_permissions share_id b now)

  -- From "DB 加载" on. `fromModelRecord` only copies its argument.
  unfoldable pub load_row : LoadClock → Text → Exec (World env) ShareRecord
  unfolding is_expired ttl_from_expire cache_share
  load_row clock share_id = do
    guard env.has_db db_not_initialized
    row ← (λ w. (env.db.first share_id w.rows, w))
    guard (not (is_expired clock.check_row row.expire_at)) share_expired
    rec ← lift (to_record env.keys_json env.perms_json row)
    attempt (cache_share clock.kv_set rec (ttl_from_expire clock.until rec.expire_at))
    pure rec

  -- What the cache answered: an expired share is dropped and looked up in the database.
  unfoldable pub use_cached : LoadClock → Text → Option ShareRecord → Exec (World env) ShareRecord
  unfolding load_row kv_del make_share_key
  use_cached clock share_id none = load_row clock share_id
  use_cached clock share_id (some rec) =
      if is_expired clock.check_cached rec.expire_at
      then (do attempt (kv_del (make_share_key share_id)); load_row clock share_id)
      else pure rec

  unfoldable pub get_share_cached : LoadClock → Text → Exec (World env) ShareRecord
  unfolding use_cached kv_get
  get_share_cached clock share_id = do
    guard (not (is_empty share_id)) share_id_required
    cached ←
        if env.has_kv then attempt (kv_get clock.kv_get (make_share_key share_id)) else pure none
    use_cached clock share_id cached
