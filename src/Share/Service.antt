-- ===== src/Share/Service.antt =====
-- shares.go: the operations of `ShareService`. A request of the HTTP layer is never nil.
pub mod Users
use notevault.Prelude.{
  ℕ, ◌*◌, Bool, true, false, not, ◌&&◌, ◌||◌, Option, none, some, List, [], ◌∷◌, Text, is_empty,
  same_text, length, ltb, if◌then◌else◌,
}
use notevault.Prelude.Result.{
  Error, Result, ok, err, db_not_initialized, s3_not_initialized, no_bucket_configured,
  user_required, object_keys_required, share_id_required, request_required, invalid_password,
  not_owner, download_not_allowed, no_object_in_share, multiple_objects, create_share_failed,
  list_shares_failed, presign_failed, wrap_error,
}
use notevault.Prelude.Int.{
  ℤ, pos, is_positive, pos_part, mul_int64, time_add, time_sub, nanoseconds,
}
use notevault.Prelude.Exec.{Exec, pure, raise, lift, guard, attempt, ◌>>=◌, ◌>>◌}
use notevault.Share.Record.{
  SharePermissions, ShareRecord, Share, ShareInfo, CreateShareRequest,
  UpdateSharePermissionsRequest, GetSharePermissionsResponse, to_info, to_record, from_record,
}
use notevault.Share.Env.{ShareEnv, World}
use notevault.Share.Cache.{
  LoadClock, is_expired, make_share_key, hash_password, ttl_from_expire, on_rows, kv_del,
  cache_share, update_permissions_in_db, get_share_cached,
}
use notevault.Share.Service.Users.{compact, add_user, without_user}

abbrev pub default_presigned_op_timeout : ℕ
default_presigned_op_timeout = 15 * 60 * nanoseconds

-- `time.Duration(days) * 24 * time.Hour`, in int64.
abbrev pub days_duration : ℤ → ℤ
days_duration days = mul_int64 (mul_int64 days 24) (3600 * nanoseconds)

-- What `time.Now` returns at the start, in `time.Until` and in the cache's `Set`.
pub record CreateClock : Type 0 where
  pub now : ℕ
  pub until : ℕ
  pub kv_set : ℕ

pub record UpdateClock : Type 0 where
  pub load : LoadClock
  pub updated_at : ℕ
  pub until : ℕ
  pub kv_set : ℕ

abbrev pub expire_of : ℕ → ℤ → Option ℕ
expire_of now days = if is_positive days then some (time_add now (days_duration days)) else none

abbrev pub create_ttl : ℕ → Option ℕ → ℤ
create_ttl until none = pos 0
create_ttl until (some e) = pos (pos_part (time_sub e until))

-- The record that `CreateShare` builds.
unfoldable pub new_record : (Text → Text) → ℕ → Text → Text → CreateShareRequest → ShareRecord
new_record digest now share_id user req = record {
  share_id = share_id;
  owner = user;
  object_keys = req.object_keys;
  created_at = now;
  expire_at = expire_of now req.expire_days;
  allow_download = req.allow_download;
  password_hash = hash_password digest req.password;
  permissions = record { allow_anonymous = is_empty req.password; users = user ∷ [] };
}

-- The length tests on the object keys, and the first key.
abbrev pub single_key : List Text → Result Text
single_key [] = err no_object_in_share
single_key (k ∷ []) = ok k
single_key (k ∷ _ ∷ _) = err multiple_objects

abbrev pub first_bucket : List Text → Result Text
first_bucket [] = err no_bucket_configured
first_bucket (b ∷ _) = ok b

abbrev pub with_permissions : ShareRecord → SharePermissions → ShareRecord
with_permissions rec p = record rec { permissions = p }

module _ (env : ShareEnv) where
  -- `new_id` is what `newShareID` returns.
  unfoldable pub create_share :
      CreateClock → (new_id : Text) → Text → CreateShareRequest → Exec (World env) ShareInfo
  unfolding new_record
  create_share clock new_id user req = do
    guard (not (is_empty user)) user_required
    guard (ltb 0 (length req.object_keys)) object_keys_required
    guard env.has_db db_not_initialized
    let rec = new_record env.digest clock.now new_id user req
    row ← lift (from_record env.keys_json env.perms_json rec)
    (λ w. let (r, w') = on_rows env (env.db.create row) w in (wrap_error create_share_failed r, w'))
    attempt (cache_share env clock.kv_set rec (create_ttl clock.until rec.expire_at))
    pure (to_info rec)

  to_infos : List Share → Result (List ShareInfo)
  to_infos [] = ok []
  to_infos (sh ∷ shs) =
      let rest = to_infos shs in
      elim (to_record env.keys_json env.perms_json sh) [
        | err e ↦ err e
        | ok rec ↦ elim rest [ ok infos ↦ ok (to_info rec ∷ infos) | err e ↦ err e ]
      ]

  unfoldable pub list_shares : (now : ℕ) → Text → Exec (World env) (List ShareInfo)
  unfolding to_infos
  list_shares now user = do
    guard (not (is_empty user)) user_required
    guard env.has_db db_not_initialized
    rows ← (λ w. (wrap_error list_shares_failed (env.db.find user now w.rows), w))
    lift (to_infos rows)

  unfoldable pub delete_share : Text → Text → Exec (World env) (Unit {0})
  delete_share user share_id = do
    guard (not (is_empty user || is_empty share_id)) request_required
    guard env.has_db db_not_initialized
    sh ← (λ w. (env.db.first share_id w.rows, w))
    guard (same_text sh.owner user) not_owner
    on_rows env (env.db.delete sh)
    attempt (kv_del env (make_share_key share_id))
    pure tt

  unfoldable pub get_share_detail : LoadClock → Text → Exec (World env) ShareInfo
  get_share_detail clock share_id = do
    guard (not (is_empty share_id)) share_id_required
    rec ← get_share_cached env clock share_id
    pure (to_info rec)

  abbrev pub password_fits : ShareRecord → Text → Bool
  password_fits rec password =
      is_empty rec.password_hash || same_text (hash_password env.digest password) rec.password_hash

  unfoldable pub access_share : LoadClock → Text → Text → Exec (World env) ShareInfo
  access_share clock share_id password = do
    guard (not (is_empty share_id)) share_id_required
    rec ← get_share_cached env clock share_id
    guard (password_fits rec password) invalid_password
    pure (to_info rec)

  unfoldable pub get_share_download_url : LoadClock → Text → Exec (World env) Text
  get_share_download_url clock share_id = do
    guard (not (is_empty share_id)) share_id_required
    guard env.has_s3 s3_not_initialized
    rec ← get_share_cached env clock share_id
    guard rec.allow_download download_not_allowed
    key ← lift (single_key rec.object_keys)
    bucket ← lift (first_bucket env.buckets)
    lift (wrap_error presign_failed (env.presign bucket key default_presigned_op_timeout))

  unfoldable pub get_share_permissions :
      LoadClock → Text → Text → Exec (World env) GetSharePermissionsResponse
  get_share_permissions clock user share_id = do
    guard (not (is_empty user || is_empty share_id)) request_required
    rec ← get_share_cached env clock share_id
    guard (same_text rec.owner user) not_owner
    pure (record { share_id = share_id; permissions = rec.permissions })

  -- The common end of the three operations that change the permissions.
  abbrev pub save_permissions : UpdateClock → Text → ShareRecord → Exec (World env) (Unit {0})
  save_permissions clock share_id rec = do
    update_permissions_in_db env clock.updated_at share_id rec.permissions
    attempt (cache_share env clock.kv_set rec (ttl_from_expire clock.until rec.expire_at))
    pure tt

  unfoldable pub update_share_permissions :
      UpdateClock → Text → Text → UpdateSharePermissionsRequest → Exec (World env) (Unit {0})
  update_share_permissions clock user share_id req = do
    guard (not (is_empty user || is_empty share_id)) request_required
    rec ← get_share_cached env clock.load share_id
    guard (same_text rec.owner user) not_owner
    save_permissions clock share_id (
        with_permissions rec
          (record { allow_anonymous = req.allow_anonymous; users = compact req.users }))

  unfoldable pub add_share_user : UpdateClock → Text → Text → Text → Exec (World env) (Unit {0})
  add_share_user clock user share_id new_user = do
    guard (not (is_empty user || is_empty share_id || is_empty new_user)) request_required
    rec ← get_share_cached env clock.load share_id
    guard (same_text rec.owner user) not_owner
    save_permissions clock share_id (
        with_permissions rec (record {
          allow_anonymous = rec.permissions.allow_anonymous;
          users = add_user new_user rec.permissions.users;
        }))

  unfoldable pub remove_share_user : UpdateClock → Text → Text → Text → Exec (World env) (Unit {0})
  remove_share_user clock user share_id target = do
    guard (not (is_empty user || is_empty share_id || is_empty target)) request_required
    rec ← get_share_cached env clock.load share_id
    guard (same_text rec.owner user) not_owner
    save_permissions clock share_id (
        with_permissions rec (record {
          allow_anonymous = rec.permissions.allow_anonymous;
          users = without_user target rec.permissions.users;
        }))
