-- ===== src/Prelude/Result.antt =====
-- Go's `(value, error)` results as values, and methods that change a state and may fail: what was
-- written before an error stays written, so the state comes back beside the error too.
use mathlib.Core.Path.{◌≡◌, refl}
use mathlib.Core.Logic.{◌⊎◌, inl, inr}
use notevault.Prelude.Texts.{Text}

-- The errors that the modelled code returns or passes on, one constructor for each message.
pub data Error : Type 0 where
  -- an error that comes from outside the repository: a database, an object store, a codec
  external : Text → Error
  key_not_found unsupported_kv_type : Text → Error
  get_failed set_failed delete_failed check_failed keys_failed : Error → Error
  marshal_failed unmarshal_failed : Error → Error
  db_not_initialized kv_client_nil s3_not_initialized no_bucket_configured : Error
  -- pkg/internal/service/shares.go
  user_required object_keys_required share_id_required request_required : Error
  share_expired invalid_password not_owner : Error
  download_not_allowed no_object_in_share multiple_objects : Error
  -- pkg/internal/service/files_*.go and file_helper.go
  access_denied source_access_denied destination_access_denied : Error
  folder_not_found folder_not_empty : Error
  remove_source_failed list_failed copy_failed stat_failed new_version_failed : Error → Error
  cache_miss request_nil : Error
  count_failed query_failed : Error → Error
  upload_failed open_failed : Error → Error
  presign_file_failed : Text → Error → Error
  create_share_failed list_shares_failed presign_failed : Error → Error

pub data Result {ℓ} (A : Type ℓ) : Type ℓ where
  ok : A → Result A
  err : Error → Result A

abbrev pub map_result {ℓ κ} : {A : Type ℓ} {B : Type κ} → (A → B) → Result A → Result B
map_result f (ok a) = ok (f a)
map_result f (err e) = err e

-- `if err != nil { return fmt.Errorf("...: %w", err) }`
abbrev pub wrap_error {ℓ} : {A : Type ℓ} → (Error → Error) → Result A → Result A
wrap_error w (ok a) = ok a
wrap_error w (err e) = err (w e)

pub Result-cases {ℓ} :
    {A : Type ℓ} (r : Result A) → ((a : A) × (r ≡ ok a)) ⊎ ((e : Error) × (r ≡ err e))
Result-cases (ok a) = inl (a, refl)
Result-cases (err e) = inr (e, refl)
