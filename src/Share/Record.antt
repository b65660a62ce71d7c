-- ===== src/Share/Record.antt =====
-- pkg/internal/model/share.go and pkg/internal/types/shares.go: a share as the services hold it, as
-- a row of the database and as clients see it, with the conversions.
use notevault.Prelude.{
  ℕ, ◌≡◌, inl, inr, Bool, false, Option, List, [], arith, Text, is_empty, if◌then◌else◌,
}
use notevault.Prelude.Result.{Result, ok, err, marshal_failed, unmarshal_failed, Result-cases}
use notevault.Prelude.Int.{ℤ}
use notevault.Prelude.Codec.{Codec, IsJson}

pub record SharePermissions : Type 0 where
  pub allow_anonymous : Bool
  pub users : List Text

-- `shareRecord` and `model.ShareRecord`, which the source casts into one another. Instants are in
-- nanoseconds; a nil `*time.Time` is `none`.
pub record ShareRecord : Type 0 where
  pub share_id : Text
  pub owner : Text
  pub object_keys : List Text
  pub created_at : ℕ
  pub expire_at : Option ℕ
  pub allow_download : Bool
  pub password_hash : Text
  pub permissions : SharePermissions

-- A row of the table of shares. Rows that are marked as deleted are the database's own business.
pub record Share : Type 0 where
  pub share_id : Text
  pub owner : Text
  pub object_keys_json : Text
  pub allow_download : Bool
  pub password_hash : Text
  pub permissions_json : Text
  pub created_at : ℕ
  pub updated_at : ℕ
  pub expire_at : Option ℕ

pub record ShareInfo : Type 0 where
  pub share_id : Text
  pub owner : Text
  pub object_keys : List Text
  pub created_at : ℕ
  pub expire_at : Option ℕ
  pub allow_download : Bool

pub record CreateShareRequest : Type 0 where
  pub object_keys : List Text
  pub password : Text
  pub expire_days : ℤ
  pub allow_download : Bool

pub record UpdateSharePermissionsRequest : Type 0 where
  pub allow_anonymous : Bool
  pub users : List Text

pub record GetSharePermissionsResponse : Type 0 where
  pub share_id : Text
  pub permissions : SharePermissions

unfoldable pub to_info : ShareRecord → ShareInfo
to_info r = record {
  share_id = r.share_id;
  owner = r.owner;
  object_keys = r.object_keys;
  created_at = r.created_at;
  expire_at = r.expire_at;
  allow_download = r.allow_download;
}

-- A column that holds JSON: an empty text stands for the zero value.
abbrev column : {A : Type 0} → A → Codec A → Text → Result A
column zero_value json t =
    if is_empty t
    then ok zero_value
    else elim (json.unmarshal t) [ ok a ↦ ok a | err e ↦ err (unmarshal_failed e) ]

module _ (keys_json : Codec (List Text)) (perms_json : Codec SharePermissions) where
  abbrev with_columns : Share → Result (List Text) → Result SharePermissions → Result ShareRecord
  with_columns s (err e) ps = err e
  with_columns s (ok ks) (err e) = err e
  with_columns s (ok ks) (ok ps) = ok (record {
    share_id = s.share_id;
    owner = s.owner;
    object_keys = ks;
    created_at = s.created_at;
    expire_at = s.expire_at;
    allow_download = s.allow_download;
    password_hash = s.password_hash;
    permissions = ps;
  })

  unfoldable pub to_record : Share → Result ShareRecord
  to_record s =
      with_columns s (column [] keys_json s.object_keys_json)
        (column (record { allow_anonymous = false; users = [] }) perms_json s.permissions_json)

  abbrev with_texts : ShareRecord → Result Text → Result Text → Result Share
  with_texts r (err e) ps = err (marshal_failed e)
  with_texts r (ok ks) (err e) = err (marshal_failed e)
  with_texts r (ok ks) (ok ps) = ok (record {
    share_id = r.share_id;
    owner = r.owner;
    object_keys_json = ks;
    allow_download = r.allow_download;
    password_hash = r.password_hash;
    permissions_json = ps;
    created_at = r.created_at;
    updated_at = 0;
    expire_at = r.expire_at;
  })

  unfoldable pub from_record : ShareRecord → Result Share
  from_record r = with_texts r (keys_json.marshal r.object_keys) (perms_json.marshal r.permissions)

  module _ (keys_law : IsJson keys_json) (perms_law : IsJson perms_json) where
    -- A record that was written to a row is read back from it, whatever the time of the update.
    pub to_record-from_record :
        (r : ShareRecord) (row : Share) (t : ℕ)
        → from_record r ≡ ok row
        → to_record (record row { updated_at = t }) ≡ ok r
    unfolding to_record from_record
    to_record-from_record r row t h = elim (Result-cases (keys_json.marshal r.object_keys)) [
      | inl (ks, k) ↦ elim (Result-cases (perms_json.marshal r.permissions)) [
        | inl (ps, p) ↦ ground (
          arith,
          keys_law.round_trip r.object_keys ks k,
          keys_law.not_empty r.object_keys ks k,
          perms_law.round_trip r.permissions ps p,
          perms_law.not_empty r.permissions ps p,
        )
        | inr (e, q) ↦ ground arith
      ]
      | inr (e, q) ↦ ground arith
    ]
