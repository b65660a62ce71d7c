-- ===== src/Files/Versions.antt =====
-- pkg/internal/service/files_versions.go: the versions of an object. `format` is Go's rendering of an
-- instant in UTC as RFC 3339.
pub mod Listing
pub mod Frame
use notevault.Prelude.{
  ℕ, ◌+◌, Bool, true, false, not, ◌&&◌, ◌||◌, Option, none, some, List, [], ◌∷◌, ◌++◌, Text, codes,
  is_empty, same_text, has_prefix, length, ltb, ◌==◌, if◌then◌else◌,
}
use notevault.Prelude.{trim_space}
use notevault.Prelude.{to_lower}
use mathlib.Core.List.{reverse}
use notevault.Prelude.Result.{
  Error, Result, ok, err, access_denied, stat_failed, list_failed, new_version_failed,
}
use notevault.Files.Store.{
  ObjectInfo, CopyDest, CopySrc, ObjectStore, plain_dest, default_bucket, home,
}

pub record FileVersionInfo : Type 0 where
  pub object_key : Text
  pub version_id : Text
  pub is_latest : Bool
  pub size : ℕ
  pub etag : Text
  pub content_type : Text
  pub last_modified : Text
  pub storage_class : Text
  pub bucket : Text
  pub user_metadata : List (Text × Text)

pub record ListFileVersionsResponse : Type 0 where
  pub file_id : Text
  pub versions : List FileVersionInfo
  pub total : ℕ

pub record CreateFileVersionRequest : Type 0 where
  pub object_key : Text
  pub base_version : Text
  pub content_type : Text
  pub user_meta : List (Text × Text)

pub record CreateFileVersionResponse : Type 0 where
  pub object_key : Text
  pub version_id : Text
  pub success : Bool

-- `none` is the empty error text.
pub record DeleteFileVersionResponse : Type 0 where
  pub object_key : Text
  pub version_id : Text
  pub success : Bool
  pub error : Option Error

pub record RestoreFileVersionResponse : Type 0 where
  pub object_key : Text
  pub from_version : Text
  pub restored_as : Text
  pub success : Bool
  pub error : Option Error

-- `strings.Trim(s, "\"")`
drop_quotes : Text → Text
drop_quotes [] = []
drop_quotes (c ∷ s) = let rest = drop_quotes s in if c == b'"' then rest else c ∷ s

unfoldable pub trim_quotes : Text → Text
unfolding drop_quotes
trim_quotes s = reverse (drop_quotes (reverse (drop_quotes s)))

-- `scope == "current" || scope == ""`, after the scope is made standard
unfoldable pub asks_current : Text → Bool
unfolding trim_space same_text
asks_current scope =
    let scope = to_lower (trim_space scope) in same_text scope (codes "current") || is_empty scope

-- The guard of every operation.
abbrev pub may_touch : Text → Text → Bool
may_touch user key = not (is_empty user) && has_prefix key (home user)

module _ (format : ℕ → Text) (bucket key : Text) where
  abbrev pub current_version : ObjectInfo → FileVersionInfo
  current_version info = record {
    object_key = key;
    version_id = info.version_id;
    is_latest = true;
    size = info.size;
    etag = trim_quotes info.etag;
    content_type = info.content_type;
    last_modified = format info.last_modified;
    storage_class = info.storage_class;
    bucket = bucket;
    user_metadata = info.user_metadata;
  }

  -- A version of the listing with the answer of `StatObject`; where that fails, with what the listing
  -- has of it.
  abbrev pub listed_version : ObjectInfo → Result ObjectInfo → FileVersionInfo
  listed_version obj (ok st) = record {
    object_key = key;
    version_id = st.version_id;
    is_latest = obj.is_latest;
    size = st.size;
    etag = trim_quotes st.etag;
    content_type = st.content_type;
    last_modified = format st.last_modified;
    storage_class = st.storage_class;
    bucket = bucket;
    user_metadata = st.user_metadata;
  }
  listed_version obj (err e) = record {
    object_key = key;
    version_id = obj.version_id;
    is_latest = obj.is_latest;
    size = obj.size;
    etag = trim_quotes obj.etag;
    content_type = [];
    last_modified = format obj.last_modified;
    storage_class = obj.storage_class;
    bucket = bucket;
    user_metadata = [];
  }

abbrev pub respond_versions : Text → List FileVersionInfo → ListFileVersionsResponse
respond_versions key versions = record {
  file_id = key;
  versions = versions;
  total = length versions;
}

-- The objects that the loop keeps: the versions of the key, without the deletion markers.
abbrev pub is_version_of : Text → ObjectInfo → Bool
is_version_of key obj = same_text obj.key key && not obj.is_delete_marker

module _ (s : ObjectStore) (format : ℕ → Text) where
  -- `for obj := range ch`
  unfoldable pub collect_versions :
      Text
      → Text
      → s.Objects
      → List (Result ObjectInfo)
      → List FileVersionInfo
      → Result (List FileVersionInfo)
  collect_versions bucket key o [] versions = ok versions
  collect_versions bucket key o (err e ∷ entries) versions = err (list_failed e)
  collect_versions bucket key o (ok obj ∷ entries) versions =
      let version = listed_version format bucket key obj (s.stat bucket key obj.version_id o) in
      collect_versions bucket key o entries
        (if is_version_of key obj then versions ++ version ∷ [] else versions)

  -- The last resort where no version was found.
  abbrev pub or_current : Text → Text → s.Objects → List FileVersionInfo → List FileVersionInfo
  or_current bucket key o (v ∷ vs) = v ∷ vs
  or_current bucket key o [] = elim (s.stat bucket key [] o) [
    | ok info ↦ current_version format bucket key info ∷ []
    | err e ↦ []
  ]

  unfoldable pub list_file_versions :
      List Text → Text → Text → Text → s.Objects → Result ListFileVersionsResponse
  unfolding default_bucket asks_current collect_versions
  list_file_versions buckets user key scope o =
      if not (may_touch user key) then err access_denied else elim (default_bucket buckets) [
        | err e ↦ err e
        | ok bucket ↦
            if asks_current scope
            then elim (s.stat bucket key [] o) [
              | err e ↦ err (stat_failed e)
              | ok info ↦ ok (respond_versions key (current_version format bucket key info ∷ []))
            ]
            else elim (collect_versions bucket key o (s.list bucket key true true o) []) [
              | err e ↦ err e
              | ok versions ↦ ok (respond_versions key (or_current bucket key o versions))
            ]
      ]

module _ (s : ObjectStore) where
  abbrev version_src : Text → Text → Text → CopySrc
  version_src bucket key version = record { bucket = bucket; object = key; version_id = version }

  -- `req.ContentType != "" || len(req.UserMeta) > 0`
  abbrev new_version_dest : Text → CreateFileVersionRequest → CopyDest
  new_version_dest bucket req = record {
    bucket = bucket;
    object = req.object_key;
    replace_metadata = not (is_empty req.content_type) || ltb 0 (length req.user_meta);
    content_type = req.content_type;
    user_metadata = req.user_meta;
  }

  unfoldable pub create_file_version :
      List Text
      → Text
      → CreateFileVersionRequest
      → s.Objects
      → Result CreateFileVersionResponse × s.Objects
  unfolding default_bucket
  create_file_version buckets user req o =
      if not (may_touch user req.object_key)
      then (err access_denied, o)
      else elim (default_bucket buckets) [
        | err e ↦ (err e, o)
        | ok bucket ↦
            let (r, o') =
              s.copy (new_version_dest bucket req)
                (version_src bucket req.object_key req.base_version) o in
            elim r [
              | err e ↦ (err (new_version_failed e), o')
              | ok v ↦
                  (ok (record { object_key = req.object_key; version_id = v; success = true }), o')
            ]
      ]

  unfoldable pub delete_file_version :
      List Text → Text → Text → Text → s.Objects → Result DeleteFileVersionResponse × s.Objects
  unfolding default_bucket
  delete_file_version buckets user key version o =
      if not (may_touch user key) then (err access_denied, o) else elim (default_bucket buckets) [
        | err e ↦ (err e, o)
        | ok bucket ↦
            let (r, o') = s.remove bucket key version o in
            elim r [
              | err e ↦ (
                ok (record {
                  object_key = key;
                  version_id = version;
                  success = false;
                  error = some e;
                }),
                o',
              )
              | ok u ↦ (
                ok (record {
                  object_key = key;
                  version_id = version;
                  success = true;
                  error = none;
                }),
                o',
              )
            ]
      ]

  unfoldable pub restore_file_version :
      List Text → Text → Text → Text → s.Objects → Result RestoreFileVersionResponse × s.Objects
  unfolding default_bucket
  restore_file_version buckets user key version o =
      if not (may_touch user key) then (err access_denied, o) else elim (default_bucket buckets) [
        | err e ↦ (err e, o)
        | ok bucket ↦
            let (r, o') = s.copy (plain_dest bucket key) (version_src bucket key version) o in
            elim r [
              | err e ↦ (
                ok (record {
                  object_key = key;
                  from_version = version;
                  restored_as = [];
                  success = false;
                  error = some e;
                }),
                o',
              )
              | ok v ↦ (
                ok (record {
                  object_key = key;
                  from_version = version;
                  restored_as = v;
                  success = true;
                  error = none;
                }),
                o',
              )
            ]
      ]
