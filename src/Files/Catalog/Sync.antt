-- ===== src/Files/Catalog/Sync.antt =====
-- `SyncObjectsToDB` and `SyncObjectsToDBByDate` of files.go.
pub mod Rows
pub mod Complete
use notevault.Prelude.{
  ℕ, ◌-◌, refl, Bool, true, false, not, ◌&&◌, ◌||◌, Option, none, some, List, [], ◌∷◌, Text,
  is_empty, ◌==◌, if◌then◌else◌,
}
use notevault.Prelude.Result.{Error, Result, ok, err, user_required, list_failed}
use notevault.Prelude.Int.{ℤ, is_positive, pos_part}
use notevault.Files.Store.{ObjectInfo, ObjectStore, default_bucket, home}
use notevault.Files.Paths.{ends_with_slash}
use notevault.Files.Versions.{trim_quotes}
use notevault.Files.Catalog.{FileRow, FilesDb, KeepsPlace}
use notevault.Files.Catalog.Month.{year_prefix, month_prefix}

-- What stands behind the last `/` of a text that has one.
unfoldable pub after_last_slash : Text → Option Text
after_last_slash [] = none
after_last_slash (c ∷ s) =
    let rest = after_last_slash s in
    elim rest [ some name ↦ some name | none ↦ if c == b'/' then some s else none ]

unfoldable pub last_path_component : Text → Text
unfolding after_last_slash
last_path_component key = elim (after_last_slash key) [
  | none ↦ key
  | some name ↦ if is_empty name then key else name
]

-- `onConflictUserKeyUpdate`: the assignments to the row that is there.
unfoldable pub on_conflict_user_key_update : FileRow → FileRow → FileRow
on_conflict_user_key_update new old = record old {
  file_name = new.file_name;
  size = new.size;
  etag = new.etag;
  content_type = if is_empty new.content_type then old.content_type else new.content_type;
  bucket = new.bucket;
  version_id = new.version_id;
  storage_class = new.storage_class;
  last_modified = new.last_modified;
  updated_at = new.updated_at;
}

pub on_conflict_user_key_update-KeepsPlace : KeepsPlace on_conflict_user_key_update
unfolding on_conflict_user_key_update
on_conflict_user_key_update-KeepsPlace = λ new old. (refl, refl)

-- The record of a listed object.
unfoldable pub row_of : Text → Text → ℕ → ObjectInfo → FileRow
unfolding last_path_component trim_quotes
row_of user bucket now obj = record {
  user = user;
  object_key = obj.key;
  file_name = last_path_component obj.key;
  size = obj.size;
  etag = trim_quotes obj.etag;
  content_type = [];
  category = [];
  description = [];
  tags_json = [];
  bucket = bucket;
  version_id = obj.version_id;
  storage_class = obj.storage_class;
  last_modified = obj.last_modified;
  updated_at = now;
}

module _ (db : FilesDb) where
  -- `for obj := range ch`: `keep` is the test of the day. A failed statement is only logged.
  unfoldable pub sync_entries :
      (ObjectInfo → Bool)
      → Text
      → Text
      → ℕ
      → List (Result ObjectInfo)
      → db.Rows
      → Result (Unit {0}) × db.Rows
  unfolding row_of on_conflict_user_key_update ends_with_slash
  sync_entries keep user bucket now [] rows = (ok tt, rows)
  sync_entries keep user bucket now (err e ∷ entries) rows = (err (list_failed e), rows)
  sync_entries keep user bucket now (ok obj ∷ entries) rows =
      sync_entries keep user bucket now entries (
        if ends_with_slash obj.key || not (keep obj)
        then rows
        else (db.upsert on_conflict_user_key_update (row_of user bucket now obj) rows).1)

  unfoldable pub sync_objects_to_db :
      (s : ObjectStore) → List Text → ℕ → Text → s.Objects → db.Rows → Result (Unit {0}) × db.Rows
  unfolding default_bucket sync_entries
  sync_objects_to_db s buckets now user o rows =
      if is_empty user then (err user_required, rows) else elim (default_bucket buckets) [
        | err e ↦ (err e, rows)
        | ok bucket ↦
            sync_entries (λ obj. true) user bucket now (s.list bucket (home user) true false o) rows
      ]

-- `time.Time.Date`: year, month and day of an instant in UTC.
abbrev pub Date : Type 0
Date = ℕ → ℕ × ℕ × ℕ

-- The prefix that a year and a month choose.
unfoldable pub date_prefix : Text → ℤ → ℤ → Text
unfolding year_prefix month_prefix
date_prefix user year month =
    if is_positive year && is_positive month
    then month_prefix user (pos_part year) (pos_part month)
    else if is_positive year
    then year_prefix user (pos_part year)
    else home user

-- The test of the day, where all three are given.
unfoldable pub on_day : Date → ℤ → ℤ → ℤ → ObjectInfo → Bool
on_day date year month day obj =
    let (y, m, d) = date obj.last_modified in
    if is_positive year && is_positive month && is_positive day
    then (y == pos_part year) && (m == pos_part month) && (d == pos_part day)
    else true

unfoldable pub sync_objects_to_db_by_date :
    (db : FilesDb) (s : ObjectStore)
    → Date
    → List Text
    → ℕ
    → Text
    → (year month day : ℤ) → s.Objects
    → db.Rows
    → Result (Unit {0}) × db.Rows
unfolding default_bucket sync_entries date_prefix on_day
sync_objects_to_db_by_date db s date buckets now user year month day o rows =
    if is_empty user then (err user_required, rows) else elim (default_bucket buckets) [
      | err e ↦ (err e, rows)
      | ok bucket ↦
          sync_entries db (on_day date year month day) user bucket now
            (s.list bucket (date_prefix user year month) true false o) rows
    ]
