-- ===== src/Files/Catalog/Month.antt =====
-- `ListFilesByMonth` and `ListFilesThisMonth` of files.go. Years are not negative; `format` renders an
-- instant as RFC 3339.
pub mod Exact
use notevault.Prelude.{
  ℕ, zero, suc, ◌+◌, ◌-◌, true, false, List, [], ◌∷◌, ◌++◌, Text, is_empty, length, ltb,
  if◌then◌else◌,
}
use notevault.Prelude.{◌/◌, ◌%◌}
use notevault.Prelude.Result.{Error, Result, ok, err, user_required, list_failed}
use notevault.Files.Store
use notevault.Files.Store.{ObjectStore, default_bucket, home}
use notevault.Files.Paths.{ends_with_slash}
use notevault.Files.Versions.{trim_quotes}

-- The decimal digits of a number, on as much fuel as the number; the first digit drops out last.
unfoldable pub digits : ℕ → ℕ → Text
digits zero n = []
digits (suc fuel) n =
    let front = digits fuel (n / 10) in
    if ltb n 10 then (b'0' + n) ∷ [] else front ++ (b'0' + n % 10) ∷ []

unfoldable pub zeros : ℕ → Text
zeros zero = []
zeros (suc n) = b'0' ∷ zeros n

-- `%04d` and `%02d` at their widths
unfoldable pub padded : ℕ → ℕ → Text
unfolding digits zeros
padded width n = let ds = digits (suc n) n in zeros (width - length ds) ++ ds

unfoldable pub year_prefix : Text → ℕ → Text
unfolding padded
year_prefix user year = home user ++ (padded 4 year ++ b'/' ∷ [])

unfoldable pub month_prefix : Text → ℕ → ℕ → Text
unfolding padded
month_prefix user year month = home user ++ (padded 4 year ++ b'/' ∷ (padded 2 month ++ b'/' ∷ []))

-- `types.ObjectInfo`
pub record ObjectInfo : Type 0 where
  pub object_key : Text
  pub size : ℕ
  pub etag : Text
  pub content_type : Text
  pub last_modified : Text
  pub version_id : Text
  pub storage_class : Text
  pub bucket : Text
  pub user_metadata : List (Text × Text)

unfoldable pub listed_info : (ℕ → Text) → Text → Store.ObjectInfo → ObjectInfo
unfolding trim_quotes
listed_info format bucket obj = record {
  object_key = obj.key;
  size = obj.size;
  etag = trim_quotes obj.etag;
  content_type = [];
  last_modified = format obj.last_modified;
  version_id = obj.version_id;
  storage_class = obj.storage_class;
  bucket = bucket;
  user_metadata = [];
}

-- `for obj := range ch`
unfoldable pub collect_files :
    (ℕ → Text) → Text → List (Result Store.ObjectInfo) → List ObjectInfo → Result (List ObjectInfo)
unfolding listed_info ends_with_slash
collect_files format bucket [] files = ok files
collect_files format bucket (err e ∷ entries) files = err (list_failed e)
collect_files format bucket (ok obj ∷ entries) files =
    collect_files format bucket entries
      (if ends_with_slash obj.key then files else files ++ listed_info format bucket obj ∷ [])

unfoldable pub list_files_by_month :
    (s : ObjectStore)
    → (ℕ → Text)
    → List Text
    → Text
    → (year month : ℕ) → s.Objects
    → Result (List ObjectInfo)
unfolding default_bucket month_prefix collect_files
list_files_by_month s format buckets user year month o =
    if is_empty user then err user_required else elim (default_bucket buckets) [
      | err e ↦ err e
      | ok bucket ↦
          collect_files format bucket (s.list bucket (month_prefix user year month) true false o) []
    ]

-- `date` gives the year, the month and the day of an instant in UTC.
unfoldable pub list_files_this_month :
    (s : ObjectStore)
    → (ℕ → Text)
    → (ℕ → ℕ × ℕ × ℕ)
    → List Text
    → Text
    → (now : ℕ) → s.Objects
    → Result (List ObjectInfo)
unfolding list_files_by_month
list_files_this_month s format date buckets user now o =
    let (y, m, d) = date now in list_files_by_month s format buckets user y m o
