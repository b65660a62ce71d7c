-- ===== src/Files/Catalog/Search.antt =====
-- `SearchFiles` of files.go.
pub mod Pages
use notevault.Prelude.{
  ℕ, ◌+◌, ◌-◌, Bool, true, false, not, ◌||◌, Option, none, some, List, [], ◌∷◌, ◌++◌, map, Text,
  codes, is_empty, same_text, ltb, ◌==◌, if◌then◌else◌,
}
use notevault.Prelude.{trim_space, to_lower}
use notevault.Prelude.Result.{
  Error, Result, ok, err, user_required, request_nil, count_failed, query_failed,
}
use notevault.Prelude.Int.{ℤ, pos, negsuc, is_positive, pos_part, mul_int64}
use notevault.Files.Catalog.{
  FileRow, Condition, user_is, object_key_like, category_is, content_type_like, size_ge, size_le,
  last_modified_ge, last_modified_le, keyword_like, Order, FilesDb,
}
use notevault.Files.Catalog.Month.{ObjectInfo}

-- `none` is the zero time.
pub record SearchFilesRequest : Type 0 where
  pub keyword : Text
  pub prefix : Text
  pub category : Text
  pub content_type : Text
  pub min_size : ℤ
  pub max_size : ℤ
  pub start : Option ℕ
  pub end : Option ℕ
  pub page : ℤ
  pub page_size : ℤ
  pub sort_by : Text
  pub sort_order : Text

pub record SearchFilesResponse : Type 0 where
  pub total : ℕ
  pub page : ℕ
  pub size : ℕ
  pub files : List ObjectInfo

-- `if test { dbx = dbx.Where(c) }`
abbrev pub where_if : Bool → Condition → List Condition → List Condition
where_if true c cs = c ∷ cs
where_if false c cs = cs

abbrev pub where_some : (ℕ → Condition) → Option ℕ → List Condition → List Condition
where_some c none cs = cs
where_some c (some t) cs = c t ∷ cs

unfoldable pub conditions : Text → SearchFilesRequest → List Condition
unfolding trim_space
conditions user req =
    let kw = b'%' ∷ (trim_space req.keyword ++ b'%' ∷ []) in
    user_is user
    ∷ where_if (not (is_empty req.prefix)) (object_key_like (req.prefix ++ b'%' ∷ [])) (
        where_if (not (is_empty req.category)) (category_is req.category) (
          where_if (not (is_empty req.content_type))
            (content_type_like (req.content_type ++ b'%' ∷ []))
            (where_if (is_positive req.min_size) (size_ge (pos_part req.min_size)) (
              where_if (is_positive req.max_size) (size_le (pos_part req.max_size)) (
                where_some last_modified_ge req.start (
                  where_some last_modified_le req.end
                    (where_if (not (is_empty (trim_space req.keyword))) (keyword_like kw) [])))))))

-- `strings.EqualFold(s, "asc")`: besides the capital, `ſ` folds to `s`, and `İ` folds to no letter
-- of ASCII.
fold_code : ℕ → ℕ
fold_code c = if c == 0x17f then b's' else if c == 0x130 then 0 else c

unfoldable pub is_asc : Text → Bool
unfolding fold_code same_text
is_asc s = same_text (to_lower (map fold_code s)) (codes "asc")

unfoldable pub search_order : SearchFilesRequest → Order
unfolding same_text is_asc
search_order req = record {
  by_size = same_text req.sort_by (codes "size");
  ascending = is_asc req.sort_order;
}

unfoldable pub page_number : ℤ → ℕ
page_number page = if is_positive page then pos_part page else 1

unfoldable pub page_size : ℤ → ℕ
page_size size = if not (is_positive size) || ltb 200 (pos_part size) then 50 else pos_part size

-- `(page - 1) * size`, which wraps around; the query builder leaves an offset out that is not positive.
unfoldable pub page_offset : ℕ → ℕ → ℕ
page_offset page size = pos_part (mul_int64 (pos (page - 1)) size)

module _ (format : ℕ → Text) where
  unfoldable pub found_info : FileRow → ObjectInfo
  found_info r = record {
    object_key = r.object_key;
    size = r.size;
    etag = r.etag;
    content_type = r.content_type;
    last_modified = format r.last_modified;
    version_id = r.version_id;
    storage_class = r.storage_class;
    bucket = r.bucket;
    user_metadata = [];
  }

  unfoldable pub search_files :
      (db : FilesDb) → Text → Option SearchFilesRequest → db.Rows → Result SearchFilesResponse
  unfolding conditions search_order page_number page_size page_offset found_info
  search_files db user none rows = if is_empty user then err user_required else err request_nil
  search_files db user (some req) rows =
      let page = page_number req.page in
      let size = page_size req.page_size in
      if is_empty user then err user_required else elim (db.count (conditions user req) rows) [
        | err e ↦ err (count_failed e)
        | ok total ↦
            elim (db.page (conditions user req) (search_order req) (page_offset page size) size
              rows) [
                | err e ↦ err (query_failed e)
                | ok found ↦ ok (record {
                  total = total;
                  page = page;
                  size = size;
                  files = map found_info found;
                })
              ]
      ]
