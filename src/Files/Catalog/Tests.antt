-- ===== src/Files/Catalog/Tests.antt =====
-- Runs of the lists, the search and the synchronisation of files over small tables, and their theorems
-- at concrete values.
use notevault.Prelude.{
  ℕ, ◌+◌, ◌^◌, ◌≡◌, refl, none, some, List, [], ◌∷◌, map, Text, codes, same_text, has_prefix,
  drop_prefix, All,
}
use notevault.Prelude.{trim_space}
use notevault.Prelude.Assoc.{Assoc}
use notevault.Prelude.Int.{pos}
use notevault.Prelude.Result.{Result, ok, err, map_result, user_required, request_nil}
use notevault.Files.Store.{default_bucket}
use notevault.Files.Paths.{ends_with_slash}
use notevault.Files.Versions.{trim_quotes}
use notevault.Files.Catalog.{FileRow}
use notevault.Files.Catalog.Sync.{
  after_last_slash, last_path_component, on_conflict_user_key_update, row_of, sync_entries,
  sync_objects_to_db, date_prefix, on_day, sync_objects_to_db_by_date,
}
use notevault.Files.Catalog.Sync.Rows.{Preserved, sync_keeps_annotations}
use notevault.Files.Catalog.Sync.Complete.{IsRecorded, sync-Records_objects}
use notevault.Files.Catalog.Month.{
  digits, zeros, padded, year_prefix, month_prefix, ObjectInfo, listed_info, collect_files,
  list_files_by_month, list_files_this_month,
}
use notevault.Files.Catalog.Month.Exact.{IsOfMonth, plain_files, list_files_by_month_exact}
use notevault.Files.Catalog.Search.{
  SearchFilesRequest, conditions, is_asc, search_order, page_number, page_size, page_offset,
  found_info, search_files,
}
use notevault.Files.Catalog.Search.Pages.{Finds, search_files-Finds}
use notevault.Sample.Objects.{table_store, table_store-ObjectStoreLaws, slot, info_of}
use notevault.Sample.Files.{sample_like, list_files_db, list_files_db-FilesDbLaws}

abbrev vault : Text
vault = codes "vault"

abbrev ann : Text
ann = codes "ann"

abbrev report : Text
report = codes "ann/2025/09/report"

abbrev notes : Text
notes = codes "ann/2025/10/notes"

-- Two files of ann in two months, the marker of a folder, and a file of bob.
abbrev table : Assoc Text
table =
    (slot vault report, codes "R")
    ∷ (slot vault (codes "ann/2025/09/"), [])
    ∷ (slot vault notes, codes "NN")
    ∷ (slot vault (codes "bob/2025/09/x"), codes "X")
    ∷ []

abbrev format : ℕ → Text
format t = codes "1970-01-01T00:00:00Z"

-- The row of the report, to which a category was added.
abbrev filed : FileRow
filed = record (row_of ann vault 1 (info_of report (codes "old text"))) { category = codes "work" }

abbrev rows : List FileRow
rows = filed ∷ []

-- To name on the `unfolding` line of a run.
runs : Unit {0}
unfolding after_last_slash last_path_component on_conflict_user_key_update row_of sync_entries
    sync_objects_to_db date_prefix on_day sync_objects_to_db_by_date digits zeros padded year_prefix
    month_prefix listed_info collect_files list_files_by_month list_files_this_month conditions
    is_asc search_order page_number page_size page_offset found_info search_files default_bucket
    ends_with_slash trim_quotes same_text has_prefix drop_prefix trim_space plain_files
runs = tt

month_prefix_pads : month_prefix ann 2025 9 ≡ codes "ann/2025/09/"
unfolding runs
month_prefix_pads = refl

last_path_component_cuts :
    (last_path_component report ≡ codes "report")
    × ((last_path_component (codes "plain") ≡ codes "plain")
        × (last_path_component (codes "ann/docs/") ≡ codes "ann/docs/"))
unfolding runs
last_path_component_cuts = (refl, (refl, refl))

abbrev keys_of : List ObjectInfo → List Text
keys_of = map (λ f. f.object_key)

lists_a_month :
    map_result keys_of (list_files_by_month table_store format (vault ∷ []) ann 2025 9 table)
    ≡ ok (report ∷ [])
unfolding runs
lists_a_month = refl

abbrev synced : List FileRow
synced = (sync_objects_to_db list_files_db table_store (vault ∷ []) 7 ann table rows).1

abbrev places : List FileRow → List (Text × Text × ℕ)
places = map (λ r. (r.object_key, r.category, r.size))

-- The size is new, the category is kept.
sync_updates : places synced ≡ (report, codes "work", 1) ∷ (notes, [], 2) ∷ []
unfolding runs
sync_updates = refl

abbrev date : ℕ → ℕ × ℕ × ℕ
date t = (2025, 10, 1)

-- The day is tested only beside a month.
sync_of_a_month :
    places
      (sync_objects_to_db_by_date list_files_db table_store date
        (vault ∷ [])
        7
        ann
        (pos 2025)
        (pos 10)
        (pos 1)
        table
        []).1
    ≡ (notes, [], 2) ∷ []
unfolding runs
sync_of_a_month = refl

abbrev any_file : SearchFilesRequest
any_file = record {
  keyword = [];
  prefix = [];
  category = [];
  content_type = [];
  min_size = pos 0;
  max_size = pos 0;
  start = none;
  end = none;
  page = pos 0;
  page_size = pos 1;
  sort_by = [];
  sort_order = [];
}

abbrev found : SearchFilesRequest → Result (ℕ × ℕ × ℕ × List Text)
found req =
    map_result (λ r. (r.total, r.page, r.size, keys_of r.files))
      (search_files format list_files_db ann (some req) synced)

finds_pages :
    (found any_file ≡ ok (2, 1, 1, report ∷ []))
    × ((found (record any_file { page = pos 2 }) ≡ ok (2, 2, 1, notes ∷ []))
        × (found (record any_file { page = pos 3 }) ≡ ok (2, 3, 1, [])))
unfolding runs
finds_pages = (refl, (refl, refl))

finds_by_keyword :
    found (record any_file { keyword = codes " ot "; page_size = pos 500 })
    ≡ ok (1, 1, 50, notes ∷ [])
unfolding runs
finds_by_keyword = refl

-- A prefix is a prefix of the whole key, with the user in front.
prefix_wants_the_user :
    (found (record any_file { prefix = codes "2025/09/" }) ≡ ok (0, 1, 1, []))
    × (found (record any_file { prefix = codes "ann/2025/09/" }) ≡ ok (1, 1, 1, report ∷ []))
unfolding runs
prefix_wants_the_user = (refl, refl)

-- A page so far behind that its offset wraps around to a negative number is the first page.
far_page_is_first :
    found (record any_file { page = pos (2 ^ 62 + 1); page_size = pos 2 })
    ≡ ok (2, 2 ^ 62 + 1, 2, report ∷ notes ∷ [])
unfolding runs
far_page_is_first = refl

refuses_nobody :
    (search_files format list_files_db [] (some any_file) rows ≡ err user_required)
    × (search_files format list_files_db ann none rows ≡ err request_nil)
unfolding runs
refuses_nobody = (refl, refl)

sync_keeps_annotations_example :
    Preserved ann ann (some filed) (list_files_db.find ann report synced)
    × Preserved ann ann (some filed) (
        list_files_db.find ann report
          (sync_objects_to_db_by_date list_files_db table_store date
            (vault ∷ [])
            7
            ann
            (pos 2025)
            (pos 9)
            (pos 0)
            table
            rows).1)
unfolding runs
sync_keeps_annotations_example =
    sync_keeps_annotations sample_like list_files_db list_files_db-FilesDbLaws ann table_store date
      (vault ∷ []) 7 table rows ann report (pos 2025) (pos 9) (pos 0)

sync-Records_objects_example :
    ((sync_objects_to_db list_files_db table_store (vault ∷ []) 7 ann table rows).0 ≡ ok tt)
    × IsRecorded vault 7 (info_of notes (codes "NN")) (list_files_db.find ann notes synced)
unfolding runs
sync-Records_objects_example =
    sync-Records_objects sample_like list_files_db list_files_db-FilesDbLaws ann vault 7 table_store
      (vault ∷ []) table rows (info_of notes (codes "NN"))
      (ok (info_of report (codes "R")) ∷ ok (info_of (codes "ann/2025/09/") []) ∷ []) [] refl refl
      refl (tt, (tt, tt)) tt tt refl (λ rows. refl)

list_files_by_month_exact_example :
    (list_files_by_month table_store format (vault ∷ []) ann 2025 10 table
      ≡ ok (listed_info format vault (info_of notes (codes "NN")) ∷ []))
    × All (IsOfMonth ann 2025 10) (listed_info format vault (info_of notes (codes "NN")) ∷ [])
unfolding runs
list_files_by_month_exact_example =
    list_files_by_month_exact table_store table_store-ObjectStoreLaws format (vault ∷ []) vault ann
      2025 10 table refl refl (tt, tt)

search_files-Finds_example :
    Finds format sample_like list_files_db list_files_db-FilesDbLaws ann any_file synced
      (search_files format list_files_db ann (some any_file) synced)
search_files-Finds_example =
    search_files-Finds format sample_like list_files_db list_files_db-FilesDbLaws ann any_file
      synced
