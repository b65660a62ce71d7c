-- ===== src/Files/Operations.antt =====
-- pkg/internal/service/files_operations.go: batches of deletions, metadata updates, copies and moves.
pub mod Counts
pub mod Frame
pub mod Effects
use notevault.Prelude.{
  ℕ, ◌+◌, Bool, true, false, not, Option, none, some, List, [], ◌∷◌, ◌++◌, Text, has_prefix, length,
  if◌then◌else◌,
}
use notevault.Prelude.Result.{
  Error, Result, ok, err, access_denied, source_access_denied, destination_access_denied,
  remove_source_failed,
}
use notevault.Files.Store.{ObjectStore, CopyDest, plain_dest, plain_src, default_bucket, home}

-- A result of `DeleteFiles` and `UpdateFilesMetadata`; `none` is the empty error text.
pub record KeyResult : Type 0 where
  pub object_key : Text
  pub success : Bool
  pub error : Option Error

-- A result of `CopyFiles` and `MoveFiles`.
pub record PairResult : Type 0 where
  pub source_key : Text
  pub destination_key : Text
  pub success : Bool
  pub error : Option Error

pub record PairItem : Type 0 where
  pub source_key : Text
  pub destination_key : Text

-- The fields that the code does not read (Description, Category, IsPublic) are left out.
pub record UpdateFileMetadataItem : Type 0 where
  pub object_key : Text
  pub tags : List (Text × Text)
  pub content_type : Text

pub record BatchResponse (R : Type 0) : Type 0 where
  pub results : List R
  pub total : ℕ
  pub success : ℕ
  pub failed : ℕ

-- The variables of the loops.
pub record Tally (s : ObjectStore) (R : Type 0) : Type 0 where
  pub results : List R
  pub success : ℕ
  pub failed : ℕ
  pub objects : s.Objects

abbrev metadata_dest : Text → UpdateFileMetadataItem → CopyDest
metadata_dest bucket item = record {
  bucket = bucket;
  object = item.object_key;
  replace_metadata = true;
  content_type = item.content_type;
  user_metadata = item.tags;
}

module _ (s : ObjectStore) where
  -- `results = append(results, result); failed++`, and `success++`
  abbrev pub count_failed : {R : Type 0} → R → s.Objects → Tally s R → Tally s R
  count_failed r o t = record t {
    results = t.results ++ r ∷ [];
    failed = t.failed + 1;
    objects = o;
  }

  abbrev pub count_success : {R : Type 0} → R → s.Objects → Tally s R → Tally s R
  count_success r o t = record t {
    results = t.results ++ r ∷ [];
    success = t.success + 1;
    objects = o;
  }

  abbrev key_failed : Text → Error → KeyResult
  key_failed key e = record { object_key = key; success = false; error = some e }

  abbrev key_done : Text → KeyResult
  key_done key = record { object_key = key; success = true; error = none }

  abbrev pair_failed : PairItem → Error → PairResult
  pair_failed i e = record {
    source_key = i.source_key;
    destination_key = i.destination_key;
    success = false;
    error = some e;
  }

  abbrev pair_done : PairItem → PairResult
  pair_done i = record {
    source_key = i.source_key;
    destination_key = i.destination_key;
    success = true;
    error = none;
  }

  -- The bodies of the loops.
  unfoldable pub delete_one : Text → Text → Text → Tally s KeyResult → Tally s KeyResult
  delete_one user bucket key t =
      if not (has_prefix key (home user))
      then count_failed (key_failed key access_denied) t.objects t
      else let (r, o) = s.remove bucket key [] t.objects in
        elim r [
          | ok u ↦ count_success (key_done key) o t
          | err e ↦ count_failed (key_failed key e) o t
        ]

  unfoldable pub update_one :
      Text → Text → UpdateFileMetadataItem → Tally s KeyResult → Tally s KeyResult
  update_one user bucket item t =
      if not (has_prefix item.object_key (home user))
      then count_failed (key_failed item.object_key access_denied) t.objects t
      else let (r, o) =
          s.copy (metadata_dest bucket item) (plain_src bucket item.object_key) t.objects in
        elim r [
          | ok v ↦ count_success (key_done item.object_key) o t
          | err e ↦ count_failed (key_failed item.object_key e) o t
        ]

  -- The two tests of an item, before the copy.
  abbrev pair_denied : Text → PairItem → Option Error
  pair_denied user i =
      if not (has_prefix i.source_key (home user))
      then some source_access_denied
      else if not (has_prefix i.destination_key (home user))
      then some destination_access_denied
      else none

  unfoldable pub copy_one : Text → Text → PairItem → Tally s PairResult → Tally s PairResult
  copy_one user bucket i t = elim (pair_denied user i) [
    | some e ↦ count_failed (pair_failed i e) t.objects t
    | none ↦
        let (r, o) =
          s.copy (plain_dest bucket i.destination_key) (plain_src bucket i.source_key) t.objects in
        elim r [
          | ok v ↦ count_success (pair_done i) o t
          | err e ↦ count_failed (pair_failed i e) o t
        ]
  ]

  -- The deletion of the source of a move, after the copy.
  abbrev finish_move :
      PairItem → Tally s PairResult → Result (Unit {0}) × s.Objects → Tally s PairResult
  finish_move i t (ok u, o) = count_success (pair_done i) o t
  finish_move i t (err e, o) = count_failed (pair_failed i (remove_source_failed e)) o t

  unfoldable pub move_one : Text → Text → PairItem → Tally s PairResult → Tally s PairResult
  move_one user bucket i t = elim (pair_denied user i) [
    | some e ↦ count_failed (pair_failed i e) t.objects t
    | none ↦
        let (r, o) =
          s.copy (plain_dest bucket i.destination_key) (plain_src bucket i.source_key) t.objects in
        elim r [
          | ok v ↦ finish_move i t (s.remove bucket i.source_key [] o)
          | err e ↦ count_failed (pair_failed i e) o t
        ]
  ]

  -- `for _, item := range req.Items`
  unfoldable pub loop :
      {I R : Type 0} → (I → Tally s R → Tally s R) → List I → Tally s R → Tally s R
  loop body [] t = t
  loop body (i ∷ is) t = loop body is (body i t)

  abbrev pub begin : {R : Type 0} → s.Objects → Tally s R
  begin o = record { results = []; success = 0; failed = 0; objects = o }

  abbrev respond : {I R : Type 0} → List I → Tally s R → Result (BatchResponse R) × s.Objects
  respond items t = (
    ok (record {
      results = t.results;
      total = length items;
      success = t.success;
      failed = t.failed;
    }),
    t.objects,
  )

  -- The frame of the four operations: the bucket, the loop and the response.
  abbrev pub run :
      {I R : Type 0}
      → (Text → I → Tally s R → Tally s R)
      → List Text
      → List I
      → s.Objects
      → Result (BatchResponse R) × s.Objects
  run body buckets items o = elim (default_bucket buckets) [
    | err e ↦ (err e, o)
    | ok bucket ↦ respond items (loop (body bucket) items (begin o))
  ]

  unfoldable pub delete_files :
      List Text → Text → List Text → s.Objects → Result (BatchResponse KeyResult) × s.Objects
  unfolding delete_one loop default_bucket
  delete_files buckets user keys o = run (delete_one user) buckets keys o

  unfoldable pub update_files_metadata :
      List Text
      → Text
      → List UpdateFileMetadataItem
      → s.Objects
      → Result (BatchResponse KeyResult) × s.Objects
  unfolding update_one loop default_bucket
  update_files_metadata buckets user items o = run (update_one user) buckets items o

  unfoldable pub copy_files :
      List Text → Text → List PairItem → s.Objects → Result (BatchResponse PairResult) × s.Objects
  unfolding copy_one loop default_bucket
  copy_files buckets user items o = run (copy_one user) buckets items o

  unfoldable pub move_files :
      List Text → Text → List PairItem → s.Objects → Result (BatchResponse PairResult) × s.Objects
  unfolding move_one loop default_bucket
  move_files buckets user items o = run (move_one user) buckets items o
