-- ===== src/Files/Tests.antt =====
-- Runs of the file service over a table of objects, and its theorems at concrete values.
use notevault.Prelude.{
  ℕ, ◌≡◌, refl, ◌⊎◌, inl, inr, true, false, Option, none, some, List, [], ◌∷◌, Text, codes,
  same_text, has_prefix, drop_prefix, trim_prefix, All,
}
use notevault.Prelude.Assoc.{Assoc, lookup, insert, remove}
use notevault.Prelude.Result.{Result, ok, err, map_result, folder_not_empty}
use notevault.Files.Store.{ObjectInfo, default_bucket, home}
use notevault.Files.Operations.{
  PairItem, UpdateFileMetadataItem, delete_one, update_one, copy_one, move_one, loop, delete_files,
  update_files_metadata, copy_files, move_files,
}
use notevault.Files.Operations.Counts.{Answers, pair_name, pair_asked, batches-Answers}
use notevault.Files.Operations.Frame.{batches_keep_foreign}
use notevault.Files.Operations.Effects.{
  DeletesHonestly, delete_files-DeletesHonestly, move_files_keeps_content,
}
use notevault.Files.Paths.{
  ends_with_slash, trim_slash, has_slash, split, join, init, last, set_last, replace_first,
}
use notevault.Files.Folders.{
  Reply, folder_key, CreateFolderRequest, CreateFolderResponse, cut_path, scan, collect,
  renamed_path, find_folder_path, rename_each, rename_folder_objects, delete_each,
  delete_folder_objects, create_folder, rename_folder, delete_folder,
}
use notevault.Files.Folders.Search.{
  IsListed, IsUnlike, path_of, home-injective, created_folder_is_found,
}
use notevault.Files.Folders.Deletion.{Clears, delete_folder_objects-Clears}
use notevault.Files.Folders.Frame.{folders_keep_foreign}
use notevault.Files.Versions.{CreateFileVersionRequest}
use notevault.Sample.Objects.{table_store, table_store-ObjectStoreLaws, slot}

abbrev vault : Text
vault = codes "vault"

abbrev ann : Text
ann = codes "ann"

abbrev a : Text
a = codes "ann/a"

abbrev b : Text
b = codes "ann/docs/b"

abbrev x : Text
x = codes "bob/x"

-- Two objects of ann, of which one in a folder with its marker, and one of bob.
abbrev table : Assoc Text
table =
    (slot vault a, codes "A")
    ∷ (slot vault (codes "ann/docs/"), [])
    ∷ (slot vault b, codes "B")
    ∷ (slot vault x, codes "X")
    ∷ []

abbrev content : Assoc Text → Text → Option Text
content o key = table_store.content o vault key

abbrev pair : Text → Text → PairItem
pair from to = record { source_key = from; destination_key = to }

abbrev tag : Text → UpdateFileMetadataItem
tag key = record { object_key = key; tags = []; content_type = codes "text/plain" }

-- To name on the `unfolding` line of a run.
runs : Unit {0}
unfolding delete_files update_files_metadata copy_files move_files delete_one update_one copy_one
    move_one loop default_bucket lookup insert remove same_text has_prefix drop_prefix trim_prefix
    ends_with_slash trim_slash has_slash split join init last set_last replace_first cut_path scan
    collect renamed_path find_folder_path rename_each rename_folder_objects delete_each
    delete_folder_objects create_folder rename_folder delete_folder
runs = tt

deletes_own :
    map_result (λ r. r.success) (delete_files table_store (vault ∷ []) ann (a ∷ x ∷ []) table).0
    ≡ ok 1
unfolding runs
deletes_own = refl

copies :
    content
      (copy_files table_store (vault ∷ []) ann (pair a (codes "ann/c") ∷ []) table).1
      (codes "ann/c")
    ≡ some (codes "A")
unfolding runs
copies = refl

abbrev new_folder : CreateFolderRequest
new_folder = record { name = codes "new"; path = codes "docs"; user = [] }

-- The digest is the text itself.
abbrev digest : Text → Text
digest t = t

created : (create_folder table_store digest 0 (vault ∷ []) ann new_folder table).0.error ≡ none
unfolding runs
created = refl

-- A folder at the root takes every object of its owner along when it is renamed.
renaming_moves_all :
    content
      (rename_folder table_store digest 0
        (vault ∷ [])
        ann
        (codes "ann/docs")
        (codes "notes")
        table).1
      (codes "ann/notes/a")
    ≡ some (codes "A")
unfolding runs
renaming_moves_all = refl

-- A folder below the root is not renamed; its parent is.
abbrev nested : Assoc Text
nested = (slot vault (codes "ann/docs/in/"), []) ∷ (slot vault b, codes "B") ∷ []

renaming_moves_parent :
    content
      (rename_folder table_store digest 0
        (vault ∷ [])
        ann
        (codes "ann/docs/in")
        (codes "out")
        nested).1
      (codes "ann/out/b")
    ≡ some (codes "B")
unfolding runs
renaming_moves_parent = refl

refuses_full_folder :
    (delete_folder table_store digest (vault ∷ []) ann (codes "ann/docs") false table).0.error
    ≡ some folder_not_empty
unfolding runs
refuses_full_folder = refl

batches-Answers_example :
    Answers
      (λ r. r.success)
      (λ r. r.object_key)
      (λ k. k)
      (vault ∷ [])
      (a ∷ x ∷ [])
      (delete_files table_store (vault ∷ []) ann (a ∷ x ∷ []) table).0
    × Answers
        (λ r. r.success)
        (λ r. r.object_key)
        (λ i. i.object_key)
        (vault ∷ [])
        (tag a ∷ tag x ∷ [])
        (update_files_metadata table_store (vault ∷ []) ann (tag a ∷ tag x ∷ []) table).0
    × Answers
        (λ r. r.success)
        pair_name
        pair_asked
        (vault ∷ [])
        (pair a b ∷ pair x a ∷ [])
        (copy_files table_store (vault ∷ []) ann (pair a b ∷ pair x a ∷ []) table).0
    × Answers
        (λ r. r.success)
        pair_name
        pair_asked
        (vault ∷ [])
        (pair b a ∷ [])
        (move_files table_store (vault ∷ []) ann (pair b a ∷ []) table).0
batches-Answers_example =
    batches-Answers table_store (vault ∷ []) ann table (a ∷ x ∷ []) (tag a ∷ tag x ∷ [])
      (pair a b ∷ pair x a ∷ []) (pair b a ∷ [])

x_foreign : has_prefix x (home ann) ≡ false
unfolding runs
x_foreign = refl

batches_keep_foreign_example :
    (content (delete_files table_store (vault ∷ []) ann (a ∷ x ∷ []) table).1 x ≡ content table x)
    × (content (update_files_metadata table_store (vault ∷ []) ann (tag x ∷ []) table).1 x
        ≡ content table x)
    × (content (copy_files table_store (vault ∷ []) ann (pair a x ∷ []) table).1 x
        ≡ content table x)
    × (content (move_files table_store (vault ∷ []) ann (pair a x ∷ []) table).1 x
        ≡ content table x)
batches_keep_foreign_example =
    batches_keep_foreign table_store table_store-ObjectStoreLaws ann vault x x_foreign []
      (a ∷ x ∷ []) (tag x ∷ []) (pair a x ∷ []) table

delete_files-DeletesHonestly_example :
    DeletesHonestly table_store vault
      (delete_files table_store (vault ∷ []) ann (a ∷ a ∷ x ∷ []) table)
delete_files-DeletesHonestly_example =
    delete_files-DeletesHonestly table_store table_store-ObjectStoreLaws vault ann []
      (a ∷ a ∷ x ∷ []) table

b_not_a : same_text b a ≡ false
unfolding runs
b_not_a = refl

move_files_keeps_content_example :
    (content (move_files table_store (vault ∷ []) ann (pair a b ∷ []) table).1 a ≡ content table a)
    ⊎ (content (move_files table_store (vault ∷ []) ann (pair a b ∷ []) table).1 b
        ≡ content table a)
move_files_keeps_content_example =
    move_files_keeps_content table_store table_store-ObjectStoreLaws vault ann [] (pair a b) table
      b_not_a

abbrev after_creation : Reply CreateFolderResponse × Assoc Text
after_creation = create_folder table_store digest 0 (vault ∷ []) ann new_folder table

abbrev response : CreateFolderResponse
response = record {
  folder_id = codes "ann/docs/new";
  name = codes "new";
  path = codes "docs";
  full_path = codes "docs/new";
  created_at = some 0;
  success = true;
  error = none;
}

plain_name : has_slash (codes "new") ≡ false
unfolding runs
plain_name = refl

responds : after_creation.0.response ≡ some response
unfolding runs
responds = refl

is_listed :
    IsListed
      (folder_key ann (codes "docs/new"))
      (table_store.list vault (home ann) true false after_creation.1)
unfolding runs
is_listed = inr (inr (inr (inl refl)))

-- The digest of these tests has no collisions at all.
All-IsUnlike :
    (path : Text) (entries : List (Result ObjectInfo)) → All (IsUnlike digest ann path) entries
All-IsUnlike path [] = tt
All-IsUnlike path (err e ∷ entries) = (tt, All-IsUnlike path entries)
All-IsUnlike path (ok info ∷ entries) =
    (home-injective ann (path_of ann info.key) path, All-IsUnlike path entries)

created_folder_is_found_example :
    find_folder_path table_store digest vault ann (codes "ann/docs/new") after_creation.1
    ≡ ok (codes "docs", codes "new")
created_folder_is_found_example =
    created_folder_is_found table_store digest 0 vault [] ann new_folder table response plain_name
      responds created _ refl is_listed (All-IsUnlike (codes "docs/new") _)

abbrev docs : List Text
docs = codes "ann/docs/" ∷ b ∷ []

collected : collect (table_store.list vault (codes "ann/docs/") true false table) ≡ ok docs
unfolding runs
collected = refl

delete_folder_objects-Clears_example :
    Clears table_store vault true docs table
      (delete_folder_objects table_store vault (codes "ann/docs/") true table)
delete_folder_objects-Clears_example =
    delete_folder_objects-Clears table_store table_store-ObjectStoreLaws vault (codes "ann/docs/")
      true table docs collected

folders_keep_foreign_example :
    (content after_creation.1 x ≡ content table x)
    × (content
          (rename_folder table_store digest 0
            (vault ∷ [])
            ann
            (codes "ann/docs")
            (codes "notes")
            table).1
          x
        ≡ content table x)
    × (content (delete_folder table_store digest (vault ∷ []) ann (codes "ann/docs") true table).1 x
        ≡ content table x)
folders_keep_foreign_example =
    folders_keep_foreign table_store table_store-ObjectStoreLaws digest 0 vault [] ann new_folder
      (codes "ann/docs") (codes "notes") true table x x_foreign x_foreign

abbrev new_version : Text → CreateFileVersionRequest
new_version key = record { object_key = key; base_version = []; content_type = []; user_meta = [] }

abbrev format : ℕ → Text
format n = n ∷ []

abbrev listed : List ObjectInfo
listed =
    record {
      key = a;
      size = 1;
      etag = [];
      content_type = [];
      last_modified = 0;
      version_id = [];
      storage_class = [];
      user_metadata = [];
      is_latest = true;
      is_delete_marker = false;
    }
    ∷ []
