-- ===== src/Files/Folders.antt =====
-- pkg/internal/service/files_folder.go, with findFolderPath, renameFolderObjects and
-- deleteFolderObjects of file_helper.go. `digest` is the hexadecimal MD5 sum of a text, and `now` the
-- clock of the response.
pub mod Search
pub mod Deletion
pub mod Frame
use notevault.Prelude.{
  ℕ, ◌+◌, Bool, true, false, not, ◌&&◌, Option, none, some, List, [], ◌∷◌, ◌++◌, Text, is_empty,
  same_text, trim_prefix, length, ltb, if◌then◌else◌,
}
use notevault.Prelude.Result.{
  Error, Result, ok, err, folder_not_found, folder_not_empty, list_failed, copy_failed,
}
use notevault.Files.Store.{ObjectInfo, ObjectStore, plain_dest, plain_src, default_bucket, home}
use notevault.Files.Paths.{
  ends_with_slash, trim_slash, has_slash, split, join, init, last, set_last, replace_first,
}

-- Without the description, which the code does not read.
pub record CreateFolderRequest : Type 0 where
  pub name : Text
  pub path : Text
  pub user : Text

-- `none` is the empty error text, and no time; an error stands for its text, without the words before it.
pub record CreateFolderResponse : Type 0 where
  pub folder_id : Text
  pub name : Text
  pub path : Text
  pub full_path : Text
  pub created_at : Option ℕ
  pub success : Bool
  pub error : Option Error

pub record RenameFolderResponse : Type 0 where
  pub folder_id : Text
  pub old_name : Text
  pub new_name : Text
  pub path : Text
  pub updated_at : Option ℕ
  pub success : Bool
  pub error : Option Error

pub record DeleteFolderResponse : Type 0 where
  pub folder_id : Text
  pub name : Text
  pub path : Text
  pub deleted_files : ℕ
  pub success : Bool
  pub error : Option Error

-- Go's `(resp, err)`, where a response may stand beside an error.
pub record Reply (R : Type 0) : Type 0 where
  pub response : Option R
  pub error : Option Error

abbrev pub refused : {R : Type 0} → Error → Reply R
refused e = record { response = none; error = some e }

abbrev pub answered : {R : Type 0} → R → Reply R
answered r = record { response = some r; error = none }

abbrev pub failed_with : {R : Type 0} → R → Error → Reply R
failed_with r e = record { response = some r; error = some e }

-- `path + "/" + name`, or the name alone at the root.
abbrev pub full_path : Text → Text → Text
full_path path name = if is_empty path then name else path ++ b'/' ∷ name

-- `fmt.Sprintf("%s/%s/", user, path)`
abbrev pub folder_key : Text → Text → Text
folder_key user path = home user ++ (path ++ b'/' ∷ [])

-- The path and the name that a folder's path is cut into.
unfoldable pub cut_path : Text → Text × Text
unfolding has_slash split join init last
cut_path path = if has_slash path then (join (init (split path)), last (split path)) else ([], path)

module _ (digest : Text → Text) where
  -- The folder's path of an entry that is the marker looked for.
  abbrev pub marker_path : Text → Text → ObjectInfo → Option Text
  marker_path user folder_id info =
      let path = trim_prefix (trim_slash info.key) (home user) in
      if ends_with_slash info.key && same_text (digest (home user ++ path)) folder_id
      then some path
      else none

  -- `for object := range objectCh` of `findFolderPath`
  unfoldable pub scan : Text → Text → List (Result ObjectInfo) → Result (Text × Text)
  unfolding ends_with_slash trim_slash trim_prefix cut_path
  scan user folder_id [] = err folder_not_found
  scan user folder_id (err e ∷ entries) = err (list_failed e)
  scan user folder_id (ok info ∷ entries) =
      let rest = scan user folder_id entries in
      elim (marker_path user folder_id info) [ some path ↦ ok (cut_path path) | none ↦ rest ]

-- The keys of a listing, up to its first error.
unfoldable pub collect : List (Result ObjectInfo) → Result (List Text)
collect [] = ok []
collect (err e ∷ entries) = err (list_failed e)
collect (ok info ∷ entries) =
    let rest = collect entries in elim rest [ ok keys ↦ ok (info.key ∷ keys) | err e ↦ err e ]

-- The prefixes of `renameFolderObjects`.
abbrev pub rename_prefix : Text → Text → Text
rename_prefix user path = if is_empty path then home user else folder_key user path

-- The new path of `RenameFolder`.
unfoldable pub renamed_path : Text → Text → Text
unfolding has_slash split join set_last
renamed_path old_path new_name =
    if is_empty old_path
    then new_name
    else if has_slash old_path
    then join (set_last new_name (split old_path))
    else new_name

module _ (s : ObjectStore) where
  unfoldable pub find_folder_path :
      (Text → Text) → Text → Text → Text → s.Objects → Result (Text × Text)
  unfolding scan
  find_folder_path digest bucket user folder_id o =
      scan digest user folder_id (s.list bucket (home user) true false o)

  -- `for _, oldKey := range objectsToRename`; a failed deletion is only logged.
  unfoldable pub rename_each : Text → Text → Text → List Text → s.Objects → Option Error × s.Objects
  unfolding replace_first
  rename_each bucket old new [] o = (none, o)
  rename_each bucket old new (key ∷ keys) o =
      let (r, o1) =
        s.copy (plain_dest bucket (replace_first key old new)) (plain_src bucket key) o in
      let rest = rename_each bucket old new keys (s.remove bucket key [] o1).1 in
      elim r [ err e ↦ (some (copy_failed e), o1) | ok v ↦ rest ]

  unfoldable pub rename_folder_objects :
      Text → Text → Text → Text → s.Objects → Option Error × s.Objects
  unfolding collect rename_each
  rename_folder_objects bucket user old_path new_path o =
      let old = rename_prefix user old_path in
      let new = rename_prefix user new_path in
      elim (collect (s.list bucket old true false o)) [
        | err e ↦ (some e, o)
        | ok keys ↦ rename_each bucket old new keys o
      ]

  -- `deletedCount++`, unless the deletion failed
  abbrev pub counted : ℕ → Result (Unit {0}) → ℕ
  counted n (ok u) = n + 1
  counted n (err e) = n

  -- `for _, object := range objectsToDelete`, with the number of deletions so far
  unfoldable pub delete_each : Text → List Text → ℕ → s.Objects → ℕ × s.Objects
  delete_each bucket [] n o = (n, o)
  delete_each bucket (key ∷ keys) n o =
      let (r, o1) = s.remove bucket key [] o in delete_each bucket keys (counted n r) o1

  unfoldable pub delete_folder_objects : Text → Text → Bool → s.Objects → Result ℕ × s.Objects
  unfolding collect delete_each
  delete_folder_objects bucket prefix recursive o =
      elim (collect (s.list bucket prefix recursive false o)) [
        | err e ↦ (err e, o)
        | ok keys ↦
            if not recursive && ltb 1 (length keys)
            then (err folder_not_empty, o)
            else (let (n, o') = delete_each bucket keys 0 o in (ok n, o'))
      ]

  unfoldable pub create_folder :
      (Text → Text)
      → ℕ
      → List Text
      → Text
      → CreateFolderRequest
      → s.Objects
      → Reply CreateFolderResponse × s.Objects
  unfolding default_bucket
  create_folder digest now buckets user req o = elim (default_bucket buckets) [
    | err e ↦ (refused e, o)
    | ok bucket ↦
        let target = if is_empty req.user then user else req.user in
        let full = full_path req.path req.name in
        let (r, o') = s.put_empty bucket (folder_key target full) o in
        elim r [
          | err e ↦ (
            failed_with
                (record {
                  folder_id = [];
                  name = [];
                  path = [];
                  full_path = [];
                  created_at = none;
                  success = false;
                  error = some e;
                })
                e,
            o',
          )
          | ok u ↦ (
            answered (record {
              folder_id = digest (home target ++ full);
              name = req.name;
              path = req.path;
              full_path = full;
              created_at = some now;
              success = true;
              error = none;
            }),
            o',
          )
        ]
  ]

  abbrev rename_response :
      Text → Text → Text → Text → Option ℕ → Option Error → RenameFolderResponse
  rename_response folder_id old_name new_name path at e = record {
    folder_id = folder_id;
    old_name = old_name;
    new_name = new_name;
    path = path;
    updated_at = at;
    success = elim e [ none ↦ true | some x ↦ false ];
    error = e;
  }

  -- What `RenameFolder` makes of the renaming of the objects.
  abbrev finish_rename :
      Text
      → Text
      → Text
      → Text
      → Text
      → ℕ
      → Option Error × s.Objects
      → Reply RenameFolderResponse × s.Objects
  finish_rename folder_id old_name new_name old_path new_path now (some e, o) =
      (failed_with (rename_response folder_id old_name new_name old_path none (some e)) e, o)
  finish_rename folder_id old_name new_name old_path new_path now (none, o) =
      (answered (rename_response folder_id old_name new_name new_path (some now) none), o)

  unfoldable pub rename_folder :
      (Text → Text)
      → ℕ
      → List Text
      → Text
      → Text
      → Text
      → s.Objects
      → Reply RenameFolderResponse × s.Objects
  unfolding default_bucket find_folder_path renamed_path rename_folder_objects
  rename_folder digest now buckets user folder_id new_name o = elim (default_bucket buckets) [
    | err e ↦ (refused e, o)
    | ok bucket ↦ elim (find_folder_path digest bucket user folder_id o) [
      | err e ↦ (failed_with (rename_response folder_id [] [] [] none (some e)) e, o)
      | ok found ↦
          let (old_path, old_name) = found in
          let new_path = renamed_path old_path new_name in
          if same_text old_name new_name
          then (answered (rename_response folder_id old_name new_name old_path (some now) none), o)
          else finish_rename folder_id old_name new_name old_path new_path now
              (rename_folder_objects bucket user old_path new_path o)
    ]
  ]

  abbrev delete_response : Text → Text → Text → ℕ → Option Error → DeleteFolderResponse
  delete_response folder_id name path n e = record {
    folder_id = folder_id;
    name = name;
    path = path;
    deleted_files = n;
    success = elim e [ none ↦ true | some x ↦ false ];
    error = e;
  }

  abbrev finish_delete :
      Text → Text → Text → Result ℕ × s.Objects → Reply DeleteFolderResponse × s.Objects
  finish_delete folder_id name path (err e, o) =
      (failed_with (delete_response folder_id name path 0 (some e)) e, o)
  finish_delete folder_id name path (ok n, o) =
      (answered (delete_response folder_id name path n none), o)

  unfoldable pub delete_folder :
      (Text → Text)
      → List Text
      → Text
      → Text
      → Bool
      → s.Objects
      → Reply DeleteFolderResponse × s.Objects
  unfolding default_bucket find_folder_path delete_folder_objects
  delete_folder digest buckets user folder_id recursive o = elim (default_bucket buckets) [
    | err e ↦ (refused e, o)
    | ok bucket ↦ elim (find_folder_path digest bucket user folder_id o) [
      | err e ↦ (failed_with (delete_response folder_id [] [] 0 (some e)) e, o)
      | ok found ↦
          let (path, name) = found in
          finish_delete folder_id name path
            (delete_folder_objects bucket (folder_key user (full_path path name)) recursive o)
    ]
  ]
