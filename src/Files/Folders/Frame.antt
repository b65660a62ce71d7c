-- ===== src/Files/Folders/Frame.antt =====
-- The operations of files_folder.go stay in the user's own folder.
use notevault.Prelude.{
  ℕ, ◌≡◌, refl, sym, ◌∙◌, subst, inl, inr, Bool, true, false, not, ◌&&◌, Option, none, some, List,
  [], ◌∷◌, ◌++◌, arith, Text, same_text, has_prefix, length, All, ltb, Bool-cases,
}
use notevault.Prelude.{has_prefix-append}
use mathlib.Core.List.{append_assoc, append-nil}
use notevault.Prelude.Result.{Error, Result, ok, err, Result-cases}
use notevault.Files.Store.{
  ObjectInfo, ObjectStore, ObjectStoreLaws, IsUnder, default_bucket, home, plain_dest, plain_src,
}
use notevault.Files.Operations.Frame.{same_text-foreign}
use notevault.Files.Paths.{replace_first, replace_first-prefix}
use notevault.Files.Folders.{
  CreateFolderRequest, full_path, folder_key, rename_prefix, renamed_path, finish_rename,
  finish_delete, collect, find_folder_path, rename_each, rename_folder_objects, delete_each,
  delete_folder_objects, create_folder, rename_folder, delete_folder,
}
use notevault.Files.Folders.Search.{folder_owner}

-- What starts with a longer prefix starts with a shorter one.
has_prefix-shorter : (k p q : Text) → has_prefix k (p ++ q) ≡ true → has_prefix k p ≡ true
unfolding has_prefix
has_prefix-shorter k [] q h = refl
has_prefix-shorter [] (d ∷ p) q h = cc
has_prefix-shorter (c ∷ k) (d ∷ p) q h = ground (arith, has_prefix-shorter k p q)

has_prefix-longer : (p q r : Text) → has_prefix ((p ++ q) ++ r) p ≡ true
has_prefix-longer p q r = rw (append_assoc p q r) (has_prefix-append p (q ++ r))

rename_prefix-home : (user path : Text) → (q : Text) × (rename_prefix user path ≡ home user ++ q)
rename_prefix-home user [] = ([], sym (append-nil (home user)))
rename_prefix-home user (c ∷ path) = ((c ∷ path) ++ b'/' ∷ [], refl)

abbrev IsIn : Text → Text → Type 0
IsIn prefix key = has_prefix key prefix ≡ true

collect-IsIn :
    (prefix : Text) (entries : List (Result ObjectInfo)) (keys : List Text)
    → All (IsUnder prefix) entries
    → collect entries ≡ ok keys
    → All (IsIn prefix) keys
unfolding collect
collect-IsIn prefix [] keys under same =
    let nil : [] ≡ keys = ground arith in subst (All (IsIn prefix)) nil tt
collect-IsIn prefix (err e ∷ entries) keys under same = absurd (ground arith)
collect-IsIn prefix (ok info ∷ entries) keys (here, under) same =
    elim (Result-cases (collect entries)) [
      | inr (e, failed) ↦ absurd (ground arith)
      | inl (rest, listed) ↦
          let cons : info.key ∷ rest ≡ keys = ground arith in
          subst (All (IsIn prefix)) cons (here, collect-IsIn prefix entries rest under listed)
    ]

-- Keys under a longer prefix that are renamed to another one stay under the shorter one.
renamed-IsIn :
    (base q r : Text) (keys : List Text)
    → All (IsIn (base ++ q)) keys
    → All (λ k. IsIn base k × IsIn base (replace_first k (base ++ q) (base ++ r))) keys
renamed-IsIn base q r [] own = tt
renamed-IsIn base q r (k ∷ keys) (here, own) = (
  (
    has_prefix-shorter k base q here,
    rw (replace_first-prefix k (base ++ q) (base ++ r) here) (has_prefix-longer base r _),
  ),
  renamed-IsIn base q r keys own,
)

shorter-IsIn :
    (base q : Text) (keys : List Text) → All (IsIn (base ++ q)) keys → All (IsIn base) keys
shorter-IsIn base q [] own = tt
shorter-IsIn base q (k ∷ keys) (here, own) =
    (has_prefix-shorter k base q here, shorter-IsIn base q keys own)

module _ (s : ObjectStore) (law : ObjectStoreLaws s) (user bucket j : Text)
    (foreign : has_prefix j (home user) ≡ false) where
  removed-foreign :
      (key : Text) (o : s.Objects)
      → has_prefix key (home user) ≡ true
      → s.content (s.remove bucket key [] o).1 bucket j ≡ s.content o bucket j
  removed-foreign key o own =
      law.remove_other bucket key [] j o (same_text-foreign key j (home user) own foreign)

  delete_each-foreign :
      (keys : List Text) (n : ℕ) (o : s.Objects)
      → All (IsIn (home user)) keys
      → s.content (delete_each s bucket keys n o).1 bucket j ≡ s.content o bucket j
  unfolding delete_each
  delete_each-foreign [] n o own = refl
  delete_each-foreign (key ∷ keys) n o (here, own) =
      delete_each-foreign keys _ _ own ∙ removed-foreign key o here

  rename_each-foreign :
      (old new : Text) (keys : List Text) (o : s.Objects)
      → All (λ k. IsIn (home user) k × IsIn (home user) (replace_first k old new)) keys
      → s.content (rename_each s bucket old new keys o).1 bucket j ≡ s.content o bucket j
  unfolding rename_each
  rename_each-foreign old new [] o own = refl
  rename_each-foreign old new (key ∷ keys) o ((here, there), own) =
      let dest = plain_dest bucket (replace_first key old new) in
      let copied = s.copy dest (plain_src bucket key) o in
      let kept =
        law.copy_other dest (plain_src bucket key) j o
          (same_text-foreign (replace_first key old new) j (home user) there foreign) in
      let gone = removed-foreign key copied.1 here in
      let rest = rename_each-foreign old new keys (s.remove bucket key [] copied.1).1 own in
      elim (Result-cases copied.0) [
        | inl (v, done) ↦ ground (arith, rest, gone, kept)
        | inr (e, failed) ↦ ground (arith, kept)
      ]

  -- What the content of the foreign key is after an operation.
  abbrev Same : s.Objects → s.Objects → Type 0
  Same o o' = s.content o' bucket j ≡ s.content o bucket j

  delete_folder_objects-foreign :
      (q : Text) (recursive : Bool) (o : s.Objects)
      → Same o (delete_folder_objects s bucket (home user ++ q) recursive o).1
  unfolding delete_folder_objects
  delete_folder_objects-foreign q recursive o =
      let entries = s.list bucket (home user ++ q) recursive false o in
      elim (Result-cases (collect entries)) [
        | inr (e, failed) ↦ ground (arith, failed)
        | inl (keys, listed) ↦
            let own =
              collect-IsIn (home user ++ q) entries keys
                (law.list_under bucket (home user ++ q) recursive false o) listed in
            let kept = delete_each-foreign keys 0 o (shorter-IsIn (home user) q keys own) in
            elim (Bool-cases (not recursive && ltb 1 (length keys))) [
              | inl full ↦ ground (arith, listed)
              | inr fits ↦ ground (arith, listed, kept)
            ]
      ]

  rename_folder_objects-foreign :
      (old_path new_path : Text) (o : s.Objects)
      → Same o (rename_folder_objects s bucket user old_path new_path o).1
  unfolding rename_folder_objects
  rename_folder_objects-foreign old_path new_path o =
      let (q, old) = rename_prefix-home user old_path in
      let (r, new) = rename_prefix-home user new_path in
      let entries = s.list bucket (home user ++ q) true false o in
      elim (Result-cases (collect entries)) [
        | inr (e, failed) ↦ ground (arith, failed, old)
        | inl (keys, listed) ↦
            let own =
              collect-IsIn (home user ++ q) entries keys
                (law.list_under bucket (home user ++ q) true false o) listed in
            let kept =
              rename_each-foreign (home user ++ q) (home user ++ r) keys o
                (renamed-IsIn (home user) q r keys own) in
            ground (arith, listed, kept, old, new)
      ]

  finish_delete-foreign :
      (folder_id name path : Text) (o : s.Objects) (r : Result ℕ × s.Objects)
      → Same o r.1
      → Same o (finish_delete s folder_id name path r).1
  finish_delete-foreign folder_id name path o (ok n, o') same = same
  finish_delete-foreign folder_id name path o (err e, o') same = same

  finish_rename-foreign :
      (folder_id old_name new_name old_path new_path : Text) (now : ℕ) (o : s.Objects)
      (r : Option Error × s.Objects)
      → Same o r.1
      → Same o (finish_rename s folder_id old_name new_name old_path new_path now r).1
  finish_rename-foreign folder_id old_name new_name old_path new_path now o (none, o') same = same
  finish_rename-foreign folder_id old_name new_name old_path new_path now o (some e, o') same = same

  delete_folder-foreign :
      (digest : Text → Text) (buckets : List Text) (folder_id : Text) (recursive : Bool)
      (o : s.Objects)
      → Same o (delete_folder s digest (bucket ∷ buckets) user folder_id recursive o).1
  unfolding delete_folder default_bucket
  delete_folder-foreign digest buckets folder_id recursive o =
      elim (Result-cases (find_folder_path s digest bucket user folder_id o)) [
        | inr (e, failed) ↦ ground (arith, failed)
        | inl ((path, name), found) ↦
            let kept =
              finish_delete-foreign folder_id name path o
                (delete_folder_objects s bucket (folder_key user (full_path path name)) recursive o)
                (delete_folder_objects-foreign (full_path path name ++ b'/' ∷ []) recursive o) in
            ground (arith, found, kept)
      ]

  rename_folder-foreign :
      (digest : Text → Text) (now : ℕ) (buckets : List Text) (folder_id new_name : Text)
      (o : s.Objects)
      → Same o (rename_folder s digest now (bucket ∷ buckets) user folder_id new_name o).1
  unfolding rename_folder default_bucket
  rename_folder-foreign digest now buckets folder_id new_name o =
      elim (Result-cases (find_folder_path s digest bucket user folder_id o)) [
        | inr (e, failed) ↦ ground (arith, failed)
        | inl ((path, name), found) ↦
            let kept =
              finish_rename-foreign folder_id name new_name path (renamed_path path new_name) now o
                (rename_folder_objects s bucket user path (renamed_path path new_name) o)
                (rename_folder_objects-foreign path (renamed_path path new_name) o) in
            elim (Bool-cases (same_text name new_name)) [
              | inl same ↦ ground (arith, found)
              | inr other ↦ ground (arith, found, kept)
            ]
      ]

  -- The folders that are there.
  old_folders-foreign :
      (digest : Text → Text) (now : ℕ) (buckets : List Text) (folder_id new_name : Text)
      (recursive : Bool) (o : s.Objects)
      → (s.content
            (rename_folder s digest now (bucket ∷ buckets) user folder_id new_name o).1
            bucket
            j
          ≡ s.content o bucket j)
        × (s.content
              (delete_folder s digest (bucket ∷ buckets) user folder_id recursive o).1
              bucket
              j
            ≡ s.content o bucket j)
  old_folders-foreign digest now buckets folder_id new_name recursive o = (
    rename_folder-foreign digest now buckets folder_id new_name o,
    delete_folder-foreign digest buckets folder_id recursive o,
  )

-- A new folder, in the folder of its owner.
create_folder-foreign :
    (s : ObjectStore)
    → ObjectStoreLaws s
    → (digest : Text → Text) (now : ℕ) (bucket : Text) (buckets : List Text) (user : Text)
    → (req : CreateFolderRequest) (o : s.Objects) (j : Text)
    → has_prefix j (home (folder_owner user req)) ≡ false
    → s.content (create_folder s digest now (bucket ∷ buckets) user req o).1 bucket j
      ≡ s.content o bucket j
unfolding create_folder default_bucket
create_folder-foreign s law digest now bucket buckets user req o j foreign =
    let owner = folder_owner user req in
    let key = folder_key owner (full_path req.path req.name) in
    let kept =
      law.put_other bucket key j o
        (same_text-foreign key j (home owner) (has_prefix-append (home owner) _) foreign) in
    elim (Result-cases (s.put_empty bucket key o).0) [
      | inl (u, done) ↦ ground (arith, done, kept)
      | inr (e, failed) ↦ ground (arith, failed, kept)
    ]

-- `CreateFolder`, `RenameFolder` and `DeleteFolder` change the content of no key outside the folder of
-- the user, and for `CreateFolder` of the owner that the request gives the new folder, in the bucket
-- where they work, whatever the object store answers.
pub folders_keep_foreign :
    (s : ObjectStore)
    → ObjectStoreLaws s
    → (digest : Text → Text) (now : ℕ) (bucket : Text) (buckets : List Text) (user : Text)
    → (req : CreateFolderRequest) (folder_id new_name : Text) (recursive : Bool) (o : s.Objects)
      (j : Text)
    → has_prefix j (home user) ≡ false
    → has_prefix j (home (folder_owner user req)) ≡ false
    → (s.content (create_folder s digest now (bucket ∷ buckets) user req o).1 bucket j
        ≡ s.content o bucket j)
      × (s.content
            (rename_folder s digest now (bucket ∷ buckets) user folder_id new_name o).1
            bucket
            j
          ≡ s.content o bucket j)
      × (s.content (delete_folder s digest (bucket ∷ buckets) user folder_id recursive o).1 bucket j
          ≡ s.content o bucket j)
folders_keep_foreign s law digest now bucket buckets user req folder_id new_name recursive o j
      foreign not_owned =
    let (renamed, deleted) =
      old_folders-foreign s law user bucket j foreign digest now buckets folder_id new_name
        recursive o in
    (create_folder-foreign s law digest now bucket buckets user req o j not_owned, renamed, deleted)
