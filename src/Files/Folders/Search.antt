-- ===== src/Files/Folders/Search.antt =====
-- findFolderPath of file_helper.go finds the folders that CreateFolder makes.
use notevault.Prelude.{
  ℕ, ◌≡◌, refl, sym, ap, ◌∙◌, ◌⊎◌, inl, inr, true, false, none, some, List, [], ◌∷◌, ◌++◌, arith,
  Text, is_empty, same_text, same_text_iff, same_text_refl, drop_prefix, trim_prefix, All,
  if◌then◌else◌, Bool-cases, Option-cases,
}
use notevault.Prelude.{has_prefix-append, drop_prefix-append}
use mathlib.Core.List.{append_assoc}
use notevault.Prelude.Result.{Result, ok, err, Result-cases}
use notevault.Files.Store.{ObjectInfo, ObjectStore, default_bucket, home}
use notevault.Files.Paths.{
  trim_slash, has_slash, split-append, init-append, last-append, has_slash-append, join-split,
  trim_slash-append, ends_with_slash-append,
}
use notevault.Files.Folders.{
  full_path, folder_key, CreateFolderRequest, CreateFolderResponse, cut_path, marker_path, scan,
  find_folder_path, create_folder,
}

-- Some entry of a listing has the key, and every entry before it is an object.
abbrev pub IsListed : Text → List (Result ObjectInfo) → Type 0
IsListed key [] = ⊥
IsListed key (err e ∷ entries) = ⊥
IsListed key (ok info ∷ entries) = (info.key ≡ key) ⊎ IsListed key entries

trim_prefix-append : (p s : Text) → trim_prefix (p ++ s) p ≡ s
unfolding trim_prefix
trim_prefix-append p s = rw has_prefix-append (drop_prefix-append p s)

folder_key_assoc : (user path : Text) → folder_key user path ≡ (home user ++ path) ++ b'/' ∷ []
folder_key_assoc user path = sym (append_assoc (home user) path (b'/' ∷ []))

pub home-injective : (user s t : Text) → home user ++ s ≡ home user ++ t → s ≡ t
home-injective user s t same =
    sym (drop_prefix-append (home user) s)
    ∙ ap (λ k. drop_prefix k (home user)) same
    ∙ drop_prefix-append (home user) t

-- The path that a key has below the user's folder.
abbrev pub path_of : Text → Text → Text
path_of user key = trim_prefix (trim_slash key) (home user)

-- An entry whose identifier is that of the path has the path itself.
abbrev pub IsUnlike : (digest : Text → Text) (user path : Text) → Result ObjectInfo → Type 0
IsUnlike digest user path (err e) = Unit
IsUnlike digest user path (ok info) =
    digest (home user ++ path_of user info.key) ≡ digest (home user ++ path)
    → path_of user info.key ≡ path

module _ (digest : Text → Text) (user : Text) where
  abbrev id_of : Text → Text
  id_of path = digest (home user ++ path)

  -- The marker of a folder has the folder's path.
  marker_path-own :
      (path : Text) (info : ObjectInfo)
      → info.key ≡ folder_key user path
      → marker_path digest user (id_of path) info ≡ some path
  marker_path-own path info key =
      rw
        (
          key, folder_key_assoc, ends_with_slash-append, trim_slash-append, trim_prefix-append,
          same_text_refl,
        )
        refl

  -- What is found by the folder's identifier has its path.
  marker_path_sound :
      (path found : Text) (info : ObjectInfo)
      → IsUnlike digest user path (ok info)
      → marker_path digest user (id_of path) info ≡ some found
      → found ≡ path
  marker_path_sound path found info unlike marks =
      let p = path_of user info.key in
      elim (Bool-cases (same_text (digest (home user ++ p)) (id_of path))) [
        | inr other ↦ ground arith
        | inl same ↦ let eq = unlike ((same_text_iff _ _).0 same) in ground (arith, eq)
      ]

  scan-exact :
      (path : Text) (entries : List (Result ObjectInfo))
      → All (IsUnlike digest user path) entries
      → IsListed (folder_key user path) entries
      → scan digest user (id_of path) entries ≡ ok (cut_path path)
  unfolding scan
  scan-exact path [] unlike listed = absurd listed
  scan-exact path (err e ∷ entries) unlike listed = absurd listed
  scan-exact path (ok info ∷ entries) unlike listed =
      elim (Option-cases (marker_path digest user (id_of path) info)) [
        | inr (found, marks) ↦
            let same = marker_path_sound path found info unlike.0 marks in
            ground (arith, marks, same)
        | inl other ↦ elim listed [
          | inl key ↦ absurd (cc (other, marker_path-own path info key))
          | inr later ↦ ground (arith, other, scan-exact path entries unlike.1 later)
        ]
      ]

-- A name without a separator is cut off the path again.
cut_path-full_path :
    (path name : Text) → has_slash name ≡ false → cut_path (full_path path name) ≡ (path, name)
unfolding cut_path
cut_path-full_path [] name plain = rw plain refl
cut_path-full_path (c ∷ path) name plain =
    rw
      (
        has_slash-append (c ∷ path) name,
        split-append (c ∷ path) name plain,
        init-append,
        last-append,
        join-split (c ∷ path),
      )
      refl

-- The owner of a new folder: the user that the request names, else the caller.
abbrev pub folder_owner : Text → CreateFolderRequest → Text
folder_owner user req = if is_empty req.user then user else req.user

-- Where `CreateFolder` succeeds, its identifier finds the folder: for a name without `/`, and a listing
-- afterwards that shows the new marker before any error and no entry of another path with the same
-- identifier, `findFolderPath` answers with the path and the name of the request.
pub created_folder_is_found :
    (s : ObjectStore) (digest : Text → Text) (now : ℕ) (bucket : Text) (buckets : List Text)
    (user : Text) (req : CreateFolderRequest) (o : s.Objects) (resp : CreateFolderResponse)
    → has_slash req.name ≡ false
    → (create_folder s digest now (bucket ∷ buckets) user req o).0.response ≡ some resp
    → (create_folder s digest now (bucket ∷ buckets) user req o).0.error ≡ none
    → (entries : List (Result ObjectInfo))
    → s.list bucket
        (home (folder_owner user req))
        true
        false
        (create_folder s digest now (bucket ∷ buckets) user req o).1
      ≡ entries
    → IsListed (folder_key (folder_owner user req) (full_path req.path req.name)) entries
    → All (IsUnlike digest (folder_owner user req) (full_path req.path req.name)) entries
    → find_folder_path s digest bucket
        (folder_owner user req)
        resp.folder_id
        (create_folder s digest now (bucket ∷ buckets) user req o).1
      ≡ ok (req.path, req.name)
unfolding create_folder default_bucket find_folder_path
created_folder_is_found s digest now bucket buckets user req o resp plain response no_error entries
      listing listed unlike =
    let owner = folder_owner user req in
    let full = full_path req.path req.name in
    elim (Result-cases (s.put_empty bucket (folder_key owner full) o).0) [
      | inr (e, failed) ↦ absurd (ground arith)
      | inl (u, done) ↦
          let id : resp.folder_id ≡ digest (home owner ++ full) = ground (arith, done, response) in
          rw id (
            ap (scan digest owner (digest (home owner ++ full))) listing
            ∙ scan-exact digest owner full entries unlike listed
            ∙ ap ok (cut_path-full_path req.path req.name plain))
    ]
