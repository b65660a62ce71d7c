-- ===== src/Files/Transfer/Upload/Stored.antt =====
-- What uploads leave in the object store.
use notevault.Prelude.{
  ℕ, ◌≡◌, refl, sym, ap, ◌∙◌, ◌⊎◌, inl, inr, true, false, not, ◌||◌, Option, none, some, List, [],
  ◌∷◌, ◌++◌, arith, Text, is_empty, same_text, has_prefix, Bool-cases,
}
use mathlib.Core.List.{append_assoc}
use notevault.Prelude.{has_prefix-append}
use notevault.Prelude.Result.{Error, Result, ok, err, upload_failed, Result-cases}
use notevault.Prelude.Int.{ℤ}
use notevault.Files.Store.{ObjectStore, default_bucket, home}
use notevault.Files.Catalog.Month.{ObjectInfo, padded, month_prefix}
use notevault.Files.Catalog.Sync.{Date}
use notevault.Files.Transfer.{Transfers, TransferLaws}
use notevault.Files.Transfer.Upload.{
  UploadFileMetadata, UploadFileResponse, build_object_key, actual_file_name, put_options,
  upload_file, build_upload_response, upload_one, upload_single_file,
}
use notevault.Files.Transfer.Download.{open_object}

pub build_object_key-own :
    (date : Date) (now : ℕ) (user name : Text)
    → has_prefix (build_object_key date now user name) (home user) ≡ true
unfolding build_object_key month_prefix
build_object_key-own date now user name =
    let (year, month, day) = date now in
    let rest = padded 4 year ++ b'/' ∷ (padded 2 month ++ b'/' ∷ []) in
    ap (λ k. has_prefix k (home user)) (append_assoc (home user) rest name)
    ∙ has_prefix-append (home user) (rest ++ name)

-- The key of a new upload stands in the list of the month.
pub build_object_key-month :
    (date : Date) (now : ℕ) (user name : Text)
    → has_prefix (build_object_key date now user name) (month_prefix user (date now).0 (date now).1)
      ≡ true
unfolding build_object_key
build_object_key-month date now user name =
    has_prefix-append (month_prefix user (date now).0 (date now).1) name

module _ (s : ObjectStore) (t : Transfers s) (law : TransferLaws s t) (date : Date)
    (md5 : Text → Text) (reformat : Text → Option Text) where
  -- What a response promises of the objects behind it: where it is a success, its key holds what the
  -- upload read, and its hash is of that.
  abbrev pub IsStored : Text → UploadFileResponse → s.Objects → Type 0
  IsStored bucket r o =
      (r.success ≡ false)
      ⊎ ((read : Text) × ((r.hash ≡ md5 read)
            × (s.content o bucket r.object_key ≡ some (t.content_of read))))

  module _ (now : ℕ) (bucket user name bytes : Text) (size : ℤ)
      (metadata : Option UploadFileMetadata) (o : s.Objects) where
    abbrev one : UploadFileResponse × s.Objects
    one = upload_one s t date md5 reformat now bucket user name bytes size metadata o

    pub upload_one-key :
        one.0.object_key ≡ build_object_key date now user (actual_file_name name metadata)
    unfolding upload_one upload_file build_upload_response
    upload_one-key = ground arith

    pub upload_one-other :
        (j : Text)
        → same_text one.0.object_key j ≡ false
        → s.content one.1 bucket j ≡ s.content o bucket j
    unfolding upload_one upload_file
    upload_one-other j other =
        let key = build_object_key date now user (actual_file_name name metadata) in
        let kept =
          law.put_other bucket key bytes j size (put_options s t date md5 reformat metadata) o
            (ap (λ k. same_text k j) (sym upload_one-key) ∙ other) in
        ground (arith, kept)

    pub upload_one-IsStored : IsStored bucket one.0 one.1
    unfolding upload_one upload_file build_upload_response
    upload_one-IsStored =
        let key = build_object_key date now user (actual_file_name name metadata) in
        let options = put_options s t date md5 reformat metadata in
        let put = t.put bucket key bytes size options o in
        elim (Result-cases put.result) [
          | inr (e, failed) ↦ inl (ground (arith, failed))
          | inl (info, done) ↦
              let stored = law.put_ok bucket key bytes size options o info done in
              inr (put.read, ground (arith, done, stored))
        ]

  -- Whether a download gave this content.
  abbrev pub Opens : s.Content → Result (s.Content × ObjectInfo) → Type 0
  Opens content (err e) = Unit
  Opens content (ok (found, info)) = found ≡ content

  open_object-content :
      (format : ℕ → Text) (bucket : Text) (buckets : List Text) (user key : Text) (o : s.Objects)
      (content : s.Content)
      → s.content o bucket key ≡ some content
      → Opens content (open_object s t format (bucket ∷ buckets) user key o)
  unfolding open_object default_bucket
  open_object-content format bucket buckets user key o content there =
      elim (Bool-cases (is_empty user || not (has_prefix key (home user)))) [
        | inl denied ↦ ground (arith, denied)
        | inr own ↦ elim (Result-cases (t.get_object bucket key o)) [
          | inr (e, failed) ↦ ground (arith, own, failed)
          | inl (found, got) ↦
              let same = law.get_ok bucket key o found got in
              elim (Result-cases (s.stat bucket key [] o)) [
                | inr (e, unstated) ↦ ground (arith, own, got, unstated)
                | inl (info, stated) ↦ ground (arith, own, got, stated, same, there)
              ]
        ]
      ]

  -- The object store refuses the upload.
  abbrev IsRefused : Text → Text → Text → ℤ → Option UploadFileMetadata → s.Objects → Error → Type 0
  IsRefused bucket key bytes size metadata o x =
      (t.put bucket key bytes size (put_options s t date md5 reformat metadata) o).result ≡ err x

  upload_one-error :
      (now : ℕ) (bucket user name bytes : Text) (size : ℤ) (metadata : Option UploadFileMetadata)
      (o : s.Objects)
      → (let r = (upload_one s t date md5 reformat now bucket user name bytes size metadata o).0 in
          ((r.success ≡ true) × (r.error ≡ none))
          ⊎ ((r.success ≡ false)
              × ((e : Error) × (r.error ≡ some e)
                  × ((x : Error) × (IsRefused bucket r.object_key bytes size metadata o x)))))
  unfolding upload_one upload_file build_upload_response
  upload_one-error now bucket user name bytes size metadata o =
      let key = build_object_key date now user (actual_file_name name metadata) in
      let put = t.put bucket key bytes size (put_options s t date md5 reformat metadata) o in
      elim (Result-cases put.result) [
        | inl (info, done) ↦ inl (ground (arith, done), ground (arith, done))
        | inr (e, failed) ↦ inr (
          ground (arith, failed),
          (upload_failed e, ground (arith, failed), (e, ground (arith, failed))),
        )
      ]

  -- What a call of `UploadSingleFile` gives: where the object store refuses, an error and a response that names it and is no success; or
  -- no error and a successful response, whose hash is that of what the upload read, while a download of
  -- the key, unless it is refused or fails, gives the content that was uploaded.
  abbrev pub Uploaded :
      (format : ℕ → Text) (bucket : Text) (buckets : List Text) (user bytes : Text) (size : ℤ)
      → Option UploadFileMetadata
      → s.Objects
      → UploadFileResponse
      → (Option UploadFileResponse × Option Error) × s.Objects
      → Type 0
  Uploaded format bucket buckets user bytes size metadata before r ((response, error), o) =
      (response ≡ some r)
      × (((e : Error) × (error ≡ some e)
            × (r.error ≡ some e)
            × (r.success ≡ false)
            × ((x : Error) × (IsRefused bucket r.object_key bytes size metadata before x)))
          ⊎ ((read : Text) × (error ≡ none)
              × (r.success ≡ true)
              × (r.hash ≡ md5 read)
              × Opens (t.content_of read)
                  (open_object s t format (bucket ∷ buckets) user r.object_key o)))

  -- With a bucket, `UploadSingleFile` gives a response under a key of the user's current month. Where the
  -- object store refuses the upload, an error stands beside a response that names it and is no success;
  -- else there is no error,
  -- the response is a success, its hash is that of what the upload read, and a download of the key
  -- afterwards, unless it is refused or fails, gives the content that was uploaded.
  pub upload_single_file-Opens :
      (now : ℕ) (format : ℕ → Text) (bucket : Text) (buckets : List Text) (user name bytes : Text)
      (size : ℤ) (metadata : Option UploadFileMetadata) (o : s.Objects)
      → (r : UploadFileResponse) × (has_prefix r.object_key
            (month_prefix user (date now).0 (date now).1)
          ≡ true)
        × Uploaded format bucket buckets user bytes size metadata o r (
            upload_single_file s t date md5 reformat now
              (bucket ∷ buckets)
              user
              name
              bytes
              size
              metadata
              o)
  unfolding upload_single_file default_bucket
  upload_single_file-Opens now format bucket buckets user name bytes size metadata o =
      let (r, o') = upload_one s t date md5 reformat now bucket user name bytes size metadata o in
      (
        r,
        ap (λ k. has_prefix k (month_prefix user (date now).0 (date now).1))
              (upload_one-key now bucket user name bytes size metadata o)
            ∙ build_object_key-month date now user (actual_file_name name metadata),
        (
          refl,
          elim (upload_one-error now bucket user name bytes size metadata o) [
            | inr (failed, (e, named, why)) ↦ inl (e, named, named, failed, why)
            | inl (done, no_error) ↦
                elim (upload_one-IsStored now bucket user name bytes size metadata o) [
                  | inl failed ↦ absurd (cc (done, failed))
                  | inr (read, (hashed, stored)) ↦ inr (
                    read,
                    no_error,
                    done,
                    hashed,
                    open_object-content format bucket buckets user r.object_key o'
                        (t.content_of read) stored,
                  )
                ]
          ],
        ),
      )
