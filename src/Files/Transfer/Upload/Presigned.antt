-- ===== src/Files/Transfer/Upload/Presigned.antt =====
-- The keys for which clients get presigned uploads.
use notevault.Prelude.{
  ℕ, ◌≡◌, refl, inl, inr, true, Option, List, [], ◌∷◌, arith, Text, has_prefix, length, All,
}
use notevault.Prelude.Result.{Result, ok, err, Result-cases}
use notevault.Prelude.Int.{pos, time_add}
use notevault.Share.Service.{default_presigned_op_timeout}
use notevault.Files.Store.{ObjectStore, default_bucket, home}
use notevault.Files.Catalog.Sync.{Date}
use notevault.Files.Transfer.{Transfers, set_bucket, set_key, set_expires}
use notevault.Files.Transfer.Upload.{
  UploadFileItem, PresignedPutItem, PresignedUploadItem, build_object_key, apply_file_policies,
  presign_each_put, presigned_put_urls, presign_each_post, presigned_post_urls_policy,
}
use notevault.Files.Transfer.Upload.Stored.{build_object_key-own}

module _ (user : Text) where
  -- The items are for keys in the user's own folder, one for each of `n` files.
  abbrev pub PutsOwn : ℕ → Result (List PresignedPutItem) → Type 0
  PutsOwn n (err e) = Unit
  PutsOwn n (ok items) =
      (length items ≡ n) × All (λ i. has_prefix i.object_key (home user) ≡ true) items

  abbrev pub PostsOwn : ℕ → Result (List PresignedUploadItem) → Type 0
  PostsOwn n (err e) = Unit
  PostsOwn n (ok items) =
      (length items ≡ n) × All (λ i. has_prefix i.object_key (home user) ≡ true) items

  module _ (s : ObjectStore) (t : Transfers s) (date : Date) (md5 : Text → Text)
      (reformat : Text → Option Text) (bucket : Text) where
    puts-PutsOwn :
        (files : List (ℕ × UploadFileItem))
        → PutsOwn (length files) (presign_each_put s t date md5 reformat bucket user files)
    unfolding presign_each_put
    puts-PutsOwn [] = (refl, tt)
    puts-PutsOwn ((now, file) ∷ files) =
        let key = build_object_key date now user file.file_name in
        let own = build_object_key-own date now user file.file_name in
        let rest = puts-PutsOwn files in
        elim (Result-cases (t.presign_put bucket key (pos default_presigned_op_timeout))) [
          | inr (e, failed) ↦ ground (arith, failed)
          | inl (url, signed) ↦
              elim (Result-cases (presign_each_put s t date md5 reformat bucket user files)) [
                | inr (e, failed) ↦ ground (arith, signed, failed)
                | inl (items, all) ↦ ground (arith, signed, all, own, rest)
              ]
        ]

    posts-PostsOwn :
        (files : List (ℕ × ℕ × UploadFileItem))
        → PostsOwn (length files) (presign_each_post s t date md5 reformat bucket user files)
    unfolding presign_each_post
    posts-PostsOwn [] = (refl, tt)
    posts-PostsOwn ((now, later, file) ∷ files) =
        let key = build_object_key date now user file.file_name in
        let own = build_object_key-own date now user file.file_name in
        let expires = set_expires (time_add later (pos default_presigned_op_timeout)) in
        let rest = posts-PostsOwn files in
        elim (Result-cases
          (t.presign_post (set_bucket bucket ∷ set_key key ∷ expires ∷ apply_file_policies file))) [
            | inr (e, failed) ↦ ground (arith, failed)
            | inl ((url, form), signed) ↦
                elim (Result-cases (presign_each_post s t date md5 reformat bucket user files)) [
                  | inr (e, failed) ↦ ground (arith, signed, failed)
                  | inl (items, all) ↦ ground (arith, signed, all, own, rest)
                ]
          ]

    -- Presigned uploads, with a policy or without, are for one key for each file of the request, all of
    -- them in the user's own folder, unless the call fails.
    presigned_uploads-own :
        (buckets : List Text) (puts : List (ℕ × UploadFileItem))
        (posts : List (ℕ × ℕ × UploadFileItem))
        → PutsOwn
            (length puts)
            (presigned_put_urls s t date md5 reformat (bucket ∷ buckets) user puts)
          × PostsOwn
              (length posts)
              (presigned_post_urls_policy s t date md5 reformat (bucket ∷ buckets) user posts)
    unfolding presigned_put_urls presigned_post_urls_policy default_bucket
    presigned_uploads-own buckets puts posts = (puts-PutsOwn puts, posts-PostsOwn posts)
