-- ===== src/Files/Transfer/Upload/Batch.antt =====
-- What a batch of uploads answers and leaves in the object store.
use notevault.Prelude.{
  ℕ, suc, ◌+◌, ◌-◌, ◌≤◌, ◌≡◌, refl, sym, ap, ◌∙◌, subst, ◌⊎◌, inl, inr, Bool, true, false, ◌||◌,
  Option, List, [], ◌∷◌, ◌++◌, arith, Text, same_text, has_prefix, length, if◌then◌else◌,
  Bool-cases,
}
use mathlib.Core.List.{append-nil, append_assoc}
use notevault.Prelude.Assoc.{Assoc, lookup}
use notevault.Prelude.Result.{ok}
use notevault.Prelude.Int.{ℤ}
use notevault.Files.Store.{ObjectStore, default_bucket, home}
use notevault.Files.Operations.Frame.{same_text-foreign}
use notevault.Files.Catalog.Sync.{Date}
use notevault.Files.Transfer.{Transfers, TransferLaws}
use notevault.Files.Transfer.Upload.{
  UploadFileMetadata, UploadFileResponse, UploadBatchFilesResponse, actual_file_name, upload_one,
  upload_each, upload_batch_files, size_of,
}
use notevault.Files.Transfer.Upload.Stored.{
  build_object_key-own, IsStored, upload_one-key, upload_one-other, upload_one-IsStored,
}

abbrev pub count_successes : List UploadFileResponse → ℕ
count_successes [] = 0
count_successes (r ∷ rs) = if r.success then suc (count_successes rs) else count_successes rs

-- Whether a response names a key.
abbrev pub names_key : Text → List UploadFileResponse → Bool
names_key key [] = false
names_key key (r ∷ rs) = same_text r.object_key key || names_key key rs

abbrev make : List UploadFileResponse → ℕ → ℕ → ℕ → UploadBatchFilesResponse
make results total successful failed = record {
  results = results;
  total = total;
  successful = successful;
  failed = failed;
}

make-eq :
    {a b : List UploadFileResponse} {total m n k l : ℕ}
    → a ≡ b
    → m ≡ n
    → k ≡ l
    → make a total m k ≡ make b total n l
make-eq p q r = cc

module _ (s : ObjectStore) (t : Transfers s) (law : TransferLaws s t) (date : Date)
    (md5 : Text → Text) (reformat : Text → Option Text) (now : Text → ℕ) (bucket user : Text)
    (sizes : Assoc ℤ) (metadata : Assoc UploadFileMetadata) where
  abbrev upload : Text → Text → s.Objects → UploadFileResponse × s.Objects
  upload name bytes o =
      upload_one s t date md5 reformat (now name) bucket user name bytes
        (size_of s t date md5 reformat name sizes) (lookup name metadata) o

  -- The responses to the files, one after the other.
  abbrev responses : Assoc Text → s.Objects → List UploadFileResponse × s.Objects
  responses [] o = ([], o)
  responses ((name, bytes) ∷ files) o =
      let (rs, o') = responses files (upload name bytes o).1 in ((upload name bytes o).0 ∷ rs, o')

  -- Each response is true at the end, unless a later one names its key again.
  abbrev pub AllStored : List UploadFileResponse → s.Objects → Type 0
  AllStored [] o = Unit
  AllStored (r ∷ rs) o =
      ((names_key r.object_key rs ≡ true) ⊎ IsStored s t law date md5 reformat bucket r o)
      × AllStored rs o

  responses-other :
      (files : Assoc Text) (o : s.Objects) (j : Text)
      → names_key j (responses files o).0 ≡ false
      → s.content (responses files o).1 bucket j ≡ s.content o bucket j
  responses-other [] o j other = refl
  responses-other ((name, bytes) ∷ files) o j other =
      responses-other files (upload name bytes o).1 j (ground (arith, other))
      ∙ upload_one-other s t law date md5 reformat (now name) bucket user name bytes _
          (lookup name metadata) o j (ground (arith, other))

  responses-AllStored :
      (files : Assoc Text) (o : s.Objects) → AllStored (responses files o).0 (responses files o).1
  responses-AllStored [] o = tt
  responses-AllStored ((name, bytes) ∷ files) o =
      let (r, o1) = upload name bytes o in
      (
        elim (Bool-cases (names_key r.object_key (responses files o1).0)) [
          | inl again ↦ inl again
          | inr last ↦
              elim (upload_one-IsStored s t law date md5 reformat (now name) bucket user name bytes
                _ (lookup name metadata) o) [
                  | inl failed ↦ inr (inl failed)
                  | inr (read, (hashed, stored)) ↦
                      inr
                        (inr (read, (hashed, responses-other files o1 r.object_key last ∙ stored)))
                ]
        ],
        responses-AllStored files o1,
      )

  length-responses :
      (files : Assoc Text) (o : s.Objects) → length (responses files o).0 ≡ length files
  length-responses [] o = refl
  length-responses ((name, bytes) ∷ files) o =
      ap suc (length-responses files (upload name bytes o).1)

  -- The reply of the loop is what it began with and the responses.
  abbrev extended : UploadBatchFilesResponse → List UploadFileResponse → UploadBatchFilesResponse
  extended reply rs = record {
    results = reply.results ++ rs;
    total = reply.total;
    successful = reply.successful + count_successes rs;
    failed = reply.failed + (length rs - count_successes rs);
  }

  count-length : (rs : List UploadFileResponse) → count_successes rs ≤ length rs
  count-length [] = omega arith
  count-length (r ∷ rs) = ground (arith, count-length rs)

  extended-nil : (reply : UploadBatchFilesResponse) → reply ≡ extended reply []
  extended-nil reply = make-eq (sym (append-nil reply.results)) (omega arith) (omega arith)

  -- The reply after one more response.
  abbrev added : UploadFileResponse → UploadBatchFilesResponse → UploadBatchFilesResponse
  added r reply = record {
    results = reply.results ++ r ∷ [];
    total = reply.total;
    successful = if r.success then reply.successful + 1 else reply.successful;
    failed = if r.success then reply.failed else reply.failed + 1;
  }

  extended-added :
      (r : UploadFileResponse) (rs : List UploadFileResponse) (reply : UploadBatchFilesResponse)
      → extended (added r reply) rs ≡ extended reply (r ∷ rs)
  extended-added r rs reply =
      make-eq (append_assoc reply.results (r ∷ []) rs) (ground arith)
        (ground (arith, count-length rs))

  upload_each-responses :
      (files : Assoc Text) (reply : UploadBatchFilesResponse) (o : s.Objects)
      → upload_each s t date md5 reformat now bucket user sizes metadata files reply o
        ≡ (extended reply (responses files o).0, (responses files o).1)
  unfolding upload_each
  upload_each-responses [] reply o = ap (λ r. (r, o)) (extended-nil reply)
  upload_each-responses ((name, bytes) ∷ files) reply o =
      let (r, o1) = upload name bytes o in
      upload_each-responses files (added r reply) o1
      ∙ ap (λ x. (x, (responses files o1).1)) (extended-added r (responses files o1).0 reply)

  upload-own :
      (name bytes : Text) (o : s.Objects)
      → has_prefix (upload name bytes o).0.object_key (home user) ≡ true
  upload-own name bytes o =
      ap (λ k. has_prefix k (home user))
        (upload_one-key s t law date md5 reformat (now name) bucket user name bytes _
          (lookup name metadata) o)
      ∙ build_object_key-own date (now name) user (actual_file_name name (lookup name metadata))

  responses-foreign :
      (files : Assoc Text) (o : s.Objects) (j : Text)
      → has_prefix j (home user) ≡ false
      → s.content (responses files o).1 bucket j ≡ s.content o bucket j
  responses-foreign [] o j foreign = refl
  responses-foreign ((name, bytes) ∷ files) o j foreign =
      responses-foreign files (upload name bytes o).1 j foreign
      ∙ upload_one-other s t law date md5 reformat (now name) bucket user name bytes _
          (lookup name metadata) o j
          (same_text-foreign (upload name bytes o).0.object_key j (home user)
            (upload-own name bytes o) foreign)

  -- What a batch answers and leaves behind.
  pub record Uploads (n : ℕ) (reply : UploadBatchFilesResponse) (after : s.Objects) : Type 0 where
    pub one_each : length reply.results ≡ n
    pub total_all : reply.total ≡ n
    pub successes : reply.successful ≡ count_successes reply.results
    pub add_up : reply.successful + reply.failed ≡ n
    pub all_stored : AllStored reply.results after

  abbrev begun : ℕ → UploadBatchFilesResponse
  begun n = record { results = []; total = n; successful = 0; failed = 0 }

  Uploads-responses :
      (files : Assoc Text) (o : s.Objects)
      → Uploads
          (length files)
          (extended (begun (length files)) (responses files o).0)
          (responses files o).1
  Uploads-responses files o = record {
    one_each = length-responses files o;
    total_all = refl;
    successes = omega arith;
    add_up = omega (arith, length-responses files o, count-length (responses files o).0);
    all_stored = responses-AllStored files o;
  }

  -- With a bucket, a batch of uploads answers: with one result for each file, and its counts are those
  -- of the results and add up to the number of files. After the whole batch the key of each success
  -- holds what was read for it, and its hash is of that, unless a later result names the key again. No
  -- key outside the user's own folder has changed its content, in the bucket where the batch works.
  pub upload_batch_files-Uploads :
      (buckets : List Text) (files : Assoc Text) (o : s.Objects) (j : Text)
      → has_prefix j (home user) ≡ false
      → (reply : UploadBatchFilesResponse) × ((upload_batch_files s t date md5 reformat now
            (bucket ∷ buckets)
            user
            files
            sizes
            metadata
            o).0
          ≡ ok reply)
        × Uploads
            (length files)
            reply
            (upload_batch_files s t date md5 reformat now
              (bucket ∷ buckets)
              user
              files
              sizes
              metadata
              o).1
        × (s.content
              (upload_batch_files s t date md5 reformat now
                (bucket ∷ buckets)
                user
                files
                sizes
                metadata
                o).1
              bucket
              j
            ≡ s.content o bucket j)
  unfolding upload_batch_files default_bucket
  upload_batch_files-Uploads buckets files o j foreign =
      let run = upload_each-responses files (begun (length files)) o in
      let reply = extended (begun (length files)) (responses files o).0 in
      (
        reply,
        ap (λ r. ok r.0) run,
        subst (λ r. Uploads (length files) reply r.1) (sym run) (Uploads-responses files o),
        ap (λ r. s.content r.1 bucket j) run ∙ responses-foreign files o j foreign,
      )
