-- ===== src/Files/Transfer/Upload.antt =====
-- pkg/internal/service/files_upload.go, with the helpers of file_helper.go.
pub mod Stored
pub mod Batch
pub mod Presigned
use notevault.Prelude.{
  ℕ, ◌+◌, ◌-◌, Bool, true, false, not, ◌||◌, Option, none, some, List, [], ◌∷◌, ◌++◌, map, Text,
  codes, is_empty, length, if◌then◌else◌,
}
use notevault.Prelude.Assoc.{Assoc, lookup, insert}
use notevault.Prelude.Result.{
  Error, Result, ok, err, map_result, upload_failed, presign_file_failed,
}
use notevault.Prelude.Int.{ℤ, pos, is_positive, time_add}
use notevault.Share.Service.{default_presigned_op_timeout}
use notevault.Files.Store.{ObjectStore, default_bucket}
use notevault.Files.Catalog.Month.{month_prefix}
use notevault.Files.Catalog.Sync.{Date}
use notevault.Files.Transfer.{
  PutOptions, UploadInfo, PolicyCall, set_bucket, set_key, set_content_type, set_key_starts_with,
  set_content_disposition, set_content_encoding, set_expires, set_content_length_range,
  set_user_metadata, Transfers,
}

-- `types.UploadFileItem`; the map is in the order in which it is walked.
pub record UploadFileItem : Type 0 where
  pub file_name : Text
  pub content_type : Text
  pub max_size : ℤ
  pub min_size : ℤ
  pub key_starts_with : Text
  pub content_disposition : Text
  pub content_encoding : Text
  pub user_metadata : Assoc Text

-- `types.UploadFileMetadata`, as far as the code reads it
pub record UploadFileMetadata : Type 0 where
  pub file_name : Text
  pub tags : Assoc Text
  pub description : Text
  pub content_type : Text
  pub last_modified : Text

-- `types.UploadFileResponse`
pub record UploadFileResponse : Type 0 where
  pub object_key : Text
  pub hash : Text
  pub size : ℤ
  pub etag : Text
  pub last_modified : Text
  pub version_id : Text
  pub bucket : Text
  pub location : Text
  pub file_name : Text
  pub tags : Assoc Text
  pub description : Text
  pub content_type : Text
  pub success : Bool
  pub error : Option Error

pub record UploadBatchFilesResponse : Type 0 where
  pub results : List UploadFileResponse
  pub total : ℕ
  pub successful : ℕ
  pub failed : ℕ

pub record PresignedPutItem : Type 0 where
  pub object_key : Text
  pub put_url : Text
  pub expires_in : ℕ

pub record PresignedUploadItem : Type 0 where
  pub object_key : Text
  pub put_url : Text
  pub form_data : Assoc Text
  pub expires_in : ℕ

-- `int(DefaultPresignedOpTimeout.Seconds())`
abbrev pub timeout_seconds : ℕ
timeout_seconds = 900

-- The layout `2006/01` renders the year and the month as `%04d/%02d`.
unfoldable pub build_object_key : Date → ℕ → Text → Text → Text
unfolding month_prefix
build_object_key date now user file_name =
    let (year, month, day) = date now in month_prefix user year month ++ file_name

abbrev policy_if : Bool → PolicyCall → List PolicyCall
policy_if true c = c ∷ []
policy_if false c = []

unfoldable pub apply_file_policies : UploadFileItem → List PolicyCall
apply_file_policies file =
    policy_if (not (is_empty file.content_type)) (set_content_type file.content_type)
    ++ (policy_if (is_positive file.max_size || is_positive file.min_size)
          (set_content_length_range file.min_size file.max_size)
        ++ (policy_if (not (is_empty file.key_starts_with))
              (set_key_starts_with file.key_starts_with)
            ++ (policy_if (not (is_empty file.content_disposition))
                  (set_content_disposition file.content_disposition)
                ++ (policy_if (not (is_empty file.content_encoding))
                      (set_content_encoding file.content_encoding)
                    ++ map (λ e. set_user_metadata e.0 e.1) file.user_metadata))))

-- `x` of the metadata, if there is any
abbrev of_metadata {ℓ} : {A : Type ℓ} → A → (UploadFileMetadata → A) → Option UploadFileMetadata → A
of_metadata default f none = default
of_metadata default f (some meta) = f meta

abbrev actual_file_name : Text → Option UploadFileMetadata → Text
actual_file_name file_name none = file_name
actual_file_name file_name (some meta) =
    if is_empty meta.file_name then file_name else meta.file_name

-- `md5` is the hash in hexadecimal; `reformat` parses RFC 3339 and renders it again.
module _ (s : ObjectStore) (t : Transfers s) (date : Date) (md5 : Text → Text)
    (reformat : Text → Option Text) where
  -- `time.Parse` of a text that may be empty
  abbrev own_time : Text → Option Text
  own_time last_modified = if is_empty last_modified then none else reformat last_modified

  unfoldable pub put_options : Option UploadFileMetadata → PutOptions
  unfolding insert
  put_options none = record { content_type = []; user_metadata = [] }
  put_options (some meta) = record {
    content_type = meta.content_type;
    user_metadata = elim (own_time meta.last_modified) [
      | none ↦ meta.tags
      | some time ↦ insert (codes "last-modified") time meta.tags
    ];
  }

  -- The answer and the objects of `uploadFile`, with the hash of what was read.
  unfoldable pub upload_file :
      Text
      → Text
      → Text
      → ℤ
      → Option UploadFileMetadata
      → s.Objects
      → Result (Text × UploadInfo) × s.Objects
  unfolding put_options
  upload_file bucket key bytes size metadata o =
      let put = t.put bucket key bytes size (put_options metadata) o in
      elim put.result [
        | err e ↦ (err (upload_failed e), put.objects)
        | ok info ↦ (ok (md5 put.read, info), put.objects)
      ]

  unfoldable pub build_upload_response :
      Text → Text → Text → ℤ → UploadInfo → Option UploadFileMetadata → UploadFileResponse
  build_upload_response key hash file_name size info metadata = record {
    object_key = key;
    hash = hash;
    size = size;
    etag = info.etag;
    last_modified = elim (of_metadata none (λ meta. own_time meta.last_modified) metadata) [
      | none ↦ info.last_modified
      | some time ↦ time
    ];
    version_id = info.version_id;
    bucket = info.bucket;
    location = info.location;
    file_name = file_name;
    tags = of_metadata [] (λ meta. meta.tags) metadata;
    description = of_metadata [] (λ meta. meta.description) metadata;
    content_type = of_metadata [] (λ meta. meta.content_type) metadata;
    success = true;
    error = none;
  }

  abbrev pub failed_upload : Text → Error → UploadFileResponse
  failed_upload key e = record {
    object_key = key;
    hash = [];
    size = pos 0;
    etag = [];
    last_modified = [];
    version_id = [];
    bucket = [];
    location = [];
    file_name = [];
    tags = [];
    description = [];
    content_type = [];
    success = false;
    error = some e;
  }

  -- One upload into a bucket, as both entry points make it.
  unfoldable pub upload_one :
      ℕ
      → Text
      → Text
      → Text
      → Text
      → ℤ
      → Option UploadFileMetadata
      → s.Objects
      → UploadFileResponse × s.Objects
  unfolding upload_file build_upload_response build_object_key
  upload_one now bucket user file_name bytes size metadata o =
      let actual = actual_file_name file_name metadata in
      let key = build_object_key date now user actual in
      let (r, o') = upload_file bucket key bytes size metadata o in
      elim r [
        | err e ↦ (failed_upload key e, o')
        | ok (hash, info) ↦ (build_upload_response key hash actual size info metadata, o')
      ]

  -- The response and the error: an upload that fails gives both, and the response names the error.
  unfoldable pub upload_single_file :
      ℕ
      → List Text
      → Text
      → Text
      → Text
      → ℤ
      → Option UploadFileMetadata
      → s.Objects
      → (Option UploadFileResponse × Option Error) × s.Objects
  unfolding upload_one default_bucket
  upload_single_file now buckets user file_name bytes size metadata o =
      elim (default_bucket buckets) [
        | err e ↦ ((none, some e), o)
        | ok bucket ↦
            let (response, o') = upload_one now bucket user file_name bytes size metadata o in
            ((some response, response.error), o')
      ]

  -- `sizes[name]`
  abbrev size_of : Text → Assoc ℤ → ℤ
  size_of name sizes = elim (lookup name sizes) [ none ↦ pos 0 | some size ↦ size ]

  unfoldable pub upload_each :
      (Text → ℕ)
      → Text
      → Text
      → Assoc ℤ
      → Assoc UploadFileMetadata
      → Assoc Text
      → UploadBatchFilesResponse
      → s.Objects
      → UploadBatchFilesResponse × s.Objects
  unfolding upload_one lookup
  upload_each now bucket user sizes metadata [] reply o = (reply, o)
  upload_each now bucket user sizes metadata ((name, bytes) ∷ files) reply o =
      let (r, o') =
        upload_one (now name) bucket user name bytes (size_of name sizes) (lookup name metadata)
          o in
      upload_each now bucket user sizes metadata files
        (record {
          results = reply.results ++ r ∷ [];
          total = reply.total;
          successful = if r.success then reply.successful + 1 else reply.successful;
          failed = if r.success then reply.failed else reply.failed + 1;
        })
        o'

  -- `files` is a map, in the order in which it is walked.
  unfoldable pub upload_batch_files :
      (Text → ℕ)
      → List Text
      → Text
      → Assoc Text
      → Assoc ℤ
      → Assoc UploadFileMetadata
      → s.Objects
      → Result UploadBatchFilesResponse × s.Objects
  unfolding upload_each default_bucket
  upload_batch_files now buckets user files sizes metadata o = elim (default_bucket buckets) [
    | err e ↦ (err e, o)
    | ok bucket ↦
        let (reply, o') =
          upload_each now bucket user sizes metadata files
            (record { results = []; total = length files; successful = 0; failed = 0 }) o in
        (ok reply, o')
  ]

  -- `PresignedPutURLs`; beside each file stands what `time.Now` returns for it.
  unfoldable pub presign_each_put :
      Text → Text → List (ℕ × UploadFileItem) → Result (List PresignedPutItem)
  unfolding build_object_key
  presign_each_put bucket user [] = ok []
  presign_each_put bucket user ((now, file) ∷ files) =
      let rest = presign_each_put bucket user files in
      let key = build_object_key date now user file.file_name in
      elim (t.presign_put bucket key (pos default_presigned_op_timeout)) [
        | err e ↦ err (presign_file_failed file.file_name e)
        | ok url ↦
            map_result
              (λ items.
                record { object_key = key; put_url = url; expires_in = timeout_seconds } ∷ items)
              rest
      ]

  unfoldable pub presigned_put_urls :
      List Text → Text → List (ℕ × UploadFileItem) → Result (List PresignedPutItem)
  unfolding presign_each_put default_bucket
  presigned_put_urls buckets user files = elim (default_bucket buckets) [
    | err e ↦ err e
    | ok bucket ↦ presign_each_put bucket user files
  ]

  -- `PresignedPostURLsPolicy` reads the clock twice for each file.
  unfoldable pub presign_each_post :
      Text → Text → List (ℕ × ℕ × UploadFileItem) → Result (List PresignedUploadItem)
  unfolding build_object_key apply_file_policies
  presign_each_post bucket user [] = ok []
  presign_each_post bucket user ((now, later, file) ∷ files) =
      let rest = presign_each_post bucket user files in
      let key = build_object_key date now user file.file_name in
      let expires = set_expires (time_add later (pos default_presigned_op_timeout)) in
      elim (t.presign_post (set_bucket bucket ∷ set_key key ∷ expires ∷ apply_file_policies file)) [
        | err e ↦ err (presign_file_failed file.file_name e)
        | ok (url, form) ↦
            map_result
              (λ items.
                record {
                  object_key = key;
                  put_url = url;
                  form_data = form;
                  expires_in = timeout_seconds;
                }
                ∷ items)
              rest
      ]

  unfoldable pub presigned_post_urls_policy :
      List Text → Text → List (ℕ × ℕ × UploadFileItem) → Result (List PresignedUploadItem)
  unfolding presign_each_post default_bucket
  presigned_post_urls_policy buckets user files = elim (default_bucket buckets) [
    | err e ↦ err e
    | ok bucket ↦ presign_each_post bucket user files
  ]
