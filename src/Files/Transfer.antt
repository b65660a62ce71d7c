-- ===== src/Files/Transfer.antt =====
-- The object store as pkg/internal/service/files_upload.go and files_download.go use it.
pub mod Upload
pub mod Download
mod Tests
use notevault.Prelude.{ℕ, ◌≡◌, false, some, List, Text, same_text}
use notevault.Prelude.Assoc.{Assoc}
use notevault.Prelude.Result.{Error, Result, ok, err}
use notevault.Prelude.Int.{ℤ}
use notevault.Files.Store.{ObjectStore}

-- `minio.PutObjectOptions`, as far as the source sets it
pub record PutOptions : Type 0 where
  pub content_type : Text
  pub user_metadata : Assoc Text

-- `minio.UploadInfo`; `last_modified` is rendered as RFC 3339.
pub record UploadInfo : Type 0 where
  pub etag : Text
  pub last_modified : Text
  pub version_id : Text
  pub bucket : Text
  pub location : Text

-- The calls on a `minio.PostPolicy`, each of which adds a condition
pub data PolicyCall : Type 0 where
  set_bucket set_key set_content_type set_key_starts_with : Text → PolicyCall
  set_content_disposition set_content_encoding : Text → PolicyCall
  set_expires : ℕ → PolicyCall
  set_content_length_range : ℤ → ℤ → PolicyCall
  set_user_metadata : Text → Text → PolicyCall

-- What `PutObject` answers, and the bytes that it has read from its reader by then.
pub record Put (s : ObjectStore) : Type 0 where
  pub result : Result UploadInfo
  pub read : Text
  pub objects : s.Objects

pub record Transfers (s : ObjectStore) : Type 0 where
  -- `PutObject` for a bucket, a key, the bytes that the reader holds, and a size
  pub put : Text → Text → Text → ℤ → PutOptions → s.Objects → Put s
  -- the content that an upload of these bytes leaves
  pub content_of : Text → s.Content
  -- `GetObject`
  pub get_object : Text → Text → s.Objects → Result s.Content
  -- `PresignedPutObject`, for a number of nanoseconds
  pub presign_put : Text → Text → ℤ → Result Text
  -- `PresignedGetObject`, with the parameters of the answer's header
  pub presign_get : Text → Text → ℤ → Assoc Text → Result Text
  -- `PresignedPostPolicy`: a URL and the data of a form
  pub presign_post : List PolicyCall → Result (Text × Assoc Text)

pub record TransferLaws (s : ObjectStore) (t : Transfers s) : Type 0 where
  pub put_ok :
      (bucket key bytes : Text) (size : ℤ) (options : PutOptions) (o : s.Objects)
      (info : UploadInfo)
      → (t.put bucket key bytes size options o).result ≡ ok info
      → s.content (t.put bucket key bytes size options o).objects bucket key
        ≡ some (t.content_of (t.put bucket key bytes size options o).read)
  pub put_other :
      (bucket key bytes j : Text) (size : ℤ) (options : PutOptions) (o : s.Objects)
      → same_text key j ≡ false
      → s.content (t.put bucket key bytes size options o).objects bucket j ≡ s.content o bucket j
  pub get_ok :
      (bucket key : Text) (o : s.Objects) (c : s.Content)
      → t.get_object bucket key o ≡ ok c
      → s.content o bucket key ≡ some c
