-- ===== src/Files/Store.antt =====
-- The object store behind `s3.Client` (MinIO), as an interface: the calls that the file service
-- makes, and what it relies on.
use notevault.Prelude.{
  ℕ, ◌≡◌, Bool, true, false, Option, none, List, [], ◌∷◌, ◌++◌, Text, same_text, has_prefix, All,
}
use notevault.Prelude.Result.{Error, Result, ok, err, no_bucket_configured}

-- `minio.ObjectInfo`, as far as the source reads it; instants are in nanoseconds.
pub record ObjectInfo : Type 0 where
  pub key : Text
  pub size : ℕ
  pub etag : Text
  pub content_type : Text
  pub last_modified : ℕ
  pub version_id : Text
  pub storage_class : Text
  pub user_metadata : List (Text × Text)
  pub is_latest : Bool
  pub is_delete_marker : Bool

-- `minio.CopyDestOptions` and `minio.CopySrcOptions`.
pub record CopyDest : Type 0 where
  pub bucket : Text
  pub object : Text
  pub replace_metadata : Bool
  pub content_type : Text
  pub user_metadata : List (Text × Text)

pub record CopySrc : Type 0 where
  pub bucket : Text
  pub object : Text
  pub version_id : Text

abbrev pub plain_dest : Text → Text → CopyDest
plain_dest bucket key = record {
  bucket = bucket;
  object = key;
  replace_metadata = false;
  content_type = [];
  user_metadata = [];
}

abbrev pub plain_src : Text → Text → CopySrc
plain_src bucket key = record { bucket = bucket; object = key; version_id = [] }

-- Reading changes nothing. `content` is what a plain download of a bucket's key gives.
pub record ObjectStore : Type 1 where
  pub Objects : Type 0
  pub Content : Type 0
  pub content : Objects → Text → Text → Option Content
  -- `PutObject` of an empty body
  pub put_empty : Text → Text → Objects → Result (Unit {0}) × Objects
  -- `CopyObject`, which answers with the new version
  pub copy : CopyDest → CopySrc → Objects → Result Text × Objects
  -- `RemoveObject` for a bucket, a key and a version, the current one if it is empty
  pub remove : Text → Text → Text → Objects → Result (Unit {0}) × Objects
  -- `ListObjects` for a bucket, a prefix, `Recursive` and `WithVersions`: what the channel gives
  pub list : Text → Text → Bool → Bool → Objects → List (Result ObjectInfo)
  -- `StatObject` for a bucket, a key and a version
  pub stat : Text → Text → Text → Objects → Result ObjectInfo

-- What a listing gives under a prefix.
abbrev pub IsUnder : Text → Result ObjectInfo → Type 0
IsUnder prefix (err e) = Unit
IsUnder prefix (ok info) = has_prefix info.key prefix ≡ true

pub record ObjectStoreLaws (s : ObjectStore) : Type 0 where
  pub remove_ok :
      (bucket key : Text) (o : s.Objects)
      → (s.remove bucket key [] o).0 ≡ ok tt
      → s.content (s.remove bucket key [] o).1 bucket key ≡ none
  pub remove_other :
      (bucket key version j : Text) (o : s.Objects)
      → same_text key j ≡ false
      → s.content (s.remove bucket key version o).1 bucket j ≡ s.content o bucket j
  pub remove_err :
      (bucket key version j : Text) (o : s.Objects) (e : Error)
      → (s.remove bucket key version o).0 ≡ err e
      → s.content (s.remove bucket key version o).1 bucket j ≡ s.content o bucket j
  pub copy_ok :
      (bucket from to : Text) (o : s.Objects) (version : Text)
      → (s.copy (plain_dest bucket to) (plain_src bucket from) o).0 ≡ ok version
      → s.content (s.copy (plain_dest bucket to) (plain_src bucket from) o).1 bucket to
        ≡ s.content o bucket from
  pub copy_other :
      (dest : CopyDest) (src : CopySrc) (j : Text) (o : s.Objects)
      → same_text dest.object j ≡ false
      → s.content (s.copy dest src o).1 dest.bucket j ≡ s.content o dest.bucket j
  pub put_other :
      (bucket key j : Text) (o : s.Objects)
      → same_text key j ≡ false
      → s.content (s.put_empty bucket key o).1 bucket j ≡ s.content o bucket j
  pub list_under :
      (bucket prefix : Text) (recursive versions : Bool) (o : s.Objects)
      → All (IsUnder prefix) (s.list bucket prefix recursive versions o)

-- `defaultBucket`: the first bucket of the configuration.
unfoldable pub default_bucket : List Text → Result Text
default_bucket [] = err no_bucket_configured
default_bucket (b ∷ _) = ok b

-- `user + "/"`
abbrev pub home : Text → Text
home user = user ++ b'/' ∷ []
