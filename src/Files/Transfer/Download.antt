-- ===== src/Files/Transfer/Download.antt =====
-- pkg/internal/service/files_download.go, with the helpers of file_helper.go.
use notevault.Prelude.{
  ℕ, zero, suc, not, ◌||◌, List, [], ◌∷◌, ◌++◌, Text, codes, is_empty, has_prefix, if◌then◌else◌,
}
use notevault.Prelude.{◌/◌}
use notevault.Prelude.Assoc.{Assoc}
use notevault.Prelude.Result.{
  Result, ok, err, map_result, access_denied, stat_failed, open_failed, presign_file_failed,
}
use notevault.Prelude.Int.{ℤ, pos, negsuc, is_positive, mul_int64, nanoseconds}
use notevault.Share.Service.{default_presigned_op_timeout}
use notevault.Files.Store
use notevault.Files.Store.{ObjectStore, default_bucket, home}
use notevault.Files.Versions.{trim_quotes}
use notevault.Files.Catalog.Month.{ObjectInfo}
use notevault.Files.Transfer.{Transfers}

-- `types.GetFileURLItem`
pub record GetFileUrlItem : Type 0 where
  pub object_key : Text
  pub response_content_type : Text
  pub response_content_disposition : Text
  pub response_cache_control : Text
  pub response_content_language : Text
  pub response_content_encoding : Text

pub record PresignedDownloadItem : Type 0 where
  pub object_key : Text
  pub get_url : Text
  pub expires_in : ℤ

-- `resolveGetExpiry`, in nanoseconds; the product wraps around.
unfoldable pub resolve_get_expiry : ℤ → ℤ
resolve_get_expiry expiry_seconds =
    if is_positive expiry_seconds
    then mul_int64 expiry_seconds nanoseconds
    else pos default_presigned_op_timeout

-- `int(d.Seconds())`, towards zero
unfoldable pub whole_seconds : ℤ → ℤ
whole_seconds (pos n) = pos (n / nanoseconds)
whole_seconds (negsuc n) = elim (suc n / nanoseconds) [ zero ↦ pos 0 | suc k ↦ negsuc k ]

abbrev param_if : Text → Text → Assoc Text
param_if name value = if is_empty value then [] else (name, value) ∷ []

unfoldable pub build_get_req_params : GetFileUrlItem → Assoc Text
build_get_req_params item =
    param_if (codes "response-content-type") item.response_content_type
    ++ (param_if (codes "response-content-disposition") item.response_content_disposition
        ++ (param_if (codes "response-cache-control") item.response_cache_control
            ++ (param_if (codes "response-content-language") item.response_content_language
                ++ param_if (codes "response-content-encoding") item.response_content_encoding)))

module _ (s : ObjectStore) (t : Transfers s) (format : ℕ → Text) where
  unfoldable pub presign_get : Text → GetFileUrlItem → ℤ → Result PresignedDownloadItem
  unfolding build_get_req_params whole_seconds
  presign_get bucket item expiry =
      elim (t.presign_get bucket item.object_key expiry (build_get_req_params item)) [
        | err e ↦ err (presign_file_failed item.object_key e)
        | ok url ↦ ok (record {
          object_key = item.object_key;
          get_url = url;
          expires_in = whole_seconds expiry;
        })
      ]

  unfoldable pub presign_each_get :
      Text → ℤ → List GetFileUrlItem → Result (List PresignedDownloadItem)
  unfolding presign_get
  presign_each_get bucket expiry [] = ok []
  presign_each_get bucket expiry (item ∷ items) =
      let rest = presign_each_get bucket expiry items in
      elim (presign_get bucket item expiry) [
        | err e ↦ err e
        | ok d ↦ map_result (λ ds. d ∷ ds) rest
      ]

  -- Nobody's user is asked for.
  unfoldable pub presigned_get_urls :
      List Text → List GetFileUrlItem → ℤ → Result (List PresignedDownloadItem)
  unfolding presign_each_get resolve_get_expiry default_bucket
  presigned_get_urls buckets items expiry_seconds = elim (default_bucket buckets) [
    | err e ↦ err e
    | ok bucket ↦ presign_each_get bucket (resolve_get_expiry expiry_seconds) items
  ]

  unfoldable pub stat_info : Text → Text → Store.ObjectInfo → ObjectInfo
  unfolding trim_quotes
  stat_info bucket key info = record {
    object_key = key;
    size = info.size;
    etag = trim_quotes info.etag;
    content_type = info.content_type;
    last_modified = format info.last_modified;
    version_id = info.version_id;
    storage_class = info.storage_class;
    bucket = bucket;
    user_metadata = info.user_metadata;
  }

  unfoldable pub stat_object : List Text → Text → Text → s.Objects → Result ObjectInfo
  unfolding stat_info default_bucket
  stat_object buckets user key o =
      if is_empty user || not (has_prefix key (home user))
      then err access_denied
      else elim (default_bucket buckets) [
        | err e ↦ err e
        | ok bucket ↦ elim (s.stat bucket key [] o) [
          | err e ↦ err (stat_failed e)
          | ok info ↦ ok (stat_info bucket key info)
        ]
      ]

  unfoldable pub open_object : List Text → Text → Text → s.Objects → Result (s.Content × ObjectInfo)
  unfolding stat_info default_bucket
  open_object buckets user key o =
      if is_empty user || not (has_prefix key (home user))
      then err access_denied
      else elim (default_bucket buckets) [
        | err e ↦ err e
        | ok bucket ↦ elim (t.get_object bucket key o) [
          | err e ↦ err (open_failed e)
          | ok content ↦ elim (s.stat bucket key [] o) [
            | err e ↦ err (stat_failed e)
            | ok info ↦ ok (content, stat_info bucket key info)
          ]
        ]
      ]
