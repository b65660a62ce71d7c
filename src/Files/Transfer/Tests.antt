-- ===== src/Files/Transfer/Tests.antt =====
-- Runs of uploads and downloads over a table of objects, and their theorems at concrete values.
use notevault.Prelude.{
  ℕ, ◌≡◌, refl, Bool, true, false, Option, none, some, [], ◌∷◌, ◌++◌, map, arith, Text, codes,
  same_text, same_text_refl, has_prefix, length, ◌==◌, if◌then◌else◌,
}
use notevault.Prelude.Assoc.{Assoc, lookup, insert, lookup-insert}
use notevault.Prelude.Int.{ℤ, pos, negsuc}
use notevault.Prelude.Result.{Result, ok, err, map_result, external, access_denied}
use notevault.Files.Store.{default_bucket, home}
use notevault.Files.Versions.{trim_quotes}
use notevault.Files.Catalog.Month.{digits, zeros, padded, month_prefix}
use notevault.Files.Transfer.{UploadInfo, Put, Transfers, TransferLaws}
use notevault.Files.Transfer.Upload.{
  UploadFileItem, UploadFileMetadata, UploadFileResponse, UploadBatchFilesResponse,
  build_object_key, apply_file_policies, put_options, upload_file, build_upload_response,
  upload_one, upload_single_file, upload_each, upload_batch_files, presign_each_put,
  presigned_put_urls, presign_each_post, presigned_post_urls_policy,
}
use notevault.Prelude.Result.{Error}
use mathlib.Core.Option
use notevault.Files.Transfer.Upload.Stored.{Uploaded, upload_single_file-Opens}
use notevault.Files.Transfer.Upload.Batch.{Uploads, upload_batch_files-Uploads}
use notevault.Files.Transfer.Download.{
  GetFileUrlItem, PresignedDownloadItem, resolve_get_expiry, whole_seconds, build_get_req_params,
  presign_get, presign_each_get, presigned_get_urls, stat_info, stat_object, open_object,
}
use notevault.Sample.Objects.{table_store, slot, slot-other}

abbrev vault : Text
vault = codes "vault"

abbrev ann : Text
ann = codes "ann"

abbrev info : Text → UploadInfo
info bucket = record {
  etag = codes "e";
  last_modified = codes "now";
  version_id = [];
  bucket = bucket;
  location = [];
}

-- An upload whose size is not that of its bytes fails.
abbrev put_bytes : Text → Text → Text → ℤ → Assoc Text → Put table_store
put_bytes bucket key bytes (negsuc n) o = record {
  result = err (external []);
  read = [];
  objects = o;
}
put_bytes bucket key bytes (pos n) o =
    if length bytes == n
    then record {
      result = ok (info bucket);
      read = bytes;
      objects = insert (slot bucket key) bytes o;
    }
    else record { result = err (external []); read = []; objects = o }

abbrev got : Option Text → Result Text
got none = err (external [])
got (some c) = ok c

abbrev table_transfers : Transfers table_store
table_transfers = record {
  put = λ bucket key bytes size options o. put_bytes bucket key bytes size o;
  content_of = λ read. read;
  get_object = λ bucket key o. got (lookup (slot bucket key) o);
  presign_put = λ bucket key expiry. ok (slot bucket key);
  presign_get = λ bucket key expiry params. ok (slot bucket key);
  presign_post = λ calls. ok ([], []);
}

put_bytes-ok :
    (bucket key bytes : Text) (size : ℤ) (o : Assoc Text) (i : UploadInfo)
    → (put_bytes bucket key bytes size o).result ≡ ok i
    → table_store.content (put_bytes bucket key bytes size o).objects bucket key
      ≡ some (put_bytes bucket key bytes size o).read
put_bytes-ok bucket key bytes (negsuc n) o i done = absurd (ground (arith, done))
put_bytes-ok bucket key bytes (pos n) o i done = ground (
  arith,
  done,
  lookup-insert (slot bucket key) (slot bucket key) bytes o,
  same_text_refl (slot bucket key),
)

put_bytes-other :
    (bucket key bytes j : Text) (size : ℤ) (o : Assoc Text)
    → same_text key j ≡ false
    → table_store.content (put_bytes bucket key bytes size o).objects bucket j
      ≡ table_store.content o bucket j
put_bytes-other bucket key bytes j (negsuc n) o other = refl
put_bytes-other bucket key bytes j (pos n) o other = ground (
  arith,
  other,
  lookup-insert (slot bucket j) (slot bucket key) bytes o,
  slot-other bucket key j other,
)

got-some : (r : Option Text) (c : Text) → got r ≡ ok c → r ≡ some c
got-some none c h = absurd (ground (arith, h))
got-some (some d) c h = ground (arith, h)

table_transfers-TransferLaws : TransferLaws table_store table_transfers
table_transfers-TransferLaws = record {
  put_ok = λ bucket key bytes size options o i done. put_bytes-ok bucket key bytes size o i done;
  put_other =
      λ bucket key bytes j size options o other. put_bytes-other bucket key bytes j size o other;
  get_ok = λ bucket key o c found. got-some (lookup (slot bucket key) o) c found;
}

abbrev date : ℕ → ℕ × ℕ × ℕ
date t = (2025, 9, 1)

-- The hash shows what it was made of.
abbrev hash : Text → Text
hash read = codes "#" ++ read

abbrev reformat : Text → Option Text
reformat text = none

abbrev format : ℕ → Text
format t = []

-- To name on the `unfolding` line of a run.
runs : Unit {0}
unfolding digits zeros padded month_prefix build_object_key put_options upload_file
    build_upload_response upload_one upload_single_file upload_each upload_batch_files lookup insert
    default_bucket same_text apply_file_policies presign_each_put presigned_put_urls
    presign_each_post presigned_post_urls_policy resolve_get_expiry whole_seconds
    build_get_req_params presign_get presign_each_get presigned_get_urls stat_info stat_object
    open_object has_prefix trim_quotes
runs = tt

abbrev uploaded : (Option UploadFileResponse × Option Error) × Assoc Text
uploaded =
    upload_single_file table_store table_transfers date hash reformat 7 (vault ∷ []) ann
      (codes "a.txt") (codes "hi") (pos 2) none []

abbrev shown : UploadFileResponse → Text × Text × Bool
shown r = (r.object_key, r.hash, r.success)

abbrev counted : UploadBatchFilesResponse → ℕ × ℕ × ℕ
counted r = (r.total, r.successful, r.failed)

abbrev signed : PresignedDownloadItem → Text × ℤ
signed d = (d.object_key, d.expires_in)

uploads :
    (Option.map shown uploaded.0.0 ≡ some (codes "ann/2025/09/a.txt", codes "#hi", true))
    × (uploaded.0.1 ≡ none)
    × (uploaded.1 ≡ (codes "vault/ann/2025/09/a.txt", codes "hi") ∷ [])
unfolding runs
uploads = (refl, refl, refl)

opens :
    map_result
      (λ r. r.0)
      (open_object table_store table_transfers format
        (vault ∷ [])
        ann
        (codes "ann/2025/09/a.txt")
        uploaded.1)
    ≡ ok (codes "hi")
unfolding runs
opens = refl

refuses_strangers :
    (open_object table_store table_transfers format
        (vault ∷ [])
        (codes "bob")
        (codes "ann/2025/09/a.txt")
        uploaded.1
      ≡ err access_denied)
    × (stat_object table_store table_transfers format
          (vault ∷ [])
          (codes "bob")
          (codes "ann/2025/09/a.txt")
          uploaded.1
        ≡ err access_denied)
unfolding runs
refuses_strangers = (refl, refl)

-- A size that is missing is 0, and such an upload fails.
abbrev files : Assoc Text
files = (codes "a", codes "A") ∷ (codes "b", codes "B") ∷ (codes "c", codes "C") ∷ []

abbrev sizes : Assoc ℤ
sizes = (codes "a", pos 1) ∷ (codes "b", pos 1) ∷ []

-- `b` is uploaded under the name `a` too.
abbrev metadata : Assoc UploadFileMetadata
metadata =
    (
      codes "b",
      record {
        file_name = codes "a";
        tags = [];
        description = [];
        content_type = [];
        last_modified = [];
      },
    )
    ∷ []

abbrev batch : Result UploadBatchFilesResponse × Assoc Text
batch =
    upload_batch_files table_store table_transfers date hash reformat (λ name. 7) (vault ∷ []) ann
      files sizes metadata []

-- Two files for one key: both are counted, and one is there.
overwrites :
    (map_result counted batch.0 ≡ ok (3, 2, 1))
    × (batch.1 ≡ (codes "vault/ann/2025/09/a", codes "B") ∷ [])
unfolding runs
overwrites = (refl, refl)

abbrev item : Text → GetFileUrlItem
item key = record {
  object_key = key;
  response_content_type = [];
  response_content_disposition = [];
  response_cache_control = [];
  response_content_language = [];
  response_content_encoding = [];
}

-- A URL for any key, without a user; a huge expiry wraps around to a negative one.
signs_any_key :
    (map_result (map signed) (
        presigned_get_urls table_store table_transfers format
          (vault ∷ [])
          (item (codes "bob/x") ∷ [])
          (pos 60))
      ≡ ok ((codes "bob/x", pos 60) ∷ []))
    × (whole_seconds (resolve_get_expiry (pos 9223372037)) ≡ negsuc 9223372035)
unfolding runs
signs_any_key = (refl, refl)

abbrev put_item : Text → UploadFileItem
put_item name = record {
  file_name = name;
  content_type = [];
  max_size = pos 9;
  min_size = pos 0;
  key_starts_with = [];
  content_disposition = [];
  content_encoding = [];
  user_metadata = [];
}

upload_single_file-Opens_example :
    (r : UploadFileResponse) × (has_prefix r.object_key (month_prefix ann 2025 9) ≡ true)
    × Uploaded table_store table_transfers table_transfers-TransferLaws date hash reformat format
        vault [] ann
        (codes "hi")
        (pos 2)
        none
        []
        r
        uploaded
upload_single_file-Opens_example =
    upload_single_file-Opens table_store table_transfers table_transfers-TransferLaws date hash
      reformat 7 format vault [] ann (codes "a.txt") (codes "hi") (pos 2) none []

bob_foreign : has_prefix (codes "bob/x") (home ann) ≡ false
unfolding runs
bob_foreign = refl

upload_batch_files-Uploads_example :
    (reply : UploadBatchFilesResponse) × (batch.0 ≡ ok reply)
    × Uploads table_store table_transfers table_transfers-TransferLaws date hash reformat
        (λ name. 7)
        vault
        ann
        sizes
        metadata
        3
        reply
        batch.1
    × (table_store.content batch.1 vault (codes "bob/x") ≡ none)
unfolding runs
upload_batch_files-Uploads_example =
    upload_batch_files-Uploads table_store table_transfers table_transfers-TransferLaws date hash
      reformat (λ name. 7) vault ann sizes metadata [] files [] (codes "bob/x") bob_foreign

presigns :
    map_result (map (λ i. i.object_key)) (
      presigned_put_urls table_store table_transfers date hash reformat
        (vault ∷ [])
        ann
        ((7, put_item (codes "a")) ∷ []))
    ≡ ok (codes "ann/2025/09/a" ∷ [])
unfolding runs
presigns = refl
