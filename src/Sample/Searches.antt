-- ===== src/Sample/Searches.antt =====
-- A codec for the answers of searches.
use notevault.Prelude.{ℕ, ◌≡◌, refl, sym, ap, ◌∙◌, Option, none, some, List, [], ◌∷◌, arith, Text}
use mathlib.Core.List.{append-nil}
use notevault.Prelude.Codec.{Codec, IsJson}
use notevault.Files.Catalog.Month.{ObjectInfo}
use notevault.Files.Catalog.Search.{SearchFilesResponse}
use notevault.Sample.Wire.{Reader, wire, wire-IsJson, put_texts, get_texts, get-put_texts}
use notevault.Sample.Entries.{put_pairs, get_pairs, get-put_pairs}

put_info : ObjectInfo → List Text
unfolding put_pairs
put_info i =
    i.object_key
    ∷ (i.size ∷ [])
    ∷ i.etag
    ∷ i.content_type
    ∷ i.last_modified
    ∷ i.version_id
    ∷ i.storage_class
    ∷ i.bucket
    ∷ put_pairs i.user_metadata

get_info : List Text → Option ObjectInfo
unfolding get_pairs
get_info (key ∷ (size ∷ []) ∷ etag ∷ type ∷ modified ∷ version ∷ class ∷ bucket ∷ metadata) =
    some (record {
      object_key = key;
      size = size;
      etag = etag;
      content_type = type;
      last_modified = modified;
      version_id = version;
      storage_class = class;
      bucket = bucket;
      user_metadata = get_pairs metadata;
    })
get_info _ = none

get-put_info : (i : ObjectInfo) → get_info (put_info i) ≡ some i
unfolding get_info put_info
get-put_info i = rw get-put_pairs refl

abbrev first : Option (List Text × Text) → Option ObjectInfo
first none = none
first (some (ts, rest)) = get_info ts

get-first : (i : ObjectInfo) → first (get_texts (put_texts (put_info i))) ≡ some i
get-first i =
    let read : get_texts (put_texts (put_info i)) ≡ some (put_info i, []) =
      ap get_texts (sym (append-nil (put_texts (put_info i)))) ∙ get-put_texts (put_info i) [] in
    ap first read ∙ get-put_info i

get_infos : List Text → Option (List ObjectInfo)
get_infos [] = some []
get_infos (t ∷ ts) =
    let rest = get_infos ts in
    elim (first (get_texts t)) [
      | none ↦ none
      | some i ↦ elim rest [ none ↦ none | some is ↦ some (i ∷ is) ]
    ]

put_infos : List ObjectInfo → List Text
put_infos [] = []
put_infos (i ∷ is) = put_texts (put_info i) ∷ put_infos is

get-put_infos : (is : List ObjectInfo) → get_infos (put_infos is) ≡ some is
unfolding get_infos put_infos
get-put_infos [] = refl
get-put_infos (i ∷ is) = ground (arith, get-first i, get-put_infos is)

put_fields : SearchFilesResponse → List Text
unfolding put_infos
put_fields r = (r.total ∷ []) ∷ (r.page ∷ []) ∷ (r.size ∷ []) ∷ put_infos r.files

abbrev with_files : ℕ → ℕ → ℕ → Option (List ObjectInfo) → Option SearchFilesResponse
with_files total page size none = none
with_files total page size (some files) =
    some (record { total = total; page = page; size = size; files = files })

get_fields : List Text → Option SearchFilesResponse
unfolding get_infos
get_fields ((total ∷ []) ∷ (page ∷ []) ∷ (size ∷ []) ∷ files) =
    with_files total page size (get_infos files)
get_fields _ = none

get-put_fields : (r : SearchFilesResponse) → get_fields (put_fields r) ≡ some r
unfolding get_fields put_fields
get-put_fields r = rw (get-put_infos r.files) refl

unfoldable pub put_response : SearchFilesResponse → Text
unfolding put_fields put_infos put_info
put_response r = put_texts (put_fields r)

abbrev with_rest : Option SearchFilesResponse → Text → Option (SearchFilesResponse × Text)
with_rest none s = none
with_rest (some r) s = some (r, s)

unfoldable pub get_response : Reader SearchFilesResponse
unfolding get_fields get_infos get_info
get_response s = elim (get_texts s) [
  | none ↦ none
  | some (ts, rest) ↦ with_rest (get_fields ts) rest
]

response_reads :
    (r : SearchFilesResponse) → (s : Text) × (get_response (put_response r) ≡ some (r, s))
unfolding get_response put_response
response_reads r =
    let read : get_texts (put_texts (put_fields r)) ≡ some (put_fields r, []) =
      ap get_texts (sym (append-nil (put_texts (put_fields r))))
      ∙ get-put_texts (put_fields r) [] in
    ([], ground (arith, read, get-put_fields r))

abbrev pub response_json : Codec SearchFilesResponse
response_json = wire put_response get_response

pub response_json-IsJson : IsJson response_json
response_json-IsJson = wire-IsJson put_response get_response response_reads
