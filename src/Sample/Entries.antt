-- ===== src/Sample/Entries.antt =====
-- A codec for the stored responses of the response cache.
use notevault.Prelude.{
  zero, suc, ◌≡◌, refl, sym, ap, ◌∙◌, Option, none, some, List, [], ◌∷◌, arith, Text,
}
use mathlib.Core.List.{append-nil}
use notevault.Prelude.Int.{ℤ, pos, negsuc}
use notevault.Prelude.Codec.{Codec, IsJson}
use notevault.Middleware.ResponseCache.Config.{ResponseCacheEntry}
use notevault.Sample.Wire.{Reader, wire, wire-IsJson, put_texts, get_texts, get-put_texts}

unfoldable pub put_pairs : List (Text × Text) → List Text
put_pairs [] = []
put_pairs ((k, v) ∷ kvs) = k ∷ v ∷ put_pairs kvs

unfoldable pub get_pairs : List Text → List (Text × Text)
get_pairs [] = []
get_pairs (k ∷ []) = []
get_pairs (k ∷ v ∷ ts) = (k, v) ∷ get_pairs ts

pub get-put_pairs : (kvs : List (Text × Text)) → get_pairs (put_pairs kvs) ≡ kvs
unfolding get_pairs put_pairs
get-put_pairs [] = refl
get-put_pairs ((k, v) ∷ kvs) = ap (λ l. (k, v) ∷ l) (get-put_pairs kvs)

put_int : ℤ → Text
put_int (pos n) = 0 ∷ n ∷ []
put_int (negsuc n) = 1 ∷ n ∷ []

get_int : Text → ℤ
get_int (zero ∷ n ∷ _) = pos n
get_int (suc _ ∷ n ∷ _) = negsuc n
get_int _ = pos 0

get-put_int : (i : ℤ) → get_int (put_int i) ≡ i
unfolding get_int put_int
get-put_int (pos n) = refl
get-put_int (negsuc n) = refl

put_fields : ResponseCacheEntry → List Text
unfolding put_pairs put_int
put_fields e = (e.status ∷ []) ∷ e.body ∷ e.etag ∷ put_int e.stored_at ∷ put_pairs e.header

get_fields : List Text → Option ResponseCacheEntry
unfolding get_pairs get_int
get_fields ((status ∷ []) ∷ body ∷ etag ∷ at ∷ header) = some (record {
  status = status;
  header = get_pairs header;
  body = body;
  etag = etag;
  stored_at = get_int at;
})
get_fields _ = none

get-put_fields : (e : ResponseCacheEntry) → get_fields (put_fields e) ≡ some e
unfolding get_fields put_fields
get-put_fields e = rw (get-put_pairs, get-put_int) refl

unfoldable pub put_entry : ResponseCacheEntry → Text
unfolding put_fields
put_entry e = put_texts (put_fields e)

abbrev with_rest : Option ResponseCacheEntry → Text → Option (ResponseCacheEntry × Text)
with_rest none s = none
with_rest (some e) s = some (e, s)

unfoldable pub get_entry : Reader ResponseCacheEntry
unfolding get_fields
get_entry s = elim (get_texts s) [ none ↦ none | some (ts, rest) ↦ with_rest (get_fields ts) rest ]

entry_reads : (e : ResponseCacheEntry) → (s : Text) × (get_entry (put_entry e) ≡ some (e, s))
unfolding get_entry put_entry
entry_reads e =
    let read : get_texts (put_texts (put_fields e)) ≡ some (put_fields e, []) =
      ap get_texts (sym (append-nil (put_texts (put_fields e))))
      ∙ get-put_texts (put_fields e) [] in
    ([], ground (arith, read, get-put_fields e))

abbrev pub entry_json : Codec ResponseCacheEntry
entry_json = wire put_entry get_entry

pub entry_json-IsJson : IsJson entry_json
entry_json-IsJson = wire-IsJson put_entry get_entry entry_reads
