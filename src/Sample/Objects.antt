-- ===== src/Sample/Objects.antt =====
-- An object store in one table, with the bucket before each key.
use notevault.Prelude.{
  ◌≡◌, refl, ◌∙◌, true, false, ◌&&◌, Option, none, some, List, [], ◌∷◌, ◌++◌, arith, Text,
  same_text, same_text_refl, has_prefix, drop_prefix, length, All, if◌then◌else◌,
}
use notevault.Prelude.Assoc.{Assoc, lookup, insert, remove, lookup-insert, lookup-remove}
use notevault.Prelude.Result.{Error, Result, ok, err, external, key_not_found}
use notevault.Files.Store.{ObjectInfo, CopyDest, ObjectStore, ObjectStoreLaws, IsUnder, plain_dest}

-- The key of the table.
abbrev pub slot : Text → Text → Text
slot bucket key = bucket ++ b'/' ∷ key

same_text-append : (b k j : Text) → same_text (b ++ k) (b ++ j) ≡ same_text k j
unfolding same_text
same_text-append [] k j = refl
same_text-append (c ∷ b) k j = ground (arith, same_text-append b k j)

pub slot-other : (b k j : Text) → same_text k j ≡ false → same_text (slot b k) (slot b j) ≡ false
unfolding same_text
slot-other b k j other = same_text-append b (b'/' ∷ k) (b'/' ∷ j) ∙ ground arith

abbrev pub info_of : Text → Text → ObjectInfo
info_of key content = record {
  key = key;
  size = length content;
  etag = [];
  content_type = [];
  last_modified = 0;
  version_id = [];
  storage_class = [];
  user_metadata = [];
  is_latest = true;
  is_delete_marker = false;
}

abbrev listing : Text → Text → Assoc Text → List (Result ObjectInfo)
listing bucket prefix [] = []
listing bucket prefix ((k, content) ∷ m) =
    let rest = listing bucket prefix m in
    let key = drop_prefix k (slot bucket []) in
    if has_prefix k (slot bucket []) && has_prefix key prefix
    then ok (info_of key content) ∷ rest
    else rest

abbrev copied : CopyDest → Assoc Text → Option Text → Result Text × Assoc Text
copied dest m none = (err (key_not_found dest.object), m)
copied dest m (some content) = (ok [], insert (slot dest.bucket dest.object) content m)

abbrev stated : Text → Option Text → Result ObjectInfo
stated key none = err (key_not_found key)
stated key (some content) = ok (info_of key content)

-- Without versions: only the current one can be removed.
abbrev removed : Text → Text → Text → Assoc Text → Result (Unit {0}) × Assoc Text
removed bucket key [] m = (ok tt, remove (slot bucket key) m)
removed bucket key (v ∷ vs) m = (err (external (v ∷ vs)), m)

abbrev pub table_store : ObjectStore
table_store = record {
  Objects = Assoc Text;
  Content = Text;
  content = λ m bucket key. lookup (slot bucket key) m;
  put_empty = λ bucket key m. (ok tt, insert (slot bucket key) [] m);
  copy = λ dest src m. copied dest m (lookup (slot src.bucket src.object) m);
  remove = removed;
  list = λ bucket prefix recursive versions m. listing bucket prefix m;
  stat = λ bucket key version m. stated key (lookup (slot bucket key) m);
}

listing-IsUnder :
    (bucket prefix : Text) (m : Assoc Text) → All (IsUnder prefix) (listing bucket prefix m)
listing-IsUnder bucket prefix [] = tt
listing-IsUnder bucket prefix ((k, content) ∷ m) = ground (arith, listing-IsUnder bucket prefix m)

copied-other :
    (dest : CopyDest) (r : Option Text) (j : Text) (m : Assoc Text)
    → same_text dest.object j ≡ false
    → lookup (slot dest.bucket j) (copied dest m r).1 ≡ lookup (slot dest.bucket j) m
copied-other dest none j m other = refl
copied-other dest (some c) j m other =
    lookup-insert (slot dest.bucket j) (slot dest.bucket dest.object) c m
    ∙ ground (arith, slot-other dest.bucket dest.object j other)

copied-ok :
    (dest : CopyDest) (r : Option Text) (m : Assoc Text) (v : Text)
    → (copied dest m r).0 ≡ ok v
    → lookup (slot dest.bucket dest.object) (copied dest m r).1 ≡ r
copied-ok dest none m v done = absurd (ground arith)
copied-ok dest (some c) m v done =
    lookup-insert (slot dest.bucket dest.object) (slot dest.bucket dest.object) c m
    ∙ ground (arith, same_text_refl (slot dest.bucket dest.object))

removed-other :
    (bucket key version j : Text) (m : Assoc Text)
    → same_text key j ≡ false
    → lookup (slot bucket j) (removed bucket key version m).1 ≡ lookup (slot bucket j) m
removed-other bucket key [] j m other =
    lookup-remove (slot bucket j) (slot bucket key) m
    ∙ ground (arith, slot-other bucket key j other)
removed-other bucket key (v ∷ vs) j m other = refl

removed-err :
    (bucket key version j : Text) (m : Assoc Text) (e : Error)
    → (removed bucket key version m).0 ≡ err e
    → lookup (slot bucket j) (removed bucket key version m).1 ≡ lookup (slot bucket j) m
removed-err bucket key [] j m e failed = absurd (ground arith)
removed-err bucket key (v ∷ vs) j m e failed = refl

pub table_store-ObjectStoreLaws : ObjectStoreLaws table_store
table_store-ObjectStoreLaws = record {
  remove_ok = λ bucket key m done.
      lookup-remove (slot bucket key) (slot bucket key) m
      ∙ ground (arith, same_text_refl (slot bucket key));
  remove_other = removed-other;
  remove_err = removed-err;
  copy_ok = λ bucket from to m v done.
      copied-ok (plain_dest bucket to) (lookup (slot bucket from) m) m v done;
  copy_other =
      λ dest src j m other. copied-other dest (lookup (slot src.bucket src.object) m) j m other;
  put_other = λ bucket key j m other.
      lookup-insert (slot bucket j) (slot bucket key) [] m
      ∙ ground (arith, slot-other bucket key j other);
  list_under = λ bucket prefix recursive versions m. listing-IsUnder bucket prefix m;
}
