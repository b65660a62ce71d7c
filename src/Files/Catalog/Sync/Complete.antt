-- ===== src/Files/Catalog/Sync/Complete.antt =====
-- That a synchronisation of files.go records what the object store lists.
use notevault.Prelude.{
  ℕ, ◌≡◌, refl, sym, ap, ◌∙◌, subst, inl, inr, Bool, true, false, not, ◌||◌, Option, none, some,
  List, [], ◌∷◌, ◌++◌, arith, Text, is_empty, same_text, same_text_refl, All, Option-cases, ◌⊎◌,
  if◌then◌else◌,
}
use notevault.Prelude.{All-append}
use notevault.Prelude.Result.{Result, ok, err, Result-cases}
use notevault.Files.Store.{ObjectInfo, ObjectStore, default_bucket, home}
use notevault.Files.Paths.{ends_with_slash, has_slash, ends_with_slash-append}
use notevault.Files.Versions.{trim_quotes}
use notevault.Files.Catalog.{FileRow, FilesDb, FilesDbLaws, merged}
use notevault.Files.Catalog.Sync.{
  after_last_slash, last_path_component, on_conflict_user_key_update,
  on_conflict_user_key_update-KeepsPlace, row_of, sync_entries, sync_objects_to_db,
}
use notevault.Files.Catalog.Sync.Rows.{system}

-- An entry of a listing that is no error.
abbrev pub IsEntry : Result ObjectInfo → Type 0
IsEntry (ok info) = Unit
IsEntry (err e) = ⊥

-- An entry for another key.
abbrev pub Avoids : Text → Result ObjectInfo → Type 0
Avoids key (ok info) = same_text info.key key ≡ false
Avoids key (err e) = Unit

-- The last part of a key that does not end with a separator.
abbrev IsLastComponent : Text → Text → Type 0
IsLastComponent key name =
    (has_slash name ≡ false) × ((name ≡ key) ⊎ ((dir : Text) × (key ≡ dir ++ b'/' ∷ name)))

-- The row says of the object what the listing says.
pub record IsRowOf (bucket : Text) (now : ℕ) (obj : ObjectInfo) (r : FileRow) : Type 0 where
  pub file_name : IsLastComponent obj.key r.file_name
  pub size : r.size ≡ obj.size
  pub etag : r.etag ≡ trim_quotes obj.etag
  pub bucket_name : r.bucket ≡ bucket
  pub version_id : r.version_id ≡ obj.version_id
  pub storage_class : r.storage_class ≡ obj.storage_class
  pub last_modified : r.last_modified ≡ obj.last_modified
  pub updated_at : r.updated_at ≡ now

abbrev pub IsRecorded : Text → ℕ → ObjectInfo → Option FileRow → Type 0
IsRecorded bucket now obj none = ⊥
IsRecorded bucket now obj (some r) = IsRowOf bucket now obj r

after_last_slash-none : (s : Text) → after_last_slash s ≡ none → has_slash s ≡ false
unfolding after_last_slash has_slash
after_last_slash-none [] h = refl
after_last_slash-none (c ∷ s) h = elim (Option-cases (after_last_slash s)) [
  | inr (name, there) ↦ absurd (ground arith)
  | inl missing ↦ ground (arith, missing, after_last_slash-none s missing)
]

after_last_slash-some :
    (s name : Text)
    → after_last_slash s ≡ some name
    → (has_slash name ≡ false) × ((dir : Text) × (s ≡ dir ++ b'/' ∷ name))
unfolding after_last_slash
after_last_slash-some [] name h = absurd (cc h)
after_last_slash-some (c ∷ s) name h = elim (Option-cases (after_last_slash s)) [
  | inr (found, there) ↦
      let same : found ≡ name = ground (arith, h, there) in
      let (plain, (dir, split)) = after_last_slash-some s name (there ∙ ap some same) in
      (plain, (c ∷ dir, ap (λ t. c ∷ t) split))
  | inl missing ↦
      let same : s ≡ name = ground (arith, h, missing) in
      let slash : c ≡ b'/' = ground (arith, h, missing) in
      (
        ap has_slash (sym same) ∙ after_last_slash-none s missing,
        ([], ap (λ d. d ∷ s) slash ∙ ap (λ t. b'/' ∷ t) same),
      )
]

last_path_component_lem :
    (key : Text) → ends_with_slash key ≡ false → IsLastComponent key (last_path_component key)
unfolding last_path_component
last_path_component_lem key no_folder = elim (Option-cases (after_last_slash key)) [
  | inl missing ↦
      let whole : key ≡ last_path_component key = ground (arith, missing) in
      subst (IsLastComponent key) whole (after_last_slash-none key missing, inl refl)
  | inr ([], there) ↦
      let (plain, (dir, split)) = after_last_slash-some key [] there in
      absurd (cc (no_folder, ap ends_with_slash split, ends_with_slash-append dir))
  | inr (c ∷ name, there) ↦
      let last : c ∷ name ≡ last_path_component key = ground (arith, there) in
      let (plain, split) = after_last_slash-some key (c ∷ name) there in
      subst (IsLastComponent key) last (plain, inr split)
]

-- A row with the columns of a new one that come from the object store.
abbrev Records : FileRow → Option FileRow → Type 0
Records new none = ⊥
Records new (some r) = system r ≡ system new

Records-merged :
    (new : FileRow) (old row : Option FileRow)
    → row ≡ some (merged on_conflict_user_key_update new old)
    → Records new row
unfolding on_conflict_user_key_update
Records-merged new none row same = subst (Records new) (sym same) refl
Records-merged new (some r) row same = subst (Records new) (sym same) refl

module _ (like : Text → Text → Bool) (db : FilesDb) (law : FilesDbLaws like db) (user bucket : Text)
    (now : ℕ) where
  -- The rows after a round of the loop.
  abbrev round : Bool → ObjectInfo → db.Rows → db.Rows
  round skip obj rows =
      if skip
      then rows
      else (db.upsert on_conflict_user_key_update (row_of user bucket now obj) rows).1

  round-other :
      (skip : Bool) (obj : ObjectInfo) (rows : db.Rows) (key : Text)
      → same_text obj.key key ≡ false
      → db.find user key (round skip obj rows) ≡ db.find user key rows
  unfolding row_of
  round-other true obj rows key other = refl
  round-other false obj rows key other =
      let new = row_of user bucket now obj in
      elim (Result-cases (db.upsert on_conflict_user_key_update new rows).0) [
        | inr (e, failed) ↦ law.upsert_err on_conflict_user_key_update new rows e failed user key
        | inl (u, done) ↦
            let after =
              law.upsert_ok on_conflict_user_key_update new rows
                on_conflict_user_key_update-KeepsPlace done user key in
            ground (arith, after, other, same_text_refl user)
      ]

  round-Records :
      (obj : ObjectInfo) (rows : db.Rows)
      → (db.upsert on_conflict_user_key_update (row_of user bucket now obj) rows).0 ≡ ok tt
      → Records (row_of user bucket now obj) (db.find user obj.key (round false obj rows))
  unfolding row_of
  round-Records obj rows done =
      let new = row_of user bucket now obj in
      let after =
        law.upsert_ok on_conflict_user_key_update new rows on_conflict_user_key_update-KeepsPlace
          done user obj.key in
      Records-merged new (db.find user obj.key rows) _
        (ground (arith, after, same_text_refl user, same_text_refl obj.key))

  module _ (keep : ObjectInfo → Bool) where
    entries-other :
        (entries : List (Result ObjectInfo)) (rows : db.Rows) (key : Text)
        → All (Avoids key) entries
        → db.find user key (sync_entries db keep user bucket now entries rows).1
          ≡ db.find user key rows
    unfolding sync_entries
    entries-other [] rows key avoided = refl
    entries-other (err e ∷ entries) rows key avoided = refl
    entries-other (ok obj ∷ entries) rows key avoided =
        entries-other entries _ key avoided.1
        ∙ round-other (ends_with_slash obj.key || not (keep obj)) obj rows key avoided.0

    entries-ok :
        (entries : List (Result ObjectInfo)) (rows : db.Rows)
        → All IsEntry entries
        → (sync_entries db keep user bucket now entries rows).0 ≡ ok tt
    unfolding sync_entries
    entries-ok [] rows clean = refl
    entries-ok (err e ∷ entries) rows clean = absurd clean.0
    entries-ok (ok obj ∷ entries) rows clean = entries-ok entries _ clean.1

    module _ (obj : ObjectInfo) (no_folder : ends_with_slash obj.key ≡ false)
        (kept : keep obj ≡ true)
        (reliable : (rows : db.Rows)
          → (db.upsert on_conflict_user_key_update (row_of user bucket now obj) rows).0
            ≡ ok tt) where
      entries-Records :
          (before after : List (Result ObjectInfo)) (rows : db.Rows)
          → All IsEntry before
          → All (Avoids obj.key) after
          → Records (row_of user bucket now obj) (
              db.find user obj.key
                (sync_entries db keep user bucket now (before ++ ok obj ∷ after) rows).1)
      unfolding sync_entries
      entries-Records [] after rows clean avoided =
          let new = row_of user bucket now obj in
          let same : false ≡ (ends_with_slash obj.key || not (keep obj)) = ground arith in
          subst
            (λ skip. Records new (
              db.find user obj.key
                (sync_entries db keep user bucket now after (round skip obj rows)).1))
            same
            (subst (Records new) (sym (entries-other after (round false obj rows) obj.key avoided))
              (round-Records obj rows (reliable rows)))
      entries-Records (err e ∷ before) after rows clean avoided = absurd clean.0
      entries-Records (ok o ∷ before) after rows clean avoided =
          entries-Records before after _ clean.1 avoided

  Records-IsRecorded :
      (obj : ObjectInfo) (row : Option FileRow)
      → ends_with_slash obj.key ≡ false
      → Records (row_of user bucket now obj) row
      → IsRecorded bucket now obj row
  unfolding row_of
  Records-IsRecorded obj none no_folder records = absurd records
  Records-IsRecorded obj (some r) no_folder records = record {
    file_name =
        subst (IsLastComponent obj.key) (sym (ap (λ c. c.0) records))
          (last_path_component_lem obj.key no_folder);
    size = ap (λ c. c.1.0) records;
    etag = ap (λ c. c.1.1.0) records;
    bucket_name = ap (λ c. c.1.1.1.0) records;
    version_id = ap (λ c. c.1.1.1.1.0) records;
    storage_class = ap (λ c. c.1.1.1.1.1.0) records;
    last_modified = ap (λ c. c.1.1.1.1.1.1.0) records;
    updated_at = ap (λ c. c.1.1.1.1.1.1.1) records;
  }

  -- A whole synchronisation of everything, where the object store lists without an error: the call
  -- succeeds, and each object that is no folder has a row with its size, version, storage class and time,
  -- its etag without quotes, the bucket, the time of the call, and as its name the key's last part, if
  -- the database takes the row and the rest of the listing does not name the key again.
  pub sync-Records_objects :
      (s : ObjectStore) (buckets : List Text) (o : s.Objects) (rows : db.Rows) (obj : ObjectInfo)
      (before after : List (Result ObjectInfo))
      → is_empty user ≡ false
      → default_bucket buckets ≡ ok bucket
      → s.list bucket (home user) true false o ≡ before ++ ok obj ∷ after
      → All IsEntry before
      → All IsEntry after
      → All (Avoids obj.key) after
      → ends_with_slash obj.key ≡ false
      → ((rows : db.Rows)
          → (db.upsert on_conflict_user_key_update (row_of user bucket now obj) rows).0 ≡ ok tt)
      → ((sync_objects_to_db db s buckets now user o rows).0 ≡ ok tt)
        × IsRecorded bucket now obj
            (db.find user obj.key (sync_objects_to_db db s buckets now user o rows).1)
  unfolding sync_objects_to_db
  sync-Records_objects s buckets o rows obj before after somebody configured listed b_clean a_clean
        avoided no_folder reliable =
      let run = sync_entries db (λ obj. true) user bucket now (before ++ ok obj ∷ after) rows in
      let same : sync_objects_to_db db s buckets now user o rows ≡ run = ground (
        arith,
        somebody,
        configured,
        ap (λ l. sync_entries db (λ obj. true) user bucket now l rows) listed,
      ) in
      subst (λ r. (r.0 ≡ ok tt) × IsRecorded bucket now obj (db.find user obj.key r.1)) (sym same)
        (
          entries-ok (λ obj. true) _ rows
              (All-append IsEntry before (ok obj ∷ after) b_clean (tt, a_clean)),
          Records-IsRecorded obj _ no_folder (
              entries-Records (λ obj. true) obj no_folder refl reliable before after rows b_clean
                avoided),
        )
