-- ===== src/Files/Catalog/Sync/Rows.antt =====
-- What a synchronisation of files.go does to the table of files.
use notevault.Prelude.{
  ℕ, ◌≡◌, refl, sym, ◌∙◌, subst, ◌⊎◌, inl, inr, Bool, true, false, not, ◌||◌, Option, none, some,
  List, [], ◌∷◌, arith, Text, is_empty, same_text, same_text_iff, same_text_refl, if◌then◌else◌,
  Bool-cases,
}
use notevault.Prelude.Result.{Result, ok, err, Result-cases, user_required}
use notevault.Prelude.Int.{ℤ}
use notevault.Files.Store.{ObjectInfo, ObjectStore, default_bucket, home}
use notevault.Files.Paths.{ends_with_slash}
use notevault.Files.Catalog.{FileRow, FilesDb, FilesDbLaws, same_place, merged}
use notevault.Files.Catalog.Sync.{
  on_conflict_user_key_update, on_conflict_user_key_update-KeepsPlace, row_of, sync_entries,
  sync_objects_to_db, Date, date_prefix, on_day, sync_objects_to_db_by_date,
}

-- What people and models have written about a file, with the content type.
abbrev pub annotations : FileRow → Text × (Text × (Text × Text))
annotations r = (r.category, (r.description, (r.tags_json, r.content_type)))

-- What comes from the object store.
abbrev pub system : FileRow → Text × (ℕ × (Text × (Text × (Text × (Text × (ℕ × ℕ))))))
system r = (
  r.file_name,
  (
    r.size,
    (r.etag, (r.bucket, (r.version_id, (r.storage_class, (r.last_modified, r.updated_at))))),
  ),
)

-- What becomes of the row at a place: it is there with its annotations, and the same if it belongs to
-- another user.
abbrev pub Preserved : Text → Text → Option FileRow → Option FileRow → Type 0
Preserved user owner none after = Unit
Preserved user owner (some r) none = ⊥
Preserved user owner (some r) (some r') =
    (annotations r' ≡ annotations r) × ((same_text owner user ≡ true) ⊎ (r' ≡ r))

Preserved-refl : (user owner : Text) (row : Option FileRow) → Preserved user owner row row
Preserved-refl user owner none = tt
Preserved-refl user owner (some r) = (refl, inr refl)

Preserved-trans :
    (user owner : Text) (a b c : Option FileRow)
    → Preserved user owner a b
    → Preserved user owner b c
    → Preserved user owner a c
Preserved-trans user owner none b c h k = tt
Preserved-trans user owner (some a) none c h k = absurd h
Preserved-trans user owner (some a) (some b) none h k = absurd k
Preserved-trans user owner (some a) (some b) (some c) h k = (k.0 ∙ h.0, grind (arith, h.1, k.1))

Preserved-same : (user owner : Text) (a b : Option FileRow) → b ≡ a → Preserved user owner a b
Preserved-same user owner a b same =
    subst (λ row. Preserved user owner a row) (sym same) (Preserved-refl user owner a)

-- An upsert of a row of the user.
Preserved-merged :
    (user owner : Text) (new : FileRow) (row : Option FileRow)
    → is_empty new.content_type ≡ true
    → same_text owner user ≡ true
    → Preserved user owner row (some (merged on_conflict_user_key_update new row))
unfolding on_conflict_user_key_update
Preserved-merged user owner new none plain own = tt
Preserved-merged user owner new (some r) plain own = (ground arith, inl own)

-- The row of another user is never the one that is written.
same_place-owner :
    (owner key : Text) (new : FileRow)
    → same_place owner key new ≡ true
    → same_text owner new.user ≡ true
same_place-owner owner key new here =
    grind (arith, same_text_iff new.user owner, same_text_refl owner)

module _ (like : Text → Text → Bool) (db : FilesDb) (law : FilesDbLaws like db) (user : Text) where
  upsert-Preserved :
      (new : FileRow) (rows : db.Rows)
      → is_empty new.content_type ≡ true
      → new.user ≡ user
      → (owner key : Text)
      → Preserved user owner
          (db.find owner key rows)
          (db.find owner key (db.upsert on_conflict_user_key_update new rows).1)
  upsert-Preserved new rows plain own owner key =
      let merge = on_conflict_user_key_update in
      elim (Result-cases (db.upsert merge new rows).0) [
        | inr (e, failed) ↦
            Preserved-same user owner _ _ (law.upsert_err merge new rows e failed owner key)
        | inl (u, done) ↦
            let after =
              law.upsert_ok merge new rows on_conflict_user_key_update-KeepsPlace done owner key in
            elim (Bool-cases (same_place owner key new)) [
              | inr other ↦ Preserved-same user owner _ _ (ground (arith, after))
              | inl here ↦
                  subst (λ row. Preserved user owner (db.find owner key rows) row)
                    (ground (arith, after))
                    (Preserved-merged user owner new (db.find owner key rows) plain (
                      subst (λ u. same_text owner u ≡ true) own
                        (same_place-owner owner key new here)))
            ]
      ]

  -- A round of the loop, which may skip the entry.
  round-Preserved :
      (skip : Bool) (bucket : Text) (now : ℕ) (obj : ObjectInfo) (rows : db.Rows) (owner key : Text)
      → Preserved user owner (db.find owner key rows) (
          db.find owner key (
            if skip
            then rows
            else (db.upsert on_conflict_user_key_update (row_of user bucket now obj) rows).1))
  unfolding row_of
  round-Preserved true bucket now obj rows owner key = Preserved-refl user owner _
  round-Preserved false bucket now obj rows owner key =
      upsert-Preserved (row_of user bucket now obj) rows refl refl owner key

  sync_entries-Preserved :
      (keep : ObjectInfo → Bool) (bucket : Text) (now : ℕ) (entries : List (Result ObjectInfo))
      (rows : db.Rows) (owner key : Text)
      → Preserved user owner
          (db.find owner key rows)
          (db.find owner key (sync_entries db keep user bucket now entries rows).1)
  unfolding sync_entries
  sync_entries-Preserved keep bucket now [] rows owner key = Preserved-refl user owner _
  sync_entries-Preserved keep bucket now (err e ∷ entries) rows owner key =
      Preserved-refl user owner _
  sync_entries-Preserved keep bucket now (ok obj ∷ entries) rows owner key =
      Preserved-trans user owner _ _ _
        (round-Preserved (ends_with_slash obj.key || not (keep obj)) bucket now obj rows owner key)
        (sync_entries-Preserved keep bucket now entries _ owner key)

  module _ (s : ObjectStore) (date : Date) (buckets : List Text) (now : ℕ) (o : s.Objects)
      (rows : db.Rows) (owner key : Text) where
    -- The row at a place, before and after a call.
    abbrev Survives : db.Rows → Type 0
    Survives rows' = Preserved user owner (db.find owner key rows) (db.find owner key rows')

    -- The shape of both calls: a refused request changes no row.
    abbrev guarded :
        Bool → Result Text → (Text → Result (Unit {0}) × db.Rows) → Result (Unit {0}) × db.Rows
    guarded nobody r run =
        if nobody
        then (err user_required, rows)
        else elim r [ err e ↦ (err e, rows) | ok bucket ↦ run bucket ]

    guarded-Survives :
        (nobody : Bool) (r : Result Text) (run : Text → Result (Unit {0}) × db.Rows)
        → ((bucket : Text) → Survives (run bucket).1)
        → Survives (guarded nobody r run).1
    guarded-Survives true r run h = Preserved-refl user owner _
    guarded-Survives false (err e) run h = Preserved-refl user owner _
    guarded-Survives false (ok bucket) run h = h bucket

    -- Both synchronisations, of everything and of a date, with whatever result: a row that is in the
    -- table stays there with its category, description, tags and content type, and the rows of other
    -- users stay as they are. The upsert of the database is as documented.
    pub sync_keeps_annotations :
        (year month day : ℤ)
        → Survives (sync_objects_to_db db s buckets now user o rows).1
          × Survives (sync_objects_to_db_by_date db s date buckets now user year month day o rows).1
    unfolding sync_objects_to_db sync_objects_to_db_by_date
    sync_keeps_annotations year month day = (
      guarded-Survives (is_empty user) (default_bucket buckets) _ (λ bucket.
          sync_entries-Preserved (λ obj. true) bucket now (s.list bucket (home user) true false o)
            rows owner key),
      guarded-Survives (is_empty user) (default_bucket buckets) _ (λ bucket.
          sync_entries-Preserved (on_day date year month day) bucket now
            (s.list bucket (date_prefix user year month) true false o) rows owner key),
    )
