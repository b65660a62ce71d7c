-- ===== src/Sample/Files.antt =====
-- A table of files as a list of rows.
use notevault.Prelude.{
  ℕ, ◌≡◌, refl, sym, ap, ◌∙◌, ◌↔◌, inl, inr, Bool, true, false, ◌&&◌, ◌||◌, Option, none, some,
  List, [], ◌∷◌, arith, Text, is_empty, same_text, same_text_iff, length, All, ◌==◌, if◌then◌else◌,
  Bool-cases,
}
use notevault.Prelude.{take, drop}
use notevault.Prelude.Result.{ok}
use notevault.Files.Catalog.{
  FileRow, Condition, Merge, KeepsPlace, FilesDb, FilesDbLaws, Occurs, IsArrangement, merged,
  same_place, satisfies_all,
}

abbrev some_suffix : (Text → Bool) → Text → Bool
some_suffix f [] = f []
some_suffix f (c ∷ s) = f (c ∷ s) || some_suffix f s

abbrev starts : ℕ → (Text → Bool) → Text → Bool
starts c f [] = false
starts c f (d ∷ s) = c == d && f s

-- A pattern with `%`, from its end.
abbrev matches_pattern : Text → Text → Bool
matches_pattern [] s = is_empty s
matches_pattern (c ∷ p) s =
    if c == b'%' then some_suffix (matches_pattern p) s else starts c (matches_pattern p) s

abbrev pub sample_like : Text → Text → Bool
sample_like text pattern = matches_pattern pattern text

abbrev find_row : Text → Text → List FileRow → Option FileRow
find_row user key [] = none
find_row user key (r ∷ rows) =
    let rest = find_row user key rows in if same_place user key r then some r else rest

abbrev matching : List Condition → List FileRow → List FileRow
matching conditions [] = []
matching conditions (r ∷ rows) =
    let rest = matching conditions rows in
    if satisfies_all sample_like r conditions then r ∷ rest else rest

abbrev upserted : Merge → FileRow → List FileRow → List FileRow
upserted merge new [] = new ∷ []
upserted merge new (r ∷ rows) =
    let rest = upserted merge new rows in
    if same_place new.user new.object_key r then merge new r ∷ rows else r ∷ rest

-- The rows keep the order of their first writing, whatever order is asked for.
abbrev pub list_files_db : FilesDb
list_files_db = record {
  Rows = List FileRow;
  find = find_row;
  select = λ conditions rows. matching conditions rows;
  count = λ conditions rows. ok (length (matching conditions rows));
  page = λ conditions order offset limit rows.
      ok (take limit (drop offset (matching conditions rows)));
  upsert = λ merge new rows. (ok tt, upserted merge new rows);
}

matching_sound :
    (conditions : List Condition) (rows : List FileRow)
    → All (λ r. satisfies_all sample_like r conditions ≡ true) (matching conditions rows)
matching_sound conditions [] = tt
matching_sound conditions (r ∷ rows) = ground (arith, matching_sound conditions rows)

matching_complete :
    (conditions : List Condition) (rows : List FileRow) (user key : Text) (r : FileRow)
    → find_row user key rows ≡ some r
    → satisfies_all sample_like r conditions ≡ true
    → Occurs r (matching conditions rows)
matching_complete conditions [] user key r found fits = absurd (cc found)
matching_complete conditions (q ∷ rows) user key r found fits =
    elim (Bool-cases (same_place user key q)) [
      | inl here ↦
          let same : q ≡ r = ground (arith, found, here) in
          let also : satisfies_all sample_like q conditions ≡ true =
            ap (λ x. satisfies_all sample_like x conditions) same ∙ fits in
          rw also (inl same)
      | inr further ↦
          let rest : find_row user key rows ≡ some r = ground (arith, found, further) in
          let later = matching_complete conditions rows user key r rest fits in
          elim (Bool-cases (satisfies_all sample_like q conditions)) [
            | inl kept ↦ rw kept (inr later)
            | inr dropped ↦ rw dropped later
          ]
    ]

IsArrangement-refl : (rows : List FileRow) → IsArrangement rows rows
IsArrangement-refl rows = record {
  same_length = refl;
  only_those = λ r there. there;
  all_of_them = λ r there. there;
}

same_place_iff :
    (user key : Text) (r : FileRow)
    → (same_place user key r ≡ true) ↔ ((r.user ≡ user) × (r.object_key ≡ key))
same_place_iff user key r =
    ground (arith, same_text_iff r.user user, same_text_iff r.object_key key)

same_place-row :
    (user key : Text) (r q : FileRow)
    → r.user ≡ q.user
    → r.object_key ≡ q.object_key
    → same_place user key r ≡ same_place user key q
same_place-row user key r q u k =
    ap (λ t. same_text t user && same_text r.object_key key) u
    ∙ ap (λ t. same_text q.user user && same_text t key) k

same_place-both :
    (user key : Text) (r q : FileRow)
    → same_place user key r ≡ true
    → same_place user key q ≡ true
    → same_place q.user q.object_key r ≡ true
same_place-both user key r q at_r at_q =
    let (ru, rk) = (same_place_iff user key r).0 at_r in
    let (qu, qk) = (same_place_iff user key q).0 at_q in
    (same_place_iff q.user q.object_key r).1 (ru ∙ sym qu, rk ∙ sym qk)

find-upserted :
    (merge : Merge) (new : FileRow) (rows : List FileRow)
    → KeepsPlace merge
    → (user key : Text)
    → find_row user key (upserted merge new rows) ≡ (
        if same_place user key new
        then some (merged merge new (find_row user key rows))
        else find_row user key rows)
find-upserted merge new [] keeps user key = ground arith
find-upserted merge new (r ∷ rows) keeps user key =
    elim (Bool-cases (same_place new.user new.object_key r)) [
      | inl there ↦
          let (at_user, at_key) = (same_place_iff new.user new.object_key r).0 there in
          let (same_user, same_key) = keeps new r in
          let merged_row = same_place-row user key (merge new r) r same_user same_key in
          let new_row = same_place-row user key r new at_user at_key in
          ground (arith, there, merged_row, new_row)
      | inr elsewhere ↦
          let rest = find-upserted merge new rows keeps user key in
          elim (Bool-cases (same_place user key r)) [
            | inr further ↦ ground (arith, elsewhere, rest, further)
            | inl here ↦ elim (Bool-cases (same_place user key new)) [
              | inr not_new ↦ ground (arith, elsewhere, here, not_new)
              | inl clash ↦
                  absurd (ground (arith, elsewhere, same_place-both user key r new here clash))
            ]
          ]
    ]

pub list_files_db-FilesDbLaws : FilesDbLaws sample_like list_files_db
list_files_db-FilesDbLaws = record {
  upsert_ok = λ merge new rows keeps done. find-upserted merge new rows keeps;
  upsert_err = λ merge new rows e failed. absurd (ground (arith, failed));
  select_sound = λ conditions rows. matching_sound conditions rows;
  select_complete = λ conditions rows user key r. matching_complete conditions rows user key r;
  count_ok = λ conditions rows n counted. ground (arith, counted);
  page_ok = λ conditions order offset limit rows found queried. (
    matching conditions rows,
    IsArrangement-refl (matching conditions rows),
    ground (arith, queried),
  );
}
