-- ===== src/Sample/Rows.antt =====
-- A table of shares as a list of rows.
use notevault.Prelude.{
  ℕ, ◌≡◌, refl, ap, ◌∙◌, inl, inr, Bool, true, false, ◌&&◌, Option, none, some, List, [], ◌∷◌,
  arith, Text, codes, same_text, same_text_iff, same_text_refl, ltb, if◌then◌else◌,
}
use notevault.Prelude.Result.{Error, Result, ok, err, external, map_result, Result-cases}
use notevault.Share.Record.{Share}
use notevault.Share.Env.{ShareDb, ShareDbLaws, set_permissions}

unfoldable pub find_row : Text → List Share → Result Share
find_row id [] = err (external (codes "record not found"))
find_row id (r ∷ rs) = if same_text r.share_id id then ok r else find_row id rs

insert_row : Share → List Share → Result Share → Result (Unit {0}) × List Share
insert_row r rs (ok _) = (err (external (codes "duplicate key")), rs)
insert_row r rs (err _) = (ok tt, r ∷ rs)

unfoldable pub create_row : Share → List Share → Result (Unit {0}) × List Share
unfolding insert_row find_row
create_row r rs = insert_row r rs (find_row r.share_id rs)

unfoldable pub delete_row : Text → List Share → List Share
delete_row id [] = []
delete_row id (r ∷ rs) =
    let rest = delete_row id rs in if same_text r.share_id id then rest else r ∷ rest

unfoldable pub update_row : Text → Text → ℕ → List Share → List Share
update_row id json t [] = []
update_row id json t (r ∷ rs) =
    (if same_text r.share_id id then set_permissions json t r else r) ∷ update_row id json t rs

is_current : ℕ → Option ℕ → Bool
is_current now none = true
is_current now (some e) = ltb now e

unfoldable pub find_rows : Text → ℕ → List Share → List Share
unfolding is_current
find_rows owner now [] = []
find_rows owner now (r ∷ rs) =
    let rest = find_rows owner now rs in
    if same_text r.owner owner && is_current now r.expire_at then r ∷ rest else rest

abbrev pub share_rows : ShareDb
share_rows = record {
  Rows = List Share;
  create = create_row;
  first = find_row;
  find = λ owner now rs. ok (find_rows owner now rs);
  delete = λ r rs. (ok tt, delete_row r.share_id rs);
  update_permissions = λ id json t rs. (ok tt, update_row id json t rs);
}

find_row_id :
    (id : Text) (rs : List Share) (row : Share) → find_row id rs ≡ ok row → row.share_id ≡ id
unfolding find_row
find_row_id id [] row h = cc
find_row_id id (r ∷ rs) row h = ground (arith, same_text_iff r.share_id id, find_row_id id rs row)

find-delete_row :
    (id : Text) (rs : List Share)
    → find_row id (delete_row id rs) ≡ err (external (codes "record not found"))
unfolding find_row delete_row
find-delete_row id [] = refl
find-delete_row id (r ∷ rs) = ground (arith, find-delete_row id rs)

find-delete_row_ne :
    (id j : Text) (rs : List Share)
    → same_text id j ≡ false
    → find_row j (delete_row id rs) ≡ find_row j rs
unfolding find_row delete_row
find-delete_row_ne id j [] h = refl
find-delete_row_ne id j (r ∷ rs) h = ground (
  arith,
  find-delete_row_ne id j rs h,
  same_text_iff r.share_id id,
  same_text_iff r.share_id j,
  same_text_iff id j,
)

find-update_row :
    (id json : Text) (t : ℕ) (rs : List Share)
    → find_row id (update_row id json t rs) ≡ map_result (set_permissions json t) (find_row id rs)
unfolding find_row update_row
find-update_row id json t [] = refl
find-update_row id json t (r ∷ rs) = ground (arith, find-update_row id json t rs)

find-update_row_ne :
    (id json : Text) (t : ℕ) (j : Text) (rs : List Share)
    → same_text id j ≡ false
    → find_row j (update_row id json t rs) ≡ find_row j rs
unfolding find_row update_row
find-update_row_ne id json t j [] h = refl
find-update_row_ne id json t j (r ∷ rs) h = ground (
  arith,
  find-update_row_ne id json t j rs h,
  same_text_iff r.share_id id,
  same_text_iff r.share_id j,
  same_text_iff id j,
)

create_row_unused :
    (row : Share) (rs : List Share)
    → (create_row row rs).0 ≡ ok tt
    → (e : Error) × (find_row row.share_id rs ≡ err e)
unfolding create_row
create_row_unused row rs h = elim (Result-cases (find_row row.share_id rs)) [
  | inl (r, found) ↦ ground arith
  | inr missing ↦ missing
]

create_row_done :
    (row : Share) (rs : List Share)
    → (create_row row rs).0 ≡ ok tt
    → (create_row row rs).1 ≡ row ∷ rs
unfolding create_row
create_row_done row rs h = ground arith

create_row_failed :
    (row : Share) (rs : List Share) (e : Error)
    → (create_row row rs).0 ≡ err e
    → (create_row row rs).1 ≡ rs
unfolding create_row
create_row_failed row rs e h = ground arith

find_row_self : (row : Share) (rs : List Share) → find_row row.share_id (row ∷ rs) ≡ ok row
unfolding find_row
find_row_self row rs = rw (same_text_refl row.share_id)

create_row_other :
    (row : Share) (id : Text) (rs : List Share)
    → same_text row.share_id id ≡ false
    → find_row id (create_row row rs).1 ≡ find_row id rs
unfolding create_row find_row
create_row_other row id rs h = ground arith

pub share_rows-ShareDbLaws : ShareDbLaws share_rows
share_rows-ShareDbLaws = record {
  first_id = find_row_id;
  create_unused = create_row_unused;
  create_ok = λ row rs h. (
    row.updated_at,
    ap (find_row row.share_id) (create_row_done row rs h) ∙ find_row_self row rs,
  );
  create_other = create_row_other;
  create_err = λ row id rs e h. ap (find_row id) (create_row_failed row rs e h);
  delete_ok = λ row rs _. (external (codes "record not found"), find-delete_row row.share_id rs);
  delete_other = λ row id rs h. find-delete_row_ne row.share_id id rs h;
  delete_err = λ row id rs e h. absurd (cc h);
  update_ok = λ id json t rs _. find-update_row id json t rs;
  update_other = find-update_row_ne;
  update_err = λ id json t j rs e h. absurd (cc h);
}
