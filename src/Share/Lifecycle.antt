-- ===== src/Share/Lifecycle.antt =====
-- Creating and deleting a share keeps the cache and the database in step.
use notevault.Prelude.{
  ◌≡◌, refl, sym, ap, ◌∙◌, subst, inl, inr, true, false, not, ◌||◌, arith, Text, is_empty,
  same_text, same_text_iff, length, ltb, Bool-cases,
}
use notevault.Prelude.Result.{
  Error, Result, ok, err, Result-cases, wrap_error, create_share_failed, user_required,
  object_keys_required, not_owner, request_required,
}
use notevault.Prelude.Exec.{Exec, pure, attempt, ◌>>◌}
use notevault.Share.Record.{
  ShareRecord, Share, ShareInfo, CreateShareRequest, to_info, from_record, to_record-from_record,
}
use notevault.Share.Env.{ShareEnv, ShareLaws, CacheNeverFails, World}
use notevault.Share.Cache.{cache_share, on_rows, kv_del, make_share_key}
use notevault.Share.Coherence.{Backed, IsCoherent, cache_share-Reads}
use notevault.Share.Writing.{
  SameBut, with_rows, with_rows-IsCoherentBut, IsCoherent-moved, kv_del_restores,
}
use notevault.Share.Permissions.{Unchanged}
use notevault.Share.Service.{CreateClock, new_record, create_ttl, create_share, delete_share}

-- A share that was created: its key was free, and the database now holds its record.
pub record Created (env : ShareEnv) (rec : ShareRecord) (info : ShareInfo) (w w' : World env)
    : Type 0 where
  pub was_free : (e : Error) × (env.db.first rec.share_id w.rows ≡ err e)
  pub is_there : Backed env w'.rows rec.share_id rec
  pub shown : info ≡ to_info rec
  pub others : SameBut env rec.share_id w.rows w'.rows
  pub coherent : IsCoherent env w'

abbrev pub Creates :
    (env : ShareEnv) → ShareRecord → World env → Result ShareInfo × World env → Type 0
Creates env rec w (ok info, w') = Created env rec info w w'
Creates env rec w (err e, w') = Unchanged env w w'

-- A share that was deleted: it was the user's, and no row is found under its key.
pub record Deleted (env : ShareEnv) (user id : Text) (w w' : World env) : Type 0 where
  pub row : Share
  pub was_there : env.db.first id w.rows ≡ ok row
  pub owned : row.owner ≡ user
  pub is_gone : (e : Error) × (env.db.first id w'.rows ≡ err e)
  pub others : SameBut env id w.rows w'.rows
  pub coherent : IsCoherent env w'

abbrev pub Deletes :
    (env : ShareEnv) → Text → Text → World env → Result (Unit {0}) × World env → Type 0
Deletes env user id w (ok u, w') = Deleted env user id w w'
Deletes env user id w (err e, w') = Unchanged env w w'

module _ (env : ShareEnv) (law : ShareLaws env) where
  untouched : (w : World env) → IsCoherent env w → Unchanged env w w
  untouched w c = record { found = λ j. refl; coherent = c }

  -- A row that is inserted at a free key breaks no agreement: the cache answers nothing there.
  create-IsCoherent :
      (row : Share) (w : World env)
      → (env.db.create row w.rows).0 ≡ ok tt
      → IsCoherent env w
      → IsCoherent env (with_rows w (env.db.create row w.rows).1)
  create-IsCoherent row w done c = record {
    at = λ j b hit r read.
        let (old, found, same) = c.at j b hit r read in
        let (e, free) = law.db_law.create_unused row w.rows done in
        elim (Bool-cases (same_text row.share_id j)) [
          | inl here ↦ ground (
            arith,
            same_text_iff row.share_id j,
            ap (λ k. env.db.first k w.rows) ((same_text_iff row.share_id j).0 here),
          )
          | inr other ↦ (old, law.db_law.create_other row j w.rows other ∙ found, same)
        ];
  }

  -- The end of `CreateShare`, from the insertion on.
  abbrev insert_and_cache : CreateClock → ShareRecord → Share → Exec (World env) ShareInfo
  insert_and_cache clock rec row = do
    (λ w. let (r, w') = on_rows env (env.db.create row) w in (wrap_error create_share_failed r, w'))
    attempt (cache_share env clock.kv_set rec (create_ttl clock.until rec.expire_at))
    pure (to_info rec)

  insert_refused :
      (clock : CreateClock) (rec : ShareRecord) (row : Share) (w : World env) (e : Error)
      → (env.db.create row w.rows).0 ≡ err e
      → insert_and_cache clock rec row w
        ≡ (err (create_share_failed e), with_rows w (env.db.create row w.rows).1)
  insert_refused clock rec row w e h = ground arith

  insert_done :
      (clock : CreateClock) (rec : ShareRecord) (row : Share) (w : World env)
      → (env.db.create row w.rows).0 ≡ ok tt
      → insert_and_cache clock rec row w ≡ (
        ok (to_info rec),
        (cache_share env clock.kv_set rec
            (create_ttl clock.until rec.expire_at)
            (with_rows w (env.db.create row w.rows).1)).1,
      )
  insert_done clock rec row w h = ground arith

  from_record_id :
      (rec : ShareRecord) (row : Share)
      → from_record env.keys_json env.perms_json rec ≡ ok row
      → row.share_id ≡ rec.share_id
  unfolding from_record
  from_record_id rec row h = ground arith

  Created-done :
      (clock : CreateClock) (rec : ShareRecord) (row : Share) (w : World env)
      → from_record env.keys_json env.perms_json rec ≡ ok row
      → (env.db.create row w.rows).0 ≡ ok tt
      → IsCoherent env w
      → Created env rec
          (to_info rec)
          w
          (cache_share env clock.kv_set rec
            (create_ttl clock.until rec.expire_at)
            (with_rows w (env.db.create row w.rows).1)).1
  Created-done clock rec row w written done c =
      let rows = (env.db.create row w.rows).1 in
      let same = from_record_id rec row written in
      let (t, stored) = law.db_law.create_ok row w.rows done in
      let read =
        to_record-from_record env.keys_json env.perms_json law.keys_law law.perms_law rec row t
          written in
      let backed : Backed env rows rec.share_id rec =
        subst (λ k. Backed env rows k rec) same (record row { updated_at = t }, stored, read) in
      let other : SameBut env rec.share_id w.rows rows =
        subst (λ k. SameBut env k w.rows rows) same
          (λ j h. law.db_law.create_other row j w.rows h) in
      let (kept, keeps) =
        cache_share-Reads env law clock.kv_set rec (create_ttl clock.until rec.expire_at)
          (with_rows w rows) backed in
      record {
        was_free =
            subst (λ k. (e : Error) × (env.db.first k w.rows ≡ err e)) same
              (law.db_law.create_unused row w.rows done);
        is_there = subst (λ r. Backed env r rec.share_id rec) (sym kept) backed;
        shown = refl;
        others = subst (SameBut env rec.share_id w.rows) (sym kept) other;
        coherent = keeps (create-IsCoherent row w done c);
      }

  insert-Creates :
      (clock : CreateClock) (rec : ShareRecord) (row : Share) (w : World env)
      → from_record env.keys_json env.perms_json rec ≡ ok row
      → IsCoherent env w
      → Creates env rec w (insert_and_cache clock rec row w)
  insert-Creates clock rec row w written c = elim (Result-cases (env.db.create row w.rows).0) [
    | inr (e, failed) ↦
        let found = λ (j : Text). law.db_law.create_err row j w.rows e failed in
        rw (insert_refused clock rec row w e failed)
          (record { found = found; coherent = IsCoherent-moved env w _ refl found c })
    | inl (u, done) ↦
        rw (insert_done clock rec row w done) (Created-done clock rec row w written done c)
  ]

  create_checked :
      (clock : CreateClock) (id user : Text) (req : CreateShareRequest) (w : World env)
      (row : Share)
      → (is_empty user || not (ltb 0 (length req.object_keys))) ≡ false
      → from_record env.keys_json env.perms_json (new_record env.digest clock.now id user req)
        ≡ ok row
      → create_share env clock id user req w
        ≡ insert_and_cache clock (new_record env.digest clock.now id user req) row w
  unfolding create_share
  create_checked clock id user req w row h written = ground (arith, law.with_db)

  create_refused :
      (clock : CreateClock) (id user : Text) (req : CreateShareRequest) (w : World env)
      → (is_empty user || not (ltb 0 (length req.object_keys))) ≡ true
      → (e : Error) × (create_share env clock id user req w ≡ (err e, w))
  unfolding create_share
  create_refused clock id user req w h = elim (Bool-cases (is_empty user)) [
    | inl anonymous ↦ (user_required, ground arith)
    | inr named ↦ (object_keys_required, ground arith)
  ]

  create_unwritten :
      (clock : CreateClock) (id user : Text) (req : CreateShareRequest) (w : World env) (e : Error)
      → (is_empty user || not (ltb 0 (length req.object_keys))) ≡ false
      → from_record env.keys_json env.perms_json (new_record env.digest clock.now id user req)
        ≡ err e
      → create_share env clock id user req w ≡ (err e, w)
  unfolding create_share
  create_unwritten clock id user req w e h refused = ground (arith, law.with_db)

  delete_refused :
      (user id : Text) (w : World env)
      → (is_empty user || is_empty id) ≡ true
      → delete_share env user id w ≡ (err request_required, w)
  unfolding delete_share
  delete_refused user id w h = rw h refl

  delete_missing :
      (user id : Text) (w : World env) (e : Error)
      → (is_empty user || is_empty id) ≡ false
      → env.db.first id w.rows ≡ err e
      → delete_share env user id w ≡ (err e, w)
  unfolding delete_share
  delete_missing user id w e h missing = ground (arith, law.with_db)

  delete_foreign :
      (user id : Text) (w : World env) (row : Share)
      → (is_empty user || is_empty id) ≡ false
      → env.db.first id w.rows ≡ ok row
      → same_text row.owner user ≡ false
      → delete_share env user id w ≡ (err not_owner, w)
  unfolding delete_share
  delete_foreign user id w row h found other = ground (arith, law.with_db)

  delete_failed :
      (user id : Text) (w : World env) (row : Share) (e : Error)
      → (is_empty user || is_empty id) ≡ false
      → env.db.first id w.rows ≡ ok row
      → same_text row.owner user ≡ true
      → (env.db.delete row w.rows).0 ≡ err e
      → delete_share env user id w ≡ (err e, with_rows w (env.db.delete row w.rows).1)
  unfolding delete_share
  delete_failed user id w row e h found own failed = ground (arith, law.with_db)

  delete_done :
      (user id : Text) (w : World env) (row : Share)
      → (is_empty user || is_empty id) ≡ false
      → env.db.first id w.rows ≡ ok row
      → same_text row.owner user ≡ true
      → (env.db.delete row w.rows).0 ≡ ok tt
      → delete_share env user id w
        ≡ (ok tt, (kv_del env (make_share_key id) (with_rows w (env.db.delete row w.rows).1)).1)
  unfolding delete_share
  delete_done user id w row h found own done = ground (arith, law.with_db)

  Deleted-done :
      (user id : Text) (w : World env) (row : Share)
      → CacheNeverFails env
      → env.db.first id w.rows ≡ ok row
      → same_text row.owner user ≡ true
      → (env.db.delete row w.rows).0 ≡ ok tt
      → IsCoherent env w
      → Deleted env user id w
          (kv_del env (make_share_key id) (with_rows w (env.db.delete row w.rows).1)).1
  Deleted-done user id w row never found own done c =
      let rows = (env.db.delete row w.rows).1 in
      let same = law.db_law.first_id id w.rows row found in
      let other : SameBut env id w.rows rows =
        subst (λ k. SameBut env k w.rows rows) same
          (λ j h. law.db_law.delete_other row j w.rows h) in
      let gone : (e : Error) × (env.db.first id rows ≡ err e) =
        subst (λ k. (e : Error) × (env.db.first k rows ≡ err e)) same
          (law.db_law.delete_ok row w.rows done) in
      let (coherent, kept) =
        kv_del_restores env law never id (with_rows w rows)
          (with_rows-IsCoherentBut env id w rows other c) in
      record {
        row = row;
        was_there = found;
        owned = (same_text_iff row.owner user).0 own;
        is_gone = (gone.0, ap (env.db.first id) kept ∙ gone.1);
        others = subst (SameBut env id w.rows) (sym kept) other;
        coherent = coherent;
      }

-- From a state in which the cache agrees with the database: `CreateShare` succeeds only at a free
-- key, and then answers with the public part of the new record, which the database holds; every other
-- share is as it was. If it fails, no share has changed. The cache agrees in both cases.
pub create_share-Creates :
    (env : ShareEnv) (law : ShareLaws env) (clock : CreateClock) (id user : Text)
    (req : CreateShareRequest) (w : World env)
    → IsCoherent env w
    → Creates env
        (new_record env.digest clock.now id user req)
        w
        (create_share env clock id user req w)
create_share-Creates env law clock id user req w c =
    let rec = new_record env.digest clock.now id user req in
    elim (Bool-cases (is_empty user || not (ltb 0 (length req.object_keys)))) [
      | inl missing ↦
          let (e, refused) = create_refused env law clock id user req w missing in
          rw refused (untouched env law w c)
      | inr given ↦ elim (Result-cases (from_record env.keys_json env.perms_json rec)) [
        | inl (row, written) ↦
            rw (create_checked env law clock id user req w row given written)
              (insert-Creates env law clock rec row w written c)
        | inr (e, refused) ↦
            rw (create_unwritten env law clock id user req w e given refused)
              (untouched env law w c)
      ]
    ]

-- From a state in which the cache agrees with the database, with a cache that does not fail:
-- `DeleteShare` succeeds only for the owner of the row under the key, and then no row is found
-- there; every other share is as it was. If it fails, no share has changed. The cache agrees in both
-- cases, so that it cannot answer for the deleted share.
pub delete_share-Deletes :
    (env : ShareEnv) (law : ShareLaws env) (never : CacheNeverFails env) (user id : Text)
    (w : World env)
    → IsCoherent env w
    → Deletes env user id w (delete_share env user id w)
delete_share-Deletes env law never user id w c = elim (Bool-cases (is_empty user || is_empty id)) [
  | inl missing ↦ rw (delete_refused env law user id w missing) (untouched env law w c)
  | inr given ↦ elim (Result-cases (env.db.first id w.rows)) [
    | inr (e, none_there) ↦
        rw (delete_missing env law user id w e given none_there) (untouched env law w c)
    | inl (row, found) ↦ elim (Bool-cases (same_text row.owner user)) [
      | inr other ↦
          rw (delete_foreign env law user id w row given found other) (untouched env law w c)
      | inl own ↦ elim (Result-cases (env.db.delete row w.rows).0) [
        | inl (u, done) ↦
            rw (delete_done env law user id w row given found own done)
              (Deleted-done env law user id w row never found own done c)
        | inr (e, failed) ↦
            let same = λ (j : Text). law.db_law.delete_err row j w.rows e failed in
            rw (delete_failed env law user id w row e given found own failed)
              (record { found = same; coherent = IsCoherent-moved env w _ refl same c })
      ]
    ]
  ]
]
