-- ===== src/Share/Permissions.antt =====
-- What `UpdateSharePermissions`, `AddShareUser` and `RemoveShareUser` of shares.go have in common.
pub mod Lists
pub mod Operations
use notevault.Prelude.{
  ℕ, zero, suc, ◌+◌, ◌-◌, ◌*◌, ◌≤◌, ◌<◌, ◌≡◌, refl, sym, ap, ◌∙◌, subst, ◌≢◌, ◌↔◌, ◌⊎◌, inl, inr,
  Bool, true, false, not, ◌&&◌, ◌||◌, Option, none, some, List, [], ◌∷◌, ◌++◌, map, arith, Text,
  codes, is_empty, same_text, same_text_iff, same_text_refl, has_prefix, drop_prefix, trim_prefix,
  length, All, ltb, leb, ◌==◌, if◌then◌else◌, Bool-cases, Option-cases,
}
use notevault.Prelude.Result.{Error, Result, ok, err, Result-cases, not_owner, share_expired}
use notevault.Prelude.Int.{ℤ}
use notevault.Prelude.Exec.{Exec, pure, guard, attempt, ◌>>=◌, ◌>>◌}
use notevault.Share.Record.{
  ShareRecord, Share, SharePermissions, UpdateSharePermissionsRequest, GetSharePermissionsResponse,
  to_record,
}
use notevault.Share.Env.{ShareEnv, ShareDbLaws, ShareLaws, CacheNeverFails, World, set_permissions}
use notevault.Share.Cache.{
  LoadClock, is_expired, ttl_from_expire, cache_share, update_permissions_in_db, get_share_cached,
}
use notevault.Share.Coherence.{Backed, IsCoherent, Reads}
use notevault.Share.Loading.{fetch, fetch_ok, to_record_columns, get_share_cached_exact}
use notevault.Share.Writing.{
  IsCoherentBut, SameBut, with_rows, with_rows-IsCoherentBut, IsCoherent-moved,
  cache_share_restores, Backed-update, update_written, update_refused,
}
use notevault.Share.Service.{
  UpdateClock, save_permissions, with_permissions, update_share_permissions, add_share_user,
  remove_share_user, get_share_permissions,
}
use notevault.Share.Service.Users.{compact, add_user, without_user}

-- What the three operations have in common, after the test of their arguments.
abbrev pub change :
    (env : ShareEnv)
    → UpdateClock
    → Text
    → Text
    → (SharePermissions → SharePermissions)
    → Exec (World env) (Unit {0})
change env clock user id f = do
  rec ← get_share_cached env clock.load id
  guard (same_text rec.owner user) not_owner
  save_permissions env clock id (with_permissions rec (f rec.permissions))

-- A change that took place: of the owner's share, in the database and for every later reader.
pub record Changed (env : ShareEnv) (user id : Text) (f : SharePermissions → SharePermissions)
    (w w' : World env) : Type 0 where
  pub before : ShareRecord
  pub was_there : Backed env w.rows id before
  pub owned : before.owner ≡ user
  pub is_there : Backed env w'.rows id (record before { permissions = f before.permissions })
  pub others : SameBut env id w.rows w'.rows
  pub coherent : IsCoherent env w'

-- A change that did not take place.
pub record Unchanged (env : ShareEnv) (w w' : World env) : Type 0 where
  pub found : (j : Text) → env.db.first j w'.rows ≡ env.db.first j w.rows
  pub coherent : IsCoherent env w'

module _ (env : ShareEnv) (law : ShareLaws env) (never : CacheNeverFails env) where
  save_refused :
      (clock : UpdateClock) (id : Text) (rec : ShareRecord) (w : World env) (e : Error)
      → (update_permissions_in_db env clock.updated_at id rec.permissions w).0 ≡ err e
      → save_permissions env clock id rec w
        ≡ (err e, (update_permissions_in_db env clock.updated_at id rec.permissions w).1)
  save_refused clock id rec w e h = ground arith

  save_written :
      (clock : UpdateClock) (id : Text) (rec : ShareRecord) (w : World env)
      → (update_permissions_in_db env clock.updated_at id rec.permissions w).0 ≡ ok tt
      → save_permissions env clock id rec w ≡ (
        ok tt,
        (cache_share env clock.kv_set rec
            (ttl_from_expire clock.until rec.expire_at)
            (update_permissions_in_db env clock.updated_at id rec.permissions w).1).1,
      )
  save_written clock id rec w h = ground arith

  Backed-id :
      (id : Text) (rows : env.db.Rows) (rec : ShareRecord)
      → Backed env rows id rec
      → rec.share_id ≡ id
  Backed-id id rows rec (row, found, read) =
      (to_record_columns env row rec read).0 ∙ law.db_law.first_id id rows row found

  SameBut-update :
      (id b : Text) (t : ℕ) (rows : env.db.Rows)
      → SameBut env id rows (env.db.update_permissions id b t rows).1
  SameBut-update id b t rows j other = law.db_law.update_other id b t j rows other

  -- From a state that agrees, with a record that the database backs.
  abbrev Saved : Text → ShareRecord → World env → World env → Type 0
  Saved id rec w w' = Backed env w'.rows id rec × SameBut env id w.rows w'.rows × IsCoherent env w'

  cached-Saved :
      (now : ℕ) (rec : ShareRecord) (ttl : ℤ) (id b : Text) (t : ℕ) (w : World env)
      → IsCoherent env w
      → rec.share_id ≡ id
      → Backed env (env.db.update_permissions id b t w.rows).1 id rec
      → Saved id rec w
          (cache_share env now rec ttl (with_rows w (env.db.update_permissions id b t w.rows).1)).1
  cached-Saved now rec ttl id b t w c same backed =
      let rows = (env.db.update_permissions id b t w.rows).1 in
      let other = SameBut-update id b t w.rows in
      let (coherent, kept) =
        cache_share_restores env law never now rec ttl (with_rows w rows)
          (with_rows-IsCoherentBut env rec.share_id w rows
            (subst (λ k. SameBut env k w.rows rows) (sym same) other) c)
          (subst (λ k. Backed env rows k rec) (sym same) backed) in
      (
        subst (λ r. Backed env r id rec) (sym kept) backed,
        subst (SameBut env id w.rows) (sym kept) other,
        coherent,
      )

  save_changes :
      (clock : UpdateClock) (id : Text) (rec : ShareRecord) (p : SharePermissions) (w : World env)
      → IsCoherent env w
      → Backed env w.rows id rec
      → (save_permissions env clock id (with_permissions rec p) w).0 ≡ ok tt
      → Saved id
          (with_permissions rec p)
          w
          (save_permissions env clock id (with_permissions rec p) w).1
  save_changes clock id rec p w c backed h =
      elim (Result-cases (update_permissions_in_db env clock.updated_at id p w).0) [
        | inr (e, failed) ↦
            ground (arith, save_refused clock id (with_permissions rec p) w e failed)
        | inl (u, done) ↦
            let (b, written, stored, moved) = update_written env law clock.updated_at id p w done in
            rw (save_written clock id (with_permissions rec p) w done, moved)
              (cached-Saved clock.kv_set (with_permissions rec p)
                (ttl_from_expire clock.until rec.expire_at) id b clock.updated_at w c
                (Backed-id id w.rows rec backed)
                (Backed-update env law id w.rows rec p b clock.updated_at backed written stored))
      ]

  save_fails :
      (clock : UpdateClock) (id : Text) (rec : ShareRecord) (w : World env) (e : Error)
      → IsCoherent env w
      → (save_permissions env clock id rec w).0 ≡ err e
      → Unchanged env w (save_permissions env clock id rec w).1
  save_fails clock id rec w e c h =
      elim (Result-cases (update_permissions_in_db env clock.updated_at id rec.permissions w).0) [
        | inl (u, done) ↦ ground (arith, save_written clock id rec w done)
        | inr (x, failed) ↦
            let (found, cache) =
              update_refused env law clock.updated_at id rec.permissions w x failed in
            rw (save_refused clock id rec w x failed)
              (record { found = found; coherent = IsCoherent-moved env w _ cache found c })
      ]

  change_refused :
      (clock : UpdateClock) (user id : Text) (f : SharePermissions → SharePermissions)
      (w : World env) (e : Error)
      → (get_share_cached env clock.load id w).0 ≡ err e
      → change env clock user id f w ≡ (err e, (get_share_cached env clock.load id w).1)
  change_refused clock user id f w e h = ground arith

  change_foreign :
      (clock : UpdateClock) (user id : Text) (f : SharePermissions → SharePermissions)
      (w : World env) (rec : ShareRecord)
      → (get_share_cached env clock.load id w).0 ≡ ok rec
      → same_text rec.owner user ≡ false
      → change env clock user id f w ≡ (err not_owner, (get_share_cached env clock.load id w).1)
  change_foreign clock user id f w rec h other = ground arith

  change_owned :
      (clock : UpdateClock) (user id : Text) (f : SharePermissions → SharePermissions)
      (w : World env) (rec : ShareRecord)
      → (get_share_cached env clock.load id w).0 ≡ ok rec
      → same_text rec.owner user ≡ true
      → change env clock user id f w
        ≡ save_permissions env clock id
            (with_permissions rec (f rec.permissions))
            (get_share_cached env clock.load id w).1
  change_owned clock user id f w rec h own = ground arith

  -- A loaded share is one that the database backs.
  loaded-Backed :
      (clock : LoadClock) (id : Text) (w : World env) (rec : ShareRecord)
      → is_empty id ≡ false
      → IsCoherent env w
      → (get_share_cached env clock id w).0 ≡ ok rec
      → Backed env w.rows id rec
  loaded-Backed clock id w rec given c h =
      elim (get_share_cached_exact env law clock id w given c).0 [
        | inl same ↦
            let (row, found, fresh, read) =
              fetch_ok env law clock.check_cached id w.rows rec (sym same ∙ h) in
            (row, found, read)
        | inr same ↦
            let (row, found, fresh, read) =
              fetch_ok env law clock.check_row id w.rows rec (sym same ∙ h) in
            (row, found, read)
      ]

  read_Unchanged :
      (clock : LoadClock) (id : Text) (w : World env)
      → is_empty id ≡ false
      → IsCoherent env w
      → Unchanged env w (get_share_cached env clock id w).1
  read_Unchanged clock id w given c =
      let (result, rows, coherent) = get_share_cached_exact env law clock id w given c in
      record { found = λ j. ap (env.db.first j) rows; coherent = coherent }

  pub change_err :
      (clock : UpdateClock) (user id : Text) (f : SharePermissions → SharePermissions)
      (w : World env) (e : Error)
      → is_empty id ≡ false
      → IsCoherent env w
      → (change env clock user id f w).0 ≡ err e
      → Unchanged env w (change env clock user id f w).1
  change_err clock user id f w e given c h =
      let read = read_Unchanged clock.load id w given c in
      elim (Result-cases (get_share_cached env clock.load id w).0) [
        | inr (x, failed) ↦ rw (change_refused clock user id f w x failed) read
        | inl (rec, loaded) ↦ elim (Bool-cases (same_text rec.owner user)) [
          | inr other ↦ rw (change_foreign clock user id f w rec loaded other) read
          | inl own ↦
              let same = change_owned clock user id f w rec loaded own in
              let after =
                save_fails clock id (with_permissions rec (f rec.permissions)) _ e read.coherent
                  (ap (λ p. p.0) (sym same) ∙ h) in
              rw same
                (record { found = λ j. after.found j ∙ read.found j; coherent = after.coherent })
        ]
      ]

  pub change_ok :
      (clock : UpdateClock) (user id : Text) (f : SharePermissions → SharePermissions)
      (w : World env)
      → is_empty id ≡ false
      → IsCoherent env w
      → (change env clock user id f w).0 ≡ ok tt
      → Changed env user id f w (change env clock user id f w).1
  change_ok clock user id f w given c h =
      let (result, rows, coherent) = get_share_cached_exact env law clock.load id w given c in
      elim (Result-cases (get_share_cached env clock.load id w).0) [
        | inr (x, failed) ↦ ground (arith, change_refused clock user id f w x failed)
        | inl (rec, loaded) ↦ elim (Bool-cases (same_text rec.owner user)) [
          | inr other ↦ ground (arith, change_foreign clock user id f w rec loaded other)
          | inl own ↦
              let same = change_owned clock user id f w rec loaded own in
              let backed = loaded-Backed clock.load id w rec given c loaded in
              let read = (get_share_cached env clock.load id w).1 in
              let saved =
                save_permissions env clock id (with_permissions rec (f rec.permissions)) read in
              let (is_there, others, agrees) =
                save_changes clock id rec (f rec.permissions) read coherent
                  (subst (λ r. Backed env r id rec) (sym rows) backed)
                  (ap (λ p. p.0) (sym same) ∙ h) in
              rw same (record {
                before = rec;
                was_there = backed;
                owned = (same_text_iff rec.owner user).0 own;
                is_there = is_there;
                others = subst (λ r. SameBut env id r saved.1.rows) rows others;
                coherent = agrees;
              })
        ]
      ]
