-- ===== src/Share/Writing.antt =====
-- What the writes of a share do to the agreement of the cache with the database.
use notevault.Prelude.{ℕ, ◌≡◌, refl, ap, ◌∙◌, subst, inl, inr, false, arith, Text, same_text}
use notevault.Prelude.Result.{Error, ok, err, Result-cases, map_result}
use notevault.Prelude.Int.{ℤ}
use notevault.Kv.Store.{Hit}
use notevault.Share.Record.{ShareRecord, Share, SharePermissions, to_record}
use notevault.Share.Env.{ShareEnv, ShareLaws, CacheNeverFails, World, set_permissions}
use notevault.Share.Cache.{make_share_key, kv_del, cache_share, update_permissions_in_db}
use notevault.Share.Coherence.{
  Backed, Backed-by, IsCoherent, make_share_key_injective, make_share_key_ne, cache_share_world,
  kv_del_world,
}

-- The agreement at all keys but one.
pub record IsCoherentBut (env : ShareEnv) (id : Text) (w : World env) : Type 0 where
  pub at :
      (j b : Text)
      → same_text id j ≡ false
      → Hit env.kv w.cache (make_share_key j) b
      → (r : ShareRecord) → env.record_json.unmarshal b ≡ ok r
      → Backed env w.rows j r

-- The same rows are found, but under `id`.
abbrev pub SameBut : (env : ShareEnv) → Text → env.db.Rows → env.db.Rows → Type 0
SameBut env id rows rows' =
    (j : Text) → same_text id j ≡ false → env.db.first j rows' ≡ env.db.first j rows

abbrev pub with_rows : {env : ShareEnv} → World env → env.db.Rows → World env
with_rows w rows = record w { rows = rows }

Backed-moved :
    (env : ShareEnv) (rows rows' : env.db.Rows) (j : Text) (r : ShareRecord)
    → env.db.first j rows' ≡ env.db.first j rows
    → Backed env rows j r
    → Backed env rows' j r
Backed-moved env rows rows' j r same (row, found, read) = (row, same ∙ found, read)

pub with_rows-IsCoherentBut :
    (env : ShareEnv) (id : Text) (w : World env) (rows : env.db.Rows)
    → SameBut env id w.rows rows
    → IsCoherent env w
    → IsCoherentBut env id (with_rows w rows)
with_rows-IsCoherentBut env id w rows same c = record {
  at =
      λ j b other hit r read. Backed-moved env w.rows rows j r (same j other) (c.at j b hit r read);
}

pub IsCoherent-moved :
    (env : ShareEnv) (w w' : World env)
    → w'.cache ≡ w.cache
    → ((j : Text) → env.db.first j w'.rows ≡ env.db.first j w.rows)
    → IsCoherent env w
    → IsCoherent env w'
IsCoherent-moved env w w' cache same c = record {
  at = λ j b hit r read.
      Backed-moved env w.rows w'.rows j r (same j)
        (c.at j b (subst (λ s. Hit env.kv s (make_share_key j) b) cache hit) r read);
}

module _ (env : ShareEnv) (law : ShareLaws env) (never : CacheNeverFails env) where
  -- Writing the record of the one key that may disagree restores the agreement.
  pub cache_share_restores :
      (now : ℕ) (rec : ShareRecord) (ttl : ℤ) (w : World env)
      → IsCoherentBut env rec.share_id w
      → Backed env w.rows rec.share_id rec
      → IsCoherent env (cache_share env now rec ttl w).1
        × ((cache_share env now rec ttl w).1.rows ≡ w.rows)
  cache_share_restores now rec ttl w c backed =
      let (b, written) = never.total.marshals rec in
      let key = make_share_key rec.share_id in
      rw (cache_share_world env law now rec ttl w b written) (
        record {
          at = λ id d hit r read.
              elim (law.kv_law.set_hit now key b ttl (make_share_key id) d w.cache
                (law.record_law.not_marked rec b written)
                (never.reliable.set_ok now key b ttl w.cache) hit) [
                  | inr (other, old) ↦
                      c.at id d (make_share_key_ne rec.share_id id other) old r read
                  | inl (same, equal) ↦
                      Backed-by env w.rows rec.share_id id rec r
                        (make_share_key_injective rec.share_id id same)
                        (cc (law.record_law.round_trip rec b written)) backed
                ];
        },
        refl,
      )

  -- Deleting the one key that may disagree restores it too.
  pub kv_del_restores :
      (id : Text) (w : World env)
      → IsCoherentBut env id w
      → IsCoherent env (kv_del env (make_share_key id) w).1
        × ((kv_del env (make_share_key id) w).1.rows ≡ w.rows)
  kv_del_restores id w c = rw (kv_del_world env law (make_share_key id) w) (
    record {
      at = λ j b hit r read.
          let (other, old) =
            law.kv_law.delete_hit (make_share_key id) (make_share_key j) b w.cache
              (never.reliable.delete_ok (make_share_key id) w.cache) hit in
          c.at j b (make_share_key_ne id j other) old r read;
    },
    refl,
  )

-- Storing permissions: what the statement does to the rows.
module _ (env : ShareEnv) (law : ShareLaws env) where
  to_record-set_permissions :
      (row : Share) (rec : ShareRecord) (p : SharePermissions) (b : Text) (t : ℕ)
      → to_record env.keys_json env.perms_json row ≡ ok rec
      → env.perms_json.marshal p ≡ ok b
      → to_record env.keys_json env.perms_json (set_permissions b t row)
        ≡ ok (record rec { permissions = p })
  unfolding to_record
  to_record-set_permissions row rec p b t read written =
      ground (arith, law.perms_law.round_trip p b written, law.perms_law.not_empty p b written)

  pub Backed-update :
      (id : Text) (rows : env.db.Rows) (rec : ShareRecord) (p : SharePermissions) (b : Text) (t : ℕ)
      → Backed env rows id rec
      → env.perms_json.marshal p ≡ ok b
      → (env.db.update_permissions id b t rows).0 ≡ ok tt
      → Backed env (env.db.update_permissions id b t rows).1 id (record rec { permissions = p })
  Backed-update id rows rec p b t (row, found, read) written done = (
    set_permissions b t row,
    law.db_law.update_ok id b t rows done ∙ ap (map_result (set_permissions b t)) found,
    to_record-set_permissions row rec p b t read written,
  )

  -- The write of the permissions, by its result.
  pub update_written :
      (t : ℕ) (id : Text) (p : SharePermissions) (w : World env)
      → (update_permissions_in_db env t id p w).0 ≡ ok tt
      → (b : Text) × (env.perms_json.marshal p ≡ ok b)
        × ((env.db.update_permissions id b t w.rows).0 ≡ ok tt)
        × ((update_permissions_in_db env t id p w).1
            ≡ with_rows w (env.db.update_permissions id b t w.rows).1)
  unfolding update_permissions_in_db
  update_written t id p w h = elim (Result-cases (env.perms_json.marshal p)) [
    | inl (b, written) ↦ (b, written, ground (arith, law.with_db), ground (arith, law.with_db))
    | inr (e, refused) ↦ ground (arith, law.with_db)
  ]

  pub update_refused :
      (t : ℕ) (id : Text) (p : SharePermissions) (w : World env) (e : Error)
      → (update_permissions_in_db env t id p w).0 ≡ err e
      → ((j : Text)
          → env.db.first j (update_permissions_in_db env t id p w).1.rows ≡ env.db.first j w.rows)
        × ((update_permissions_in_db env t id p w).1.cache ≡ w.cache)
  unfolding update_permissions_in_db
  update_refused t id p w e h = elim (Result-cases (env.perms_json.marshal p)) [
    | inl (b, written) ↦ (
      λ j. ground (arith, law.with_db, law.db_law.update_err id b t j w.rows e),
      ground (arith, law.with_db),
    )
    | inr (x, refused) ↦ (λ j. ground (arith, law.with_db), ground (arith, law.with_db))
  ]
