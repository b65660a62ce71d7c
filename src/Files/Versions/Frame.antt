-- ===== src/Files/Versions/Frame.antt =====
-- The operations of files_versions.go on keys outside the user's own folder.
use notevault.Prelude.{ℕ, ◌≡◌, inl, inr, false, List, ◌∷◌, arith, Text, same_text, Bool-cases}
use notevault.Prelude.Result.{err, Result-cases, access_denied}
use notevault.Files.Store.{ObjectStore, ObjectStoreLaws, default_bucket, plain_dest}
use notevault.Files.Versions.{
  CreateFileVersionRequest, may_touch, version_src, new_version_dest, list_file_versions,
  create_file_version, delete_file_version, restore_file_version,
}

-- Without a user, or for a key outside the user's folder, every operation on versions is refused, and
-- nothing changes.
versions_refuse_strangers :
    (s : ObjectStore) (format : ℕ → Text) (buckets : List Text) (user scope version : Text)
    → (req : CreateFileVersionRequest) (o : s.Objects) → may_touch user req.object_key ≡ false
    → (list_file_versions s format buckets user req.object_key scope o ≡ err access_denied)
      × (create_file_version s buckets user req o ≡ (err access_denied, o))
      × (delete_file_version s buckets user req.object_key version o ≡ (err access_denied, o))
      × (restore_file_version s buckets user req.object_key version o ≡ (err access_denied, o))
unfolding list_file_versions create_file_version delete_file_version restore_file_version
versions_refuse_strangers s format buckets user scope version req o foreign = (
  ground (arith, foreign),
  ground (arith, foreign),
  ground (arith, foreign),
  ground (arith, foreign),
)

module _ (s : ObjectStore) (law : ObjectStoreLaws s) (user bucket : Text) where
  -- No operation on the versions of a key changes the content of another key, in the bucket where it
  -- works.
  versions_keep_others :
      (buckets : List Text) (version j : Text) (req : CreateFileVersionRequest) (o : s.Objects)
      → same_text req.object_key j ≡ false
      → (s.content (create_file_version s (bucket ∷ buckets) user req o).1 bucket j
          ≡ s.content o bucket j)
        × (s.content
              (delete_file_version s (bucket ∷ buckets) user req.object_key version o).1
              bucket
              j
            ≡ s.content o bucket j)
        × (s.content
              (restore_file_version s (bucket ∷ buckets) user req.object_key version o).1
              bucket
              j
            ≡ s.content o bucket j)
  unfolding create_file_version delete_file_version restore_file_version default_bucket
  versions_keep_others buckets version j req o other =
      let key = req.object_key in
      let created =
        law.copy_other (new_version_dest s bucket req) (version_src s bucket key req.base_version) j
          o other in
      let deleted = law.remove_other bucket key version j o other in
      let restored =
        law.copy_other (plain_dest bucket key) (version_src s bucket key version) j o other in
      elim (Bool-cases (may_touch user key)) [
        | inr foreign ↦ (ground (arith, foreign), ground (arith, foreign), ground (arith, foreign))
        | inl own ↦ (
          elim (Result-cases
              (s.copy (new_version_dest s bucket req) (version_src s bucket key req.base_version)
                o).0) [
                  | inl (v, done) ↦ ground (arith, own, done, created)
                  | inr (e, failed) ↦ ground (arith, own, failed, created)
                ],
          elim (Result-cases (s.remove bucket key version o).0) [
            | inl (u, done) ↦ ground (arith, own, done, deleted)
            | inr (e, failed) ↦ ground (arith, own, failed, deleted)
          ],
          elim (Result-cases
              (s.copy (plain_dest bucket key) (version_src s bucket key version) o).0) [
                | inl (v, done) ↦ ground (arith, own, done, restored)
                | inr (e, failed) ↦ ground (arith, own, failed, restored)
              ],
        )
      ]
