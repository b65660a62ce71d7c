-- ===== src/Files/Operations/Frame.antt =====
-- What the batches of files_operations.go leave alone.
use notevault.Prelude.{
  ◌≡◌, refl, ◌∙◌, inl, inr, true, false, none, List, [], ◌∷◌, arith, Text, same_text, same_text_iff,
  has_prefix, Bool-cases, Option-cases,
}
use notevault.Prelude.Result.{Result-cases}
use notevault.Files.Store.{
  ObjectStore, ObjectStoreLaws, default_bucket, home, plain_dest, plain_src,
}
use notevault.Files.Operations.{
  Tally, PairItem, UpdateFileMetadataItem, metadata_dest, pair_denied, begin, delete_one,
  update_one, copy_one, move_one, loop, delete_files, update_files_metadata, copy_files, move_files,
}

pub same_text-foreign :
    (key j prefix : Text)
    → has_prefix key prefix ≡ true
    → has_prefix j prefix ≡ false
    → same_text key j ≡ false
same_text-foreign key j prefix inside outside = ground (arith, same_text_iff key j)

pair_denied-inside :
    (s : ObjectStore) (user : Text) (i : PairItem)
    → pair_denied s user i ≡ none
    → (has_prefix i.source_key (home user) ≡ true)
      × (has_prefix i.destination_key (home user) ≡ true)
pair_denied-inside s user i allowed = ground arith

module _ (s : ObjectStore) (law : ObjectStoreLaws s) (user bucket : Text) (j : Text)
    (foreign : has_prefix j (home user) ≡ false) where
  -- A round leaves the content of the foreign key alone.
  abbrev Keeps : {R : Type 0} → Tally s R → Tally s R → Type 0
  Keeps t t' = s.content t'.objects bucket j ≡ s.content t.objects bucket j

  delete_one-Keeps : (key : Text) (t : Tally s _) → Keeps t (delete_one s user bucket key t)
  unfolding delete_one
  delete_one-Keeps key t = elim (Bool-cases (has_prefix key (home user))) [
    | inr denied ↦ ground arith
    | inl own ↦
        let kept =
          law.remove_other bucket key [] j t.objects (same_text-foreign key j _ own foreign) in
        elim (Result-cases (s.remove bucket key [] t.objects).0) [
          | inl (u, done) ↦ ground (arith, kept)
          | inr (e, failed) ↦ ground (arith, kept)
        ]
  ]

  update_one-Keeps :
      (i : UpdateFileMetadataItem) (t : Tally s _) → Keeps t (update_one s user bucket i t)
  unfolding update_one
  update_one-Keeps i t = elim (Bool-cases (has_prefix i.object_key (home user))) [
    | inr denied ↦ ground arith
    | inl own ↦
        let dest = metadata_dest bucket i in
        let src = plain_src bucket i.object_key in
        let kept =
          law.copy_other dest src j t.objects (same_text-foreign i.object_key j _ own foreign) in
        elim (Result-cases (s.copy dest src t.objects).0) [
          | inl (v, done) ↦ ground (arith, kept)
          | inr (e, failed) ↦ ground (arith, kept)
        ]
  ]

  copy-Keeps :
      (i : PairItem) (o : s.Objects)
      → pair_denied s user i ≡ none
      → s.content
          (s.copy (plain_dest bucket i.destination_key) (plain_src bucket i.source_key) o).1
          bucket
          j
        ≡ s.content o bucket j
  copy-Keeps i o allowed =
      law.copy_other (plain_dest bucket i.destination_key) (plain_src bucket i.source_key) j o
        (same_text-foreign i.destination_key j _ (pair_denied-inside s user i allowed).1 foreign)

  copy_one-Keeps : (i : PairItem) (t : Tally s _) → Keeps t (copy_one s user bucket i t)
  unfolding copy_one
  copy_one-Keeps i t = elim (Option-cases (pair_denied s user i)) [
    | inr (e, denied) ↦ ground arith
    | inl allowed ↦
        let kept = copy-Keeps i t.objects allowed in
        elim (Result-cases
          (s.copy (plain_dest bucket i.destination_key) (plain_src bucket i.source_key)
            t.objects).0) [
              | inl (v, done) ↦ ground (arith, kept)
              | inr (e, failed) ↦ ground (arith, kept)
            ]
  ]

  move_one-Keeps : (i : PairItem) (t : Tally s _) → Keeps t (move_one s user bucket i t)
  unfolding move_one
  move_one-Keeps i t = elim (Option-cases (pair_denied s user i)) [
    | inr (e, denied) ↦ ground arith
    | inl allowed ↦
        let kept = copy-Keeps i t.objects allowed in
        let copied =
          s.copy (plain_dest bucket i.destination_key) (plain_src bucket i.source_key) t.objects in
        let kept' =
          law.remove_other bucket i.source_key [] j copied.1
            (same_text-foreign i.source_key j _ (pair_denied-inside s user i allowed).0 foreign) in
        elim (Result-cases copied.0) [
          | inr (e, failed) ↦ ground (arith, kept)
          | inl (v, done) ↦ elim (Result-cases (s.remove bucket i.source_key [] copied.1).0) [
            | inl (u, gone) ↦ ground (arith, kept, kept')
            | inr (e, stays) ↦ ground (arith, kept, kept')
          ]
        ]
  ]

  loop-Keeps :
      {I R : Type 0} (body : I → Tally s R → Tally s R)
      → ((i : I) (t : Tally s R) → Keeps t (body i t))
      → (items : List I) (t : Tally s R) → Keeps t (loop s body items t)
  unfolding loop
  loop-Keeps body keeps [] t = refl
  loop-Keeps body keeps (i ∷ is) t = loop-Keeps body keeps is (body i t) ∙ keeps i t

  -- No batch of a user changes the content of a key outside the user's own folder, in the bucket
  -- where it works, whatever the object store answers.
  pub batches_keep_foreign :
      (buckets : List Text) (keys : List Text) (items : List UpdateFileMetadataItem)
      (pairs : List PairItem) (o : s.Objects)
      → (s.content (delete_files s (bucket ∷ buckets) user keys o).1 bucket j
          ≡ s.content o bucket j)
        × (s.content (update_files_metadata s (bucket ∷ buckets) user items o).1 bucket j
            ≡ s.content o bucket j)
        × (s.content (copy_files s (bucket ∷ buckets) user pairs o).1 bucket j
            ≡ s.content o bucket j)
        × (s.content (move_files s (bucket ∷ buckets) user pairs o).1 bucket j
            ≡ s.content o bucket j)
  unfolding delete_files update_files_metadata copy_files move_files default_bucket
  batches_keep_foreign buckets keys items pairs o = (
    loop-Keeps (delete_one s user bucket) delete_one-Keeps keys (begin s o),
    loop-Keeps (update_one s user bucket) update_one-Keeps items (begin s o),
    loop-Keeps (copy_one s user bucket) copy_one-Keeps pairs (begin s o),
    loop-Keeps (move_one s user bucket) move_one-Keeps pairs (begin s o),
  )
