-- ===== src/Files/Operations/Effects.antt =====
-- What the batches of files_operations.go do to the objects they name.
use notevault.Prelude.{
  ◌≡◌, refl, ◌∙◌, subst, ◌⊎◌, inl, inr, false, none, List, [], ◌∷◌, ◌++◌, arith, Text, same_text,
  same_text_iff, has_prefix, All, Bool-cases, Option-cases,
}
use notevault.Prelude.Result.{Result, ok, err, Result-cases}
use notevault.Files.Store.{
  ObjectStore, ObjectStoreLaws, default_bucket, home, plain_dest, plain_src,
}
use notevault.Files.Operations.{
  KeyResult, BatchResponse, Tally, PairItem, pair_denied, begin, delete_one, move_one, loop,
  delete_files, move_files,
}

module _ (s : ObjectStore) (bucket : Text) where
  -- A result that says that its key was deleted is right.
  abbrev pub Honest : s.Objects → KeyResult → Type 0
  Honest o r = (r.success ≡ false) ⊎ (s.content o bucket r.object_key ≡ none)

  abbrev pub DeletesHonestly : Result (BatchResponse KeyResult) × s.Objects → Type 0
  DeletesHonestly (err e, o) = ⊥
  DeletesHonestly (ok b, o) = All (Honest o) b.results

module _ (s : ObjectStore) (law : ObjectStoreLaws s) (bucket : Text) where
  -- A deletion makes nothing appear.
  remove-absent :
      (key j : Text) (o : s.Objects)
      → s.content o bucket j ≡ none
      → s.content (s.remove bucket key [] o).1 bucket j ≡ none
  remove-absent key j o absent = elim (Bool-cases (same_text key j)) [
    | inr other ↦ law.remove_other bucket key [] j o other ∙ absent
    | inl same ↦ elim (Result-cases (s.remove bucket key [] o).0) [
      | inl (u, done) ↦
          subst (λ k. s.content (s.remove bucket key [] o).1 bucket k ≡ none)
            ((same_text_iff key j).0 same) (law.remove_ok bucket key o done)
      | inr (e, failed) ↦ law.remove_err bucket key [] j o e failed ∙ absent
    ]
  ]

  remove-Honest :
      (key : Text) (o : s.Objects) (rs : List KeyResult)
      → All (Honest s bucket o) rs
      → All (Honest s bucket (s.remove bucket key [] o).1) rs
  remove-Honest key o [] a = a
  remove-Honest key o (r ∷ rs) (inl failed, a) = (inl failed, remove-Honest key o rs a)
  remove-Honest key o (r ∷ rs) (inr absent, a) =
      (inr (remove-absent key r.object_key o absent), remove-Honest key o rs a)

  All-append :
      {R : Type 0} (P : R → Type 0) (rs : List R) (r : R) → All P rs → P r → All P (rs ++ r ∷ [])
  All-append P [] r a p = (p, tt)
  All-append P (x ∷ rs) r (q, a) p = (q, All-append P rs r a p)

  module _ (user : Text) where
    delete_one-Honest :
        (key : Text) (t : Tally s KeyResult)
        → All (Honest s bucket t.objects) t.results
        → All
            (Honest s bucket (delete_one s user bucket key t).objects)
            (delete_one s user bucket key t).results
    unfolding delete_one
    delete_one-Honest key t a =
        let kept = remove-Honest key t.objects t.results a in
        elim (Bool-cases (has_prefix key (home user))) [
          | inr denied ↦ rw denied (All-append (Honest s bucket t.objects) t.results _ a (inl refl))
          | inl own ↦ elim (Result-cases (s.remove bucket key [] t.objects).0) [
            | inl (u, done) ↦
                rw (own, done)
                  (All-append (Honest s bucket (s.remove bucket key [] t.objects).1) t.results _
                    kept (inr (law.remove_ok bucket key t.objects done)))
            | inr (e, failed) ↦
                rw (own, failed)
                  (All-append (Honest s bucket (s.remove bucket key [] t.objects).1) t.results _
                    kept (inl refl))
          ]
        ]

    loop-Honest :
        (keys : List Text) (t : Tally s KeyResult)
        → All (Honest s bucket t.objects) t.results
        → (let t' = loop s (delete_one s user bucket) keys t in
            All (Honest s bucket t'.objects) t'.results)
    unfolding loop
    loop-Honest [] t a = a
    loop-Honest (k ∷ ks) t a =
        loop-Honest ks (delete_one s user bucket k t) (delete_one-Honest k t a)

    -- With a bucket, `DeleteFiles` answers, and after the whole batch nothing is found under any key
    -- that it reports as deleted, also where keys repeat.
    pub delete_files-DeletesHonestly :
        (buckets keys : List Text) (o : s.Objects)
        → DeletesHonestly s bucket (delete_files s (bucket ∷ buckets) user keys o)
    unfolding delete_files default_bucket
    delete_files-DeletesHonestly buckets keys o = loop-Honest keys (begin s o) tt

    -- A move of one object to another key loses nothing: afterwards what the source held is still there
    -- under the source, or it is under the destination.
    pub move_files_keeps_content :
        (buckets : List Text) (i : PairItem) (o : s.Objects)
        → same_text i.destination_key i.source_key ≡ false
        → (let o' = (move_files s (bucket ∷ buckets) user (i ∷ []) o).1 in
            (s.content o' bucket i.source_key ≡ s.content o bucket i.source_key)
            ⊎ (s.content o' bucket i.destination_key ≡ s.content o bucket i.source_key))
    unfolding move_files default_bucket loop move_one
    move_files_keeps_content buckets i o other =
        let copied =
          s.copy (plain_dest bucket i.destination_key) (plain_src bucket i.source_key) o in
        let kept =
          law.copy_other (plain_dest bucket i.destination_key) (plain_src bucket i.source_key)
            i.source_key o other in
        elim (Option-cases (pair_denied s user i)) [
          | inr (e, denied) ↦ ground arith
          | inl allowed ↦ elim (Result-cases copied.0) [
            | inr (e, failed) ↦ ground (arith, kept)
            | inl (v, done) ↦
                let there = law.copy_ok bucket i.source_key i.destination_key o v done in
                let stays = law.remove_other bucket i.source_key [] i.destination_key copied.1 (
                  ground (
                    arith,
                    same_text_iff i.source_key i.destination_key,
                    same_text_iff i.destination_key i.source_key,
                  )) in
                elim (Result-cases (s.remove bucket i.source_key [] copied.1).0) [
                  | inl (u, gone) ↦ ground (arith, there, stays)
                  | inr (e, remains) ↦ ground (arith, there, stays)
                ]
          ]
        ]
