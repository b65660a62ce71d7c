-- ===== src/Files/Folders/Deletion.antt =====
-- deleteFolderObjects of file_helper.go deletes what is listed, or refuses.
use notevault.Prelude.{
  ℕ, ◌+◌, ◌≤◌, ◌<◌, ◌≡◌, refl, sym, ◌∙◌, subst, ◌⊎◌, inl, inr, Bool, true, false, not, ◌&&◌, none,
  List, [], ◌∷◌, arith, Text, same_text, same_text_iff, length, All, ltb, Bool-cases,
}
use notevault.Prelude.Result.{Result, ok, err, Result-cases, folder_not_empty}
use notevault.Files.Store.{ObjectStore, ObjectStoreLaws}
use notevault.Files.Folders.{collect, counted, delete_each, delete_folder_objects}
use notevault.Prelude.{has_text}

module _ (s : ObjectStore) (bucket : Text) where
  -- What happens to the other keys of a deletion.
  abbrev pub LeavesOthers : List Text → s.Objects → s.Objects → Type 0
  LeavesOthers keys o o' =
      (j : Text) → has_text j keys ≡ false → s.content o' bucket j ≡ s.content o bucket j

  abbrev pub IsAbsent : s.Objects → Text → Type 0
  IsAbsent o key = s.content o bucket key ≡ none

  -- A deletion of a folder with its listing: a refusal changes nothing; else the count is at most the
  -- number of keys, nothing is left of them if it is that number, and no other key is touched. Without
  -- `recursive`, at most one key is listed.
  abbrev pub Clears : Bool → List Text → s.Objects → Result ℕ × s.Objects → Type 0
  Clears recursive keys o (err e, o') = (o' ≡ o) × (recursive ≡ false) × (1 < length keys)
  Clears recursive keys o (ok n, o') =
      (n ≤ length keys)
      × (n ≡ length keys → All (IsAbsent o') keys)
      × LeavesOthers keys o o'
      × ((recursive ≡ true) ⊎ (length keys ≤ 1))

module _ (s : ObjectStore) (law : ObjectStoreLaws s) (bucket : Text) where
  delete_each-IsAbsent :
      (keys : List Text) (n : ℕ) (o : s.Objects) (j : Text)
      → IsAbsent s bucket o j
      → IsAbsent s bucket (delete_each s bucket keys n o).1 j
  unfolding delete_each
  delete_each-IsAbsent [] n o j absent = absent
  delete_each-IsAbsent (key ∷ keys) n o j absent =
      delete_each-IsAbsent keys _ _ j (elim (Bool-cases (same_text key j)) [
        | inr other ↦ law.remove_other bucket key [] j o other ∙ absent
        | inl same ↦ elim (Result-cases (s.remove bucket key [] o).0) [
          | inl (u, done) ↦
              subst (IsAbsent s bucket (s.remove bucket key [] o).1) ((same_text_iff key j).0 same)
                (law.remove_ok bucket key o done)
          | inr (e, failed) ↦ law.remove_err bucket key [] j o e failed ∙ absent
        ]
      ])

  delete_each-bounds :
      (keys : List Text) (n : ℕ) (o : s.Objects)
      → (n ≤ (delete_each s bucket keys n o).0)
        × ((delete_each s bucket keys n o).0 ≤ n + length keys)
  unfolding delete_each
  delete_each-bounds [] n o = (omega arith, omega arith)
  delete_each-bounds (key ∷ keys) n o =
      let (r, o1) = s.remove bucket key [] o in
      let rest = delete_each-bounds keys (counted s n r) o1 in
      elim (Result-cases r) [
        | inl (u, done) ↦ ground (arith, rest, done)
        | inr (e, failed) ↦ ground (arith, rest, failed)
      ]

  -- Where every deletion is counted, nothing is left of the keys.
  delete_each_complete :
      (keys : List Text) (n : ℕ) (o : s.Objects)
      → (delete_each s bucket keys n o).0 ≡ n + length keys
      → All (IsAbsent s bucket (delete_each s bucket keys n o).1) keys
  unfolding delete_each
  delete_each_complete [] n o full = tt
  delete_each_complete (key ∷ keys) n o full =
      let answer = s.remove bucket key [] o in
      let bounds = delete_each-bounds keys (counted s n answer.0) answer.1 in
      elim (Result-cases answer.0) [
        | inl (u, done) ↦ (
          delete_each-IsAbsent keys _ answer.1 key (law.remove_ok bucket key o done),
          delete_each_complete keys _ answer.1 (ground (arith, full, done)),
        )
        | inr (e, failed) ↦ absurd (ground (arith, full, bounds, failed))
      ]

  delete_each-LeavesOthers :
      (keys : List Text) (n : ℕ) (o : s.Objects)
      → LeavesOthers s bucket keys o (delete_each s bucket keys n o).1
  unfolding delete_each has_text
  delete_each-LeavesOthers [] n o j fresh = refl
  delete_each-LeavesOthers (key ∷ keys) n o j fresh =
      let answer = s.remove bucket key [] o in
      delete_each-LeavesOthers keys (counted s n answer.0) answer.1 j (ground arith)
      ∙ law.remove_other bucket key [] j o
          (ground (arith, same_text_iff key j, same_text_iff j key))

  -- With a listing without errors, `deleteFolderObjects` refuses more than one key unless it is
  -- recursive, and changes nothing then; else its count is at most the number of listed keys, nothing
  -- is left under them if it is that number, and no other key is touched.
  pub delete_folder_objects-Clears :
      (prefix : Text) (recursive : Bool) (o : s.Objects) (keys : List Text)
      → collect (s.list bucket prefix recursive false o) ≡ ok keys
      → Clears s bucket recursive keys o (delete_folder_objects s bucket prefix recursive o)
  unfolding delete_folder_objects
  delete_folder_objects-Clears prefix recursive o keys listed =
      elim (Bool-cases (not recursive && ltb 1 (length keys))) [
        | inl full ↦
            let refuses : delete_folder_objects s bucket prefix recursive o
                ≡ (err folder_not_empty, o) =
              ground (arith, listed, full) in
            subst (Clears s bucket recursive keys o) (sym refuses)
              (refl, ground arith, ground arith)
        | inr fits ↦
            let (n, o') = delete_each s bucket keys 0 o in
            let clears : delete_folder_objects s bucket prefix recursive o ≡ (ok n, o') =
              ground (arith, listed, fits) in
            subst (Clears s bucket recursive keys o) (sym clears) (
              omega (arith, (delete_each-bounds keys 0 o).1),
              (λ all. delete_each_complete keys 0 o (omega (arith, all))),
              delete_each-LeavesOthers keys 0 o,
              ground arith,
            )
      ]
