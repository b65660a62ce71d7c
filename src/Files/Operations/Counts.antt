-- ===== src/Files/Operations/Counts.antt =====
-- The responses of the batches of files_operations.go count and name what was asked.
use notevault.Prelude.{
  ℕ, suc, ◌+◌, ◌≡◌, refl, sym, ap, ◌∙◌, subst, inl, inr, Bool, true, false, not, none, some, List,
  [], ◌∷◌, ◌++◌, map, arith, Text, has_prefix, length, ◌≢◌, if◌then◌else◌, Bool-cases, Option-cases,
}
use mathlib.Core.List.{append_assoc, map-append, append-nil}
use notevault.Prelude.Result.{
  Error, Result, ok, err, Result-cases, no_bucket_configured, access_denied, remove_source_failed,
}
use notevault.Files.Store.{ObjectStore, default_bucket, home, plain_dest, plain_src}
use notevault.Files.Operations.{
  KeyResult, PairResult, PairItem, UpdateFileMetadataItem, BatchResponse, Tally, count_failed,
  count_success, key_failed, key_done, pair_failed, pair_done, metadata_dest, pair_denied,
  finish_move, begin, delete_one, update_one, copy_one, move_one, loop, run, delete_files,
  update_files_metadata, copy_files, move_files,
}

-- How many of the results satisfy a test.
pub number_of {ℓ} : {R : Type ℓ} → (R → Bool) → List R → ℕ
number_of test [] = 0
number_of test (r ∷ rs) = (if test r then 1 else 0) + number_of test rs

number_of-append {ℓ} :
    {R : Type ℓ} (test : R → Bool) (xs ys : List R)
    → number_of test (xs ++ ys) ≡ number_of test xs + number_of test ys
unfolding number_of
number_of-append test [] ys = omega arith
number_of-append test (x ∷ xs) ys = omega (arith, number_of-append test xs ys)

number_of-not {ℓ} :
    {R : Type ℓ} (test : R → Bool) (xs : List R)
    → number_of test xs + number_of (λ r. not (test r)) xs ≡ length xs
unfolding number_of
number_of-not test [] = omega arith
number_of-not test (x ∷ xs) = ground (arith, number_of-not test xs)

length-map {ℓ κ} :
    {A : Type ℓ} {B : Type κ} (f : A → B) (xs : List A) → length (map f xs) ≡ length xs
length-map f [] = refl
length-map f (x ∷ xs) = ap suc (length-map f xs)

-- A response to `items`: one result for each item, in order and under its name, and both counts are
-- those of the results.
pub record IsAccurate {I R K : Type 0} (succeeded : R → Bool) (name : R → K) (asked : I → K)
    (items : List I) (b : BatchResponse R) : Type 0 where
  pub named : map name b.results ≡ map asked items
  pub total : b.total ≡ length items
  pub successes : b.success ≡ number_of succeeded b.results
  pub failures : b.failed ≡ number_of (λ r. not (succeeded r)) b.results
  pub adds_up : b.success + b.failed ≡ b.total

-- The operation fails where no bucket is configured, and there alone.
abbrev pub Answers :
    {I R K : Type 0} (succeeded : R → Bool) (name : R → K) (asked : I → K) (buckets : List Text)
    (items : List I)
    → Result (BatchResponse R)
    → Type 0
Answers succeeded name asked buckets items (err e) = (e ≡ no_bucket_configured) × (buckets ≡ [])
Answers succeeded name asked buckets items (ok b) =
    (buckets ≢ []) × IsAccurate succeeded name asked items b

module _ (s : ObjectStore) {I R K : Type 0} (succeeded : R → Bool) (name : R → K)
    (asked : I → K) where
  -- One round of a loop appends one result under the item's name, and counts it.
  record IsRound (i : I) (t t' : Tally s R) : Type 0 where
    pub result : R
    pub appended : t'.results ≡ t.results ++ result ∷ []
    pub about : name result ≡ asked i
    pub success : t'.success ≡ t.success + (if succeeded result then 1 else 0)
    pub failed : t'.failed ≡ t.failed + (if succeeded result then 0 else 1)

  -- The tally agrees with its results.
  record IsCounted (t : Tally s R) : Type 0 where
    pub success : t.success ≡ number_of succeeded t.results
    pub failed : t.failed ≡ number_of (λ r. not (succeeded r)) t.results

  failed-IsRound :
      (i : I) (t t' : Tally s R) (r : R) (o : s.Objects)
      → t' ≡ count_failed s r o t
      → succeeded r ≡ false
      → name r ≡ asked i
      → IsRound i t t'
  failed-IsRound i t t' r o same not_done about = rw same (record {
    result = r;
    appended = refl;
    about = about;
    success = ground arith;
    failed = ground arith;
  })

  done-IsRound :
      (i : I) (t t' : Tally s R) (r : R) (o : s.Objects)
      → t' ≡ count_success s r o t
      → succeeded r ≡ true
      → name r ≡ asked i
      → IsRound i t t'
  done-IsRound i t t' r o same done about = rw same (record {
    result = r;
    appended = refl;
    about = about;
    success = ground arith;
    failed = ground arith;
  })

  round-IsCounted : {i : I} {t t' : Tally s R} → IsRound i t t' → IsCounted t → IsCounted t'
  unfolding number_of
  round-IsCounted {t} r c = record {
    success =
        rw r.appended (
          omega
            (arith, r.success, c.success, number_of-append succeeded t.results (r.result ∷ [])));
    failed = rw r.appended (
        ground (
          arith,
          r.failed,
          c.failed,
          number_of-append (λ x. not (succeeded x)) t.results (r.result ∷ []),
        ));
  }

  round-named :
      {i : I} {t t' : Tally s R}
      → IsRound i t t'
      → map name t'.results ≡ map name t.results ++ asked i ∷ []
  round-named {i} {t} r =
      rw r.appended (rw map-append (ap (λ k. map name t.results ++ k ∷ []) r.about))

  module _ (body : I → Tally s R → Tally s R)
      (rounds : (i : I) (t : Tally s R) → IsRound i t (body i t)) where
    loop-IsCounted :
        (items : List I) (t : Tally s R) → IsCounted t → IsCounted (loop s body items t)
    unfolding loop
    loop-IsCounted [] t c = c
    loop-IsCounted (i ∷ is) t c = loop-IsCounted is (body i t) (round-IsCounted (rounds i t) c)

    loop-named :
        (items : List I) (t : Tally s R)
        → map name (loop s body items t).results ≡ map name t.results ++ map asked items
    unfolding loop
    loop-named [] t = sym (append-nil _)
    loop-named (i ∷ is) t =
        loop-named is (body i t)
        ∙ ap (λ l. l ++ map asked is) (round-named (rounds i t))
        ∙ append_assoc (map name t.results) (asked i ∷ []) (map asked is)

    loop-IsAccurate :
        (items : List I) (o : s.Objects)
        → IsAccurate succeeded name asked items (
            let t = loop s body items (begin s o) in
            record {
              results = t.results;
              total = length items;
              success = t.success;
              failed = t.failed;
            })
    unfolding number_of
    loop-IsAccurate items o =
        let c = loop-IsCounted items (begin s o) (record { success = refl; failed = refl }) in
        let t = loop s body items (begin s o) in
        let named = loop-named items (begin s o) in
        record {
          named = named;
          total = refl;
          successes = c.success;
          failures = c.failed;
          adds_up = omega (
            arith,
            c.success,
            c.failed,
            number_of-not succeeded t.results,
            length-map name t.results,
            length-map asked items,
            ap length named,
          );
        }

  run-Answers :
      (body : Text → I → Tally s R → Tally s R)
      → ((bucket : Text) (i : I) (t : Tally s R) → IsRound i t (body bucket i t))
      → (buckets : List Text) (items : List I) (o : s.Objects)
      → Answers succeeded name asked buckets items (run s body buckets items o).0
  unfolding default_bucket
  run-Answers body rounds [] items o = (refl, refl)
  run-Answers body rounds (b ∷ bs) items o =
      ((λ p. cc), loop-IsAccurate (body b) (rounds b) items o)

abbrev pub pair_name : PairResult → Text × Text
pair_name r = (r.source_key, r.destination_key)

abbrev pub pair_asked : PairItem → Text × Text
pair_asked i = (i.source_key, i.destination_key)

module _ (s : ObjectStore) (user bucket : Text) where
  abbrev KeyRound : Text → Tally s KeyResult → Tally s KeyResult → Type 0
  KeyRound key t t' = IsRound s (λ r. r.success) (λ r. r.object_key) (λ (k : Text). k) key t t'

  key-failed :
      (key : Text) (e : Error) (o : s.Objects) (t t' : Tally s KeyResult)
      → t' ≡ count_failed s (key_failed s key e) o t
      → KeyRound key t t'
  key-failed key e o t t' same =
      failed-IsRound s _ _ _ key t t' (key_failed s key e) o same refl refl

  key-done :
      (key : Text) (o : s.Objects) (t t' : Tally s KeyResult)
      → t' ≡ count_success s (key_done s key) o t
      → KeyRound key t t'
  key-done key o t t' same = done-IsRound s _ _ _ key t t' (key_done s key) o same refl refl

  delete_one-IsRound :
      (key : Text) (t : Tally s KeyResult) → KeyRound key t (delete_one s user bucket key t)
  unfolding delete_one
  delete_one-IsRound key t = elim (Bool-cases (has_prefix key (home user))) [
    | inr foreign ↦ key-failed key access_denied t.objects t _ (ground arith)
    | inl own ↦ elim (Result-cases (s.remove bucket key [] t.objects).0) [
      | inl (u, done) ↦ key-done key (s.remove bucket key [] t.objects).1 t _ (ground arith)
      | inr (e, failed) ↦ key-failed key e (s.remove bucket key [] t.objects).1 t _ (ground arith)
    ]
  ]

  update_one-IsRound :
      (i : UpdateFileMetadataItem) (t : Tally s KeyResult)
      → IsRound s
          (λ r. r.success)
          (λ r. r.object_key)
          (λ (x : UpdateFileMetadataItem). x.object_key)
          i
          t
          (update_one s user bucket i t)
  unfolding update_one
  update_one-IsRound i t =
      let answer = s.copy (metadata_dest bucket i) (plain_src bucket i.object_key) t.objects in
      elim (Bool-cases (has_prefix i.object_key (home user))) [
        | inr foreign ↦
            failed-IsRound s _ _ _ i t _ (key_failed s i.object_key access_denied) t.objects
              (ground arith) refl refl
        | inl own ↦ elim (Result-cases answer.0) [
          | inl (v, done) ↦
              done-IsRound s _ _ _ i t _ (key_done s i.object_key) answer.1 (ground arith) refl refl
          | inr (e, failed) ↦
              failed-IsRound s _ _ _ i t _ (key_failed s i.object_key e) answer.1 (ground arith)
                refl refl
        ]
      ]

  abbrev PairRound : PairItem → Tally s PairResult → Tally s PairResult → Type 0
  PairRound i t t' = IsRound s (λ r. r.success) pair_name pair_asked i t t'

  pair-failed :
      (i : PairItem) (e : Error) (o : s.Objects) (t t' : Tally s PairResult)
      → t' ≡ count_failed s (pair_failed s i e) o t
      → PairRound i t t'
  pair-failed i e o t t' same = failed-IsRound s _ _ _ i t t' (pair_failed s i e) o same refl refl

  pair-done :
      (i : PairItem) (o : s.Objects) (t t' : Tally s PairResult)
      → t' ≡ count_success s (pair_done s i) o t
      → PairRound i t t'
  pair-done i o t t' same = done-IsRound s _ _ _ i t t' (pair_done s i) o same refl refl

  copy_one-IsRound :
      (i : PairItem) (t : Tally s PairResult) → PairRound i t (copy_one s user bucket i t)
  unfolding copy_one
  copy_one-IsRound i t =
      let answer =
        s.copy (plain_dest bucket i.destination_key) (plain_src bucket i.source_key) t.objects in
      elim (Option-cases (pair_denied s user i)) [
        | inr (e, denied) ↦ pair-failed i e t.objects t _ (ground arith)
        | inl allowed ↦ elim (Result-cases answer.0) [
          | inl (v, done) ↦ pair-done i answer.1 t _ (ground arith)
          | inr (e, failed) ↦ pair-failed i e answer.1 t _ (ground arith)
        ]
      ]

  finish_move-IsRound :
      (i : PairItem) (t : Tally s PairResult) (r : Result (Unit {0}) × s.Objects)
      → PairRound i t (finish_move s i t r)
  finish_move-IsRound i t (ok u, o) = pair-done i o t _ refl
  finish_move-IsRound i t (err e, o) = pair-failed i (remove_source_failed e) o t _ refl

  move_one-finish_move :
      (i : PairItem) (t : Tally s PairResult) (v : Text)
      → pair_denied s user i ≡ none
      → (s.copy (plain_dest bucket i.destination_key) (plain_src bucket i.source_key) t.objects).0
        ≡ ok v
      → finish_move s i t (
          s.remove bucket i.source_key []
            (s.copy
              (plain_dest bucket i.destination_key)
              (plain_src bucket i.source_key)
              t.objects).1)
        ≡ move_one s user bucket i t
  unfolding move_one
  move_one-finish_move i t v allowed done = ground arith

  move_one-denied :
      (i : PairItem) (t : Tally s PairResult) (e : Error)
      → pair_denied s user i ≡ some e
      → move_one s user bucket i t ≡ count_failed s (pair_failed s i e) t.objects t
  unfolding move_one
  move_one-denied i t e denied = ground arith

  move_one-uncopied :
      (i : PairItem) (t : Tally s PairResult) (e : Error)
      → pair_denied s user i ≡ none
      → (s.copy (plain_dest bucket i.destination_key) (plain_src bucket i.source_key) t.objects).0
        ≡ err e
      → move_one s user bucket i t
        ≡ count_failed s
            (pair_failed s i e)
            (s.copy
              (plain_dest bucket i.destination_key)
              (plain_src bucket i.source_key)
              t.objects).1
            t
  unfolding move_one
  move_one-uncopied i t e allowed failed = ground arith

  move_one-IsRound :
      (i : PairItem) (t : Tally s PairResult) → PairRound i t (move_one s user bucket i t)
  move_one-IsRound i t =
      let answer =
        s.copy (plain_dest bucket i.destination_key) (plain_src bucket i.source_key) t.objects in
      let removed = s.remove bucket i.source_key [] answer.1 in
      elim (Option-cases (pair_denied s user i)) [
        | inr (e, denied) ↦ pair-failed i e t.objects t _ (move_one-denied i t e denied)
        | inl allowed ↦ elim (Result-cases answer.0) [
          | inr (e, failed) ↦ pair-failed i e answer.1 t _ (move_one-uncopied i t e allowed failed)
          | inl (v, done) ↦
              subst (PairRound i t) (move_one-finish_move i t v allowed done)
                (finish_move-IsRound i t removed)
        ]
      ]

module _ (s : ObjectStore) (buckets : List Text) (user : Text) (o : s.Objects) where
  -- `DeleteFiles` fails where no bucket is configured, and there alone. Else it answers with one result for each key, in
  -- order and under the key, with the number of keys, and with how many results are successes and how
  -- many are not.
  delete_files-Answers :
      (keys : List Text)
      → Answers
          (λ r. r.success)
          (λ r. r.object_key)
          (λ k. k)
          buckets
          keys
          (delete_files s buckets user keys o).0
  unfolding delete_files
  delete_files-Answers keys =
      run-Answers s _ _ _ (delete_one s user) (delete_one-IsRound s user) buckets keys o

  -- `UpdateFilesMetadata` fails where no bucket is configured, and there alone. Else it answers with one result for each
  -- item, in order and under its key, with the number of items, and with how many results are
  -- successes and how many are not.
  update_files_metadata-Answers :
      (items : List UpdateFileMetadataItem)
      → Answers
          (λ r. r.success)
          (λ r. r.object_key)
          (λ i. i.object_key)
          buckets
          items
          (update_files_metadata s buckets user items o).0
  unfolding update_files_metadata
  update_files_metadata-Answers items =
      run-Answers s _ _ _ (update_one s user) (update_one-IsRound s user) buckets items o

  -- `CopyFiles` fails where no bucket is configured, and there alone. Else it answers with one result for each item, in
  -- order and under both its keys, with the number of items, and with how many results are successes
  -- and how many are not.
  copy_files-Answers :
      (items : List PairItem)
      → Answers
          (λ r. r.success)
          pair_name
          pair_asked
          buckets
          items
          (copy_files s buckets user items o).0
  unfolding copy_files
  copy_files-Answers items =
      run-Answers s _ _ _ (copy_one s user) (copy_one-IsRound s user) buckets items o

  -- `MoveFiles` fails where no bucket is configured, and there alone. Else it answers with one result for each item, in
  -- order and under both its keys, with the number of items, and with how many results are successes
  -- and how many are not.
  move_files-Answers :
      (items : List PairItem)
      → Answers
          (λ r. r.success)
          pair_name
          pair_asked
          buckets
          items
          (move_files s buckets user items o).0
  unfolding move_files
  move_files-Answers items =
      run-Answers s _ _ _ (move_one s user) (move_one-IsRound s user) buckets items o

  -- Each of the four batches fails where no bucket is configured, and there alone. Else it answers with one result for each
  -- key or item, in order and under its key or keys, with the number of what was asked, and with how
  -- many results are successes and how many are not.
  pub batches-Answers :
      (keys : List Text) (items : List UpdateFileMetadataItem) (copies moves : List PairItem)
      → Answers
          (λ r. r.success)
          (λ r. r.object_key)
          (λ k. k)
          buckets
          keys
          (delete_files s buckets user keys o).0
        × Answers
            (λ r. r.success)
            (λ r. r.object_key)
            (λ i. i.object_key)
            buckets
            items
            (update_files_metadata s buckets user items o).0
        × Answers
            (λ r. r.success)
            pair_name
            pair_asked
            buckets
            copies
            (copy_files s buckets user copies o).0
        × Answers
            (λ r. r.success)
            pair_name
            pair_asked
            buckets
            moves
            (move_files s buckets user moves o).0
  batches-Answers keys items copies moves = (
    delete_files-Answers keys,
    update_files_metadata-Answers items,
    copy_files-Answers copies,
    move_files-Answers moves,
  )
