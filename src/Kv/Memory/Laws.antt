-- ===== src/Kv/Memory/Laws.antt =====
-- The memory store keeps the promises of the interface.
use notevault.Prelude.{
  ◌++◌, same_text_refl, has_prefix-append, drop_prefix-append, ℕ, ◌≡◌, refl, ◌⊎◌, inl, inr, Bool,
  true, false, Option, none, some, [], ◌∷◌, arith, Text, same_text, same_text_iff, has_prefix,
  if◌then◌else◌, Bool-cases,
}
use notevault.Prelude.Result.{Error, Result, ok, err, Result-cases, key_not_found, unmarshal_failed}
use notevault.Prelude.Int.{ℤ, is_positive}
use notevault.Prelude.Assoc.{Assoc, lookup, insert, remove, lookup-insert, lookup-remove}
use notevault.Prelude.Codec.{Codec, IsJson, IsTotal}
use notevault.Kv.Ttl.{TtlValue, encode_with_ttl, decode_with_ttl, ttl_magic}
use notevault.Kv.Ttl.Laws.{is_over, decode-encode, encode_total}
use notevault.Kv.Store.{Hit, KvLaws, IsReliable}
use notevault.Kv.Memory.{get, set, delete, exists, range, keys, memory_kv}

module _ (json : Codec TtlValue) where
  -- What `get` finds in the bytes stored under its key.
  abbrev pub reading : ℕ → Text → Option Text → Result Text
  reading now k none = err (key_not_found k)
  reading now k (some b) = elim (decode_with_ttl json b now) [
    | err e ↦ err e
    | ok d ↦ if d.expired then err (key_not_found k) else ok d.value
  ]

  pub get-eq-reading :
      (now : ℕ) (k : Text) (m : Assoc Text) → (get json now k m).0 ≡ reading now k (lookup k m)
  unfolding get
  get-eq-reading now k m = ground arith

  -- After a read, a key holds what it held or nothing.
  pub lookup-get :
      (now : ℕ) (k j : Text) (m : Assoc Text)
      → (lookup j (get json now k m).1 ≡ lookup j m) ⊎ (lookup j (get json now k m).1 ≡ none)
  unfolding get
  lookup-get now k j m = ground (arith, lookup-remove j k m)

  get-Hit :
      (now : ℕ) (k j v : Text) (m : Assoc Text)
      → Hit (memory_kv json) (get json now k m).1 j v
      → Hit (memory_kv json) m j v
  get-Hit now k j v m (t, h) = (
    t,
    ground (
      arith,
      get-eq-reading t j m,
      get-eq-reading t j (get json now k m).1,
      lookup-get now k j m,
    ),
  )

  -- The entries of the second map were in the first.
  Shrinks : Assoc Text → Assoc Text → Type 0
  Shrinks m m' = (j : Text) → (lookup j m' ≡ lookup j m) ⊎ (lookup j m' ≡ none)

  Shrinks-Hit :
      (m m' : Assoc Text) (j v : Text)
      → Shrinks m m'
      → Hit (memory_kv json) m' j v
      → Hit (memory_kv json) m j v
  unfolding Shrinks
  Shrinks-Hit m m' j v shrinks (t, h) =
      (t, ground (arith, get-eq-reading t j m, get-eq-reading t j m', shrinks j))

  exists-Shrinks : (now : ℕ) (k : Text) (m : Assoc Text) → Shrinks m (exists json now k m).1
  unfolding Shrinks exists
  exists-Shrinks now k m j = ground (arith, lookup-remove j k m)

  remove-Shrinks : (k : Text) (m m' : Assoc Text) → Shrinks (remove k m) m' → Shrinks m m'
  unfolding Shrinks
  remove-Shrinks k m m' shrinks j = ground (arith, lookup-remove j k m, shrinks j)

  range-Shrinks :
      (now : Text → ℕ) (pattern : Text) (rest m : Assoc Text)
      → Shrinks m (range json now pattern rest m).1
  unfolding range Shrinks
  range-Shrinks now pattern [] m j = inl refl
  range-Shrinks now pattern ((k, b) ∷ rest) m j =
      let dropped =
        remove-Shrinks k m (range json now pattern rest (remove k m)).1
          (range-Shrinks now pattern rest (remove k m)) j in
      ground (arith, dropped, range-Shrinks now pattern rest m j)

  keys-Shrinks :
      (now : Text → ℕ) (pattern : Text) (m : Assoc Text) → Shrinks m (keys json now pattern m).1
  unfolding keys
  keys-Shrinks now pattern m = range-Shrinks now pattern m m

  delete-Hit :
      (k j v : Text) (m : Assoc Text)
      → Hit (memory_kv json) (delete json k m).1 j v
      → (same_text k j ≡ false) × Hit (memory_kv json) m j v
  unfolding delete
  delete-Hit k j v m (t, h) = (
    ground (arith, get-eq-reading t j (remove k m), lookup-remove j k m),
    (t, ground (arith, get-eq-reading t j m, get-eq-reading t j (remove k m), lookup-remove j k m)),
  )

  set_encoded :
      (now : ℕ) (k v : Text) (ttl : ℤ) (m : Assoc Text) (b : Text) (w : Bool)
      → encode_with_ttl json now v ttl ≡ ok (b, w)
      → set json now k v ttl m ≡ (ok tt, insert k b m)
  unfolding set
  set_encoded now k v ttl m b w e = rw (e, set)

  set_refused :
      (now : ℕ) (k v : Text) (ttl : ℤ) (m : Assoc Text) (x : Error)
      → encode_with_ttl json now v ttl ≡ err x
      → set json now k v ttl m ≡ (err x, m)
  unfolding set
  set_refused now k v ttl m x e = rw (e, set)

  set_err-Hit :
      (now : ℕ) (k w : Text) (ttl : ℤ) (j v : Text) (m : Assoc Text) (e : Error)
      → (set json now k w ttl m).0 ≡ err e
      → Hit (memory_kv json) (set json now k w ttl m).1 j v
      → ((same_text k j ≡ true) × (v ≡ w)) ⊎ Hit (memory_kv json) m j v
  unfolding set
  set_err-Hit now k w ttl j v m e failed (t, h) = inr (t, ground (arith, get-eq-reading t j m))

  module _ (lossless : IsJson json) where
    -- What a read finds under each key after a write.
    pub get-set :
        (now : ℕ) (k v : Text) (ttl : ℤ) (later : ℕ) (j : Text) (m : Assoc Text)
        → (set json now k v ttl m).0 ≡ ok tt
        → (is_positive ttl ≡ true) ⊎ (has_prefix v ttl_magic ≡ false)
        → (get json later j (set json now k v ttl m).1).0 ≡ (
            if same_text k j
            then (if is_over now ttl later then err (key_not_found j) else ok v)
            else (get json later j m).0)
    get-set now k v ttl later j m h safe = elim (Result-cases (encode_with_ttl json now v ttl)) [
      | inl ((b, w), e) ↦ ground (
        arith,
        set_encoded now k v ttl m b w e,
        get-eq-reading later j (insert k b m),
        get-eq-reading later j m,
        lookup-insert j k b m,
        decode-encode json lossless now v ttl later {b = b} {wrapped = w} e safe,
        same_text_iff k j,
      )
      | inr (x, e) ↦ ground (arith, set_refused now k v ttl m x e)
    ]

    set-Hit :
        (now : ℕ) (k w : Text) (ttl : ℤ) (j v : Text) (m : Assoc Text)
        → has_prefix w ttl_magic ≡ false
        → (set json now k w ttl m).0 ≡ ok tt
        → Hit (memory_kv json) (set json now k w ttl m).1 j v
        → ((same_text k j ≡ true) × (v ≡ w))
          ⊎ ((same_text k j ≡ false) × Hit (memory_kv json) m j v)
    set-Hit now k w ttl j v m plain stored (t, h) = elim (Bool-cases (same_text k j)) [
      | inl same ↦ inl (same, ground (arith, get-set now k w ttl t j m stored (inr plain)))
      | inr other ↦ inr (other, (t, ground (arith, get-set now k w ttl t j m stored (inr plain))))
    ]

    pub memory_kv-KvLaws : KvLaws (memory_kv json)
    memory_kv-KvLaws = record {
      get_hit = get-Hit;
      exists_hit =
          λ now k j v m. Shrinks-Hit m (exists json now k m).1 j v (exists-Shrinks now k m);
      keys_hit = λ now pattern j v m.
          Shrinks-Hit m (keys json now pattern m).1 j v (keys-Shrinks now pattern m);
      set_hit = set-Hit;
      set_err_hit = λ now k w ttl j v m e _. set_err-Hit now k w ttl j v m e;
      delete_hit = λ k j v m _. delete-Hit k j v m;
      delete_err_hit = λ k j v m e _ h. (delete-Hit k j v m h).1;
    }

  pub memory_kv-IsReliable : IsTotal json → IsReliable (memory_kv json)
  unfolding delete set
  memory_kv-IsReliable total = record {
    set_ok = λ now k w ttl m. ground (arith, encode_total json now w ttl total);
    delete_ok = λ k m. refl;
  }

decode_marked :
    (json : Codec TtlValue) (rest : Text) (later : ℕ) (e : Error)
    → json.unmarshal rest ≡ err e
    → decode_with_ttl json (ttl_magic ++ rest) later ≡ err (unmarshal_failed e)
unfolding decode_with_ttl
decode_marked json rest later e unread =
    rw (has_prefix-append ttl_magic rest, drop_prefix-append ttl_magic rest, unread) refl

encode_forever :
    (json : Codec TtlValue) (now : ℕ) (v : Text) (ttl : ℤ)
    → is_positive ttl ≡ false
    → encode_with_ttl json now v ttl ≡ ok (v, false)
unfolding encode_with_ttl
encode_forever json now v ttl forever = rw forever

-- A value that starts with the marker of ttl.go and is stored without an expiry is not returned: where
-- the rest of it is no JSON for a wrapper, `Get` fails, at any time.
pub get-set_marked :
    (json : Codec TtlValue) (now : ℕ) (k rest : Text) (ttl : ℤ) (later : ℕ) (m : Assoc Text)
    (e : Error)
    → is_positive ttl ≡ false
    → json.unmarshal rest ≡ err e
    → (get json later k (set json now k (ttl_magic ++ rest) ttl m).1).0 ≡ err (unmarshal_failed e)
get-set_marked json now k rest ttl later m e forever unread =
    let v = ttl_magic ++ rest in
    ground (
      arith,
      set_encoded json now k v ttl m v false (encode_forever json now v ttl forever),
      get-eq-reading json later k (insert k v m),
      lookup-insert k k v m,
      same_text_refl k,
      decode_marked json rest later e unread,
    )
