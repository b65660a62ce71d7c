-- ===== src/Kv/Memory/Keys.antt =====
-- `Keys` and `Exists` of the memory store agree with `Get`.
use notevault.Prelude.{
  has_text, ℕ, ◌≡◌, refl, ◌↔◌, inl, inr, Bool, true, false, Option, none, some, List, [], ◌∷◌,
  arith, Text, same_text_iff, if◌then◌else◌,
}
use notevault.Prelude.Result.{ok, Result-cases}
use notevault.Prelude.Assoc.{Assoc, lookup, remove, lookup-remove, IsUnique}
use notevault.Prelude.Codec.{Codec}
use notevault.Kv.Ttl.{TtlValue}
use notevault.Kv.Memory.{get, exists, keys, range, visit}

module _ (json : Codec TtlValue) where
  -- `Exists` finds a key exactly when `Get` does, and both leave the same map behind.
  exists_iff :
      (now : ℕ) (k : Text) (m : Assoc Text)
      → (((exists json now k m).0 ≡ ok true) ↔ ((v : Text) × ((get json now k m).0 ≡ ok v)))
        × ((exists json now k m).1 ≡ (get json now k m).1)
  unfolding exists get
  exists_iff now k m = (
    (
      λ h. elim (Result-cases (get json now k m).0) [
        | inl hit ↦ hit
        | inr (e, miss) ↦ ground arith
      ],
      λ h. ground (arith, h.1),
    ),
    ground arith,
  )

  -- The range reports the entry, and the range deletes it.
  abbrev pub is_listed : (Text → ℕ) → Text → Text → Option Text → Bool
  is_listed now pattern j none = false
  is_listed now pattern j (some b) = elim (visit json now pattern j b) [
    | some false ↦ true
    | _ ↦ false
  ]

  abbrev pub is_dropped : (Text → ℕ) → Text → Text → Option Text → Bool
  is_dropped now pattern j none = false
  is_dropped now pattern j (some b) = elim (visit json now pattern j b) [
    | some true ↦ true
    | _ ↦ false
  ]

  module _ (now : Text → ℕ) (pattern j : Text) where
    range-listed :
        (rest m : Assoc Text)
        → IsUnique rest
        → has_text j (range json now pattern rest m).0 ≡ is_listed now pattern j (lookup j rest)
    unfolding range lookup has_text
    range-listed [] m u = refl
    range-listed ((k, b) ∷ rest) m (n, u) =
        ground (arith, same_text_iff k j, range-listed rest m u, range-listed rest (remove k m) u)

    range-dropped :
        (rest m : Assoc Text)
        → IsUnique rest
        → lookup j (range json now pattern rest m).1
          ≡ (if is_dropped now pattern j (lookup j rest) then none else lookup j m)
    unfolding range lookup
    range-dropped [] m u = refl
    range-dropped ((k, b) ∷ rest) m (n, u) = ground (
      arith,
      same_text_iff k j,
      lookup-remove j k m,
      range-dropped rest m u,
      range-dropped rest (remove k m) u,
    )

-- `Keys` returns exactly the keys that match the pattern and have not expired, and drops exactly
-- the expired ones among those that match.
keys_exact :
    (json : Codec TtlValue) (now : Text → ℕ) (pattern : Text) (m : Assoc Text)
    → IsUnique m
    → (ks : List Text) × ((keys json now pattern m).0 ≡ ok ks)
      × ((j : Text) → has_text j ks ≡ is_listed json now pattern j (lookup j m))
      × ((j : Text)
          → lookup j (keys json now pattern m).1
            ≡ (if is_dropped json now pattern j (lookup j m) then none else lookup j m))
unfolding keys
keys_exact json now pattern m u = (
  (range json now pattern m m).0,
  refl,
  λ j. range-listed json now pattern j m m u,
  λ j. range-dropped json now pattern j m m u,
)
