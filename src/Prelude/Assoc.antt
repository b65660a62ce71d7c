-- ===== src/Prelude/Assoc.antt =====
-- A Go map with string keys as an association list; each key stands in it once.
use mathlib.Core.Path.{◌≡◌, refl}
use mathlib.Core.Option.{Option, none, some}
use mathlib.Core.List.{List, [], ◌∷◌}
use native.Mathlib.Omega.{arith}
use notevault.Prelude.Tests.{if◌then◌else◌}
use notevault.Prelude.Texts.{Text, same_text, same_text_iff}

abbrev pub Assoc {ℓ} : Type ℓ → Type ℓ
Assoc V = List (Text × V)

module _ {ℓ} {V : Type ℓ} where
  -- `v, ok := m[k]`
  unfoldable pub lookup : Text → Assoc V → Option V
  lookup k [] = none
  lookup k ((j, v) ∷ m) = if same_text j k then some v else lookup k m

  -- `m[k] = v`
  unfoldable pub insert : Text → V → Assoc V → Assoc V
  insert k v [] = (k, v) ∷ []
  insert k v ((j, w) ∷ m) = if same_text j k then (k, v) ∷ m else (j, w) ∷ insert k v m

  -- `delete(m, k)`
  unfoldable pub remove : Text → Assoc V → Assoc V
  remove k [] = []
  remove k ((j, w) ∷ m) = let rest = remove k m in if same_text j k then rest else (j, w) ∷ rest

  unfoldable pub keys : Assoc V → List Text
  keys [] = []
  keys ((j, w) ∷ m) = j ∷ keys m

  pub lookup-insert :
      (j k : Text) (v : V) (m : Assoc V)
      → lookup j (insert k v m) ≡ (if same_text k j then some v else lookup j m)
  unfolding lookup insert
  lookup-insert j k v [] = refl
  lookup-insert j k v ((i, w) ∷ m) =
      ground (arith, same_text_iff k j, same_text_iff i k, same_text_iff i j, lookup-insert j k v m)

  pub lookup-remove :
      (j k : Text) (m : Assoc V)
      → lookup j (remove k m) ≡ (if same_text k j then none else lookup j m)
  unfolding lookup remove
  lookup-remove j k [] = ground arith
  lookup-remove j k ((i, w) ∷ m) =
      ground (arith, same_text_iff k j, same_text_iff i k, same_text_iff i j, lookup-remove j k m)

  pub ruleset assoc_laws = (lookup-insert, lookup-remove)

  -- Each key stands in the list once.
  abbrev pub IsUnique : Assoc V → Type ℓ
  IsUnique [] = Unit
  IsUnique ((k, v) ∷ m) = (lookup k m ≡ none) × IsUnique m

  pub insert-IsUnique : (k : Text) (v : V) (m : Assoc V) → IsUnique m → IsUnique (insert k v m)
  unfolding insert lookup
  insert-IsUnique k v [] u = (refl, tt)
  insert-IsUnique k v ((j, w) ∷ m) (n, u) =
      ground (
        arith,
        same_text_iff j k,
        same_text_iff k j,
        lookup-insert j k v m,
        insert-IsUnique k v m u,
      )

  pub remove-IsUnique : (k : Text) (m : Assoc V) → IsUnique m → IsUnique (remove k m)
  unfolding remove
  remove-IsUnique k [] u = tt
  remove-IsUnique k ((j, w) ∷ m) (n, u) = ground (arith, lookup-remove j k m, remove-IsUnique k m u)
