-- ===== src/Files/Paths.antt =====
-- The functions of Go's `strings` that pkg/internal/service/file_helper.go calls on object keys, at
-- the separator `/`.
use notevault.Prelude.{
  ℕ, ◌≡◌, refl, sym, ap, ◌∙◌, inl, inr, Bool, true, false, ◌||◌, List, [], ◌∷◌, ◌++◌, arith, Text,
  has_prefix, drop_prefix, ◌==◌, if◌then◌else◌, Bool-cases,
}
use mathlib.Core.List.{append-nil}

-- `strings.HasSuffix(s, "/")`
unfoldable pub ends_with_slash : Text → Bool
ends_with_slash [] = false
ends_with_slash (c ∷ []) = c == b'/'
ends_with_slash (c ∷ d ∷ s) = ends_with_slash (d ∷ s)

-- `strings.TrimSuffix(s, "/")`
unfoldable pub trim_slash : Text → Text
trim_slash [] = []
trim_slash (c ∷ []) = if c == b'/' then [] else c ∷ []
trim_slash (c ∷ d ∷ s) = c ∷ trim_slash (d ∷ s)

-- `strings.Contains(s, "/")`
unfoldable pub has_slash : Text → Bool
has_slash [] = false
has_slash (c ∷ s) = c == b'/' || has_slash s

-- A character before the first part.
extend : ℕ → List Text → List Text
extend c [] = (c ∷ []) ∷ []
extend c (p ∷ ps) = (c ∷ p) ∷ ps

-- `strings.Split(s, "/")`, which is never empty
unfoldable pub split : Text → List Text
unfolding extend
split [] = [] ∷ []
split (c ∷ s) = let parts = split s in if c == b'/' then [] ∷ parts else extend c parts

-- `strings.Join(parts, "/")`
unfoldable pub join : List Text → Text
join [] = []
join (p ∷ []) = p
join (p ∷ q ∷ ps) = p ++ b'/' ∷ join (q ∷ ps)

-- `parts[:len(parts)-1]` and `parts[len(parts)-1]`; the source uses them on a result of `Split`.
unfoldable pub init : List Text → List Text
init [] = []
init (p ∷ []) = []
init (p ∷ q ∷ ps) = p ∷ init (q ∷ ps)

unfoldable pub last : List Text → Text
last [] = []
last (p ∷ []) = p
last (p ∷ q ∷ ps) = last (q ∷ ps)

-- `parts[len(parts)-1] = name`
unfoldable pub set_last : Text → List Text → List Text
set_last name [] = []
set_last name (p ∷ []) = name ∷ []
set_last name (p ∷ q ∷ ps) = p ∷ set_last name (q ∷ ps)

-- `strings.Replace(s, old, new, 1)`
unfoldable pub replace_first : Text → Text → Text → Text
unfolding has_prefix drop_prefix
replace_first [] old new = if has_prefix [] old then new else []
replace_first (c ∷ s) old new =
    let rest = replace_first s old new in
    if has_prefix (c ∷ s) old then new ++ drop_prefix (c ∷ s) old else c ∷ rest

pub replace_first-prefix :
    (s old new : Text)
    → has_prefix s old ≡ true
    → replace_first s old new ≡ new ++ drop_prefix s old
unfolding replace_first
replace_first-prefix [] [] new h = sym (append-nil new)
replace_first-prefix [] (d ∷ old) new h = cc
replace_first-prefix (c ∷ s) old new h = rw h refl

pub trim_slash-append : (s : Text) → trim_slash (s ++ b'/' ∷ []) ≡ s
unfolding trim_slash
trim_slash-append [] = refl
trim_slash-append (c ∷ []) = refl
trim_slash-append (c ∷ d ∷ s) = ap (λ t. c ∷ t) (trim_slash-append (d ∷ s))

pub ends_with_slash-append : (s : Text) → ends_with_slash (s ++ b'/' ∷ []) ≡ true
unfolding ends_with_slash
ends_with_slash-append [] = refl
ends_with_slash-append (c ∷ []) = refl
ends_with_slash-append (c ∷ d ∷ s) = ends_with_slash-append (d ∷ s)

-- A path without a separator is one part.
pub split_plain : (s : Text) → has_slash s ≡ false → split s ≡ s ∷ []
unfolding has_slash split extend
split_plain [] h = refl
split_plain (c ∷ s) h = elim (Bool-cases (c == b'/')) [
  | inl at ↦ ground arith
  | inr not_at ↦ rw (not_at, split_plain s (ground arith)) refl
]

split_cons : (s : Text) → (p : Text) × (ps : List Text) × (split s ≡ p ∷ ps)
unfolding split extend
split_cons [] = ([], [], refl)
split_cons (c ∷ s) =
    let (p, ps, same) = split_cons s in
    elim (Bool-cases (c == b'/')) [
      | inl at ↦ ([], split s, rw at refl)
      | inr not_at ↦ (c ∷ p, ps, rw (not_at, same) refl)
    ]

join-extend : (c : ℕ) (p : Text) (ps : List Text) → join (extend c (p ∷ ps)) ≡ c ∷ join (p ∷ ps)
unfolding extend join
join-extend c p [] = refl
join-extend c p (q ∷ ps) = refl

-- Splitting and joining give the path back.
pub join-split : (s : Text) → join (split s) ≡ s
unfolding split join
join-split [] = refl
join-split (c ∷ s) =
    let (p, ps, same) = split_cons s in
    let rest = ap join (sym same) ∙ join-split s in
    elim (Bool-cases (c == b'/')) [
      | inl at ↦ rw (at, same) (ap (λ t. b'/' ∷ t) rest ∙ ground arith)
      | inr not_at ↦ rw (not_at, same) (join-extend c p ps ∙ ap (λ t. c ∷ t) rest)
    ]

extend-append :
    (c : ℕ) (p : Text) (ps qs : List Text) → extend c (p ∷ ps) ++ qs ≡ extend c (p ∷ ps ++ qs)
unfolding extend
extend-append c p ps qs = refl

-- A part after a path.
pub split-append :
    (s name : Text) → has_slash name ≡ false → split (s ++ b'/' ∷ name) ≡ split s ++ name ∷ []
unfolding split extend
split-append [] name plain = ap (λ l. [] ∷ l) (split_plain name plain)
split-append (c ∷ s) name plain =
    let (p, ps, same) = split_cons s in
    let rest = split-append s name plain in
    elim (Bool-cases (c == b'/')) [
      | inl at ↦ rw at (ap (λ l. [] ∷ l) rest)
      | inr not_at ↦ rw (not_at, rest, same) refl
    ]

pub init-append : (ps : List Text) (name : Text) → init (ps ++ name ∷ []) ≡ ps
unfolding init
init-append [] name = refl
init-append (p ∷ []) name = refl
init-append (p ∷ q ∷ ps) name = ap (λ l. p ∷ l) (init-append (q ∷ ps) name)

pub last-append : (ps : List Text) (name : Text) → last (ps ++ name ∷ []) ≡ name
unfolding last
last-append [] name = refl
last-append (p ∷ []) name = refl
last-append (p ∷ q ∷ ps) name = last-append (q ∷ ps) name

pub has_slash-append : (s t : Text) → has_slash (s ++ b'/' ∷ t) ≡ true
unfolding has_slash
has_slash-append [] t = refl
has_slash-append (c ∷ s) t = ground (arith, has_slash-append s t)
