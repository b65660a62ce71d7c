-- ===== src/Share/Permissions/Lists.antt =====
-- What the changes of shares.go make of a share's list of users, said by who is in the list.
use notevault.Prelude.{
  ◌≡◌, refl, sym, ap, ◌∙◌, subst, inl, inr, true, false, not, ◌&&◌, ◌||◌, List, [], ◌∷◌, ◌++◌,
  arith, Text, same_text, same_text_iff, Bool-cases,
}
use notevault.Prelude.{has_text}
use notevault.Share.Record.{SharePermissions, UpdateSharePermissionsRequest}
use notevault.Share.Service.Users.{compact, compact_after, add_user, without_user}

-- No name of the list stands next to itself, where `prev` stands before it.
abbrev pub NoEqualNeighboursAfter : Text → List Text → Type 0
NoEqualNeighboursAfter prev [] = Unit {0}
NoEqualNeighboursAfter prev (u ∷ us) = (same_text u prev ≡ false) × NoEqualNeighboursAfter u us

abbrev pub NoEqualNeighbours : List Text → Type 0
NoEqualNeighbours [] = Unit {0}
NoEqualNeighbours (u ∷ us) = NoEqualNeighboursAfter u us

-- The permissions of the request: its flag, and its users without a name next to itself.
abbrev pub IsUpdated : UpdateSharePermissionsRequest → SharePermissions → SharePermissions → Type 0
IsUpdated req before after =
    (after.allow_anonymous ≡ req.allow_anonymous)
    × ((j : Text) → has_text j after.users ≡ has_text j req.users)
    × NoEqualNeighbours after.users

-- The users before and the new one.
abbrev pub IsAdded : Text → SharePermissions → SharePermissions → Type 0
IsAdded new_user before after =
    (after.allow_anonymous ≡ before.allow_anonymous)
    × ((j : Text) → has_text j after.users ≡ (has_text j before.users || same_text new_user j))

-- The users before but the target.
abbrev pub IsRemoved : Text → SharePermissions → SharePermissions → Type 0
IsRemoved target before after =
    (after.allow_anonymous ≡ before.allow_anonymous)
    × ((j : Text) → has_text j after.users ≡ (has_text j before.users && not (same_text target j)))

has_text-append :
    (j u : Text) (us : List Text) → has_text j (us ++ u ∷ []) ≡ (has_text j us || same_text u j)
unfolding has_text
has_text-append j u [] = ground arith
has_text-append j u (v ∷ us) = ground (arith, has_text-append j u us)

pub has_text-without_user :
    (target j : Text) (us : List Text)
    → has_text j (without_user target us) ≡ (has_text j us && not (same_text target j))
unfolding has_text without_user
has_text-without_user target j [] = refl
has_text-without_user target j (u ∷ us) =
    let rest = has_text-without_user target j us in
    elim (Bool-cases (same_text u target)) [
      | inl same ↦
          let other = ap (λ t. same_text t j) ((same_text_iff u target).0 same) in
          ground (arith, rest, same, other)
      | inr kept ↦ elim (Bool-cases (same_text target j)) [
        | inr others ↦ ground (arith, rest, kept, others)
        | inl own ↦
            let apart : same_text u j ≡ false =
              sym (ap (same_text u) ((same_text_iff target j).0 own)) ∙ kept in
            ground (arith, rest, kept, own, apart)
      ]
    ]

pub has_text-add_user :
    (new_user j : Text) (us : List Text)
    → has_text j (add_user new_user us) ≡ (has_text j us || same_text new_user j)
unfolding add_user
has_text-add_user new_user j us = elim (Bool-cases (has_text new_user us)) [
  | inr unknown ↦ rw unknown (has_text-append j new_user us)
  | inl known ↦ elim (Bool-cases (same_text new_user j)) [
    | inr other ↦ ground (arith, known, other)
    | inl same ↦
        let there : has_text j us ≡ true =
          sym (ap (λ t. has_text t us) ((same_text_iff new_user j).0 same)) ∙ known in
        ground (arith, known, there)
  ]
]

has_text-compact_after :
    (j prev : Text) (us : List Text)
    → (same_text prev j || has_text j (compact_after prev us)) ≡ (same_text prev j || has_text j us)
unfolding has_text compact_after
has_text-compact_after j prev [] = refl
has_text-compact_after j prev (u ∷ us) = elim (Bool-cases (same_text u prev)) [
  | inr other ↦ ground (arith, has_text-compact_after j u us, other)
  | inl same ↦
      let as_prev = ap (λ t. same_text t j) ((same_text_iff u prev).0 same) in
      ground (arith, has_text-compact_after j u us, same, as_prev)
]

pub has_text-compact : (j : Text) (us : List Text) → has_text j (compact us) ≡ has_text j us
unfolding has_text compact
has_text-compact j [] = refl
has_text-compact j (u ∷ us) = ground (arith, has_text-compact_after j u us)

compact_after-NoEqualNeighbours :
    (prev : Text) (us : List Text) → NoEqualNeighboursAfter prev (compact_after prev us)
unfolding compact_after
compact_after-NoEqualNeighbours prev [] = tt
compact_after-NoEqualNeighbours prev (u ∷ us) = elim (Bool-cases (same_text u prev)) [
  | inr other ↦ rw other (other, compact_after-NoEqualNeighbours u us)
  | inl same ↦ rw same (
      subst (λ p. NoEqualNeighboursAfter p (compact_after u us)) ((same_text_iff u prev).0 same)
        (compact_after-NoEqualNeighbours u us))
]

pub compact-NoEqualNeighbours : (us : List Text) → NoEqualNeighbours (compact us)
unfolding compact
compact-NoEqualNeighbours [] = tt
compact-NoEqualNeighbours (u ∷ us) = compact_after-NoEqualNeighbours u us
