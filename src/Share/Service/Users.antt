-- ===== src/Share/Service/Users.antt =====
-- shares.go: how the list of users of a share changes, and what `slices.Compact` does.
use notevault.Prelude.{List, [], ◌∷◌, ◌++◌, Text, same_text, if◌then◌else◌}
use notevault.Prelude.{has_text}

-- The rest of `slices.Compact`, after the element `prev`.
unfoldable pub compact_after : Text → List Text → List Text
compact_after prev [] = []
compact_after prev (u ∷ us) =
    let rest = compact_after u us in if same_text u prev then rest else u ∷ rest

-- `slices.Compact`: of equal neighbours the first is kept.
unfoldable pub compact : List Text → List Text
unfolding compact_after
compact [] = []
compact (u ∷ us) = u ∷ compact_after u us

-- The test and the `append` of `AddShareUser`.
unfoldable pub add_user : Text → List Text → List Text
add_user new_user users = if has_text new_user users then users else users ++ new_user ∷ []

-- The loop of `RemoveShareUser`, which keeps the users other than `target`.
unfoldable pub without_user : Text → List Text → List Text
without_user target [] = []
without_user target (u ∷ us) =
    let rest = without_user target us in if same_text u target then rest else u ∷ rest
