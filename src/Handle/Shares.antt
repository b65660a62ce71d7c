-- ===== src/Handle/Shares.antt =====
-- pkg/internal/handle/shares.go. `user` is what `checkUser` gives, and a body what binding it gives.
pub mod Owners
mod Tests
use notevault.Prelude.{ℕ, Option, none, some, List, Text, codes, is_empty, if◌then◌else◌}
use notevault.Prelude.Result.{Error, Result, ok, err}
use notevault.Share.Record.{
  ShareInfo, CreateShareRequest, UpdateSharePermissionsRequest, GetSharePermissionsResponse,
}
use notevault.Share.Env.{ShareEnv, World}
use notevault.Share.Cache.{LoadClock}
use notevault.Share.Service.{
  CreateClock, UpdateClock, create_share, list_shares, delete_share, get_share_detail, access_share,
  get_share_download_url, get_share_permissions, update_share_permissions, add_share_user,
  remove_share_user,
}
use notevault.Handle.User.{Reply, bad_request, failed, unbound, found, no_content}

-- An answer of the service as a response.
abbrev pub respond : {A W : Type 0} → Result A × W → Reply A × W
respond (ok a, w) = (found a, w)
respond (err e, w) = (failed e, w)

abbrev pub respond_empty : {W : Type 0} → Result (Unit {0}) × W → Reply (Unit {0}) × W
respond_empty (ok u, w) = (no_content, w)
respond_empty (err e, w) = (failed e, w)

-- The tests of the caller, of a parameter of the path and of the body.
abbrev for_user : {A W : Type 0} → Option Text → W → (Text → Reply A × W) → Reply A × W
for_user none w run = (bad_request (codes "missing user"), w)
for_user (some user) w run = run user

abbrev for_share : {A W : Type 0} → Text → W → Reply A × W → Reply A × W
for_share share_id w run =
    if is_empty share_id then (bad_request (codes "missing shareId"), w) else run

abbrev for_body : {A B W : Type 0} → Result B → W → (B → Reply A × W) → Reply A × W
for_body (err e) w run = (unbound e, w)
for_body (ok body) w run = run body

module _ (env : ShareEnv) where
  unfoldable pub handle_create_share :
      CreateClock
      → (new_id : Text) → Option Text
      → Result CreateShareRequest
      → World env
      → Reply ShareInfo × World env
  handle_create_share clock new_id user body w =
      for_body body w
        (λ req. for_user user w (λ u. respond (create_share env clock new_id u req w)))

  unfoldable pub handle_list_shares :
      ℕ → Option Text → World env → Reply (List ShareInfo) × World env
  handle_list_shares now user w = for_user user w (λ u. respond (list_shares env now u w))

  unfoldable pub handle_delete_share : Option Text → Text → World env → Reply (Unit {0}) × World env
  handle_delete_share user share_id w =
      for_user user w (λ u. for_share share_id w (respond_empty (delete_share env u share_id w)))

  unfoldable pub handle_get_share_detail :
      LoadClock → Text → World env → Reply ShareInfo × World env
  handle_get_share_detail clock share_id w =
      for_share share_id w (respond (get_share_detail env clock share_id w))

  unfoldable pub handle_access_share :
      LoadClock → Text → Result Text → World env → Reply ShareInfo × World env
  handle_access_share clock share_id password w =
      for_share share_id w
        (for_body password w (λ p. respond (access_share env clock share_id p w)))

  unfoldable pub handle_download_share : LoadClock → Text → World env → Reply Text × World env
  handle_download_share clock share_id w =
      for_share share_id w (respond (get_share_download_url env clock share_id w))

  unfoldable pub handle_get_share_permissions :
      LoadClock → Option Text → Text → World env → Reply GetSharePermissionsResponse × World env
  handle_get_share_permissions clock user share_id w =
      for_user user w
        (λ u. for_share share_id w (respond (get_share_permissions env clock u share_id w)))

  unfoldable pub handle_update_share_permissions :
      UpdateClock
      → Option Text
      → Text
      → Result UpdateSharePermissionsRequest
      → World env
      → Reply (Unit {0}) × World env
  handle_update_share_permissions clock user share_id body w = for_user user w (λ u.
      for_share share_id w (
        for_body body w
          (λ req. respond_empty (update_share_permissions env clock u share_id req w))))

  -- A body without a user is answered like one that cannot be bound.
  abbrev for_user_id : {A W : Type 0} → Result Text → W → (Text → Reply A × W) → Reply A × W
  for_user_id (err e) w run = (bad_request (codes "invalid userId"), w)
  for_user_id (ok user_id) w run =
      if is_empty user_id then (bad_request (codes "invalid userId"), w) else run user_id

  unfoldable pub handle_add_share_user :
      UpdateClock → Option Text → Text → Result Text → World env → Reply (Unit {0}) × World env
  handle_add_share_user clock user share_id body w = for_user user w (λ u. for_share share_id w (
      for_user_id body w
        (λ user_id. respond_empty (add_share_user env clock u share_id user_id w))))

  unfoldable pub handle_remove_share_user :
      UpdateClock → Option Text → Text → Text → World env → Reply (Unit {0}) × World env
  handle_remove_share_user clock user share_id target w = for_user user w (λ u.
      for_share share_id w (
        if is_empty target
        then (bad_request (codes "missing userId"), w)
        else respond_empty (remove_share_user env clock u share_id target w)))
