-- ===== src/Share/Permissions/Operations.antt =====
-- The operations of shares.go that change who may see a share.
use notevault.Prelude.{◌≡◌, refl, inl, inr, true, false, ◌||◌, arith, Text, is_empty, Bool-cases}
use notevault.Prelude.Result.{Error, Result, ok, err, request_required}
use notevault.Share.Record.{SharePermissions, UpdateSharePermissionsRequest}
use notevault.Share.Env.{ShareEnv, ShareLaws, CacheNeverFails, World}
use notevault.Share.Coherence.{IsCoherent}
use notevault.Share.Service.{
  UpdateClock, update_share_permissions, add_share_user, remove_share_user,
}
use notevault.Share.Coherence.{Backed}
use notevault.Share.Record.{ShareRecord}
use notevault.Share.Writing.{SameBut}
use notevault.Share.Permissions.Lists.{
  IsUpdated, IsAdded, IsRemoved, has_text-compact, compact-NoEqualNeighbours, has_text-add_user,
  has_text-without_user,
}
use notevault.Share.Service.Users.{compact, add_user, without_user}
use notevault.Share.Permissions.{change, Changed, Unchanged, change_ok, change_err}

-- What a request leaves behind, by its result.
abbrev SettlesBy :
    (env : ShareEnv) (user id : Text) (f : SharePermissions → SharePermissions) (w : World env)
    → Result (Unit {0}) × World env
    → Type 0
SettlesBy env user id f w (ok u, w') = Changed env user id f w w'
SettlesBy env user id f w (err e, w') = Unchanged env w w'

Settles-intro :
    (env : ShareEnv) (user id : Text) (f : SharePermissions → SharePermissions) (w : World env)
    (r : Result (Unit {0}) × World env)
    → (r.0 ≡ ok tt → Changed env user id f w r.1)
    → ((e : Error) → r.0 ≡ err e → Unchanged env w r.1)
    → SettlesBy env user id f w r
Settles-intro env user id f w (ok u, w') changed unchanged = changed refl
Settles-intro env user id f w (err e, w') changed unchanged = unchanged e refl

module _ (env : ShareEnv) (law : ShareLaws env) (never : CacheNeverFails env) where
  change-Settles :
      (clock : UpdateClock) (user id : Text) (f : SharePermissions → SharePermissions)
      (w : World env)
      → is_empty id ≡ false
      → IsCoherent env w
      → SettlesBy env user id f w (change env clock user id f w)
  change-Settles clock user id f w given c =
      Settles-intro env user id f w (change env clock user id f w)
        (change_ok env law never clock user id f w given c)
        (λ e. change_err env law never clock user id f w e given c)

  refused-Settles :
      (user id : Text) (f : SharePermissions → SharePermissions) (w : World env)
      → IsCoherent env w
      → SettlesBy env user id f w (err request_required, w)
  refused-Settles user id f w c = record { found = λ j. refl; coherent = c }

-- The three operations are such changes, behind the test of their arguments.
module _ (env : ShareEnv) (clock : UpdateClock) (user id : Text) (w : World env) where
  update_is_change :
      (req : UpdateSharePermissionsRequest)
      → (is_empty user || is_empty id) ≡ false
      → update_share_permissions env clock user id req w
        ≡ change env clock user id
            (λ p. record { allow_anonymous = req.allow_anonymous; users = compact req.users })
            w
  unfolding update_share_permissions
  update_is_change req given = rw given refl

  update_refused :
      (req : UpdateSharePermissionsRequest)
      → (is_empty user || is_empty id) ≡ true
      → update_share_permissions env clock user id req w ≡ (err request_required, w)
  unfolding update_share_permissions
  update_refused req missing = rw missing refl

  add_is_change :
      (new_user : Text)
      → (is_empty user || is_empty id || is_empty new_user) ≡ false
      → add_share_user env clock user id new_user w
        ≡ change env clock user id
            (λ p. record { allow_anonymous = p.allow_anonymous; users = add_user new_user p.users })
            w
  unfolding add_share_user
  add_is_change new_user given = rw given refl

  add_refused :
      (new_user : Text)
      → (is_empty user || is_empty id || is_empty new_user) ≡ true
      → add_share_user env clock user id new_user w ≡ (err request_required, w)
  unfolding add_share_user
  add_refused new_user missing = rw missing refl

  remove_is_change :
      (target : Text)
      → (is_empty user || is_empty id || is_empty target) ≡ false
      → remove_share_user env clock user id target w
        ≡ change env clock user id
            (λ p. record {
              allow_anonymous = p.allow_anonymous;
              users = without_user target p.users;
            })
            w
  unfolding remove_share_user
  remove_is_change target given = rw given refl

  remove_refused :
      (target : Text)
      → (is_empty user || is_empty id || is_empty target) ≡ true
      → remove_share_user env clock user id target w ≡ (err request_required, w)
  unfolding remove_share_user
  remove_refused target missing = rw missing refl

update_share_permissions-Settles :
    (env : ShareEnv) (law : ShareLaws env) (never : CacheNeverFails env) (clock : UpdateClock)
    (user id : Text) (req : UpdateSharePermissionsRequest) (w : World env)
    → IsCoherent env w
    → SettlesBy env user id
        (λ p. record { allow_anonymous = req.allow_anonymous; users = compact req.users })
        w
        (update_share_permissions env clock user id req w)
update_share_permissions-Settles env law never clock user id req w c =
    elim (Bool-cases (is_empty user || is_empty id)) [
      | inl missing ↦ rw (update_refused env clock user id w req missing) (
          refused-Settles env law never user id
            (λ p. record { allow_anonymous = req.allow_anonymous; users = compact req.users }) w c)
      | inr given ↦ rw (update_is_change env clock user id w req given) (
          change-Settles env law never clock user id
            (λ p. record { allow_anonymous = req.allow_anonymous; users = compact req.users }) w
            (ground arith) c)
    ]

add_share_user-Settles :
    (env : ShareEnv) (law : ShareLaws env) (never : CacheNeverFails env) (clock : UpdateClock)
    (user id : Text) (new_user : Text) (w : World env)
    → IsCoherent env w
    → SettlesBy env user id
        (λ p. record { allow_anonymous = p.allow_anonymous; users = add_user new_user p.users })
        w
        (add_share_user env clock user id new_user w)
add_share_user-Settles env law never clock user id new_user w c =
    elim (Bool-cases (is_empty user || is_empty id || is_empty new_user)) [
      | inl missing ↦ rw (add_refused env clock user id w new_user missing) (
          refused-Settles env law never user id
            (λ p. record { allow_anonymous = p.allow_anonymous; users = add_user new_user p.users })
            w c)
      | inr given ↦ rw (add_is_change env clock user id w new_user given) (
          change-Settles env law never clock user id
            (λ p. record { allow_anonymous = p.allow_anonymous; users = add_user new_user p.users })
            w (ground arith) c)
    ]

remove_share_user-Settles :
    (env : ShareEnv) (law : ShareLaws env) (never : CacheNeverFails env) (clock : UpdateClock)
    (user id : Text) (target : Text) (w : World env)
    → IsCoherent env w
    → SettlesBy env user id
        (λ p. record { allow_anonymous = p.allow_anonymous; users = without_user target p.users })
        w
        (remove_share_user env clock user id target w)
remove_share_user-Settles env law never clock user id target w c =
    elim (Bool-cases (is_empty user || is_empty id || is_empty target)) [
      | inl missing ↦ rw (remove_refused env clock user id w target missing) (
          refused-Settles env law never user id
            (λ p. record {
              allow_anonymous = p.allow_anonymous;
              users = without_user target p.users;
            })
            w c)
      | inr given ↦ rw (remove_is_change env clock user id w target given) (
          change-Settles env law never clock user id
            (λ p. record {
              allow_anonymous = p.allow_anonymous;
              users = without_user target p.users;
            })
            w (ground arith) c)
    ]

-- A change that took place: of the owner's share, in the database and for every later reader, to
-- permissions that stand in the relation to those before.
pub record ChangedTo (env : ShareEnv) (user id : Text)
    (relation : SharePermissions → SharePermissions → Type 0) (w w' : World env) : Type 0 where
  pub before : ShareRecord
  pub permissions : SharePermissions
  pub was_there : Backed env w.rows id before
  pub owned : before.owner ≡ user
  pub is_there : Backed env w'.rows id (record before { permissions = permissions })
  pub related : relation before.permissions permissions
  pub others : SameBut env id w.rows w'.rows
  pub coherent : IsCoherent env w'

-- What a request leaves behind, by its result.
abbrev pub Settles :
    (env : ShareEnv) (user id : Text) (relation : SharePermissions → SharePermissions → Type 0)
    (w : World env)
    → Result (Unit {0}) × World env
    → Type 0
Settles env user id relation w (ok u, w') = ChangedTo env user id relation w w'
Settles env user id relation w (err e, w') = Unchanged env w w'

Settles-by :
    (env : ShareEnv) (user id : Text) (f : SharePermissions → SharePermissions)
    (relation : SharePermissions → SharePermissions → Type 0)
    → ((p : SharePermissions) → relation p (f p))
    → (w : World env) (r : Result (Unit {0}) × World env) → SettlesBy env user id f w r
    → Settles env user id relation w r
Settles-by env user id f relation related w (ok u, w') c = record {
  before = c.before;
  permissions = f c.before.permissions;
  was_there = c.was_there;
  owned = c.owned;
  is_there = c.is_there;
  related = related c.before.permissions;
  others = c.others;
  coherent = c.coherent;
}
Settles-by env user id f relation related w (err e, w') c = c

-- From a state in which the cache agrees with the database, with a cache that does not fail:
-- `UpdateSharePermissions`, `AddShareUser` and `RemoveShareUser` succeed only for the owner of a share
-- that the database holds. Then the share there has the request's flag and users, no name next to
-- itself, and no others; or the flag and the users that it had and the new one; or the flag and the
-- users that it had but the target. Every other share is as it was, and the cache still agrees. If one
-- fails, no share has changed, and the cache still agrees.
pub permission_changes-Settle :
    (env : ShareEnv) (law : ShareLaws env) (never : CacheNeverFails env) (clock : UpdateClock)
    (user id : Text) (req : UpdateSharePermissionsRequest) (new_user target : Text) (w : World env)
    → IsCoherent env w
    → Settles env user id (IsUpdated req) w (update_share_permissions env clock user id req w)
      × Settles env user id (IsAdded new_user) w (add_share_user env clock user id new_user w)
      × Settles env user id (IsRemoved target) w (remove_share_user env clock user id target w)
permission_changes-Settle env law never clock user id req new_user target w c = (
  Settles-by env user id _ (IsUpdated req)
      (λ p. (refl, (λ j. has_text-compact j req.users), compact-NoEqualNeighbours req.users)) w _
      (update_share_permissions-Settles env law never clock user id req w c),
  Settles-by env user id _ (IsAdded new_user)
      (λ p. (refl, (λ j. has_text-add_user new_user j p.users))) w _
      (add_share_user-Settles env law never clock user id new_user w c),
  Settles-by env user id _ (IsRemoved target)
      (λ p. (refl, (λ j. has_text-without_user target j p.users))) w _
      (remove_share_user-Settles env law never clock user id target w c),
)
