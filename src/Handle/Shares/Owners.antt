-- ===== src/Handle/Shares/Owners.antt =====
-- Who can change a share through the handlers of shares.go.
use notevault.Prelude.{
  ◌≤◌, ◌≡◌, refl, Bool, true, false, some, [], arith, Text, is_empty, same_text, same_text_iff,
  if◌then◌else◌,
}
use notevault.Prelude.Result.{Result, ok, err}
use notevault.Share.Record.{
  SharePermissions, ShareRecord, Share, UpdateSharePermissionsRequest, to_record,
}
use notevault.Share.Env.{ShareEnv, ShareLaws, CacheNeverFails, World}
use notevault.Share.Coherence.{IsCoherent}
use notevault.Share.Service.{
  UpdateClock, delete_share, update_share_permissions, add_share_user, remove_share_user,
}
use notevault.Share.Permissions.Operations.{Settles, permission_changes-Settle}
use notevault.Share.Lifecycle.{Deletes, delete_share-Deletes}
use notevault.Handle.User.{Reply, status}
use notevault.Handle.Shares.{
  respond_empty, handle_delete_share, handle_update_share_permissions, handle_add_share_user,
  handle_remove_share_user,
}

abbrev no_change : UpdateSharePermissionsRequest
no_change = record { allow_anonymous = false; users = [] }

module _ (env : ShareEnv) (user id : Text) (w : World env) where
  -- An answer that is no success, after which the database holds what it held.
  abbrev pub Refuses : Reply (Unit {0}) × World env → Type 0
  Refuses (reply, w') =
      (400 ≤ status reply) × ((j : Text) → env.db.first j w'.rows ≡ env.db.first j w.rows)

  module _ (row : Share) (there : env.db.first id w.rows ≡ ok row)
      (stranger : same_text row.owner user ≡ false) where
    to_record-owner :
        (old : Share) (rec : ShareRecord)
        → to_record env.keys_json env.perms_json old ≡ ok rec
        → rec.owner ≡ old.owner
    unfolding to_record
    to_record-owner old rec read = ground (arith, read)

    Settles-Refuses :
        (f : SharePermissions → SharePermissions → Type 0) (r : Result (Unit {0}) × World env)
        → Settles env user id f w r
        → Refuses (respond_empty r)
    Settles-Refuses f (err e, w') settled = (omega arith, settled.found)
    Settles-Refuses f (ok u, w') settled =
        let (old, found_there, read) = settled.was_there in
        let owner = to_record-owner old settled.before read in
        absurd (
          ground (
            arith,
            there,
            stranger,
            found_there,
            owner,
            settled.owned,
            same_text_iff row.owner user,
          ))

    Deletes-Refuses :
        (r : Result (Unit {0}) × World env) → Deletes env user id w r → Refuses (respond_empty r)
    Deletes-Refuses (err e, w') settled = (omega arith, settled.found)
    Deletes-Refuses (ok u, w') settled = absurd (
        ground
          (arith, there, stranger, settled.was_there, settled.owned, same_text_iff row.owner user))

    -- A test of the request before the call of the service.
    tested-Refuses :
        (bad : Bool) (reply : Reply (Unit {0})) (run : Reply (Unit {0}) × World env)
        → 400 ≤ status reply
        → Refuses run
        → Refuses (if bad then (reply, w) else run)
    tested-Refuses true reply run error rest = (error, λ j. refl)
    tested-Refuses false reply run error rest = rest

    module _ (law : ShareLaws env) (never : CacheNeverFails env) (coherent : IsCoherent env w)
        (clock : UpdateClock) where
      update-Refuses :
          (body : Result UpdateSharePermissionsRequest)
          → Refuses (handle_update_share_permissions env clock (some user) id body w)
      unfolding handle_update_share_permissions
      update-Refuses (err e) =
          tested-Refuses (is_empty id) _ _ (omega arith) (omega arith, λ j. refl)
      update-Refuses (ok req) = tested-Refuses (is_empty id) _ _ (omega arith) (
          Settles-Refuses _ (update_share_permissions env clock user id req w)
            (permission_changes-Settle env law never clock user id req [] [] w coherent).0)

      add-Refuses :
          (body : Result Text) → Refuses (handle_add_share_user env clock (some user) id body w)
      unfolding handle_add_share_user
      add-Refuses (err e) = tested-Refuses (is_empty id) _ _ (omega arith) (omega arith, λ j. refl)
      add-Refuses (ok new_user) = tested-Refuses (is_empty id) _ _ (omega arith) (
          tested-Refuses (is_empty new_user) _ _ (omega arith) (
            Settles-Refuses _ (add_share_user env clock user id new_user w)
              (permission_changes-Settle env law never clock user id no_change new_user [] w
                coherent).1))

      remove-Refuses :
          (target : Text) → Refuses (handle_remove_share_user env clock (some user) id target w)
      unfolding handle_remove_share_user
      remove-Refuses target = tested-Refuses (is_empty id) _ _ (omega arith) (
          tested-Refuses (is_empty target) _ _ (omega arith) (
            Settles-Refuses _ (remove_share_user env clock user id target w)
              (permission_changes-Settle env law never clock user id no_change [] target w
                coherent).2))

      delete-Refuses : Refuses (handle_delete_share env (some user) id w)
      unfolding handle_delete_share
      delete-Refuses = tested-Refuses (is_empty id) _ _ (omega arith) (
          Deletes-Refuses (delete_share env user id w)
            (delete_share-Deletes env law never user id w coherent))

      -- Where the database has a share of another owner under an id, and the cache agrees with the
      -- database and does not fail: whatever a caller sends to `DeleteShare`, `UpdateSharePermissions`,
      -- `AddShareUser` and `RemoveShareUser` for this id is answered with an error, and the database
      -- holds all its shares as before.
      pub strangers_change_nothing :
          (update : Result UpdateSharePermissionsRequest) (new_user : Result Text) (target : Text)
          → Refuses (handle_delete_share env (some user) id w)
            × Refuses (handle_update_share_permissions env clock (some user) id update w)
            × Refuses (handle_add_share_user env clock (some user) id new_user w)
            × Refuses (handle_remove_share_user env clock (some user) id target w)
      strangers_change_nothing update new_user target =
          (delete-Refuses, update-Refuses update, add-Refuses new_user, remove-Refuses target)
