-- ===== src/Handle/Shares/Tests.antt =====
-- Runs of the handlers of shares over a small service, and their theorem at concrete values.
use notevault.Prelude.{
  ◌≡◌, refl, true, false, none, some, [], ◌∷◌, codes, same_text, has_prefix, drop_prefix,
}
use notevault.Prelude.{trim_space}
use notevault.Prelude.Result.{Result, ok, err, invalid_password}
use notevault.Prelude.Assoc.{lookup, insert, remove}
use notevault.Kv.Memory.{get, set, delete}
use notevault.Kv.Ttl.{encode_with_ttl, decode_with_ttl}
use notevault.Share.Record.{Share, UpdateSharePermissionsRequest, from_record, to_record, to_info}
use notevault.Share.Cache.{hash_password, ttl_from_expire, is_expired, get_share_cached}
use notevault.Share.Service.{
  create_share, delete_share, access_share, add_share_user, remove_share_user,
  update_share_permissions,
}
use notevault.Sample.Wire.{wires}
use notevault.Sample.Rows.{find_row, create_row, delete_row, update_row}
use notevault.Sample.Shares.{
  env, env-ShareLaws, env-CacheNeverFails, loaded_at_noon, updated_at_noon, ann, bob, sh1, shared,
  shared-IsCoherent,
}
use notevault.Handle.User.{bad_request, failed, no_content}
use notevault.Handle.Shares.{
  handle_create_share, handle_access_share, handle_delete_share, handle_update_share_permissions,
  handle_add_share_user, handle_remove_share_user,
}
use notevault.Handle.Shares.Owners.{Refuses, strangers_change_nothing}

runs : Unit {0}
unfolding handle_create_share handle_access_share handle_delete_share
    handle_update_share_permissions handle_add_share_user handle_remove_share_user create_share
    access_share delete_share get_share_cached add_share_user remove_share_user
    update_share_permissions get set delete lookup insert remove encode_with_ttl decode_with_ttl
    wires find_row create_row delete_row update_row from_record to_record hash_password trim_space
    to_info is_expired ttl_from_expire same_text has_prefix drop_prefix
runs = tt

-- A wrong password is an error of the server.
wrong_password :
    (handle_access_share env loaded_at_noon sh1 (ok (codes "no")) shared).0
    ≡ failed invalid_password
unfolding runs
wrong_password = refl

owner_deletes : (handle_delete_share env (some ann) sh1 shared).0 ≡ no_content
unfolding runs
owner_deletes = refl

nobody_deletes :
    handle_delete_share env none sh1 shared ≡ (bad_request (codes "missing user"), shared)
unfolding runs
nobody_deletes = refl

abbrev row_or : Result Share → Share
row_or (ok row) = row
row_or (err e) = record {
  share_id = [];
  owner = [];
  object_keys_json = [];
  allow_download = false;
  password_hash = [];
  permissions_json = [];
  created_at = 0;
  updated_at = 0;
  expire_at = none;
}

abbrev row : Share
row = row_or (env.db.first sh1 shared.rows)

there : env.db.first sh1 shared.rows ≡ ok row
unfolding runs
there = refl

not_bob : same_text row.owner bob ≡ false
unfolding runs
not_bob = refl

abbrev for_all : UpdateSharePermissionsRequest
for_all = record { allow_anonymous = true; users = bob ∷ [] }

strangers_change_nothing_example :
    Refuses env bob sh1 shared (handle_delete_share env (some bob) sh1 shared)
    × Refuses env bob sh1 shared
        (handle_update_share_permissions env updated_at_noon (some bob) sh1 (ok for_all) shared)
    × Refuses env bob sh1 shared
        (handle_add_share_user env updated_at_noon (some bob) sh1 (ok bob) shared)
    × Refuses env bob sh1 shared
        (handle_remove_share_user env updated_at_noon (some bob) sh1 ann shared)
strangers_change_nothing_example =
    strangers_change_nothing env bob sh1 shared row there not_bob env-ShareLaws env-CacheNeverFails
      shared-IsCoherent updated_at_noon (ok for_all) (ok bob) ann
