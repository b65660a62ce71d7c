-- ===== src/Share/Tests.antt =====
-- Runs of the share service, and its theorems at a concrete service.
use notevault.Prelude.{
  trim_space, has_text, ℕ, ◌+◌, ◌*◌, ◌≡◌, refl, ◌⊎◌, true, false, some, [], ◌∷◌, arith, codes,
  same_text, has_prefix, drop_prefix,
}
use notevault.Prelude.Result.{ok, err, map_result, invalid_password, not_owner}
use notevault.Prelude.Int.{pos}
use notevault.Share.Record.{from_record, to_record, to_info}
use notevault.Share.Cache.{
  update_permissions_in_db, hash_password, ttl_from_expire, is_expired, get_share_cached,
}
use notevault.Share.Coherence.{IsCoherent}
use notevault.Share.Loading.{fetch, get_share_cached_exact}
use notevault.Share.Service.{
  create_share, delete_share, access_share, get_share_permissions, add_share_user,
  update_share_permissions, remove_share_user, get_share_download_url, expire_of,
}
use notevault.Share.Service.Users.{add_user}
use notevault.Share.Permissions.Operations.{Settles, permission_changes-Settle}
use notevault.Share.Lifecycle.{Creates, Deletes, create_share-Creates, delete_share-Deletes}
use notevault.Share.Service.{new_record}
use notevault.Share.Permissions.Lists.{IsUpdated, IsAdded, IsRemoved}
use notevault.Share.Passwords.{admit}
use notevault.Share.Access.{access_share_exact, get_share_download_url_exact, download}
use notevault.Share.Expiry.{expire_of_exact, expire_of_wraps}
use notevault.Kv.Memory.{get, set, delete}
use notevault.Prelude.Assoc.{lookup, insert, remove}
use notevault.Kv.Ttl.{encode_with_ttl, decode_with_ttl}
use notevault.Sample.Wire.{wires}
use notevault.Sample.Rows.{find_row, create_row, delete_row, update_row}
use notevault.Sample.Shares.{
  env, env-ShareLaws, env-CacheNeverFails, start, start-IsCoherent, noon, created_at_noon,
  loaded_at_noon, updated_at_noon, ann, bob, sh1, ask, shared, shared-IsCoherent,
}

-- To name on the `unfolding` line of a run.
runs : Unit {0}
unfolding create_share access_share delete_share get_share_cached add_share_user
    get_share_permissions get set delete lookup insert remove encode_with_ttl decode_with_ttl wires
    find_row create_row delete_row update_row from_record to_record hash_password trim_space to_info
    is_expired ttl_from_expire same_text has_prefix drop_prefix
runs = tt

access_ok :
    map_result (λ i. i.owner) (access_share env loaded_at_noon sh1 (codes "pw") shared).0 ≡ ok ann
unfolding runs
access_ok = refl

wrong_password : (access_share env loaded_at_noon sh1 (codes "no") shared).0 ≡ err invalid_password
unfolding runs
wrong_password = refl

only_the_owner : (add_share_user env updated_at_noon bob sh1 bob shared).0 ≡ err not_owner
unfolding runs
only_the_owner = refl

adds_bob :
    map_result
      (λ r. r.permissions.users)
      (get_share_permissions env loaded_at_noon ann sh1
        (add_share_user env updated_at_noon ann sh1 bob shared).1).0
    ≡ ok (ann ∷ bob ∷ [])
unfolding runs add_user has_text update_permissions_in_db
adds_bob = refl

get_share_cached_exact_example :
    (((get_share_cached env loaded_at_noon sh1 shared).0 ≡ fetch env noon sh1 shared.rows)
      ⊎ ((get_share_cached env loaded_at_noon sh1 shared).0 ≡ fetch env noon sh1 shared.rows))
    × ((get_share_cached env loaded_at_noon sh1 shared).1.rows ≡ shared.rows)
    × IsCoherent env (get_share_cached env loaded_at_noon sh1 shared).1
get_share_cached_exact_example =
    get_share_cached_exact env env-ShareLaws loaded_at_noon sh1 shared refl shared-IsCoherent

permission_changes-Settle_example :
    Settles env ann sh1
      (IsUpdated (record { allow_anonymous = false; users = bob ∷ bob ∷ [] }))
      shared
      (update_share_permissions env updated_at_noon ann sh1
        (record { allow_anonymous = false; users = bob ∷ bob ∷ [] })
        shared)
    × Settles env ann sh1
        (IsAdded bob)
        shared
        (add_share_user env updated_at_noon ann sh1 bob shared)
    × Settles env ann sh1
        (IsRemoved ann)
        shared
        (remove_share_user env updated_at_noon ann sh1 ann shared)
permission_changes-Settle_example =
    permission_changes-Settle env env-ShareLaws env-CacheNeverFails updated_at_noon ann sh1
      (record { allow_anonymous = false; users = bob ∷ bob ∷ [] }) bob ann shared shared-IsCoherent

create_share-Creates_example :
    Creates env
      (new_record env.digest noon sh1 ann ask)
      start
      (create_share env created_at_noon sh1 ann ask start)
create_share-Creates_example =
    create_share-Creates env env-ShareLaws created_at_noon sh1 ann ask start start-IsCoherent

delete_share-Deletes_example : Deletes env ann sh1 shared (delete_share env ann sh1 shared)
delete_share-Deletes_example =
    delete_share-Deletes env env-ShareLaws env-CacheNeverFails ann sh1 shared shared-IsCoherent

access_share_exact_example :
    ((access_share env loaded_at_noon sh1 (codes "pw") shared).0
      ≡ admit env (codes "pw") (fetch env noon sh1 shared.rows))
    ⊎ ((access_share env loaded_at_noon sh1 (codes "pw") shared).0
        ≡ admit env (codes "pw") (fetch env noon sh1 shared.rows))
access_share_exact_example =
    access_share_exact env env-ShareLaws loaded_at_noon sh1 (codes "pw") shared refl
      shared-IsCoherent

get_share_download_url_exact_example :
    ((get_share_download_url env loaded_at_noon sh1 shared).0
      ≡ download env (fetch env noon sh1 shared.rows))
    ⊎ ((get_share_download_url env loaded_at_noon sh1 shared).0
        ≡ download env (fetch env noon sh1 shared.rows))
get_share_download_url_exact_example =
    get_share_download_url_exact env env-ShareLaws loaded_at_noon sh1 shared refl refl
      shared-IsCoherent

expire_of_exact_example :
    expire_of noon (pos 106751) ≡ some (noon + 106751 * (24 * (3600 * 1000000000)))
expire_of_exact_example = expire_of_exact noon 106751 (omega arith) (omega arith)

expire_of_wraps_example :
    (e : ℕ) × (expire_of noon (pos 106752) ≡ some e) × (is_expired noon (some e) ≡ true)
expire_of_wraps_example = expire_of_wraps noon 106752 (omega arith) (omega arith) (omega arith)
