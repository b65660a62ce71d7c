-- ===== src/Share/Access.antt =====
-- What a visitor of a share sees: `GetShareDetail`, `AccessShare` and `GetShareDownloadURL`.
use notevault.Prelude.{
  ℕ, ◌≡◌, ap, ◌∙◌, ◌⊎◌, inl, inr, true, false, arith, Text, is_empty, same_text, List, [], ◌∷◌,
  if◌then◌else◌, Option,
}
use notevault.Prelude.{trim_space}
use notevault.Prelude.Result.{
  Result, ok, err, share_expired, invalid_password, download_not_allowed, wrap_error,
  presign_failed, no_object_in_share, multiple_objects, no_bucket_configured,
}
use notevault.Share.Record.{ShareRecord, ShareInfo, CreateShareRequest}
use notevault.Share.Env.{ShareEnv, ShareLaws, World}
use notevault.Share.Cache.{LoadClock, is_expired, get_share_cached}
use notevault.Share.Coherence.{IsCoherent}
use notevault.Share.Loading.{fetch, get_share_cached_exact}
use notevault.Share.Passwords.{admit, test_password, test_password-admit}
use notevault.Share.Service.{access_share, get_share_download_url, default_presigned_op_timeout}

-- What `GetShareDownloadURL` answers for the objects of a share that allows downloads.
abbrev sign : (env : ShareEnv) → (keys buckets : List Text) → Result Text
sign env [] buckets = err no_object_in_share
sign env (key ∷ _ ∷ _) buckets = err multiple_objects
sign env (key ∷ []) [] = err no_bucket_configured
sign env (key ∷ []) (bucket ∷ _) =
    wrap_error presign_failed (env.presign bucket key default_presigned_op_timeout)

-- What `GetShareDownloadURL` answers for a share that was loaded.
abbrev pub download : (env : ShareEnv) → Result ShareRecord → Result Text
download env (err e) = err e
download env (ok rec) =
    if rec.allow_download then sign env rec.object_keys env.buckets else err download_not_allowed

module _ (env : ShareEnv) (clock : LoadClock) (id : Text) (w : World env)
    (given : is_empty id ≡ false) where
  access_tested :
      (password : Text)
      → (access_share env clock id password w).0
        ≡ test_password env password (get_share_cached env clock id w).0
  unfolding access_share
  access_tested password = ground arith

  access_loaded :
      (password : Text)
      → (access_share env clock id password w).0
        ≡ admit env password (get_share_cached env clock id w).0
  access_loaded password =
      access_tested password ∙ test_password-admit env password (get_share_cached env clock id w).0

  download_loaded :
      env.has_s3 ≡ true
      → (get_share_download_url env clock id w).0 ≡ download env (get_share_cached env clock id w).0
  unfolding get_share_download_url
  download_loaded with_s3 = ground arith

-- Where the cache agrees with the database, `AccessShare` answers as the share of the database, at one
-- of the two times at which the expiry is tested, makes it answer: with an error where it is not there
-- or has expired; with its public part where no hash is stored, or where the password is not blank and
-- its digest is the stored hash; else with `invalid password`. The cache does not show.
pub access_share_exact :
    (env : ShareEnv) (law : ShareLaws env) (clock : LoadClock) (id password : Text) (w : World env)
    → is_empty id ≡ false
    → IsCoherent env w
    → ((access_share env clock id password w).0
        ≡ admit env password (fetch env clock.check_cached id w.rows))
      ⊎ ((access_share env clock id password w).0
          ≡ admit env password (fetch env clock.check_row id w.rows))
access_share_exact env law clock id password w given c =
    let loaded = access_loaded env clock id w given password in
    elim (get_share_cached_exact env law clock id w given c).0 [
      | inl h ↦ inl (loaded ∙ ap (admit env password) h)
      | inr h ↦ inr (loaded ∙ ap (admit env password) h)
    ]

-- Where the cache agrees with the database and the object store is there, `GetShareDownloadURL` answers
-- as the share of the database, at one of the two times at which the expiry is tested, makes it answer:
-- with an error where it is not there or has expired, forbids downloads, or has no object or several, or
-- where no bucket is configured; else it signs its one object in the first bucket.
pub get_share_download_url_exact :
    (env : ShareEnv) (law : ShareLaws env) (clock : LoadClock) (id : Text) (w : World env)
    → is_empty id ≡ false
    → env.has_s3 ≡ true
    → IsCoherent env w
    → ((get_share_download_url env clock id w).0
        ≡ download env (fetch env clock.check_cached id w.rows))
      ⊎ ((get_share_download_url env clock id w).0
          ≡ download env (fetch env clock.check_row id w.rows))
get_share_download_url_exact env law clock id w given s3 c =
    let loaded = download_loaded env clock id w given s3 in
    elim (get_share_cached_exact env law clock id w given c).0 [
      | inl h ↦ inl (loaded ∙ ap (download env) h)
      | inr h ↦ inr (loaded ∙ ap (download env) h)
    ]

-- A share that is there, seen at the time `now`.
abbrev pub fresh_or_expired : ℕ → ShareRecord → Result ShareRecord
fresh_or_expired now rec = if is_expired now rec.expire_at then err share_expired else ok rec

-- What `AccessShare` makes of the request that created a share, at the time of its test: an error
-- where the time has come that the request set; everyone where the request's password is blank; else
-- those whose password has the same digest.
abbrev pub admit_created :
    (env : ShareEnv)
    → CreateShareRequest
    → (now : ℕ) → Option ℕ
    → Text
    → ShareInfo
    → Result ShareInfo
admit_created env req now expire_at password info =
    if is_expired now expire_at
    then err share_expired
    else if is_empty (trim_space req.password)
    then ok info
    else if is_empty (trim_space password)
    then err invalid_password
    else if same_text (env.digest req.password) (env.digest password)
    then ok info
    else err invalid_password
