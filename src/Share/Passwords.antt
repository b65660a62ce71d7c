-- ===== src/Share/Passwords.antt =====
-- The test of the password in `AccessShare` of shares.go.
use notevault.Prelude.{
  ◌≡◌, refl, inl, inr, true, false, Bool-cases, same_text_iff, arith, Text, is_empty, same_text, [],
  ◌∷◌, if◌then◌else◌,
}
use notevault.Prelude.{trim_space}
use notevault.Prelude.Result.{Result, ok, err, invalid_password}
use notevault.Share.Record.{ShareRecord, ShareInfo, to_info}
use notevault.Share.Env.{ShareEnv}
use notevault.Share.Cache.{hash_password}
use notevault.Share.Service.{password_fits}

-- What `AccessShare` answers for a share that was loaded: a share that was stored without a hash admits
-- everyone; else the digest of the password must be the stored hash, and a password of white space
-- alone fits nothing.
abbrev pub admit : (env : ShareEnv) → Text → Result ShareRecord → Result ShareInfo
admit env password (err e) = err e
admit env password (ok rec) =
    if same_text rec.password_hash []
    then ok (to_info rec)
    else if is_empty (trim_space password)
    then err invalid_password
    else if same_text rec.password_hash (env.digest password)
    then ok (to_info rec)
    else err invalid_password

-- The test of the password, in the words of the code.
abbrev pub test_password : (env : ShareEnv) → Text → Result ShareRecord → Result ShareInfo
test_password env password (err e) = err e
test_password env password (ok rec) =
    if password_fits env rec password then ok (to_info rec) else err invalid_password

same_text-sym : (s t : Text) → same_text s t ≡ same_text t s
same_text-sym s t = elim (Bool-cases (same_text s t)) [
  | inl same ↦ ground (arith, same_text_iff s t, same_text_iff t s, same)
  | inr other ↦ ground (arith, same_text_iff s t, same_text_iff t s, other)
]

pub same_text-empty : (s : Text) → same_text s [] ≡ is_empty s
unfolding same_text
same_text-empty [] = refl
same_text-empty (c ∷ s) = refl

pub hash_blank :
    (env : ShareEnv) (password : Text)
    → is_empty (trim_space password) ≡ true
    → hash_password env.digest password ≡ []
unfolding hash_password
hash_blank env password blank = rw blank refl

pub hash_given :
    (env : ShareEnv) (password : Text)
    → is_empty (trim_space password) ≡ false
    → hash_password env.digest password ≡ env.digest password
unfolding hash_password
hash_given env password given = rw given refl

pub test_password-admit :
    (env : ShareEnv) (password : Text) (r : Result ShareRecord)
    → test_password env password r ≡ admit env password r
test_password-admit env password (err e) = refl
test_password-admit env password (ok rec) = elim (Bool-cases (is_empty (trim_space password))) [
  | inl blank ↦ ground (
    arith,
    blank,
    same_text-empty rec.password_hash,
    same_text-sym [] rec.password_hash,
    hash_blank env password blank,
  )
  | inr given ↦ ground (
    arith,
    given,
    same_text-empty rec.password_hash,
    same_text-sym (env.digest password) rec.password_hash,
    hash_given env password given,
  )
]
