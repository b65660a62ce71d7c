-- ===== src/Files/Catalog/Month/Exact.antt =====
-- What the lists of a month hold.
use notevault.Prelude.{
  ℕ, zero, suc, ◌+◌, ◌-◌, ◌*◌, ◌<◌, ◌≡◌, refl, sym, ap, ◌∙◌, inl, inr, true, false, List, [], ◌∷◌,
  ◌++◌, arith, Text, is_empty, has_prefix, drop_prefix, All, ltb, ◌==◌, if◌then◌else◌, Bool-cases,
}
use mathlib.Core.List.{append_assoc, append-nil}
use notevault.Prelude.{
  ◌/◌, ◌%◌, text_before, drop_prefix-append, has_prefix-append, append-drop_prefix,
}
use notevault.Prelude.Result.{Result, ok, err}
use notevault.Files.Store
use notevault.Files.Store.{ObjectStore, ObjectStoreLaws, IsUnder, default_bucket, home}
use notevault.Files.Paths.{ends_with_slash, has_slash}
use notevault.Files.Catalog.Month.{
  digits, zeros, padded, month_prefix, ObjectInfo, listed_info, collect_files, list_files_by_month,
}

-- The number that decimal digits stand for, behind the digits of `seen`.
unfoldable pub number_from : ℕ → Text → ℕ
number_from seen [] = seen
number_from seen (c ∷ s) = number_from (seen * 10 + (c - b'0')) s

number_from-append :
    (s t : Text) (seen : ℕ) → number_from seen (s ++ t) ≡ number_from (number_from seen s) t
unfolding number_from
number_from-append [] t seen = refl
number_from-append (c ∷ s) t seen = number_from-append s t (seen * 10 + (c - b'0'))

number_from-digits : (fuel n : ℕ) → n < fuel → number_from 0 (digits fuel n) ≡ n
unfolding number_from digits
number_from-digits zero n enough = absurd (omega arith)
number_from-digits (suc fuel) n enough = elim (Bool-cases (ltb n 10)) [
  | inl small ↦ ground arith
  | inr large ↦
      let front = digits fuel (n / 10) in
      let last = (b'0' + n % 10) ∷ [] in
      let shorter : n / 10 < fuel = grind arith in
      let before : number_from 0 front ≡ n / 10 = number_from-digits fuel (n / 10) shorter in
      let split : number_from 0 (front ++ last) ≡ number_from (number_from 0 front) last =
        number_from-append front last 0 in
      ground (arith, large, before, split)
]

number_from-zeros : (k : ℕ) (s : Text) → number_from 0 (zeros k ++ s) ≡ number_from 0 s
unfolding number_from zeros
number_from-zeros zero s = refl
number_from-zeros (suc k) s = number_from-zeros k s

pub number_from-padded : (width n : ℕ) → number_from 0 (padded width n) ≡ n
unfolding padded
number_from-padded width n =
    number_from-zeros _ (digits (suc n) n) ∙ number_from-digits (suc n) n (omega arith)

has_slash-append :
    (s t : Text) → has_slash s ≡ false → has_slash t ≡ false → has_slash (s ++ t) ≡ false
unfolding has_slash
has_slash-append [] t h k = k
has_slash-append (c ∷ s) t h k = ground (arith, has_slash-append s t)

has_slash-digits : (fuel n : ℕ) → has_slash (digits fuel n) ≡ false
unfolding has_slash digits
has_slash-digits zero n = refl
has_slash-digits (suc fuel) n = elim (Bool-cases (ltb n 10)) [
  | inl small ↦ ground arith
  | inr large ↦
      let plain =
        has_slash-append (digits fuel (n / 10)) ((b'0' + n % 10) ∷ [])
          (has_slash-digits fuel (n / 10)) (ground arith) in
      ground (arith, large, plain)
]

has_slash-zeros : (k : ℕ) → has_slash (zeros k) ≡ false
unfolding has_slash zeros
has_slash-zeros zero = refl
has_slash-zeros (suc k) = has_slash-zeros k

pub has_slash-padded : (width n : ℕ) → has_slash (padded width n) ≡ false
unfolding padded
has_slash-padded width n = has_slash-append _ _ (has_slash-zeros _) (has_slash-digits (suc n) n)

-- What stands behind the first separator.
abbrev after_slash : Text → Text
after_slash [] = []
after_slash (c ∷ s) = let rest = after_slash s in if c == b'/' then s else rest

-- The year and the month that a key of the user names.
unfoldable pub month_of : Text → Text → ℕ × ℕ
unfolding number_from
month_of user key =
    let rest = drop_prefix key (home user) in
    (number_from 0 (text_before rest b'/'), number_from 0 (text_before (after_slash rest) b'/'))

text_before-append : (s t : Text) → has_slash s ≡ false → text_before (s ++ b'/' ∷ t) b'/' ≡ s
unfolding has_slash text_before
text_before-append [] t plain = refl
text_before-append (c ∷ s) t plain = ground (arith, text_before-append s t)

after_slash-append : (s t : Text) → has_slash s ≡ false → after_slash (s ++ b'/' ∷ t) ≡ t
unfolding has_slash
after_slash-append [] t plain = refl
after_slash-append (c ∷ s) t plain = ground (arith, after_slash-append s t)

pub month_of-prefix :
    (user : Text) (year month : ℕ) (t : Text)
    → month_of user (month_prefix user year month ++ t) ≡ (year, month)
unfolding month_of month_prefix
month_of-prefix user year month t =
    let y = padded 4 year in
    let m = padded 2 month in
    let m_rest = m ++ b'/' ∷ t in
    let rest : Text = y ++ b'/' ∷ m_rest in
    let inner : (m ++ b'/' ∷ []) ++ t ≡ m_rest = append_assoc m (b'/' ∷ []) t in
    let outer : (y ++ b'/' ∷ (m ++ b'/' ∷ [])) ++ t ≡ rest =
      append_assoc y (b'/' ∷ (m ++ b'/' ∷ [])) t ∙ ap (λ l. y ++ b'/' ∷ l) inner in
    let whole : month_prefix user year month ++ t ≡ home user ++ rest =
      append_assoc (home user) (y ++ b'/' ∷ (m ++ b'/' ∷ [])) t ∙ ap (λ l. home user ++ l) outer in
    let cut : drop_prefix (month_prefix user year month ++ t) (home user) ≡ rest =
      ap (λ k. drop_prefix k (home user)) whole ∙ drop_prefix-append (home user) rest in
    ap (λ r. (number_from 0 (text_before r b'/'), number_from 0 (text_before (after_slash r) b'/')))
      cut
    ∙ ap (λ p. (number_from 0 p, number_from 0 (text_before (after_slash rest) b'/')))
        (text_before-append y m_rest (has_slash-padded 4 year))
    ∙ ap (λ q. (number_from 0 y, number_from 0 (text_before q b'/')))
        (after_slash-append y m_rest (has_slash-padded 4 year))
    ∙ ap (λ p. (number_from 0 y, number_from 0 p))
        (text_before-append m t (has_slash-padded 2 month))
    ∙ ap (λ n. (n, number_from 0 m)) (number_from-padded 4 year)
    ∙ ap (λ n. (year, n)) (number_from-padded 2 month)

-- The listed objects that are no folders, with the fields that the list shows.
unfoldable pub plain_files : (ℕ → Text) → Text → List (Result Store.ObjectInfo) → List ObjectInfo
unfolding listed_info ends_with_slash
plain_files format bucket [] = []
plain_files format bucket (err e ∷ entries) = plain_files format bucket entries
plain_files format bucket (ok obj ∷ entries) =
    let rest = plain_files format bucket entries in
    if ends_with_slash obj.key then rest else listed_info format bucket obj ∷ rest

-- A listing without an error is collected as it is.
abbrev IsEntry : Result Store.ObjectInfo → Type 0
IsEntry (ok info) = Unit
IsEntry (err e) = ⊥

collect_files-plain :
    (format : ℕ → Text) (bucket : Text) (entries : List (Result Store.ObjectInfo))
    (files : List ObjectInfo)
    → All IsEntry entries
    → collect_files format bucket entries files ≡ ok (files ++ plain_files format bucket entries)
unfolding collect_files plain_files
collect_files-plain format bucket [] files clean = ap ok (sym (append-nil files))
collect_files-plain format bucket (err e ∷ entries) files clean = absurd clean.0
collect_files-plain format bucket (ok obj ∷ entries) files clean =
    elim (Bool-cases (ends_with_slash obj.key)) [
      | inl folder ↦ ground (arith, folder, collect_files-plain format bucket entries files clean.1)
      | inr file ↦
          let one = listed_info format bucket obj ∷ [] in
          ground (
            arith,
            file,
            collect_files-plain format bucket entries (files ++ one) clean.1,
            append_assoc files one (plain_files format bucket entries),
          )
    ]

-- A file of the user's month, and no folder.
abbrev pub IsOfMonth : Text → ℕ → ℕ → ObjectInfo → Type 0
IsOfMonth user year month f =
    (has_prefix f.object_key (home user) ≡ true)
    × (ends_with_slash f.object_key ≡ false)
    × (month_of user f.object_key ≡ (year, month))

key-month_of :
    (user : Text) (year month : ℕ) (key : Text)
    → has_prefix key (month_prefix user year month) ≡ true
    → month_of user key ≡ (year, month)
key-month_of user year month key under =
    let prefix = month_prefix user year month in
    ap (month_of user) (sym (append-drop_prefix key prefix under))
    ∙ month_of-prefix user year month (drop_prefix key prefix)

key-home :
    (user : Text) (year month : ℕ) (key : Text)
    → has_prefix key (month_prefix user year month) ≡ true
    → has_prefix key (home user) ≡ true
unfolding month_prefix
key-home user year month key under =
    let month_part = padded 4 year ++ b'/' ∷ (padded 2 month ++ b'/' ∷ []) in
    let t = drop_prefix key (month_prefix user year month) in
    ap (λ k. has_prefix k (home user))
      (sym (append-drop_prefix key (month_prefix user year month) under)
        ∙ append_assoc (home user) month_part t)
    ∙ has_prefix-append (home user) (month_part ++ t)

plain_files-IsOfMonth :
    (format : ℕ → Text) (bucket user : Text) (year month : ℕ)
    (entries : List (Result Store.ObjectInfo))
    → All (IsUnder (month_prefix user year month)) entries
    → All (IsOfMonth user year month) (plain_files format bucket entries)
unfolding plain_files listed_info
plain_files-IsOfMonth format bucket user year month [] under = tt
plain_files-IsOfMonth format bucket user year month (err e ∷ entries) under =
    plain_files-IsOfMonth format bucket user year month entries under.1
plain_files-IsOfMonth format bucket user year month (ok obj ∷ entries) under =
    let rest = plain_files-IsOfMonth format bucket user year month entries under.1 in
    elim (Bool-cases (ends_with_slash obj.key)) [
      | inl folder ↦ ground (arith, folder, rest)
      | inr file ↦ ground (
        arith,
        file,
        rest,
        key-home user year month obj.key under.0,
        key-month_of user year month obj.key under.0,
      )
    ]

-- Where the object store lists without an error and only under the prefix: the list has every listed
-- object that is no folder, in the same order, and each of its files belongs to the user and names the
-- year and the month, so that the lists of two months share no file.
pub list_files_by_month_exact :
    (s : ObjectStore) (law : ObjectStoreLaws s) (format : ℕ → Text) (buckets : List Text)
    (bucket user : Text) (year month : ℕ) (o : s.Objects)
    → is_empty user ≡ false
    → default_bucket buckets ≡ ok bucket
    → All IsEntry (s.list bucket (month_prefix user year month) true false o)
    → (list_files_by_month s format buckets user year month o
        ≡ ok
            (plain_files format bucket (s.list bucket (month_prefix user year month) true false o)))
      × All
          (IsOfMonth user year month)
          (plain_files format bucket (s.list bucket (month_prefix user year month) true false o))
unfolding list_files_by_month
list_files_by_month_exact s law format buckets bucket user year month o somebody configured clean =
    let entries = s.list bucket (month_prefix user year month) true false o in
    let collected = collect_files-plain format bucket entries [] clean in
    (
      ground (arith, somebody, configured, collected),
      plain_files-IsOfMonth format bucket user year month entries
          (law.list_under bucket (month_prefix user year month) true false o),
    )
