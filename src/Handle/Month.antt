-- ===== src/Handle/Month.antt =====
-- pkg/internal/handle/files_list.go: `ListFilesThisMonth`.
use notevault.Prelude.{
  ℕ, ◌≤◌, ◌⊎◌, inl, inr, ◌||◌, Option, none, some, List, ◌∷◌, ◌++◌, arith, Text, codes, is_empty,
  length, ltb, if◌then◌else◌, Bool-cases, Option-cases,
}
use notevault.Prelude.Result.{ok, err}
use notevault.Prelude.Int.{ℤ, pos, negsuc}
use notevault.Files.Store.{ObjectStore}
use notevault.Files.Catalog.Month.{ObjectInfo, padded, list_files_by_month}
use notevault.Files.Catalog.Sync.{Date}
use notevault.Handle.User.{Reply, bad_request, failed, found}

-- A number within bounds, for `strconv.Atoi`.
abbrev within : ℕ → ℕ → Option ℤ → Option ℕ
within low high none = none
within low high (some (negsuc n)) = none
within low high (some (pos n)) = if ltb n low || ltb high n then none else some n

abbrev number_or : (Text → Option ℤ) → ℕ → ℕ → ℕ → Text → Option ℕ
number_or atoi low high default text =
    if is_empty text then some default else within low high (atoi text)

-- `parseYearMonth`: the year and the month, or the message of the error.
unfoldable pub parse_year_month : (Text → Option ℤ) → Date → Text → Text → ℕ → (ℕ × ℕ) ⊎ Text
parse_year_month atoi date year_text month_text now =
    let (y, m, d) = date now in
    elim (number_or atoi 1970 9999 y year_text) [
      | none ↦ inr (codes "invalid year")
      | some year ↦ elim (number_or atoi 1 12 m month_text) [
        | none ↦ inr (codes "invalid month")
        | some month ↦ inl (year, month)
      ]
    ]

-- `types.ListFilesResponse`
pub record ListFilesResponse : Type 0 where
  pub month : Text
  pub files : List ObjectInfo
  pub total : ℕ

unfoldable pub list_files_this_month :
    (s : ObjectStore)
    → (ℕ → Text)
    → List Text
    → (Text → Option ℤ)
    → Date
    → Option Text
    → (year month : Text) → (now : ℕ) → s.Objects
    → Reply ListFilesResponse
unfolding parse_year_month padded
list_files_this_month s format buckets atoi date none year_text month_text now o =
    bad_request (codes "missing user")
list_files_this_month s format buckets atoi date (some user) year_text month_text now o =
    elim (parse_year_month atoi date year_text month_text now) [
      | inr message ↦ bad_request message
      | inl (year, month) ↦ elim (list_files_by_month s format buckets user year month o) [
        | err e ↦ failed e
        | ok items ↦ found (record {
          month = padded 4 year ++ b'-' ∷ padded 2 month;
          files = items;
          total = length items;
        })
      ]
    ]

-- A month that the handler asks for is a month of a year with four digits, if the clock shows one.
abbrev IsMonth : (ℕ × ℕ) ⊎ Text → Type 0
IsMonth (inr message) = Unit
IsMonth (inl (year, month)) = ((1970 ≤ year) × (year ≤ 9999)) × ((1 ≤ month) × (month ≤ 12))

-- What bounds the outcome, and the default, holds of the number.
IsBetween : ℕ → ℕ → Option ℕ → Type 0
IsBetween low high none = Unit
IsBetween low high (some n) = (low ≤ n) × (n ≤ high)

number_or-IsBetween :
    (atoi : Text → Option ℤ) (low high default : ℕ) (text : Text)
    → low ≤ default
    → default ≤ high
    → IsBetween low high (number_or atoi low high default text)
unfolding IsBetween
number_or-IsBetween atoi low high default text l h = elim (Bool-cases (is_empty text)) [
  | inl empty ↦ ground (arith, empty)
  | inr given ↦ elim (Option-cases (atoi text)) [
    | inl bad ↦ ground (arith, given, bad)
    | inr (pos n, read) ↦ ground (arith, given, read)
    | inr (negsuc n, read) ↦ ground (arith, given, read)
  ]
]

parse_year_month-IsMonth :
    (atoi : Text → Option ℤ) (date : Date) (year_text month_text : Text) (now : ℕ)
    → IsMonth (inl ((date now).0, (date now).1))
    → IsMonth (parse_year_month atoi date year_text month_text now)
unfolding parse_year_month IsBetween
parse_year_month-IsMonth atoi date year_text month_text now clock =
    let (y, m, d) = date now in
    let year = number_or-IsBetween atoi 1970 9999 y year_text clock.0.0 clock.0.1 in
    let month = number_or-IsBetween atoi 1 12 m month_text clock.1.0 clock.1.1 in
    ground (arith, year, month)
