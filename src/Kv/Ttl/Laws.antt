-- ===== src/Kv/Ttl/Laws.antt =====
-- What the wrapper of ttl.go keeps and when it expires.
use notevault.Prelude.{
  ℕ, ◌+◌, ◌*◌, ◌≤◌, ◌<◌, ◌≡◌, ◌⊎◌, inl, inr, Bool, true, false, ◌&&◌, [], ◌++◌, Text, has_prefix,
  has_prefix-append, drop_prefix-append, arith, Bool-cases, if◌then◌else◌,
}
use notevault.Prelude.Result.{ok, Result-cases}
use notevault.Prelude.Int.{ℤ, pos, is_positive, leb_int, time_add, unix, epoch, nanoseconds}
use notevault.Prelude.Codec.{Codec, IsJson, IsTotal}
use notevault.Kv.Ttl.{TtlValue, ttl_magic, encode_with_ttl, decode_with_ttl}

-- Whether a value stored at `now` for `ttl` has expired at `later`.
abbrev pub is_over : (now : ℕ) → (ttl : ℤ) → (later : ℕ) → Bool
is_over now ttl later =
    is_positive ttl
    && (is_positive (unix (time_add now ttl)) && leb_int (unix (time_add now ttl)) (unix later))

abbrev wrapper : ℕ → Text → ℤ → TtlValue
wrapper now value ttl = record { v = value; e = unix (time_add now ttl) }

module _ (json : Codec TtlValue) where
  decode-plain :
      (b : Text) (later : ℕ)
      → has_prefix b ttl_magic ≡ false
      → decode_with_ttl json b later ≡ ok (record { value = b; expired = false; wrapped = false })
  unfolding decode_with_ttl
  decode-plain b later h = rw h

module _ (json : Codec TtlValue) (lossless : IsJson json) where
  decode-magic :
      (b : Text) (tv : TtlValue) (later : ℕ)
      → json.unmarshal b ≡ ok tv
      → decode_with_ttl json (ttl_magic ++ b) later
        ≡ ok (
            if is_positive tv.e && leb_int tv.e (unix later)
            then record { value = []; expired = true; wrapped = true }
            else record { value = tv.v; expired = false; wrapped = true })
  unfolding decode_with_ttl
  decode-magic b tv later read =
      rw (has_prefix-append ttl_magic b, drop_prefix-append ttl_magic b, read) (ground arith)

  pub decode-encode :
      (now : ℕ) (value : Text) (ttl : ℤ) (later : ℕ) {b : Text} {wrapped : Bool}
      → encode_with_ttl json now value ttl ≡ ok (b, wrapped)
      → (is_positive ttl ≡ true) ⊎ (has_prefix value ttl_magic ≡ false)
      → decode_with_ttl json b later
        ≡ ok (
            if is_over now ttl later
            then record { value = []; expired = true; wrapped = true }
            else record { value = value; expired = false; wrapped = is_positive ttl })
  unfolding encode_with_ttl
  decode-encode now value ttl later {b} h safe = elim (Bool-cases (is_positive ttl)) [
    | inl positive ↦ elim (Result-cases (json.marshal (wrapper now value ttl))) [
      | inl (m, written) ↦ ground (
        arith,
        decode-magic m (wrapper now value ttl) later
            (lossless.round_trip (wrapper now value ttl) m written),
      )
      | inr (x, failed) ↦ ground arith
    ]
    | inr forever ↦ ground (arith, decode-plain json value later)
  ]

-- The wrapper counts whole seconds: a value can expire up to a second early, and no earlier.
pub is_over-early :
    (now n later : ℕ) → later + nanoseconds ≤ now + n → is_over now (pos n) later ≡ false
is_over-early now n later h = ground arith

-- From `ttl` on, the value has expired. The premise says that the clock shows a time after 1970.
pub is_over-late :
    (now n later : ℕ)
    → 0 < n
    → (epoch + 1) * nanoseconds ≤ now
    → now + n ≤ later
    → is_over now (pos n) later ≡ true
is_over-late now n later h k l = ground arith

-- A codec that never refuses makes the wrapper total.
pub encode_total :
    (json : Codec TtlValue) (now : ℕ) (value : Text) (ttl : ℤ)
    → IsTotal json
    → (r : Text × Bool) × (encode_with_ttl json now value ttl ≡ ok r)
unfolding encode_with_ttl
encode_total json now value ttl total = elim (Bool-cases (is_positive ttl)) [
  | inl positive ↦
      let (b, written) = total.marshals (wrapper now value ttl) in
      ((ttl_magic ++ b, true), rw (positive, written))
  | inr forever ↦ ((value, false), rw forever)
]
