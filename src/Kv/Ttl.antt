-- ===== src/Kv/Ttl.antt =====
-- pkg/internal/storage/kv/ttl.go: the wrapper that gives a stored value an expiry.
pub mod Laws
use notevault.Prelude.{
  ℕ, Bool, true, false, ◌&&◌, ◌++◌, Text, codes, has_prefix, drop_prefix, if◌then◌else◌,
}
use notevault.Prelude.Result.{Result, ok, err, marshal_failed, unmarshal_failed, wrap_error}
use notevault.Prelude.Int.{ℤ, is_positive, leb_int, time_add, unix}
use notevault.Prelude.Codec.{Codec}

abbrev pub ttl_magic : Text
ttl_magic = codes "NVTTL1:"

pub record TtlValue : Type 0 where
  pub v : Text
  -- unix seconds; 0 means no expiry
  pub e : ℤ

-- The three results of `decodeWithTTL` beside its error.
pub record Decoded : Type 0 where
  pub value : Text
  pub expired : Bool
  pub wrapped : Bool

module _ (json : Codec TtlValue) where
  -- `now` is what the call of `time.Now` returns. The result says whether the value was wrapped.
  unfoldable pub encode_with_ttl : (now : ℕ) → Text → (ttl : ℤ) → Result (Text × Bool)
  encode_with_ttl now value ttl =
      if is_positive ttl
      then elim (json.marshal (record { v = value; e = unix (time_add now ttl) })) [
        | ok b ↦ ok (ttl_magic ++ b, true)
        | err x ↦ err (marshal_failed x)
      ]
      else ok (value, false)

  abbrev open_wrapper : (now : ℕ) → Result TtlValue → Result Decoded
  open_wrapper now (err x) = err (unmarshal_failed x)
  open_wrapper now (ok tv) =
      if is_positive tv.e && leb_int tv.e (unix now)
      then ok (record { value = codes ""; expired = true; wrapped = true })
      else ok (record { value = tv.v; expired = false; wrapped = true })

  unfoldable pub decode_with_ttl : Text → (now : ℕ) → Result Decoded
  decode_with_ttl b now =
      if has_prefix b ttl_magic
      then open_wrapper now (json.unmarshal (drop_prefix b ttl_magic))
      else ok (record { value = b; expired = false; wrapped = false })
