-- ===== src/Prelude/Codec.antt =====
-- `encoding/json` and `sonic` at one Go type, as an interface: how a value is written as bytes, and
-- read back. The texts of the model are sequences of Unicode code points, for which JSON is lossless.
use mathlib.Core.Path.{◌≡◌}
use mathlib.Core.Bool.{false}
use notevault.Prelude.Texts.{Text, is_empty, has_prefix, codes}
use notevault.Prelude.Result.{Result, ok}

pub record Codec (A : Type 0) : Type 0 where
  pub marshal : A → Result Text
  pub unmarshal : Text → Result A

-- What the source relies on: a JSON text reads back as what was written, is not empty, and does not
-- start like the marker of pkg/internal/storage/kv/ttl.go.
pub record IsJson {A : Type 0} (c : Codec A) : Type 0 where
  pub round_trip : (a : A) (b : Text) → c.marshal a ≡ ok b → c.unmarshal b ≡ ok a
  pub not_empty : (a : A) (b : Text) → c.marshal a ≡ ok b → is_empty b ≡ false
  pub not_marked : (a : A) (b : Text) → c.marshal a ≡ ok b → has_prefix b (codes "NVTTL1:") ≡ false

-- Writing never fails.
pub record IsTotal {A : Type 0} (c : Codec A) : Type 0 where
  pub marshals : (a : A) → (b : Text) × (c.marshal a ≡ ok b)
