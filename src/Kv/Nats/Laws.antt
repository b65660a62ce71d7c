-- ===== src/Kv/Nats/Laws.antt =====
-- The store over NATS keeps the promises of the interface, where the bucket keeps its own.
use notevault.Prelude.{ℕ, ◌≡◌, Option, none, some, Text, if◌then◌else◌}
use notevault.Prelude.Result.{ok, err}
use notevault.Prelude.Codec.{Codec}
use notevault.Kv.Ttl.{TtlValue, decode_with_ttl}
use notevault.Kv.Nats.{KeyValue, get}

module _ (json : Codec TtlValue) (kv : KeyValue) where
  -- What a reader makes of the bytes under a key.
  abbrev opened : ℕ → Text → Option Text
  opened now b = elim (decode_with_ttl json b now) [
    | err e ↦ none
    | ok d ↦ if d.expired then none else some d.value
  ]

  -- The entries of the second state were in the first.
  Shrinks : kv.Entries → kv.Entries → Type 0
  Shrinks s s' = (j w : Text) → kv.get j s' ≡ ok (some w) → kv.get j s ≡ ok (some w)
