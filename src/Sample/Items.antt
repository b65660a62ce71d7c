-- ===== src/Sample/Items.antt =====
-- A codec for the wrapper of the generic cache.
use notevault.Prelude.{zero, suc, ◌≡◌, none, some, [], ◌∷◌, arith, Text}
use notevault.Prelude.Int.{pos, negsuc}
use notevault.Prelude.Codec.{Codec, IsJson}
use notevault.Cache.{CacheItem}
use notevault.Sample.Wire.{Reader, wire, wire-IsJson}

unfoldable pub put_item : CacheItem → Text
put_item i = elim i.expires_at [ pos n ↦ 0 ∷ n ∷ i.payload | negsuc n ↦ 1 ∷ n ∷ i.payload ]

unfoldable pub get_item : Reader CacheItem
get_item (zero ∷ n ∷ s) = some (record { payload = s; expires_at = pos n }, [])
get_item (suc _ ∷ n ∷ s) = some (record { payload = s; expires_at = negsuc n }, [])
get_item _ = none

item_reads : (i : CacheItem) → (s : Text) × (get_item (put_item i) ≡ some (i, s))
unfolding get_item put_item
item_reads i = ([], ground arith)

abbrev pub item_json : Codec CacheItem
item_json = wire put_item get_item

pub item_json-IsJson : IsJson item_json
item_json-IsJson = wire-IsJson put_item get_item item_reads
