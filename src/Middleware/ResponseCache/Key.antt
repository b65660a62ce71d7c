-- ===== src/Middleware/ResponseCache/Key.antt =====
-- `buildDefaultKey` of cache.go. `hash` is the hexadecimal xxhash sum of a text.
pub mod Order
use notevault.Prelude.{
  ◌+◌, Option, none, some, List, [], ◌∷◌, ◌++◌, map, Text, codes, is_empty, if◌then◌else◌,
}
use notevault.Prelude.{join_with, sort_texts}
use notevault.Prelude.Assoc
use notevault.Prelude.Assoc.{Assoc, lookup}
use notevault.Middleware.ResponseCache.Http.{Request}

abbrev values_of : Option (List Text) → List Text
values_of none = []
values_of (some vs) = vs

-- `k=v1,v2` for a name of the query
unfoldable pub query_part : Assoc (List Text) → Text → Text
unfolding lookup join_with
query_part q k = k ++ b'=' ∷ join_with (codes ",") (values_of (lookup k q))

-- The names of a map in the order of an iteration.
unfoldable pub query_text : List Text → Assoc (List Text) → Text
unfolding query_part sort_texts
query_text [] q = []
query_text (k ∷ ks) q = b'?' ∷ join_with (codes "&") (map (query_part q) (sort_texts (k ∷ ks)))

unfoldable pub vary_text : (Text → Text) → List Text → Text
unfolding join_with sort_texts
vary_text header [] = []
vary_text header (h ∷ hs) =
    codes "|hv=" ++ join_with (codes "&") (map (λ n. n ++ b'=' ∷ header n) (sort_texts (h ∷ hs)))

unfoldable pub key_text : Request → List Text → Text
unfolding query_text vary_text Assoc.keys
key_text req vary =
    req.method
    ++ b':'
      ∷ ((if is_empty req.full_path then req.url_path else req.full_path)
          ++ (query_text (Assoc.keys req.query) req.query ++ vary_text req.header vary))

unfoldable pub build_default_key : (Text → Text) → Request → List Text → Text
unfolding key_text
build_default_key hash req vary = codes "rc:" ++ hash (key_text req vary)
