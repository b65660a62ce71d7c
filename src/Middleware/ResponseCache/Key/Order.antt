-- ===== src/Middleware/ResponseCache/Key/Order.antt =====
-- What the default key of cache.go depends on.
use notevault.Prelude.{
  ◌≡◌, refl, ap, ◌∙◌, false, List, [], ◌∷◌, ◌++◌, map, Text, codes, is_empty, if◌then◌else◌,
}
use mathlib.Core.List.{Perm}
use mathlib.Core.List.Perm
use notevault.Prelude.{join_with, sort_texts, sort_texts-perm}
use notevault.Prelude.Assoc
use notevault.Prelude.Assoc.{Assoc, lookup}
use notevault.Middleware.ResponseCache.Http.{Request}
use notevault.Middleware.ResponseCache.Key.{
  query_part, query_text, vary_text, key_text, build_default_key,
}

query_part-lookup :
    (q q' : Assoc (List Text)) (k : Text)
    → lookup k q ≡ lookup k q'
    → query_part q k ≡ query_part q' k
unfolding query_part
query_part-lookup q q' k same = rw same refl

parts-lookup :
    (q q' : Assoc (List Text)) (ks : List Text)
    → ((k : Text) → lookup k q ≡ lookup k q')
    → map (query_part q) ks ≡ map (query_part q') ks
parts-lookup q q' [] same = refl
parts-lookup q q' (k ∷ ks) same =
    λ i. query_part-lookup q q' k (same k) i ∷ parts-lookup q q' ks same i

query_text-perm :
    (ks ks' : List Text) (q q' : Assoc (List Text))
    → Perm ks ks'
    → ((k : Text) → lookup k q ≡ lookup k q')
    → query_text ks q ≡ query_text ks' q'
unfolding query_text
query_text-perm [] [] q q' p same = refl
query_text-perm [] (k ∷ ks) q q' p same = absurd (cc (Perm.nil-eq p))
query_text-perm (k ∷ ks) [] q q' p same = absurd (cc (Perm.eq-nil p))
query_text-perm (k ∷ ks) (k' ∷ ks') q q' p same =
    ap (λ l. b'?' ∷ join_with (codes "&") l)
      (parts-lookup q q' (sort_texts (k ∷ ks)) same ∙ ap (map (query_part q')) (sort_texts-perm p))

-- The default key does not depend on the order in which the query, which is a Go map, is walked: two
-- orders of the same map give one key.
pub build_default_key_any_order :
    (hash : Text → Text) (vary : List Text) (req : Request) (q : Assoc (List Text))
    → Perm (Assoc.keys req.query) (Assoc.keys q)
    → ((k : Text) → lookup k req.query ≡ lookup k q)
    → build_default_key hash req vary ≡ build_default_key hash (record req { query = q }) vary
unfolding build_default_key key_text
build_default_key_any_order hash vary req q order same =
    let part = query_text-perm (Assoc.keys req.query) (Assoc.keys q) req.query q order same in
    ap
      (λ t.
        codes "rc:"
        ++ hash (
            req.method
            ++ b':'
              ∷ ((if is_empty req.full_path then req.url_path else req.full_path)
                  ++ (t ++ vary_text req.header vary))))
      part

-- On a route, without `VaryHeaders`, requests with the same method, template and query have the same
-- default key, whatever their paths and headers are: neither the parameters of the path nor the user
-- that a header names take part.
pub build_default_key_ignores_path :
    (hash : Text → Text) (req : Request) (path : Text) (header : Text → Text)
    → is_empty req.full_path ≡ false
    → build_default_key hash req []
      ≡ build_default_key hash (record req { url_path = path; header = header }) []
unfolding build_default_key key_text vary_text
build_default_key_ignores_path hash req path header routed = rw routed refl
