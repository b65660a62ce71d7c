-- ===== src/Sample/Wire.antt =====
-- A codec for each type that the source writes as JSON, by length prefixes: with `{` in front it has
-- the three properties of JSON that the source relies on.
use notevault.Prelude.{
  ℕ, zero, suc, ◌≡◌, refl, sym, ap, ◌∙◌, Bool, true, false, Option, none, some, List, [], ◌∷◌, ◌++◌,
  arith, Text, has_prefix, length,
}
use mathlib.Core.List.{append_assoc, append-nil}
use notevault.Prelude.Result.{Result, ok, err, external}
use notevault.Prelude.Int.{pos, negsuc}
use notevault.Prelude.Codec.{Codec, IsJson, IsTotal}
use notevault.Kv.Ttl.{TtlValue}
use notevault.Share.Record.{SharePermissions, ShareRecord}

-- A reader takes what it reads off the front.
abbrev pub Reader : Type 0 → Type 0
Reader A = Text → Option (A × Text)

infixl 10 ◌>>=◌
abbrev ◌>>=◌ : {A B : Type 0} → Option A → (A → Option B) → Option B
none >>= f = none
some a >>= f = f a

split : ℕ → Reader Text
split zero s = some ([], s)
split (suc n) [] = none
split (suc n) (c ∷ s) = do r ← split n s; some (c ∷ r.0, r.1)

split-append : (t rest : Text) → split (length t) (t ++ rest) ≡ some (t, rest)
unfolding split
split-append [] rest = refl
split-append (c ∷ t) rest = rw (split-append t rest)

put_text : Text → Text
put_text t = length t ∷ t

get_text : Reader Text
unfolding split
get_text [] = none
get_text (n ∷ s) = split n s

get-put_text : (t rest : Text) → get_text (put_text t ++ rest) ≡ some (t, rest)
unfolding get_text put_text
get-put_text t rest = split-append t rest

concat : List Text → Text
unfolding put_text
concat [] = []
concat (t ∷ ts) = put_text t ++ concat ts

get_many : ℕ → Reader (List Text)
unfolding get_text
get_many zero s = some ([], s)
get_many (suc n) s = do r ← get_text s; rs ← get_many n r.1; some (r.0 ∷ rs.0, rs.1)

get-many-concat :
    (ts : List Text) (rest : Text) → get_many (length ts) (concat ts ++ rest) ≡ some (ts, rest)
unfolding get_many concat
get-many-concat [] rest = refl
get-many-concat (t ∷ ts) rest =
    rw append_assoc (rw (get-put_text t (concat ts ++ rest)) (rw (get-many-concat ts rest)))

unfoldable pub put_texts : List Text → Text
unfolding concat
put_texts ts = length ts ∷ concat ts

unfoldable pub get_texts : Reader (List Text)
unfolding get_many
get_texts [] = none
get_texts (n ∷ s) = get_many n s

pub get-put_texts :
    (ts : List Text) (rest : Text) → get_texts (put_texts ts ++ rest) ≡ some (ts, rest)
unfolding get_texts put_texts
get-put_texts ts rest = get-many-concat ts rest

get_number : Reader ℕ
get_number [] = none
get_number (n ∷ s) = some (n, s)

put_bool : Bool → ℕ
put_bool false = 0
put_bool true = 1

get_bool : Reader Bool
get_bool [] = none
get_bool (zero ∷ s) = some (false, s)
get_bool (suc _ ∷ s) = some (true, s)

get-put_bool : (b : Bool) (rest : Text) → get_bool (put_bool b ∷ rest) ≡ some (b, rest)
unfolding get_bool put_bool
get-put_bool true rest = refl
get-put_bool false rest = refl

put_option : Option ℕ → Text
put_option none = 0 ∷ 0 ∷ []
put_option (some n) = 1 ∷ n ∷ []

get_option : Reader (Option ℕ)
get_option (zero ∷ _ ∷ s) = some (none, s)
get_option (suc _ ∷ n ∷ s) = some (some n, s)
get_option _ = none

get-put_option : (o : Option ℕ) (rest : Text) → get_option (put_option o ++ rest) ≡ some (o, rest)
unfolding get_option put_option
get-put_option none rest = refl
get-put_option (some n) rest = refl

unfoldable pub put_permissions : SharePermissions → Text
unfolding put_bool put_texts
put_permissions p = put_bool p.allow_anonymous ∷ put_texts p.users

unfoldable pub get_permissions : Reader SharePermissions
unfolding get_bool get_texts
get_permissions s = do
  a ← get_bool s
  us ← get_texts a.1
  some (record { allow_anonymous = a.0; users = us.0 }, us.1)

get-put_permissions :
    (p : SharePermissions) (rest : Text)
    → get_permissions (put_permissions p ++ rest) ≡ some (p, rest)
unfolding get_permissions put_permissions
get-put_permissions p rest =
    rw (get-put_bool p.allow_anonymous (put_texts p.users ++ rest))
      (rw (get-put_texts p.users rest))

unfoldable pub put_record : ShareRecord → Text
unfolding put_text put_texts put_bool put_option put_permissions
put_record r =
    put_text r.share_id
    ++ (put_text r.owner
        ++ (put_texts r.object_keys
            ++ ((r.created_at ∷ put_option r.expire_at)
                ++ ((put_bool r.allow_download ∷ put_text r.password_hash)
                    ++ put_permissions r.permissions))))

unfoldable pub get_record : Reader ShareRecord
unfolding get_text get_texts get_number get_option get_bool get_permissions
get_record s = do
  id ← get_text s
  owner ← get_text id.1
  keys ← get_texts owner.1
  at ← get_number keys.1
  until ← get_option at.1
  down ← get_bool until.1
  hash ← get_text down.1
  perms ← get_permissions hash.1
  some (
    record {
      share_id = id.0;
      owner = owner.0;
      object_keys = keys.0;
      created_at = at.0;
      expire_at = until.0;
      allow_download = down.0;
      password_hash = hash.0;
      permissions = perms.0;
    },
    perms.1,
  )

get-put_record :
    (r : ShareRecord) (rest : Text) → get_record (put_record r ++ rest) ≡ some (r, rest)
unfolding get_record put_record get_number
get-put_record r rest =
    simp (append_assoc, get-put_text, get-put_texts, get-put_option, get-put_bool)

unfoldable pub put_ttl : TtlValue → Text
put_ttl tv = elim tv.e [ pos n ↦ 0 ∷ n ∷ tv.v | negsuc n ↦ 1 ∷ n ∷ tv.v ]

unfoldable pub get_ttl : Reader TtlValue
get_ttl (zero ∷ n ∷ s) = some (record { v = s; e = pos n }, [])
get_ttl (suc _ ∷ n ∷ s) = some (record { v = s; e = negsuc n }, [])
get_ttl _ = none

-- A codec from a writer and its reader.
unfoldable pub wire_marshal : {A : Type 0} → (A → Text) → A → Result Text
wire_marshal put a = ok (b'{' ∷ put a)

unfoldable pub wire_unmarshal : {A : Type 0} → Reader A → Text → Result A
wire_unmarshal get [] = err (external [])
wire_unmarshal get (c ∷ s) = elim (get s) [ some (a, _) ↦ ok a | none ↦ err (external []) ]

abbrev pub wire : {A : Type 0} → (A → Text) → Reader A → Codec A
wire put get = record { marshal = wire_marshal put; unmarshal = wire_unmarshal get }

pub wire-IsJson :
    {A : Type 0} (put : A → Text) (get : Reader A)
    → ((a : A) → (s : Text) × (get (put a) ≡ some (a, s)))
    → IsJson (wire put get)
unfolding wire_marshal wire_unmarshal has_prefix
wire-IsJson put get reads = record {
  round_trip = λ a b h. ground (arith, reads a);
  not_empty = λ a b h. ground arith;
  not_marked = λ a b h. ground arith;
}

wire-IsTotal : {A : Type 0} (put : A → Text) (get : Reader A) → IsTotal (wire put get)
unfolding wire_marshal
wire-IsTotal put get = record { marshals = λ a. (b'{' ∷ put a, refl) }

from_append :
    {A : Type 0} (put : A → Text) (get : Reader A)
    → ((a : A) (rest : Text) → get (put a ++ rest) ≡ some (a, rest))
    → (a : A) → (s : Text) × (get (put a) ≡ some (a, s))
from_append put get reads a = ([], ap get (sym (append-nil (put a))) ∙ reads a [])

ttl_reads : (tv : TtlValue) → (s : Text) × (get_ttl (put_ttl tv) ≡ some (tv, s))
unfolding get_ttl put_ttl
ttl_reads tv = ([], ground arith)

abbrev pub keys_json : Codec (List Text)
keys_json = wire put_texts get_texts

abbrev pub perms_json : Codec SharePermissions
perms_json = wire put_permissions get_permissions

abbrev pub record_json : Codec ShareRecord
record_json = wire put_record get_record

abbrev pub ttl_json : Codec TtlValue
ttl_json = wire put_ttl get_ttl

pub keys_json-IsJson : IsJson keys_json
keys_json-IsJson = wire-IsJson put_texts get_texts (from_append put_texts get_texts get-put_texts)

pub perms_json-IsJson : IsJson perms_json
perms_json-IsJson =
    wire-IsJson put_permissions get_permissions
      (from_append put_permissions get_permissions get-put_permissions)

pub record_json-IsJson : IsJson record_json
record_json-IsJson =
    wire-IsJson put_record get_record (from_append put_record get_record get-put_record)

pub ttl_json-IsJson : IsJson ttl_json
ttl_json-IsJson = wire-IsJson put_ttl get_ttl ttl_reads

pub record_json-IsTotal : IsTotal record_json
record_json-IsTotal = wire-IsTotal put_record get_record

pub ttl_json-IsTotal : IsTotal ttl_json
ttl_json-IsTotal = wire-IsTotal put_ttl get_ttl

-- To name on the `unfolding` line of a test.
unfoldable pub wires : Unit {0}
unfolding wire_marshal wire_unmarshal put_texts get_texts put_permissions get_permissions put_record
    get_record put_ttl get_ttl get_number split put_text get_text get_many concat put_bool get_bool
    put_option get_option
wires = tt
