-- ===== src/Sample/Shares.antt =====
-- A share service over the memory store and the table, and states of it.
use notevault.Prelude.{ℕ, ◌*◌, refl, true, [], ◌∷◌, ◌++◌, Text, codes}
use notevault.Prelude.Assoc.{lookup}
use notevault.Prelude.Result.{Result, ok, err}
use notevault.Prelude.Int.{pos}
use notevault.Kv.Memory.{memory_kv}
use notevault.Kv.Memory.Laws.{memory_kv-KvLaws, memory_kv-IsReliable, get-eq-reading}
use notevault.Share.Record.{CreateShareRequest, ShareInfo}
use notevault.Share.Env.{ShareEnv, ShareLaws, CacheNeverFails, World}
use notevault.Share.Cache.{LoadClock}
use notevault.Share.Coherence.{IsCoherent}
use notevault.Share.Service.{CreateClock, UpdateClock, create_share, new_record}
use notevault.Share.Lifecycle.{Creates, create_share-Creates}
use notevault.Sample.Wire.{
  keys_json, perms_json, record_json, ttl_json, keys_json-IsJson, perms_json-IsJson,
  record_json-IsJson, ttl_json-IsJson, record_json-IsTotal, ttl_json-IsTotal,
}
use notevault.Sample.Rows.{share_rows, share_rows-ShareDbLaws}

abbrev pub env : ShareEnv
env = record {
  kv = memory_kv ttl_json;
  db = share_rows;
  has_kv = true;
  has_db = true;
  has_s3 = true;
  buckets = codes "vault" ∷ [];
  presign = λ bucket key t. ok (bucket ++ b'/' ∷ key);
  digest = λ password. b'#' ∷ password;
  record_json = record_json;
  keys_json = keys_json;
  perms_json = perms_json;
}

pub env-ShareLaws : ShareLaws env
env-ShareLaws = record {
  kv_law = memory_kv-KvLaws ttl_json ttl_json-IsJson;
  db_law = share_rows-ShareDbLaws;
  record_law = record_json-IsJson;
  keys_law = keys_json-IsJson;
  perms_law = perms_json-IsJson;
  with_kv = refl;
  with_db = refl;
}

pub env-CacheNeverFails : CacheNeverFails env
env-CacheNeverFails = record {
  reliable = memory_kv-IsReliable ttl_json ttl_json-IsTotal;
  total = record_json-IsTotal;
}

-- Both stores are empty.
abbrev pub start : World env
start = record { rows = []; cache = [] }

pub start-IsCoherent : IsCoherent env start
unfolding lookup
start-IsCoherent = record {
  at = λ id b hit r read. absurd (cc (get-eq-reading ttl_json hit.0 _ [], hit.1));
}

-- Some time in 2025, in nanoseconds.
abbrev pub noon : ℕ
noon = 63900000000 * 1000000000

abbrev pub created_at_noon : CreateClock
created_at_noon = record { now = noon; until = noon; kv_set = noon }

abbrev pub loaded_at_noon : LoadClock
loaded_at_noon = record {
  kv_get = noon;
  check_cached = noon;
  check_row = noon;
  until = noon;
  kv_set = noon;
}

abbrev pub updated_at_noon : UpdateClock
updated_at_noon = record { load = loaded_at_noon; updated_at = noon; until = noon; kv_set = noon }

abbrev pub ann : Text
ann = codes "ann"

abbrev pub bob : Text
bob = codes "bob"

abbrev pub sh1 : Text
sh1 = codes "sh_1"

abbrev pub ask : CreateShareRequest
ask = record {
  object_keys = codes "ann/a.txt" ∷ [];
  password = codes "pw";
  expire_days = pos 7;
  allow_download = true;
}

-- The state after Ann has shared a file.
abbrev pub shared : World env
shared = (create_share env created_at_noon sh1 ann ask start).1

Creates-IsCoherent :
    (r : Result ShareInfo × World env)
    → Creates env (new_record env.digest noon sh1 ann ask) start r
    → IsCoherent env r.1
Creates-IsCoherent (ok info, w) d = d.coherent
Creates-IsCoherent (err e, w) d = d.coherent

pub shared-IsCoherent : IsCoherent env shared
shared-IsCoherent =
    Creates-IsCoherent (create_share env created_at_noon sh1 ann ask start)
      (create_share-Creates env env-ShareLaws created_at_noon sh1 ann ask start start-IsCoherent)
