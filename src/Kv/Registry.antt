-- ===== src/Kv/Registry.antt =====
-- pkg/internal/storage/kv/kv.go: the registry of the kinds of stores, and the store of a configuration.
-- A factory connects to other services, so that what it makes is a parameter.
use notevault.Prelude.{◌≡◌, none, some, List, map, arith, Text, codes, same_text, if◌then◌else◌}
use notevault.Prelude.Assoc.{Assoc, lookup, insert, lookup-insert}
use notevault.Prelude.Result.{Result, err, unsupported_kv_type}

-- `KVType`
abbrev pub kv_type_redis : Text
kv_type_redis = codes "redis"

abbrev pub kv_type_nats : Text
kv_type_nats = codes "nats"

abbrev pub kv_type_groupcache : Text
kv_type_groupcache = codes "groupcache"

abbrev pub kv_type_memory : Text
kv_type_memory = codes "memory"

-- `Config` is the type of the parts of a configuration, and `Store` that of what a factory makes.
abbrev pub Factories : Type 0 → Type 0 → Type 0
Factories Config Store = Assoc (Config → Result Store)

module _ {Config Store : Type 0} where
  unfoldable pub register_kv_factory :
      Text → (Config → Result Store) → Factories Config Store → Factories Config Store
  unfolding insert
  register_kv_factory kv_type factory factories = insert kv_type factory factories

  unfoldable pub get_registered_kv_types : Factories Config Store → List Text
  get_registered_kv_types factories = map (λ f. f.0) factories

  unfoldable pub new_kv_store : Text → Config → Factories Config Store → Result Store
  unfolding lookup
  new_kv_store kv_type config factories = elim (lookup kv_type factories) [
    | none ↦ err (unsupported_kv_type kv_type)
    | some factory ↦ factory config
  ]

  -- After a registration, its kind is made by the new factory, and every other kind as before.
  new_kv_store-register_kv_factory :
      (kv_type other : Text) (factory : Config → Result Store) (config : Config)
      (factories : Factories Config Store)
      → new_kv_store other config (register_kv_factory kv_type factory factories)
        ≡ (if same_text kv_type other then factory config else new_kv_store other config factories)
  unfolding new_kv_store register_kv_factory
  new_kv_store-register_kv_factory kv_type other factory config factories =
      ground (arith, lookup-insert other kv_type factory factories)

-- `configs.KVConfig`, with the parts that `New` chooses from.
pub record KvConfig (Config : Type 0) : Type 0 where
  pub type : Text
  pub redis : Config
  pub nats : Config
  pub groupcache : Config
  -- no configuration, and the whole one
  pub nothing : Config
  pub whole : Config

-- The choice that `New` makes.
unfoldable pub chosen_config : {Config : Type 0} → KvConfig Config → Config
unfolding same_text
chosen_config cfg =
    if same_text cfg.type kv_type_redis
    then cfg.redis
    else if same_text cfg.type kv_type_nats
    then cfg.nats
    else if same_text cfg.type kv_type_groupcache
    then cfg.groupcache
    else if same_text cfg.type kv_type_memory
    then cfg.nothing
    else cfg.whole

unfoldable pub new :
    {Config Store : Type 0} → KvConfig Config → Factories Config Store → Result Store
unfolding new_kv_store chosen_config
new cfg factories = new_kv_store cfg.type (chosen_config cfg) factories
