-- ===== src/Cache/Coherence.antt =====
-- What the generic cache of cache.go answers, over any store that keeps its promises.
use notevault.Prelude.{
  ℕ, ◌≡◌, sym, ap, ◌∙◌, subst, ◌⊎◌, inl, inr, Bool, true, false, arith, Text, same_text_refl,
  has_prefix, Bool-cases,
}
use notevault.Prelude.Result.{Error, ok, err, Result-cases, marshal_failed}
use notevault.Prelude.Int.{ℤ}
use notevault.Prelude.Codec.{Codec, IsJson}
use notevault.Kv.Ttl.{ttl_magic}
use notevault.Kv.Store.{KvStore, KvLaws, Hit}
use notevault.Cache.{CacheItem, is_over, expires_at, unwrap, wrap, get, set, get_or_set}

module _ (kv : KvStore) (local : Bool) (item_json : Codec CacheItem) {T : Type 0}
    (json : Codec T) where
  -- The bytes hold no value but `v`.
  abbrev pub HoldsOnly : Text → T → Type 0
  HoldsOnly b v =
      (item : CacheItem) (w : T)
      → unwrap kv local item_json b ≡ ok item
      → json.unmarshal item.payload ≡ ok w
      → w ≡ v

  -- Whatever the store may return for the key holds no value but `v`.
  abbrev pub Agrees : kv.State → Text → T → Type 0
  Agrees s key v = (b : Text) → Hit kv s key b → HoldsOnly b v

module _ (kv : KvStore) (law : KvLaws kv) (local : Bool) (item_json : Codec CacheItem)
    (item_law : IsJson item_json) {T : Type 0} (json : Codec T) (json_law : IsJson json) where
  get-Hit :
      (kv_now now : ℕ) (key : Text) (s : kv.State) (w : T)
      → (get kv local item_json json kv_now now key s).0 ≡ ok w
      → (b : Text) × (item : CacheItem) × ((kv.get kv_now key s).0 ≡ ok b)
        × (unwrap kv local item_json b ≡ ok item)
        × (is_over now item.expires_at ≡ false)
        × (json.unmarshal item.payload ≡ ok w)
  unfolding get
  get-Hit kv_now now key s w answer = elim (Result-cases (kv.get kv_now key s).0) [
    | inr (e, miss) ↦ absurd (ground arith)
    | inl (b, read) ↦ elim (Result-cases (unwrap kv local item_json b)) [
      | inr (e, broken) ↦ absurd (ground arith)
      | inl (item, whole) ↦ elim (Bool-cases (is_over now item.expires_at)) [
        | inl over ↦ absurd (ground arith)
        | inr early ↦ elim (Result-cases (json.unmarshal item.payload)) [
          | inr (e, bad) ↦ absurd (ground arith)
          | inl (v, good) ↦ (b, item, read, whole, early, ground arith)
        ]
      ]
    ]
  ]

  unwrap-local :
      (b : Text) (item : CacheItem)
      → local ≡ true
      → unwrap kv local item_json b ≡ ok item
      → item_json.unmarshal b ≡ ok item
  unfolding unwrap
  unwrap-local b item is_local read = elim (Result-cases (item_json.unmarshal b)) [
    | inl (i, good) ↦ ground arith
    | inr (e, bad) ↦ absurd (ground arith)
  ]

  wrap-unwrap :
      (now : ℕ) (payload : Text) (ttl : ℤ) (b : Text) (item : CacheItem)
      → wrap kv local item_json now payload ttl ≡ ok b
      → unwrap kv local item_json b ≡ ok item
      → (item.payload ≡ payload) × ((local ≡ true) → item.expires_at ≡ expires_at now ttl)
  unfolding wrap unwrap
  wrap-unwrap now payload ttl b item written read = elim (Bool-cases local) [
    | inr plain ↦ (ground arith, λ is_local. absurd (cc (is_local, plain)))
    | inl wrapped ↦
        let written_item : CacheItem = record {
          payload = payload;
          expires_at = expires_at now ttl;
        } in
        elim (Result-cases (item_json.marshal written_item)) [
          | inr (e, bad) ↦ absurd (ground arith)
          | inl (c, good) ↦
              let same : c ≡ b = ground arith in
              let back = item_law.round_trip written_item c good in
              let item_same : item ≡ written_item =
                ground (arith, back, same, unwrap-local b item wrapped read) in
              (ap (λ i. i.payload) item_same, λ is_local. ap (λ i. i.expires_at) item_same)
        ]
  ]

  wrap-not_marked :
      (now : ℕ) (v : T) (payload : Text) (ttl : ℤ) (b : Text)
      → json.marshal v ≡ ok payload
      → wrap kv local item_json now payload ttl ≡ ok b
      → has_prefix b ttl_magic ≡ false
  unfolding wrap
  wrap-not_marked now v payload ttl b good written = elim (Bool-cases local) [
    | inr plain ↦
        let same : payload ≡ b = ground arith in
        subst (λ x. has_prefix x ttl_magic ≡ false) same (json_law.not_marked v payload good)
    | inl wrapped ↦
        let item : CacheItem = record { payload = payload; expires_at = expires_at now ttl } in
        elim (Result-cases (item_json.marshal item)) [
          | inr (e, bad) ↦ absurd (ground arith)
          | inl (c, whole) ↦
              let same : c ≡ b = ground arith in
              subst (λ x. has_prefix x ttl_magic ≡ false) same (item_law.not_marked item c whole)
        ]
  ]

  -- `Set` either fails before it reaches the store, or writes bytes that hold its value.
  set-writes :
      (kv_now now : ℕ) (key : Text) (v : T) (ttl : ℤ) (s : kv.State)
      → ((e : Error) × (set kv local item_json json kv_now now key v ttl s ≡ (err e, s)))
        ⊎ ((b : Text) × (payload : Text) × (json.marshal v ≡ ok payload)
            × (wrap kv local item_json now payload ttl ≡ ok b)
            × (set kv local item_json json kv_now now key v ttl s ≡ kv.set kv_now key b ttl s))
  unfolding set
  set-writes kv_now now key v ttl s = elim (Result-cases (json.marshal v)) [
    | inr (e, bad) ↦ inl (marshal_failed e, ground arith)
    | inl (payload, good) ↦ elim (Result-cases (wrap kv local item_json now payload ttl)) [
      | inr (e, bad) ↦ inl (e, ground arith)
      | inl (b, written) ↦ inr (b, payload, good, written, ground arith)
    ]
  ]

  -- Bytes that `Set` wrote hold its value only.
  wrap-HoldsOnly :
      (now : ℕ) (v : T) (payload : Text) (ttl : ℤ) (b : Text)
      → json.marshal v ≡ ok payload
      → wrap kv local item_json now payload ttl ≡ ok b
      → HoldsOnly kv local item_json json b v
  wrap-HoldsOnly now v payload ttl b good written item w read value =
      let back = json_law.round_trip v payload good in
      let same = (wrap-unwrap now payload ttl b item written read).0 in
      ground (arith, back, same, value)

  pub get-set_value :
      (kv_now now kv_now' now' : ℕ) (key : Text) (v w : T) (ttl : ℤ) (s : kv.State)
      → (set kv local item_json json kv_now now key v ttl s).0 ≡ ok tt
      → (get kv local item_json json kv_now' now' key
          (set kv local item_json json kv_now now key v ttl s).1).0
        ≡ ok w
      → (w ≡ v) × ((local ≡ true) → is_over now' (expires_at now ttl) ≡ false)
  get-set_value kv_now now kv_now' now' key v w ttl s stored answer =
      elim (set-writes kv_now now key v ttl s) [
        | inl (e, bad) ↦ absurd (ground arith)
        | inr (b, payload, good, written, same) ↦
            let s' = (kv.set kv_now key b ttl s).1 in
            let (c, item, read, whole, early, value) =
              get-Hit kv_now' now' key s' w (ground arith) in
            elim (law.set_hit kv_now key b ttl key c s
              (wrap-not_marked now v payload ttl b good written) (ground arith) (kv_now', read)) [
                | inr (other, old) ↦ absurd (cc (other, same_text_refl key))
                | inl (own, from) ↦
                    let read_b : unwrap kv local item_json b ≡ ok item =
                      ap (unwrap kv local item_json) (sym from) ∙ whole in
                    let both = wrap-unwrap now payload ttl b item written read_b in
                    (
                      wrap-HoldsOnly now v payload ttl b good written item w read_b value,
                      λ is_local. ap (is_over now') (sym (both.1 is_local)) ∙ early,
                    )
              ]
      ]

  -- `Get` drops an expired entry at most.
  get-state :
      (kv_now now : ℕ) (key : Text) (s : kv.State)
      → ((get kv local item_json json kv_now now key s).1 ≡ (kv.get kv_now key s).1)
        ⊎ ((get kv local item_json json kv_now now key s).1
            ≡ (kv.delete key (kv.get kv_now key s).1).1)
  unfolding get
  get-state kv_now now key s = elim (Result-cases (kv.get kv_now key s).0) [
    | inr (e, miss) ↦ inl (ground arith)
    | inl (b, read) ↦ elim (Result-cases (unwrap kv local item_json b)) [
      | inr (e, broken) ↦ inl (ground arith)
      | inl (item, whole) ↦ elim (Bool-cases (is_over now item.expires_at)) [
        | inl over ↦ inr (ground arith)
        | inr early ↦ inl (ground arith)
      ]
    ]
  ]

  Agrees-delete :
      (key : Text) (v : T) (s : kv.State)
      → Agrees kv local item_json json s key v
      → Agrees kv local item_json json (kv.delete key s).1 key v
  Agrees-delete key v s agrees b hit = elim (Result-cases (kv.delete key s).0) [
    | inl (u, done) ↦ agrees b (law.delete_hit key key b s done hit).1
    | inr (e, failed) ↦ agrees b (law.delete_err_hit key key b s e failed hit)
  ]

  Agrees-get :
      (kv_now now : ℕ) (key : Text) (v : T) (s : kv.State)
      → Agrees kv local item_json json s key v
      → Agrees kv local item_json json (get kv local item_json json kv_now now key s).1 key v
  Agrees-get kv_now now key v s agrees =
      let s1 = (kv.get kv_now key s).1 in
      let agrees1 : Agrees kv local item_json json s1 key v =
        λ b hit. agrees b (law.get_hit kv_now key key b s hit) in
      elim (get-state kv_now now key s) [
        | inl kept ↦ subst (λ t. Agrees kv local item_json json t key v) (sym kept) agrees1
        | inr dropped ↦
            subst (λ t. Agrees kv local item_json json t key v) (sym dropped)
              (Agrees-delete key v s1 agrees1)
      ]

  Agrees-set :
      (kv_now now : ℕ) (key : Text) (v : T) (ttl : ℤ) (s : kv.State)
      → Agrees kv local item_json json s key v
      → Agrees kv local item_json json (set kv local item_json json kv_now now key v ttl s).1 key v
  Agrees-set kv_now now key v ttl s agrees = elim (set-writes kv_now now key v ttl s) [
    | inl (e, bad) ↦ subst (λ t. Agrees kv local item_json json t.1 key v) (sym bad) agrees
    | inr (b, payload, good, written, same) ↦
        let holds = wrap-HoldsOnly now v payload ttl b good written in
        let plain = wrap-not_marked now v payload ttl b good written in
        subst (λ t. Agrees kv local item_json json t.1 key v) (sym same)
          (λ c hit. elim (Result-cases (kv.set kv_now key b ttl s).0) [
            | inl (u, done) ↦ elim (law.set_hit kv_now key b ttl key c s plain done hit) [
              | inl (own, from) ↦
                  subst (λ x. HoldsOnly kv local item_json json x v) (sym from) holds
              | inr (other, old) ↦ agrees c old
            ]
            | inr (e, failed) ↦ elim (law.set_err_hit kv_now key b ttl key c s e plain failed hit) [
              | inl (own, from) ↦
                  subst (λ x. HoldsOnly kv local item_json json x v) (sym from) holds
              | inr old ↦ agrees c old
            ]
          ])
  ]

  hit_state :
      (kv_now now kv_now' now' : ℕ) (key : Text) (v w : T) (ttl : ℤ) (s : kv.State)
      → (get kv local item_json json kv_now now key s).0 ≡ ok w
      → (get_or_set kv local item_json json kv_now now kv_now' now' key (ok v) ttl s).1
        ≡ (get kv local item_json json kv_now now key s).1
  unfolding get_or_set
  hit_state kv_now now kv_now' now' key v w ttl s hit = ground (arith, hit)

  miss_state :
      (kv_now now kv_now' now' : ℕ) (key : Text) (v : T) (e : Error) (ttl : ℤ) (s : kv.State)
      → (get kv local item_json json kv_now now key s).0 ≡ err e
      → (get_or_set kv local item_json json kv_now now kv_now' now' key (ok v) ttl s).1
        ≡ (set kv local item_json json kv_now' now' key v ttl
            (get kv local item_json json kv_now now key s).1).1
  unfolding get_or_set
  miss_state kv_now now kv_now' now' key v e ttl s miss = ground (arith, miss)

  -- Where all that the store may return for the key holds the value that the getter gives, `GetOrSet`
  -- answers with this value, whatever fails in the store, and the store agrees with it afterwards.
  pub get_or_set-Agrees :
      (kv_now now kv_now' now' : ℕ) (key : Text) (v : T) (ttl : ℤ) (s : kv.State)
      → Agrees kv local item_json json s key v
      → ((get_or_set kv local item_json json kv_now now kv_now' now' key (ok v) ttl s).0 ≡ ok v)
        × Agrees kv local item_json json
            (get_or_set kv local item_json json kv_now now kv_now' now' key (ok v) ttl s).1
            key
            v
  unfolding get_or_set
  get_or_set-Agrees kv_now now kv_now' now' key v ttl s agrees =
      let s1 = (get kv local item_json json kv_now now key s).1 in
      let after = Agrees-get kv_now now key v s agrees in
      elim (Result-cases (get kv local item_json json kv_now now key s).0) [
        | inl (w, hit) ↦
            let (b, item, read, whole, early, value) = get-Hit kv_now now key s w hit in
            let same = agrees b (kv_now, read) item w whole value in
            (
              ground (arith, hit, same),
              subst (λ t. Agrees kv local item_json json t key v)
                  (sym (hit_state kv_now now kv_now' now' key v w ttl s hit)) after,
            )
        | inr (e, miss) ↦ (
          ground (arith, miss),
          subst (λ t. Agrees kv local item_json json t key v)
              (sym (miss_state kv_now now kv_now' now' key v e ttl s miss))
              (Agrees-set kv_now' now' key v ttl s1 after),
        )
      ]
