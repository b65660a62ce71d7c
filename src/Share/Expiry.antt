-- ===== src/Share/Expiry.antt =====
-- When a share expires, and for how long it is cached.
use notevault.Prelude.{
  ℕ, zero, suc, ◌+◌, ◌-◌, ◌*◌, ◌^◌, ◌≤◌, ◌<◌, ◌≡◌, refl, ◌⊎◌, inl, inr, true, Option, none, some,
  arith,
}
use notevault.Prelude.Int.{pos, negsuc, pos_part, nanoseconds}
use notevault.Share.Cache.{share_cache_max_ttl, ttl_from_expire, is_expired}
use notevault.Share.Service.{days_duration, expire_of}

abbrev pub day : ℕ
day = 24 * (3600 * nanoseconds)

-- A share that is loaded is cached for thirty minutes at most, and never past its expiry.
pub ttl_from_expire_bounds :
    (now : ℕ) (exp : Option ℕ)
    → (pos_part (ttl_from_expire now exp) ≤ share_cache_max_ttl)
      × (exp ≡ none ⊎ ((e : ℕ) × (exp ≡ some e) × (pos_part (ttl_from_expire now exp) ≤ e - now)))
unfolding ttl_from_expire
ttl_from_expire_bounds now none = (ground arith, inl refl)
ttl_from_expire_bounds now (some e) = (ground arith, inr (e, refl, ground arith))

days_exact : (n : ℕ) → n ≤ 106751 → days_duration (pos n) ≡ pos (n * day)
days_exact n k = ground arith

-- Up to 106751 days the expiry is exact.
pub expire_of_exact :
    (now n : ℕ) → 0 < n → n ≤ 106751 → expire_of now (pos n) ≡ some (now + n * day)
expire_of_exact now zero h k = absurd (omega arith)
expire_of_exact now (suc n) h k = ground (arith, days_exact (suc n) k)

days_wrap :
    (n : ℕ) → 106752 ≤ n → n ≤ 213503 → days_duration (pos n) ≡ negsuc (2 ^ 64 - n * day - 1)
days_wrap n h k = ground arith

-- From 106752 to 213503 days the product wraps around to a negative duration: the share has expired
-- when it is created, wherever the clock does not show the zero time.
pub expire_of_wraps :
    (now n : ℕ)
    → 106752 ≤ n
    → n ≤ 213503
    → 0 < now
    → (e : ℕ) × (expire_of now (pos n) ≡ some e) × (is_expired now (some e) ≡ true)
unfolding is_expired
expire_of_wraps now zero h k l = absurd (omega arith)
expire_of_wraps now (suc n) h k l =
    (now - suc (2 ^ 64 - suc n * day - 1), ground (arith, days_wrap (suc n) h k), ground arith)
