-- ===== src/Runtime/Uid/Order.antt =====
-- The comparison of UIDs that decides an address conflict.
use native.Mathlib.Nat.{mul-le-mul_left}
use esphome_hacan.Base.{
  zero, suc, ℕ, ◌+◌, ◌*◌, ◌^◌, ◌<◌, ◌≡◌, ◌≢◌, ◌⊎◌, ◌↔◌, true, false, arith, Bool-cases, Bool,
  if◌then◌else◌, ◌==◌, ltb,
}
use esphome_hacan.Runtime.Uid.{Uid, byte, same_uid, lower_uid, lower_from}

-- The UID as a number, its first byte lowest.
abbrev pub uid_value : Uid → ℕ
uid_value u = u.u0 + 256 * (u.u1 + 256 * (u.u2 + 256 * (u.u3 + 256 * (u.u4 + 256 * u.u5))))

pub record IsUid (u : Uid) : Type 0 where
  pub lt0 : u.u0 < 256
  pub lt1 : u.u1 < 256
  pub lt2 : u.u2 < 256
  pub lt3 : u.u3 < 256
  pub lt4 : u.u4 < 256
  pub lt5 : u.u5 < 256

pub same_uid_iff : (a b : Uid) → (same_uid a b ≡ true) ↔ (a ≡ b)
unfolding same_uid
same_uid_iff a b = ground arith

-- One digit more, in the base `m` that the lower digits fit.
mul_lt : (x y m p q : ℕ) → p < m → x < y → p + m * x < q + m * y
mul_lt x y m p q h k = omega (arith, mul-le-mul_left m k)

digit_more :
    (x y m p q : ℕ) (lower : Bool)
    → p < m
    → q < m
    → (lower ≡ true) ↔ (p < q)
    → ((if x == y then lower else ltb x y) ≡ true) ↔ (p + m * x < q + m * y)
digit_more x y m p q lower hp hq h = ground (arith, mul_lt x y m p q hp, mul_lt y x m q p hq)

-- The number of the first `n` bytes.
abbrev low : ℕ → Uid → ℕ
low zero u = 0
low (suc n) u = low n u + 256 ^ n * byte u n

module _ (a b : Uid) (ha : IsUid a) (hb : IsUid b) where
  lower_more :
      (n : ℕ)
      → low n a < 256 ^ n
      → low n b < 256 ^ n
      → (lower_from n a b ≡ true) ↔ (low n a < low n b)
      → (lower_from (suc n) a b ≡ true) ↔ (low (suc n) a < low (suc n) b)
  unfolding lower_from
  lower_more n h k prior =
      digit_more (byte a n) (byte b n) (256 ^ n) (low n a) (low n b) (lower_from n a b) h k prior

  lower_none : (lower_from 0 a b ≡ true) ↔ (low 0 a < low 0 b)
  unfolding lower_from
  lower_none = ground arith

  lower_six : (lower_from 6 a b ≡ true) ↔ (low 6 a < low 6 b)
  lower_six = lower_more 5 (omega arith) (omega arith) (
      lower_more 4 (omega arith) (omega arith) (
        lower_more 3 (omega arith) (omega arith) (
          lower_more 2 (omega arith) (omega arith) (
            lower_more 1 (omega arith) (omega arith)
              (lower_more 0 (omega arith) (omega arith) lower_none)))))

-- The byte-wise comparison is the comparison of the numbers.
pub lower_uid_iff :
    (a b : Uid) → IsUid a → IsUid b → (lower_uid a b ≡ true) ↔ (uid_value a < uid_value b)
unfolding lower_uid
lower_uid_iff a b ha hb =
    (λ h. omega (arith, (lower_six a b ha hb).0 h), λ h. (lower_six a b ha hb).1 (omega arith))

uid_value-injective : (a b : Uid) → IsUid a → IsUid b → uid_value a ≡ uid_value b → a ≡ b
uid_value-injective a b ha hb e = ground arith

-- Of two different UIDs exactly one is the lower.
pub lower_uid_total :
    (a b : Uid)
    → IsUid a
    → IsUid b
    → a ≢ b
    → ((lower_uid a b ≡ true) × (lower_uid b a ≡ false))
      ⊎ ((lower_uid a b ≡ false) × (lower_uid b a ≡ true))
lower_uid_total a b ha hb ne = ground (
  arith,
  lower_uid_iff a b ha hb,
  lower_uid_iff b a hb ha,
  uid_value-injective a b ha hb,
  Bool-cases (lower_uid a b),
  Bool-cases (lower_uid b a),
)
