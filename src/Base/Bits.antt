-- ===== src/Base/Bits.antt =====
-- `|` of fields that do not overlap is a sum, `&` with a low mask is a remainder.
use Prim.Native.Nat.{
  ℕ, zero, suc, ◌+◌, ◌-◌, ◌*◌, ◌/◌, ◌%◌, ◌^◌, ◌≤◌, ◌<◌, min, max, bit_and, bit_or, digits,
  bit_and-bitwise, bit_or-bitwise,
}
use esphome_hacan.Base.Tests.{leb, Bool-cases}
use mathlib.Core.Logic.{inl, inr}
use mathlib.Core.Path.{◌≡◌, refl, ap}
use native.Mathlib.Nat.{pow-suc, one-le-pow}
use native.Mathlib.Omega.{arith}

-- A bitwise operation: `merge` combines the lowest binary digits, `rest` is what is left of the
-- right number when the left one has no more digits.
module _ (rest : ℕ → ℕ) (merge : ℕ → ℕ → ℕ) where
  -- One more round than the left number needs changes nothing.
  spare_round :
      (left right rounds : ℕ)
      → left ≤ rounds
      → digits rest merge (suc rounds) left right ≡ digits rest merge rounds left right
  spare_round zero right zero fits = refl
  spare_round zero right (suc rounds) fits = refl
  spare_round (suc left) right zero fits = absurd (omega arith)
  spare_round (suc left) right (suc rounds) fits =
      omega (arith, spare_round (suc left / 2) (right / 2) rounds (omega arith))

  enough_rounds :
      (rounds left right : ℕ)
      → left ≤ rounds
      → digits rest merge rounds left right ≡ digits rest merge left left right
  enough_rounds zero left right fits =
      ap (λ (n : ℕ). digits rest merge n left right) {x = 0} (omega arith)
  enough_rounds (suc rounds) left right fits = elim (Bool-cases (leb left rounds)) [
    | inl loose ↦ ground (arith, spare_round left right rounds, enough_rounds rounds left right)
    | inr tight ↦ ap (λ (n : ℕ). digits rest merge n left right) {x = suc rounds} (ground arith)
  ]

or_lowest : (a b : ℕ) → bit_or a b ≡ max (a % 2) (b % 2) + 2 * bit_or (a / 2) (b / 2)
or_lowest zero b = omega (arith, bit_or-bitwise zero (b / 2), bit_or-bitwise zero b)
or_lowest (suc a) b =
    let halves = enough_rounds (λ right. right) max a (suc a / 2) (b / 2) (omega arith) in
    omega (arith, halves, bit_or-bitwise (suc a / 2) (b / 2), bit_or-bitwise (suc a) b)

and_lowest : (a b : ℕ) → bit_and a b ≡ min (a % 2) (b % 2) + 2 * bit_and (a / 2) (b / 2)
and_lowest zero b = omega (arith, bit_and-bitwise zero (b / 2), bit_and-bitwise zero b)
and_lowest (suc a) b =
    let halves = enough_rounds (λ right. 0) min a (suc a / 2) (b / 2) (omega arith) in
    omega (arith, halves, bit_and-bitwise (suc a / 2) (b / 2), bit_and-bitwise (suc a) b)

-- Zero on the right: a neutral element of `|`, an absorbing one of `&`.
zero_right : (limit a : ℕ) → a ≤ limit → bit_or a 0 ≡ a × bit_and a 0 ≡ 0
zero_right zero zero below = (refl, refl)
zero_right zero (suc a) below = absurd (omega arith)
zero_right (suc limit) a below = elim (Bool-cases (leb a limit)) [
  | inl low ↦ zero_right limit a (ground arith)
  | inr top ↦
      let deeper = zero_right limit (a / 2) (ground arith) in
      (omega (arith, or_lowest a 0, deeper.0), omega (arith, and_lowest a 0, deeper.1))
]

shifted : (x k : ℕ) → x * 2 ^ suc k ≡ 2 * (x * 2 ^ k)
shifted x k = omega (arith, ap (λ (t : ℕ). x * t) (pow-suc 2 k))

-- `(high << k) | low` is a sum when `low` has at most `k` bits.
pub or_fields : (k high low : ℕ) → low < 2 ^ k → bit_or (high * 2 ^ k) low ≡ high * 2 ^ k + low
or_fields zero high low h = ground (arith, (zero_right high high (omega arith)).0)
or_fields (suc k) high low h = ground (
  arith,
  or_lowest (high * 2 ^ suc k) low,
  shifted high k,
  pow-suc 2 k,
  or_fields k high (low / 2) (omega (arith, pow-suc 2 k)),
)

and_fields : (k high low : ℕ) → low < 2 ^ k → bit_and (high * 2 ^ k + low) (2 ^ k - 1) ≡ low
and_fields zero high low h =
    ground (arith, (zero_right (high * 2 ^ 0 + low) (high * 2 ^ 0 + low) (omega arith)).1)
and_fields (suc k) high low h = ground (
  arith,
  and_lowest (high * 2 ^ suc k + low) (2 ^ suc k - 1),
  shifted high k,
  pow-suc 2 k,
  one-le-pow k 2,
  and_fields k high (low / 2) (omega (arith, pow-suc 2 k)),
)

-- `a & (2 ^ k - 1)` keeps the low `k` bits.
pub and_mask : (k a : ℕ) → bit_and a (2 ^ k - 1) ≡ a % 2 ^ k
and_mask k a = ground (arith, one-le-pow k 2, and_fields k (a / 2 ^ k) (a % 2 ^ k))

-- The same with the low field on the left, as the code joins bytes, lowest first.
pub or_fields_low : (k low high : ℕ) → low < 2 ^ k → bit_or low (high * 2 ^ k) ≡ high * 2 ^ k + low
or_fields_low zero low high h = ground (arith, bit_or-bitwise 0 (high * 2 ^ 0))
or_fields_low (suc k) low high h = ground (
  arith,
  or_lowest low (high * 2 ^ suc k),
  shifted high k,
  pow-suc 2 k,
  or_fields_low k (low / 2) high (omega (arith, pow-suc 2 k)),
)
