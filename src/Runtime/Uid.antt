-- ===== src/Runtime/Uid.antt =====
-- `NodeUid` and what the runtime computes from it.
pub mod Order
use esphome_hacan.Base.{
  ℕ, zero, suc, ◌+◌, ◌*◌, ◌%◌, Bool, false, ◌&&◌, Bytes8, ltb, ◌==◌, if◌then◌else◌, ◌<<<◌, bit_or,
  bit_xor, u32, List, [], ◌∷◌,
}

pub record Uid : Type 0 where
  pub u0 : ℕ
  pub u1 : ℕ
  pub u2 : ℕ
  pub u3 : ℕ
  pub u4 : ℕ
  pub u5 : ℕ

-- The bytes 0 to 5, and 1 to 6, of a payload.
abbrev pub uid_at_0 : Bytes8 → Uid
uid_at_0 b = record { u0 = b.b0; u1 = b.b1; u2 = b.b2; u3 = b.b3; u4 = b.b4; u5 = b.b5 }

abbrev pub uid_at_1 : Bytes8 → Uid
uid_at_1 b = record { u0 = b.b1; u1 = b.b2; u2 = b.b3; u3 = b.b4; u4 = b.b5; u5 = b.b6 }

abbrev pub byte : Uid → ℕ → ℕ
byte u zero = u.u0
byte u (suc zero) = u.u1
byte u (suc (suc zero)) = u.u2
byte u (suc (suc (suc zero))) = u.u3
byte u (suc (suc (suc (suc zero)))) = u.u4
byte u (suc (suc (suc (suc (suc i))))) = u.u5

-- The loop that compares all bytes.
unfoldable pub same_uid : Uid → Uid → Bool
same_uid a b =
    a.u0 == b.u0 && a.u1 == b.u1 && a.u2 == b.u2 && a.u3 == b.u3 && a.u4 == b.u4 && a.u5 == b.u5

-- The loop from the last byte down: the first byte that differs decides, and equal UIDs do not win.
unfoldable pub lower_from : ℕ → Uid → Uid → Bool
lower_from zero a b = false
lower_from (suc index) a b =
    if byte a index == byte b index then lower_from index a b else ltb (byte a index) (byte b index)

unfoldable pub lower_uid : Uid → Uid → Bool
unfolding lower_from
lower_uid = lower_from 6

abbrev pub uid_bytes : Uid → List ℕ
uid_bytes u = u.u0 ∷ u.u1 ∷ u.u2 ∷ u.u3 ∷ u.u4 ∷ u.u5 ∷ []

unfoldable pub fold {ℓ} : {A : Type ℓ} → (A → ℕ → A) → A → List ℕ → A
fold step a [] = a
fold step a (x ∷ xs) = fold step (step a x) xs

-- Four bytes, lowest first, as a `std::uint32_t`.
unfoldable pub u32_le : ℕ → ℕ → ℕ → ℕ → ℕ
u32_le a b c d = bit_or (bit_or (bit_or a (b <<< 8)) (c <<< 16)) (u32 (d <<< 24))

-- The codec lets only windows from 1000 to 10000 through, so the code never divides by zero.
unfoldable pub discovery_response_delay : Uid → Bytes8 → ℕ
unfolding fold u32_le
discovery_response_delay uid request =
    let start = u32_le request.b4 request.b5 request.b6 request.b7 in
    let hash = fold (λ hash byte. bit_xor (u32 (hash * 33)) byte) start (uid_bytes uid) in
    let window = bit_or request.b2 (request.b3 <<< 8) in hash % window

unfoldable pub uid_hash : Uid → ℕ
unfolding fold
uid_hash uid = fold (λ hash byte. u32 (bit_xor hash byte * 16777619)) 2166136261 (uid_bytes uid)

unfoldable pub claim_start_delay : Uid → ℕ
unfolding uid_hash
claim_start_delay uid = 1000 + uid_hash uid % 1501

unfoldable pub claim_interval : Uid → ℕ
unfolding uid_hash
claim_interval uid = 250 + uid_hash uid % 251
