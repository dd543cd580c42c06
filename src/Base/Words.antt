-- ===== src/Base/Words.antt =====
-- Casts to the fixed widths and the shifts of C++, and the arrays of bytes that the code passes.
use Prim.Native.Nat.{ℕ, ◌*◌, ◌/◌, ◌%◌, ◌^◌, ◌<◌}

abbrev pub u8 : ℕ → ℕ
u8 n = n % 2 ^ 8

abbrev pub u16 : ℕ → ℕ
u16 n = n % 2 ^ 16

abbrev pub u32 : ℕ → ℕ
u32 n = n % 2 ^ 32

-- `x << k` before the cast that cuts it off, and `x >> k`.
infixl 75 ◌<<<◌ ◌>>>◌
abbrev pub ◌<<<◌ : ℕ → ℕ → ℕ
x <<< k = x * 2 ^ k

abbrev pub ◌>>>◌ : ℕ → ℕ → ℕ
x >>> k = x / 2 ^ k

-- `std::array<std::uint8_t, 8>`, `std::array<std::uint8_t, 4>` and `NodeUid`.
pub record Bytes8 : Type 0 where
  pub b0 : ℕ
  pub b1 : ℕ
  pub b2 : ℕ
  pub b3 : ℕ
  pub b4 : ℕ
  pub b5 : ℕ
  pub b6 : ℕ
  pub b7 : ℕ

pub record Bytes4 : Type 0 where
  pub v0 : ℕ
  pub v1 : ℕ
  pub v2 : ℕ
  pub v3 : ℕ

-- Each entry of the array is a `std::uint8_t`.
pub record IsBytes (b : Bytes8) : Type 0 where
  pub lt0 : b.b0 < 256
  pub lt1 : b.b1 < 256
  pub lt2 : b.b2 < 256
  pub lt3 : b.b3 < 256
  pub lt4 : b.b4 < 256
  pub lt5 : b.b5 < 256
  pub lt6 : b.b6 < 256
  pub lt7 : b.b7 < 256
