-- ===== src/Base/Int.antt =====
-- Signed integers over the native numbers.
use Prim.Native.Nat.{ℕ, ◌-◌, ◌%◌}
use mathlib.Core.Bool.{Bool, true, false}
use duckdb_aws_glue.Base.Tests.{leb}

-- `negsuc n` is -(n + 1).
pub data ℤ : Type 0 where
  pos : ℕ → ℤ
  negsuc : ℕ → ℤ

-- a ≤ b
abbrev pub leb_ℤ : ℤ → ℤ → Bool
leb_ℤ (pos a) (pos b) = leb a b
leb_ℤ (pos a) (negsuc b) = false
leb_ℤ (negsuc a) (pos b) = true
leb_ℤ (negsuc a) (negsuc b) = leb b a

-- static_cast<uint8_t>(n & 0xFF)
abbrev pub low_byte : ℤ → ℕ
low_byte (pos a) = a % 256
low_byte (negsuc a) = 255 - a % 256
