-- ===== src/Base/Words.antt =====
-- Unsigned words as native numbers, with the saturating operations of `u8` and `u64`.
use Prim.Native.Nat.{ℕ, ◌+◌, ◌-◌, ◌*◌, min}

abbrev pub u8_max : ℕ
u8_max = 255

abbrev pub u64_max : ℕ
u64_max = 0xffffffffffffffff

abbrev pub i64_max : ℕ
i64_max = 0x7fffffffffffffff

-- `u8::saturating_add`, `u64::saturating_add` and `u64::saturating_mul`.
abbrev pub saturating_add_u8 : ℕ → ℕ → ℕ
saturating_add_u8 a b = min (a + b) u8_max

abbrev pub saturating_add : ℕ → ℕ → ℕ
saturating_add a b = min (a + b) u64_max

abbrev pub saturating_mul : ℕ → ℕ → ℕ
saturating_mul a b = min (a * b) u64_max

-- `saturating_sub` is the subtraction of the native numbers.
abbrev pub saturating_sub : ℕ → ℕ → ℕ
saturating_sub a b = a - b
