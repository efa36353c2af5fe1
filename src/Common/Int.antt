-- ===== src/Common/Int.antt =====
-- C's `int`: unbounded here, with the division that rounds towards 0.
use Prim.Native.Nat.{ℕ, zero, suc, ◌-◌, ◌*◌, ◌/◌, ◌%◌}
use mathlib.Core.Bool.{Bool, true, false}
use snmediaplayer_new.Common.Tests.{ltb, ◌==◌, if◌then◌else◌}

-- `negsuc n` is -(n + 1).
pub data ℤ : Type 0 where
  pos : ℕ → ℤ
  negsuc : ℕ → ℤ

abbrev pub neg : ℕ → ℤ
neg zero = pos 0
neg (suc n) = negsuc n

-- `ret == 0`.
abbrev pub is_zero : ℤ → Bool
is_zero (pos zero) = true
is_zero (pos (suc n)) = false
is_zero (negsuc n) = false

-- `ret > 0`.
abbrev pub is_positive : ℤ → Bool
is_positive (pos zero) = false
is_positive (pos (suc n)) = true
is_positive (negsuc n) = false

-- `ret < 0`.
abbrev pub is_negative : ℤ → Bool
is_negative (pos n) = false
is_negative (negsuc n) = true

-- `x * m / d` for positive `m` and `d`.
abbrev pub scale : ℤ → ℕ → ℕ → ℤ
scale (pos x) m d = pos (x * m / d)
scale (negsuc x) m d = neg (suc x * m / d)

-- `ret == -1`.
abbrev pub is_minus_one : ℤ → Bool
is_minus_one (negsuc zero) = true
is_minus_one _ = false

-- `ret == 1`.
abbrev pub is_one : ℤ → Bool
is_one (pos (suc zero)) = true
is_one _ = false

-- Conversions to unsigned types: `2 ^ w` is added until the value is not negative.
abbrev pub to_u32 : ℤ → ℕ
to_u32 (pos n) = n % 4294967296
to_u32 (negsuc n) = 4294967295 - n % 4294967296

abbrev pub to_u16 : ℤ → ℕ
to_u16 (pos n) = n % 65536
to_u16 (negsuc n) = 65535 - n % 65536

-- A conversion of an unsigned number of 32 bits to `long`.
abbrev pub to_i32 : ℕ → ℤ
to_i32 n = if ltb n 2147483648 then pos n else negsuc (4294967295 - n)

-- `a == b`.
abbrev pub int_eq : ℤ → ℤ → Bool
int_eq (pos m) (pos n) = m == n
int_eq (negsuc m) (negsuc n) = m == n
int_eq _ _ = false
