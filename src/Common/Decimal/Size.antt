-- ===== src/Common/Decimal/Size.antt =====
-- How many bytes `%u` prints.
use Prim.Native.Nat.{ℕ, zero, suc, ◌+◌, ◌/◌, ◌%◌, ◌^◌, ◌≤◌, ◌<◌}
use mathlib.Core.Logic.{inl, inr}
use mathlib.Core.List.{[], ◌∷◌}
use native.Mathlib.Omega.{arith}
use native.Mathlib.Nat.{pow-suc}
use snmediaplayer_new.Common.Tests.{ltb, Bool-cases}
use snmediaplayer_new.Common.Lists.{length}
use snmediaplayer_new.Common.Text.{Bytes}
use snmediaplayer_new.Common.Decimal.{print_onto, print}

large_case :
    (f n k : ℕ) (tail : Bytes)
    → n < 10 ^ suc k
    → 10 ≤ n
    → ((k : ℕ) (tail : Bytes)
        → n / 10 < 10 ^ suc k
        → length (print_onto f (n / 10) tail) ≤ suc k + length tail)
    → length (print_onto f (n / 10) ((b'0' + n % 10) ∷ tail)) ≤ suc k + length tail
large_case f n zero tail h g ih = absurd (omega arith)
large_case f n (suc k) tail h g ih =
    omega (arith, ih k ((b'0' + n % 10) ∷ tail) (omega (arith, pow-suc 10 (suc k))))

length-print_onto-le :
    (f n k : ℕ) (tail : Bytes) → n < 10 ^ suc k → length (print_onto f n tail) ≤ suc k + length tail
unfolding print_onto
length-print_onto-le zero n k tail h = omega arith
length-print_onto-le (suc f) n k tail h = elim (Bool-cases (ltb n 10)) [
  | inl small ↦ rw small (omega arith)
  | inr large ↦ rw large (large_case f n k tail h (ground arith) (length-print_onto-le f (n / 10)))
]

-- A number of 32 bits is printed in at most 10 bytes.
pub length-print-le : (n : ℕ) → n < 4294967296 → length (print n) ≤ 10
unfolding print
length-print-le n h = omega (arith, length-print_onto-le (suc n) n 9 [])
