-- ===== src/Common/Decimal.antt =====
-- `atoi` and the `%u` of `printf`.
pub mod RoundTrip
pub mod Size
use Prim.Native.Nat.{ℕ, zero, suc, ◌+◌, ◌-◌, ◌*◌, ◌/◌, ◌%◌, ◌≤◌, ◌<◌}
use mathlib.Core.Path.{◌≡◌, refl, sym, ◌∙◌, ap}
use mathlib.Core.Bool.{Bool, true, false, ◌&&◌, ◌||◌}
use mathlib.Core.List.{List, [], ◌∷◌, ◌++◌, append_assoc}
use native.Mathlib.Omega.{arith}
use snmediaplayer_new.Common.Tests.{leb, ltb, ◌==◌, if◌then◌else◌, Bool-cases}
use snmediaplayer_new.Common.Lists.{length}
use snmediaplayer_new.Common.Int.{ℤ, pos, negsuc, neg}
use snmediaplayer_new.Common.Text.{Bytes}

abbrev pub is_digit : ℕ → Bool
is_digit c = leb b'0' c && leb c b'9'

-- The digits at the head of a text, after `acc`.
unfoldable pub digits_from : ℕ → Bytes → ℕ
digits_from acc [] = acc
digits_from acc (c ∷ s) =
    let rest = digits_from (acc * 10 + (c - b'0')) s in if is_digit c then rest else acc

abbrev is_space : ℕ → Bool
is_space c = c == 32 || (leb 9 c && leb c 13)

abbrev signed : Bytes → ℤ
signed [] = pos 0
signed (c ∷ s) =
    if c == b'-'
    then neg (digits_from 0 s)
    else if c == b'+'
    then pos (digits_from 0 s)
    else pos (digits_from 0 (c ∷ s))

-- `atoi(s)`, with no bound on the value.
unfoldable pub atoi : Bytes → ℤ
atoi [] = pos 0
atoi (c ∷ s) = let rest = atoi s in if is_space c then rest else signed (c ∷ s)

-- The decimal digits of `n`, most significant first, in front of `tail`, with fuel.
unfoldable pub print_onto : ℕ → ℕ → Bytes → Bytes
print_onto zero n tail = tail
print_onto (suc f) n tail =
    let out = (b'0' + n % 10) ∷ tail in
    let more = print_onto f (n / 10) out in if ltb n 10 then out else more

-- `%u`: a number has at most `n + 1` digits.
unfoldable pub print : ℕ → Bytes
print n = print_onto (suc n) n []

-- `%d` and `%ld`.
unfoldable pub print_int : ℤ → Bytes
unfolding print
print_int (pos n) = print n
print_int (negsuc n) = b'-' ∷ print (suc n)

-- `%ld` of an `unsigned long` of 32 bits.
unfoldable pub print_long : ℕ → Bytes
unfolding print
print_long n = if ltb n 2147483648 then print n else b'-' ∷ print (4294967296 - n)
