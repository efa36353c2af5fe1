-- ===== src/Player/Json/Positions.antt =====
-- Positions in the text that the browser passes: what stands behind them, and what is found from them.
use snmediaplayer_new.Common.{
  ℕ, zero, suc, ◌+◌, ◌-◌, ◌≤◌, ◌<◌, ◌≡◌, refl, sym, ap, ◌∙◌, true, false, some, [], ◌∷◌, ◌++◌,
  length, length-append, drop, leb, ◌==◌, arith,
}
use snmediaplayer_new.Common.Text.{Bytes, starts_with, strstr}
use snmediaplayer_new.Common.Text.Matches.{Lacks, strstr-Lacks, take-append, drop-append}
use snmediaplayer_new.Common.Decimal.RoundTrip.{NoDigit}
use snmediaplayer_new.Player.Json.{find, substr, add32, sub32, quote, value_span}

-- Behind the position stands the text `t`, up to the end.
abbrev pub Stands : Bytes → ℕ → Bytes → Type 0
Stands json n t = (drop n json ≡ t) × (n + length t ≡ length json)

drop-empty : (n : ℕ) → drop {A = ℕ} n [] ≡ []
drop-empty zero = refl
drop-empty (suc n) = refl

drop-add : (n m k : ℕ) (s : Bytes) → k ≡ n + m → drop k s ≡ drop m (drop n s)
drop-add zero m k s e = ap (λ (i : ℕ). drop i s) (omega (arith, e))
drop-add (suc n) m zero s e = absurd (omega (arith, e))
drop-add (suc n) m (suc k) [] e = sym (drop-empty m)
drop-add (suc n) m (suc k) (x ∷ s) e = drop-add n m k s (omega (arith, e))

pub Stands-front : (json : Bytes) → Stands json 0 json
Stands-front json = (refl, omega arith)

-- Over a field.
pub Stands-over :
    (json : Bytes) (n : ℕ) (s t : Bytes) → Stands json n (s ++ t) → Stands json (n + length s) t
Stands-over json n s t (d, l) = (
  drop-add n (length s) (n + length s) json refl
      ∙ ap (λ (r : Bytes). drop (length s) r) d
      ∙ drop-append s t,
  omega (arith, length-append s t, l),
)

starts_with-append : (needle rest : Bytes) → starts_with needle (needle ++ rest) ≡ true
starts_with-append [] [] = refl
starts_with-append [] (x ∷ rest) = refl
starts_with-append (c ∷ needle) rest = grind (arith, starts_with-append needle rest)

strstr-here :
    (c : ℕ) (needle rest : Bytes)
    → strstr ((c ∷ needle) ++ rest) (c ∷ needle) ≡ some ((c ∷ needle) ++ rest)
unfolding strstr
strstr-here c needle rest = rw (starts_with-append (c ∷ needle) rest) refl

-- A text whose first byte a field lacks is found behind the field.
pub find-Stands :
    (json : Bytes) (n c : ℕ) (needle field rest : Bytes)
    → Stands json n (field ++ ((c ∷ needle) ++ rest))
    → Lacks c field
    → find json (c ∷ needle) n ≡ n + length field
unfolding find
find-Stands json n c needle field rest (d, l) h =
    rw (find, d, found) (omega (arith, length-append field ((c ∷ needle) ++ rest), l))
  where
    found : strstr (field ++ ((c ∷ needle) ++ rest)) (c ∷ needle) ≡ some ((c ∷ needle) ++ rest)
    found = strstr-Lacks c needle field ((c ∷ needle) ++ rest) h ∙ strstr-here c needle rest

-- A text whose first occurrence is known.
pub find-first :
    (json needle : Bytes) (n : ℕ) (tail : Bytes)
    → Stands json n tail
    → strstr json needle ≡ some tail
    → find json needle 0 ≡ n
unfolding find
find-first json needle n tail (d, l) s = rw (find, s) (omega (arith, l))

-- The field at a position.
pub substr-Stands :
    (json : Bytes) (n k : ℕ) (s t : Bytes)
    → Stands json n (s ++ t)
    → k ≡ length s
    → substr json n k ≡ some s
unfolding substr
substr-Stands json n k s t (d, l) e =
    rw (substr, e, inside, d) (ap some (take-append (length s) s t refl))
  where
    inside : leb n (length json) ≡ true
    inside = ground (arith, l)

sub32-le : (a b : ℕ) → b ≤ a → a < 4294967296 → sub32 a b ≡ a - b
sub32-le a b h l = omega (arith, h, l)

-- The span of a value that stands behind its key.
pub span-found :
    (json key : Bytes) (skip at len : ℕ)
    → find json key 0 ≡ at
    → find json quote (at + skip) ≡ at + skip + len
    → 1 ≤ len
    → at + skip + len < 4294967295
    → value_span json key skip ≡ some (at + skip, at + skip + len)
unfolding value_span
span-found json key skip at len f q h l =
    rw
      (
        value_span,
        f,
        here,
        small,
        q,
        sub32-le (at + skip + len) (at + skip) (omega arith) (omega arith),
        some_bytes,
      )
      refl
  where
    here : (at == 4294967295) ≡ false
    here = ground (arith, l)

    small : add32 at skip ≡ at + skip
    small = omega (arith, l)

    some_bytes : (at + skip + len - (at + skip) == 0) ≡ false
    some_bytes = ground (arith, h)

pub NoDigit-append : (s t : Bytes) → NoDigit s → NoDigit t → NoDigit (s ++ t)
NoDigit-append [] t a b = b
NoDigit-append (x ∷ s) t a b = a
