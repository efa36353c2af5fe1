-- ===== src/Player/After.antt =====
-- What holds of the player behind a method.
use snmediaplayer_new.Common.{◌≡◌, sym, ap, subst, false, Option, none, some, if◌then◌else◌}
use snmediaplayer_new.Player.State.{Player, M, alive, ◌>>=◌}

-- If the method does not fault, its result and the player behind it are such.
abbrev pub Gives : {A : Type 0} → (A → Player → Type 0) → Option (A × Player) → Type 0
Gives P none = Unit
Gives P (some (a, q)) = P a q

-- The method does not fault, and its result and the player behind it are such.
abbrev pub Ends : {A : Type 0} → (A → Player → Type 0) → Option (A × Player) → Type 0
Ends P none = ⊥
Ends P (some (a, q)) = P a q

pub Ends-bind :
    {A B : Type 0} {P : A → Player → Type 0} (Q : B → Player → Type 0) (o : Option (A × Player))
    (k : A → Player → Option (B × Player))
    → Ends P o
    → ((a : A) (q : Player) → P a q → Ends Q (k a q))
    → Ends Q (elim o [ none ↦ none | some (a, q) ↦ k a q ])
Ends-bind Q none k h f = h
Ends-bind Q (some (a, q)) k h f = f a q h

pub Gives-bind :
    {A B : Type 0} {P : A → Player → Type 0} (Q : B → Player → Type 0) (o : Option (A × Player))
    (k : A → Player → Option (B × Player))
    → Gives P o
    → ((a : A) (q : Player) → P a q → Gives Q (k a q))
    → Gives Q (elim o [ none ↦ none | some (a, q) ↦ k a q ])
Gives-bind Q none k h f = h
Gives-bind Q (some (a, q)) k h f = f a q h

pub Ends-alive :
    {B : Type 0} (Q : B → Player → Type 0) (p : Player) (k : Player → Option (B × Player))
    → p.freed ≡ false
    → Ends Q (k p)
    → Ends Q ((alive >>= λ _. k) p)
Ends-alive Q p k a h =
    subst
      (λ b. Ends Q (elim (if◌then◌else◌ {A = Option (Unit {0} × Player)} b none (some (tt, p))) [
        | none ↦ none
        | some (_, q) ↦ k q
      ]))
      (sym a) h

pub bind_eq :
    {A B : Type 0} (m : M A) (k : A → M B) (p q : Player) (a : A)
    → m p ≡ some (a, q)
    → (m >>= k) p ≡ k a q
bind_eq {B = B} m k p q a e =
    ap (λ o. elim o as (λ _. Option (B × Player)) [ none ↦ none | some (b, r) ↦ k b r ]) e

pub Gives-then :
    {A B : Type 0} (Q : B → Player → Type 0) (o : Option (A × Player)) (k : A → M B)
    → ((a : A) (q : Player) → Gives Q (k a q))
    → Gives Q (elim o [ none ↦ none | some (a, q) ↦ k a q ])
Gives-then Q none k f = tt
Gives-then Q (some (a, q)) k f = f a q

pub Gives-map :
    {A : Type 0} (P Q : A → Player → Type 0) (o : Option (A × Player))
    → ((a : A) (q : Player) → P a q → Q a q)
    → Gives P o
    → Gives Q o
Gives-map P Q none f h = h
Gives-map P Q (some (a, q)) f h = f a q h

pub Gives-alive :
    {B : Type 0} (Q : B → Player → Type 0) (p : Player) (k : Player → Option (B × Player))
    → p.freed ≡ false
    → Gives Q (k p)
    → Gives Q ((alive >>= λ _. k) p)
Gives-alive Q p k a h =
    subst
      (λ b. Gives Q (elim (if◌then◌else◌ {A = Option (Unit {0} × Player)} b none (some (tt, p))) [
        | none ↦ none
        | some (_, q) ↦ k q
      ]))
      (sym a) h

pub fault_bind :
    {A B : Type 0} (m : M A) (k : A → M B) (p : Player) → m p ≡ none → (m >>= k) p ≡ none
fault_bind {B = B} m k p e =
    ap (λ o. elim o as (λ _. Option (B × Player)) [ none ↦ none | some (b, r) ↦ k b r ]) e

pub Gives-both :
    {A : Type 0} (P Q : A → Player → Type 0) (o : Option (A × Player))
    → Gives P o
    → Gives Q o
    → Gives (λ a q. P a q × Q a q) o
Gives-both P Q none h k = tt
Gives-both P Q (some (a, q)) h k = (h, k)
