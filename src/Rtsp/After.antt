-- ===== src/Rtsp/After.antt =====
-- What holds of the state behind a method, if the method does not fault.
use snmediaplayer_new.Common.{◌≡◌, ap, Bool, true, false, Option, none, some}
use snmediaplayer_new.Rtsp.State.{Client, M, branch, ◌>>=◌}

abbrev pub After : {A : Type 0} → (Client → Type 0) → Option (A × Client) → Type 0
After P none = Unit
After P (some (a, d)) = P d

-- The method does not fault, and the state behind it is such.
abbrev pub Ends : {A : Type 0} → (A → Client → Type 0) → Option (A × Client) → Type 0
Ends P none = ⊥
Ends P (some (a, d)) = P a d

pub After-branch :
    {A : Type 0} (P : Client → Type 0) (b : Bool) (m k : M A) (c : Client)
    → After P (m c)
    → After P (k c)
    → After P (branch b m k c)
After-branch P true m k c h g = h
After-branch P false m k c h g = g

pub After-map :
    {A : Type 0} (P Q : Client → Type 0) (o : Option (A × Client))
    → ((d : Client) → P d → Q d)
    → After P o
    → After Q o
After-map P Q none f h = h
After-map P Q (some (a, d)) f h = f d h

pub After-bind :
    {A B : Type 0} (P Q : Client → Type 0) (o : Option (A × Client)) (k : A → M B)
    → After P o
    → ((a : A) (d : Client) → P d → After Q (k a d))
    → After Q (elim o [ none ↦ none | some (a, d) ↦ k a d ])
After-bind P Q none k h f = h
After-bind P Q (some (a, d)) k h f = f a d h

pub Ends-map :
    {A : Type 0} {P Q : A → Client → Type 0} (o : Option (A × Client))
    → ((a : A) (d : Client) → P a d → Q a d)
    → Ends P o
    → Ends Q o
Ends-map none f h = h
Ends-map (some (a, d)) f h = f a d h

pub Ends-bind :
    {A B : Type 0} {P : A → Client → Type 0} (Q : B → Client → Type 0) (o : Option (A × Client))
    (k : A → M B)
    → Ends P o
    → ((a : A) (d : Client) → P a d → Ends Q (k a d))
    → Ends Q (elim o [ none ↦ none | some (a, d) ↦ k a d ])
Ends-bind Q none k h f = h
Ends-bind Q (some (a, d)) k h f = f a d h

-- If the method does not fault, its result and the state behind it are such.
abbrev pub Gives : {A : Type 0} → (A → Client → Type 0) → Option (A × Client) → Type 0
Gives P none = Unit
Gives P (some (a, d)) = P a d

pub Gives-map :
    {A : Type 0} (P Q : A → Client → Type 0) (o : Option (A × Client))
    → ((a : A) (d : Client) → P a d → Q a d)
    → Gives P o
    → Gives Q o
Gives-map P Q none f h = h
Gives-map P Q (some (a, d)) f h = f a d h

pub Gives-branch :
    {A : Type 0} (P : A → Client → Type 0) (b : Bool) (m k : M A) (c : Client)
    → Gives P (m c)
    → Gives P (k c)
    → Gives P (branch b m k c)
Gives-branch P true m k c h g = h
Gives-branch P false m k c h g = g

pub Gives-bind :
    {A B : Type 0} {P : A → Client → Type 0} (Q : B → Client → Type 0) (o : Option (A × Client))
    (k : A → M B)
    → Gives P o
    → ((a : A) (d : Client) → P a d → Gives Q (k a d))
    → Gives Q (elim o [ none ↦ none | some (a, d) ↦ k a d ])
Gives-bind Q none k h f = h
Gives-bind Q (some (a, d)) k h f = f a d h

pub bind_eq :
    {A B : Type 0} (m : M A) (k : A → M B) (c d : Client) (a : A)
    → m c ≡ some (a, d)
    → (m >>= k) c ≡ k a d
bind_eq {B = B} m k c d a e =
    ap (λ o. elim o as (λ _. Option (B × Client)) [ none ↦ none | some (b, r) ↦ k b r ]) e
