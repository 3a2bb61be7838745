-- ===== src/Exec/Results.antt =====
-- Go functions without state that may fail.
use mathlib.Core.Path.{◌≡◌, refl, subst}
use cnsbench.Prelude.{Bool, true, false, if◌then◌else◌}
use cnsbench.Exec.{Error, Fault, Outcome, ok, err, fault}

module _ {ℓ κ} {A : Type ℓ} {B : Type κ} where
  infixl 10 ◌>>=◌
  -- What follows a call runs only where the call returns.
  abbrev pub ◌>>=◌ : Outcome A → (A → Outcome B) → Outcome B
  (fault stopped) >>= next = fault stopped
  (err failure) >>= next = err failure
  (ok value) >>= next = next value

-- What a call returns has the property, if it returns.
pub data Yields {ℓ κ} {A : Type ℓ} (P : A → Type κ) : Outcome A → Type (ℓ ⊔ κ) where
  yields : {a : A} → P a → Yields P (ok a)
  errs : {e : Error} → Yields P (err e)
  faults : {x : Fault} → Yields P (fault x)

pub Yields->>= {ℓ κ μ ν} :
    {A : Type ℓ} {B : Type κ} {P : A → Type μ} {Q : B → Type ν} (m : Outcome A) (f : A → Outcome B)
    → Yields P m
    → ((a : A) → P a → Yields Q (f a))
    → Yields Q (m >>= f)
Yields->>= (ok a) f (yields p) next = next a p
Yields->>= (err e) f errs next = errs
Yields->>= (fault x) f faults next = faults

pub Yields-if {ℓ κ} :
    {A : Type ℓ} {P : A → Type κ} (b : Bool) (x y : Outcome A)
    → Yields P x
    → Yields P y
    → Yields P (if b then x else y)
Yields-if true x y px py = px
Yields-if false x y px py = py

pub Yields-if-true {ℓ κ} :
    {A : Type ℓ} {P : A → Type κ} (b : Bool) (x y : Outcome A)
    → (b ≡ true → Yields P x)
    → Yields P y
    → Yields P (if b then x else y)
Yields-if-true true x y px py = px refl
Yields-if-true false x y px py = py

-- A call about which nothing is asked.
pub Yields-then {ℓ κ ν} :
    {A : Type ℓ} {B : Type κ} {Q : B → Type ν} (m : Outcome A) (f : A → Outcome B)
    → ((a : A) → Yields Q (f a))
    → Yields Q (m >>= f)
Yields-then (ok a) f next = next a
Yields-then (err e) f next = errs
Yields-then (fault x) f next = faults

yielded {ℓ κ} : {A : Type ℓ} {P : A → Type κ} {a : A} → Yields P (ok a) → P a
yielded (yields p) = p

pub Yields-ok {ℓ κ} :
    {A : Type ℓ} {P : A → Type κ} (m : Outcome A) {a : A} → Yields P m → m ≡ ok a → P a
Yields-ok {P = P} m p e = yielded (subst (Yields P) e p)

pub Yields-mono {ℓ κ ν} :
    {A : Type ℓ} {P : A → Type κ} {Q : A → Type ν} (m : Outcome A)
    → Yields P m
    → ((a : A) → P a → Q a)
    → Yields Q m
Yields-mono (ok a) (yields p) f = yields (f a p)
Yields-mono (err e) errs f = errs
Yields-mono (fault x) faults f = faults

-- Two ways to put three calls in a row.
pub bind_assoc {ℓ κ ν} :
    {A : Type ℓ} {B : Type κ} {C : Type ν} (m : Outcome A) (f : A → Outcome B) (g : B → Outcome C)
    → ((m >>= f) >>= g) ≡ (m >>= λ a. f a >>= g)
bind_assoc (ok a) f g = refl
bind_assoc (err e) f g = refl
bind_assoc (fault x) f g = refl

-- Calls that go on alike.
pub bind_cong {ℓ κ} :
    {A : Type ℓ} {B : Type κ} (m : Outcome A) (f g : A → Outcome B)
    → ((a : A) → f a ≡ g a)
    → (m >>= f) ≡ (m >>= g)
bind_cong (ok a) f g h = h a
bind_cong (err e) f g h = refl
bind_cong (fault x) f g h = refl

pub Yields-both {ℓ κ μ} :
    {A : Type ℓ} {P : A → Type κ} {Q : A → Type μ} (m : Outcome A)
    → Yields P m
    → Yields Q m
    → Yields (λ a. P a × Q a) m
Yields-both (ok a) (yields p) (yields q) = yields (p, q)
Yields-both (err e) errs errs = errs
Yields-both (fault x) faults faults = faults
