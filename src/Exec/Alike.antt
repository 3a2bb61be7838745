-- ===== src/Exec/Alike.antt =====
-- Pairs of calls that end in the same way.
use cnsbench.Prelude.{Bool, true, false, ◌≡◌, sym, subst, if◌then◌else◌}
use cnsbench.Exec.{Error, Fault, Outcome, ok, err, fault}
use cnsbench.Exec.Results.{◌>>=◌, Yields, yields, errs, faults}

-- Two calls end alike, with results that are related where they return.
pub data Alike {ℓ μ κ} {A : Type ℓ} {B : Type μ} (R : A → B → Type κ)
    : Outcome A → Outcome B → Type (ℓ ⊔ μ ⊔ κ) where
  alike : {a : A} {b : B} → R a b → Alike R (ok a) (ok b)
  both_err : {e : Error} → Alike R (err e) (err e)
  both_fault : {x : Fault} → Alike R (fault x) (fault x)

module _ {ℓ ℓ' κ κ' μ ν} {A : Type ℓ} {A' : Type ℓ'} {B : Type κ} {B' : Type κ'}
    {R : A → A' → Type μ} {Q : B → B' → Type ν} where
  pub Alike->>= :
      (m : Outcome A) (n : Outcome A') (f : A → Outcome B) (g : A' → Outcome B')
      → Alike R m n
      → ((a : A) (b : A') → R a b → Alike Q (f a) (g b))
      → Alike Q (m >>= f) (n >>= g)
  Alike->>= _ _ f g (alike {a} {b} r) next = next a b r
  Alike->>= _ _ f g both_err next = both_err
  Alike->>= _ _ f g both_fault next = both_fault

pub Alike-then {ℓ κ ν} :
    {A : Type ℓ} {B : Type κ} {Q : B → B → Type ν} (m : Outcome A) (f g : A → Outcome B)
    → ((a : A) → Alike Q (f a) (g a))
    → Alike Q (m >>= f) (m >>= g)
Alike-then (ok a) f g next = next a
Alike-then (err e) f g next = both_err
Alike-then (fault x) f g next = both_fault

pub Alike-if {ℓ κ} :
    {A : Type ℓ} {R : A → A → Type κ} (b : Bool) (x y x' y' : Outcome A)
    → Alike R x x'
    → Alike R y y'
    → Alike R (if b then x else y) (if b then x' else y')
Alike-if true x y x' y' h k = h
Alike-if false x y x' y' h k = k

-- A call, and the same call followed by one that returns.
pub Alike-after {ℓ κ μ ν} :
    {A : Type ℓ} {B : Type κ} {P : A → Type μ} {R : A → B → Type ν} (m : Outcome A)
    (g : A → Outcome B)
    → Yields P m
    → ((a : A) → P a → (b : B) × (g a ≡ ok b) × R a b)
    → Alike R m (m >>= g)
Alike-after {R = R} (ok a) g (yields p) next =
    let (b, e, r) = next a p in subst (Alike R (ok a)) (sym e) (alike r)
Alike-after (err e) g errs next = both_err
Alike-after (fault x) g faults next = both_fault

pub Alike-mono {ℓ κ μ ν} :
    {A : Type ℓ} {B : Type κ} {R : A → B → Type μ} {Q : A → B → Type ν} {m : Outcome A}
    {n : Outcome B}
    → Alike R m n
    → ((a : A) (b : B) → R a b → Q a b)
    → Alike Q m n
Alike-mono (alike {a} {b} r) f = alike (f a b r)
Alike-mono both_err f = both_err
Alike-mono both_fault f = both_fault

-- A third call behind two of them.
pub Alike-join {ℓ κ λ' μ ν ξ} :
    {A : Type ℓ} {B : Type κ} {C : Type λ'} {R : A → B → Type μ} {S : B → C → Type ν}
    {Q : A → C → Type ξ} {m : Outcome A} (n : Outcome B) {k : Outcome C}
    → Alike R m n
    → Alike S n k
    → ((a : A) (b : B) (c : C) → R a b → S b c → Q a c)
    → Alike Q m k
Alike-join _ (alike {a} {b} r) (alike {b = c} s) f = alike (f a b c r s)
Alike-join _ both_err both_err f = both_err
Alike-join _ both_fault both_fault f = both_fault

pub Alike-right {ℓ κ μ} :
    {A : Type ℓ} {B : Type κ} {R : A → B → Type μ} {m : Outcome A} {n : Outcome B}
    → Alike R m n
    → Yields (λ b. (a : A) × R a b) n
Alike-right (alike {a} r) = yields (a, r)
Alike-right both_err = errs
Alike-right both_fault = faults
