-- ===== src/Prelude/Lists.antt =====
-- Lists measured by native numbers, predicates over all elements, and association lists.
use Prim.Native.Nat.{ℕ, zero, suc, ◌+◌}
use mathlib.Core.Path.{◌≡◌, refl, ap, subst}
use mathlib.Core.Bool.{Bool, true, false, ◌&&◌, ◌||◌}
use mathlib.Core.Option.{Option, none, some, some-injective}
use mathlib.Core.List.{List, [], ◌∷◌, ◌++◌}
use native.Mathlib.Omega.{arith}
use cnsbench.Prelude.Tests.{beq_refl, Comparable, ◌==◌, if◌then◌else◌}

module _ {ℓ} {A : Type ℓ} where
  abbrev pub length : List A → ℕ
  length [] = 0
  length (x ∷ xs) = suc (length xs)

  pub length-append : (xs ys : List A) → length (xs ++ ys) ≡ length xs + length ys
  length-append [] ys = omega arith
  length-append (x ∷ xs) ys = omega (arith, length-append xs ys)

  -- A write out of bounds changes nothing.
  abbrev pub set : List A → ℕ → A → List A
  set [] i v = []
  set (x ∷ xs) zero v = v ∷ xs
  set (x ∷ xs) (suc i) v = x ∷ set xs i v

  abbrev pub get_elem? : List A → ℕ → Option A
  get_elem? [] i = none
  get_elem? (x ∷ xs) zero = some x
  get_elem? (x ∷ xs) (suc i) = get_elem? xs i

  abbrev pub take : ℕ → List A → List A
  take zero xs = []
  take (suc n) [] = []
  take (suc n) (x ∷ xs) = x ∷ take n xs

  abbrev pub drop : ℕ → List A → List A
  drop zero xs = xs
  drop (suc n) [] = []
  drop (suc n) (x ∷ xs) = drop n xs

  -- `append(xs[:i], xs[i+1:]...)`; an index out of bounds changes nothing here.
  abbrev pub erase_at : List A → ℕ → List A
  erase_at [] i = []
  erase_at (x ∷ xs) zero = xs
  erase_at (x ∷ xs) (suc i) = x ∷ erase_at xs i

  -- How many elements pass a test.
  abbrev pub count_if : (A → Bool) → List A → ℕ
  count_if p [] = 0
  count_if p (x ∷ xs) = let rest = count_if p xs in if p x then suc rest else rest

  abbrev pub all : (A → Bool) → List A → Bool
  all p [] = true
  all p (x ∷ xs) = p x && all p xs

  abbrev pub any : (A → Bool) → List A → Bool
  any p [] = false
  any p (x ∷ xs) = p x || any p xs

abbrev pub All {ℓ κ} : {A : Type ℓ} → (A → Type κ) → List A → Type κ
All P [] = Unit
All P (x ∷ xs) = P x × All P xs

pub All-append {ℓ κ} :
    {A : Type ℓ} (P : A → Type κ) (xs ys : List A) → All P xs → All P ys → All P (xs ++ ys)
All-append P [] ys hx hy = hy
All-append P (x ∷ xs) ys hx hy = (hx.0, All-append P xs ys hx.1 hy)

module _ {ℓ κ} {A : Type ℓ} (P : A → Type κ) where
  pub All-get_elem? : (xs : List A) (i : ℕ) {x : A} → All P xs → get_elem? xs i ≡ some x → P x
  All-get_elem? [] i ps e = cc
  All-get_elem? (x ∷ xs) zero ps e = subst P (some-injective _ _ e) ps.0
  All-get_elem? (x ∷ xs) (suc i) ps e = All-get_elem? xs i ps.1 e

  pub All-erase_at : (xs : List A) (i : ℕ) → All P xs → All P (erase_at xs i)
  All-erase_at [] i ps = tt
  All-erase_at (x ∷ xs) zero ps = ps.1
  All-erase_at (x ∷ xs) (suc i) ps = (ps.0, All-erase_at xs i ps.1)

  pub All-set : (xs : List A) (i : ℕ) (v : A) → All P xs → P v → All P (set xs i v)
  All-set [] i v ps p = tt
  All-set (x ∷ xs) zero v ps p = (p, ps.1)
  All-set (x ∷ xs) (suc i) v ps p = (ps.0, All-set xs i v ps.1 p)

module _ {ℓ} {A : Type ℓ} where
  pub length-erase_at :
      (xs : List A) (i : ℕ) {x : A}
      → get_elem? xs i ≡ some x
      → suc (length (erase_at xs i)) ≡ length xs
  length-erase_at [] i e = cc
  length-erase_at (x ∷ xs) zero e = refl
  length-erase_at (x ∷ xs) (suc i) e = ap suc (length-erase_at xs i e)

  pub get_elem?-last : (xs : List A) (x : A) → get_elem? (xs ++ x ∷ []) (length xs) ≡ some x
  get_elem?-last [] x = refl
  get_elem?-last (y ∷ xs) x = get_elem?-last xs x

  pub get_elem?-append :
      (xs ys : List A) (i : ℕ) {x : A} → get_elem? xs i ≡ some x → get_elem? (xs ++ ys) i ≡ some x
  get_elem?-append [] ys i e = cc
  get_elem?-append (z ∷ xs) ys zero e = e
  get_elem?-append (z ∷ xs) ys (suc i) e = get_elem?-append xs ys i e

  pub get_elem?-set :
      (xs : List A) (i : ℕ) (v : A) {x : A}
      → get_elem? xs i ≡ some x
      → get_elem? (set xs i v) i ≡ some v
  get_elem?-set [] i v e = cc
  get_elem?-set (z ∷ xs) zero v e = refl
  get_elem?-set (z ∷ xs) (suc i) v e = get_elem?-set xs i v e

  pub length-set : (xs : List A) (i : ℕ) (v : A) → length (set xs i v) ≡ length xs
  length-set [] i v = refl
  length-set (x ∷ xs) zero v = refl
  length-set (x ∷ xs) (suc i) v = ap suc (length-set xs i v)

-- Go's `map[K]V` as an association list: a read takes the first entry of a key, and a write
-- replaces that entry or adds one at the end.
abbrev pub Assoc {ℓ κ} : Type ℓ → Type κ → Type (ℓ ⊔ κ)
Assoc K V = List (K × V)

module _ {ℓ κ} {K : Type ℓ} ⦃e : Comparable K⦄ {V : Type κ} where
  unfoldable pub get : K → Assoc K V → Option V
  get k [] = none
  get k ((j, v) ∷ m) = if j == k then some v else get k m

  unfoldable pub put : K → V → Assoc K V → Assoc K V
  put k v [] = (k, v) ∷ []
  put k v ((j, w) ∷ m) = if j == k then (j, v) ∷ m else (j, w) ∷ put k v m

  unfoldable pub delete : K → Assoc K V → Assoc K V
  delete k [] = []
  delete k ((j, w) ∷ m) = let rest = delete k m in if j == k then rest else (j, w) ∷ rest

  pub get-put :
      (k j : K) (v : V) (m : Assoc K V) → get j (put k v m) ≡ (if k == j then some v else get j m)
  unfolding get put
  get-put k j v [] = ground arith
  get-put k j v ((i, w) ∷ m) =
      ground (arith, e.same_as_iff k j, e.same_as_iff i k, e.same_as_iff i j, get-put k j v m)

  pub get-delete :
      (k j : K) (m : Assoc K V) → get j (delete k m) ≡ (if k == j then none else get j m)
  unfolding get delete
  get-delete k j [] = ground arith
  get-delete k j ((i, w) ∷ m) =
      ground (arith, e.same_as_iff k j, e.same_as_iff i k, e.same_as_iff i j, get-delete k j m)

  pub put-put : (k : K) (v w : V) (m : Assoc K V) → put k v (put k w m) ≡ put k v m
  unfolding put
  put-put k v w [] = ground (arith, beq_refl k)
  put-put k v w ((j, u) ∷ m) = ground (arith, put-put k v w m)

  pub get-put-same : (k : K) (v : V) (m : Assoc K V) → get k (put k v m) ≡ some v
  get-put-same k v m = ground (arith, get-put k k v m, beq_refl k)

  pub put-same : (k : K) (v : V) (m : Assoc K V) → get k m ≡ some v → put k v m ≡ m
  unfolding get put
  put-same k v [] h = ground arith
  put-same k v ((j, u) ∷ m) h = ground (arith, put-same k v m)
