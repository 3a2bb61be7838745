-- ===== src/Exec.antt =====
-- Go functions that read and change the state of the controller and may fail.
-- An `error` result is `err`. A panic and a send that no goroutine will ever receive are faults:
-- after them nothing runs. What was written before an error stays written, so the state comes
-- back beside every outcome.
pub mod Results
pub mod Alike
use cnsbench.Prelude.{String, Bool, true, false, Option, none, some, List, [], ◌∷◌, if◌then◌else◌}

-- The errors that the program makes or tells apart. `other` is any other error of the API server.
pub data Error : Type 0 where
  not_found already_exists nil_kind nil_object unknown_rate : Error
  other : String → Error

-- k8serrors.IsNotFound
unfoldable pub is_not_found : Error → Bool
is_not_found not_found = true
is_not_found _ = false

-- errors.IsAlreadyExists
unfoldable pub is_already_exists : Error → Bool
is_already_exists already_exists = true
is_already_exists _ = false

pub data Fault : Type 0 where
  panic blocked : Fault

pub data Outcome {ℓ} (A : Type ℓ) : Type ℓ where
  ok : A → Outcome A
  err : Error → Outcome A
  fault : Fault → Outcome A

-- A Go result `(value, err)` of which only one half is used.
pub data Try {ℓ} (A : Type ℓ) : Type ℓ where
  returned : A → Try A
  failed : Error → Try A

abbrev pub of_try {ℓ} : {A : Type ℓ} → Try A → Outcome A
of_try (returned a) = ok a
of_try (failed e) = err e

-- The two ways to go on from a result, and from a read of a map.
abbrev pub on_try {ℓ κ} : {A : Type ℓ} {B : Type κ} → Try A → (Error → B) → (A → B) → B
on_try (failed e) f g = f e
on_try (returned a) f g = g a

abbrev pub on_option {ℓ κ} : {A : Type ℓ} {B : Type κ} → Option A → B → (A → B) → B
on_option none b g = b
on_option (some a) b g = g a

abbrev pub Exec {ℓ} : Type ℓ → Type ℓ → Type ℓ
Exec S A = S → Outcome A × S

module _ {ℓ} {S A : Type ℓ} where
  unfoldable pub pure : A → Exec S A
  pure a s = (ok a, s)

  unfoldable pub raise : Error → Exec S A
  raise e s = (err e, s)

  unfoldable pub crash : Fault → Exec S A
  crash f s = (fault f, s)

  unfoldable pub lift : Outcome A → Exec S A
  lift r s = (r, s)

module _ {ℓ} {S A B : Type ℓ} where
  abbrev pub continue : Outcome A → (A → Exec S B) → Exec S B
  continue (ok a) f s = f a s
  continue (err e) f s = (err e, s)
  continue (fault x) f s = (fault x, s)

  infixl 10 ◌>>=◌ ◌>>◌
  unfoldable pub ◌>>=◌ : Exec S A → (A → Exec S B) → Exec S B
  ◌>>=◌ m f s = let (r, s') = m s in continue r f s'

  abbrev pub ◌>>◌ : Exec S A → Exec S B → Exec S B
  m >> n = m >>= λ _. n

abbrev pub caught {ℓ} : {A : Type ℓ} → Outcome A → Outcome (Try A)
caught (ok a) = ok (returned a)
caught (err e) = ok (failed e)
caught (fault x) = fault x

module _ {ℓ} {S A : Type ℓ} where
  -- `v, err := f()` where the caller goes on after an error
  unfoldable pub attempt : Exec S A → Exec S (Try A)
  attempt m s = let (r, s') = m s in (caught r, s')

module _ {ℓ} {S : Type ℓ} {A : Type 0} where
  -- `for _, a := range xs`, left by the first error
  unfoldable pub for_each : List A → (A → Exec S (Unit {ℓ})) → Exec S (Unit {ℓ})
  for_each [] body = pure tt
  for_each (a ∷ xs) body = body a >>= λ _. for_each xs body

module _ {S : Type 0} where
  -- A call whose error is only logged.
  unfoldable pub logged : Exec S (Unit {0}) → Exec S (Unit {0})
  unfolding attempt pure ◌>>=◌
  logged m = attempt m >>= λ _. pure tt

  abbrev pub when : Bool → Exec S (Unit {0}) → Exec S (Unit {0})
  when b m = if b then m else pure tt
