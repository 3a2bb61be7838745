-- ===== src/Rates/Timers.antt =====
-- A list of timers that holds exactly one.
use cnsbench.Prelude.{ℕ, zero, suc, some, List, [], ◌∷◌, set, get_elem?, ◌≡◌, arith}
use cnsbench.Rates.{Timer, remove_at}

pub set-only :
    (ts : List Timer) (u t v : Timer) (i : ℕ)
    → ts ≡ u ∷ []
    → get_elem? ts i ≡ some t
    → (set ts i v ≡ v ∷ []) × (u ≡ t)
set-only [] u t v i h g = ground arith
set-only (x ∷ []) u t v zero h g = ground arith
set-only (x ∷ []) u t v (suc i) h g = ground arith
set-only (x ∷ y ∷ ts) u t v i h g = ground arith

pub remove-only :
    (ts : List Timer) (u t : Timer) (i : ℕ)
    → ts ≡ u ∷ []
    → get_elem? ts i ≡ some t
    → remove_at ts i ≡ []
remove-only [] u t i h g = ground arith
remove-only (x ∷ []) u t zero h g = ground arith
remove-only (x ∷ []) u t (suc i) h g = ground arith
remove-only (x ∷ y ∷ ts) u t i h g = ground arith
