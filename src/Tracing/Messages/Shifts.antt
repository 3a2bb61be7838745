-- ===== src/Tracing/Messages/Shifts.antt =====
-- A byte that is put behind a shifted number.
use Prim.Native.Nat.{ℕ, zero, suc, ◌+◌, ◌/◌, ◌%◌, ◌≤◌, ◌<◌, max, digits, bit_or, bit_or-bitwise}
use mathlib.Core.Path.{◌≡◌, refl, ap, ◌∙◌}
use native.Mathlib.Omega.{arith}

abbrev joined : ℕ → ℕ → ℕ → ℕ
joined fuel a b = digits (λ rest. rest) max fuel a b

-- `a` has run out or not: with enough fuel, the join with 0 is `a`.
joined-zero : (fuel a : ℕ) → a ≤ fuel → joined fuel a 0 ≡ a
joined-zero zero a h = omega (arith, h)
joined-zero (suc fuel) zero h = refl
joined-zero (suc fuel) (suc a) h = omega (arith, joined-zero fuel (suc a / 2) (omega (arith, h)))

abbrev Adds : ℕ → ℕ → Type 0
Adds a b = (fuel : ℕ) → a ≤ fuel → joined fuel a b ≡ a + b

Adds-zero : (a b : ℕ) → b ≡ 0 → Adds a b
Adds-zero a b none fuel h = ap (joined fuel a) none ∙ joined-zero fuel a h ∙ omega (arith, none)

-- An even number has room for one digit.
Adds-even : (a b : ℕ) → a % 2 ≡ 0 → Adds (a / 2) (b / 2) → Adds a b
Adds-even zero b even half zero h = omega arith
Adds-even (suc a) b even half zero h = absurd (omega (arith, h))
Adds-even zero b even half (suc fuel) h = omega arith
Adds-even (suc a) b even half (suc fuel) h = omega (arith, even, half fuel (omega (arith, h)))

Adds-byte : (a b : ℕ) → a % 256 ≡ 0 → b < 256 → Adds a b
Adds-byte a b room byte = Adds-even a b (omega (arith, room)) (
    Adds-even (a / 2) (b / 2) (omega (arith, room)) (
      Adds-even (a / 2 / 2) (b / 2 / 2) (omega (arith, room)) (
        Adds-even (a / 2 / 2 / 2) (b / 2 / 2 / 2) (omega (arith, room)) (
          Adds-even (a / 2 / 2 / 2 / 2) (b / 2 / 2 / 2 / 2) (omega (arith, room)) (
            Adds-even (a / 2 / 2 / 2 / 2 / 2) (b / 2 / 2 / 2 / 2 / 2) (omega (arith, room)) (
              Adds-even _ _ (omega (arith, room))
                (Adds-even _ _ (omega (arith, room)) (Adds-zero _ _ (omega (arith, byte))))))))))

pub bit_or-byte : (a b : ℕ) → a % 256 ≡ 0 → b < 256 → bit_or a b ≡ a + b
bit_or-byte a b room byte = bit_or-bitwise a b ∙ Adds-byte a b room byte a (omega arith)
