-- ===== src/Rates/Deadlock.antt =====
-- The two goroutines of a rate that wait for each other.
use mathlib.Core.Bool.{false≢true}
use cnsbench.Prelude.{
  ℕ, zero, suc, ◌≤◌, ◌<◌, ℤ, pos, int_eq, arith, Bool, true, false, some, List, [], ◌∷◌, get_elem?,
  ◌≡◌, refl, sym, ap, ◌∙◌, subst,
}
use cnsbench.Api.{ConstantIncreaseDecreaseRate}
use cnsbench.Rates.{
  TimerPhase, counting, sending, Timer, poll, Phase, selecting, ending, switching, IncDecRate,
  start_rate, sends, Step, tick, fire, control, hand_over, finish, Steps, stay, then_step,
}

abbrev is_sending : TimerPhase → Bool
is_sending (counting n) = false
is_sending sending = true

abbrev is_ending : Phase → Bool
is_ending ending = true
is_ending _ = false

sending≢counting : (p : TimerPhase) (n : ℕ) → p ≡ sending → p ≡ counting n → ⊥
sending≢counting p n a b = false≢true (ap is_sending (sym b ∙ a))

ending-not : (p q : Phase) → is_ending q ≡ false → p ≡ ending → p ≡ q → ⊥
ending-not p q f a b = false≢true (sym f ∙ ap is_ending (sym b ∙ a))

only_elem : (ts : List Timer) (u t : Timer) (i : ℕ) → ts ≡ u ∷ [] → get_elem? ts i ≡ some t → u ≡ t
only_elem [] u t i h g = ground arith
only_elem (x ∷ []) u t zero h g = ground arith
only_elem (x ∷ []) u t (suc i) h g = ground arith
only_elem (x ∷ y ∷ ts) u t i h g = ground arith

module _ (spec : ConstantIncreaseDecreaseRate) where
  -- A rate in the send that ends its timer, while its only timer is in its own send, and neither
  -- receives: no goroutine of them takes a step any more.
  pub ending-stuck :
      {s s' : IncDecRate} (t : Timer)
      → s.phase ≡ ending
      → s.timers ≡ t ∷ []
      → t.phase ≡ sending
      → ¬ Step spec s s'
  ending-stuck t here only waits (tick {s} i n u g p free) = false≢true (sym free ∙ ap sends here)
  ending-stuck t here only waits (fire {s} i u taken g p h) =
      ending-not s.phase selecting refl here h
  ending-stuck t here only waits (control {s} h) = ending-not s.phase selecting refl here h
  ending-stuck t here only waits (hand_over {s} i n u taken g p h) =
      ending-not s.phase switching refl here h
  ending-stuck t here only waits (finish {s} i n u g p h) =
      sending≢counting u.phase n (ap (λ x. x.phase) (sym (only_elem s.timers t u i only g)) ∙ waits)
        p

  abbrev started_with : TimerPhase → IncDecRate
  started_with p = record (start_rate spec) {
    timers = record { interval = spec.inc_interval; phase = p } ∷ [];
  }

  poll-before : (i : ℤ) (n k : ℕ) → i ≡ pos n → k < n → poll i k ≡ counting (suc k)
  unfolding poll
  poll-before i n k e h = ground arith

  poll-at : (i : ℤ) (n : ℕ) → i ≡ pos n → poll i n ≡ sending
  unfolding poll
  poll-at i n e = ground arith

  wait :
      (n k : ℕ)
      → spec.inc_interval ≡ pos n
      → k ≤ n
      → Steps spec (start_rate spec) (started_with (counting k))
  wait n zero e h = stay
  wait n (suc k) e h =
      subst (λ p. Steps spec (start_rate spec) (started_with p))
        (poll-before spec.inc_interval n k e (omega arith))
        (then_step (wait n k e (omega arith))
          (tick 0 k (record { interval = spec.inc_interval; phase = counting k }) refl refl refl))

  -- If the interval of the rate is not negative, a run leads from its start to a state in which the
  -- rate has received the message that ends it and no goroutine of the rate takes a step any more.
  pub ending-deadlock :
      (n : ℕ)
      → spec.inc_interval ≡ pos n
      → (s : IncDecRate) × Steps spec (start_rate spec) s
        × (s.phase ≡ ending)
        × ((s' : IncDecRate) → ¬ Step spec s s')
  ending-deadlock n e =
      let t : Timer = record { interval = spec.inc_interval; phase = counting n } in
      let s = record (started_with sending) { phase = ending } in
      (
        s,
        then_step
            (subst (λ p. Steps spec (start_rate spec) (started_with p))
              (poll-at spec.inc_interval n e)
              (then_step (wait n n e (omega arith)) (tick 0 n t refl refl refl)))
            (control refl),
        refl,
        λ s'.
            ending-stuck (record { interval = spec.inc_interval; phase = sending }) refl refl refl,
      )
