-- ===== src/Rates/Turn.antt =====
-- The exchange of the timers of an increasing and decreasing rate.
use mathlib.Core.Bool.{false≢true}
use cnsbench.Prelude.{
  ℕ, pos, ◌+ℤ◌, ◌-ℤ◌, if◌then◌else◌, ◌<ℤ◌, Bool, true, false, List, [], ◌∷◌, get_elem?, ◌≡◌, refl,
  sym, ap, subst, ◌∙◌, arith,
}
use cnsbench.Api.{ConstantIncreaseDecreaseRate}
use cnsbench.Rates.{
  counting, Timer, Phase, selecting, ending, switching, ended, IncDecRate, start_rate, count_to,
  offer, deliver, count, resumed, replace, sends, Step, tick, fire, control, hand_over, finish,
  Steps, stay, then_step,
}
use cnsbench.Rates.Timers.{set-only}
use cnsbench.Rates.Counter.{Sound, Fits, Steps-Sound}

deliver-timers : (taken : Bool) (s : IncDecRate) → (deliver taken s).timers ≡ s.timers
unfolding deliver offer
deliver-timers taken s = ground arith

count-timers :
    (spec : ConstantIncreaseDecreaseRate) (taken : Bool) (s : IncDecRate)
    → (count spec taken s).timers ≡ s.timers
unfolding count count_to
count-timers spec taken s =
    let up = count_to (s.counter +ℤ pos 1) spec.max s in
    let down = count_to (s.counter -ℤ pos 1) spec.min s in
    let kept : (if s.going_up then up else down).timers ≡ s.timers = ground arith in
    deliver-timers taken (if s.going_up then up else down) ∙ kept

-- One timer runs, and it is not in its send.
abbrev pub IsCounting : List Timer → Type 0
IsCounting ts = (t : Timer) × (n : ℕ) × (ts ≡ t ∷ []) × (t.phase ≡ counting n)

-- While the rate waits to end its timer for a turn, the timer can receive.
abbrev pub Ready : Phase → List Timer → Type 0
Ready switching ts = IsCounting ts
Ready _ ts = Unit

always-Ready : (p : Phase) (ts : List Timer) → IsCounting ts → Ready p ts
always-Ready selecting ts h = tt
always-Ready ending ts h = tt
always-Ready switching ts h = h
always-Ready ended ts h = tt

silent-Ready : (p : Phase) (ts : List Timer) → sends p ≡ false → Ready p ts
silent-Ready selecting ts h = tt
silent-Ready ending ts h = tt
silent-Ready switching ts h = absurd (false≢true (sym h))
silent-Ready ended ts h = tt

offer-Ready :
    (taken : Bool) (s : IncDecRate)
    → s.phase ≡ selecting
    → Ready (offer taken s).phase (offer taken s).timers
unfolding offer
offer-Ready true s h = silent-Ready s.phase s.timers (ap sends h)
offer-Ready false s h = silent-Ready s.phase s.timers (ap sends h)

module _ (spec : ConstantIncreaseDecreaseRate) where
  step-Ready : {s s' : IncDecRate} → Step spec s s' → Sound spec s → Ready s'.phase s'.timers
  step-Ready (tick {s} i n t g p free) h = silent-Ready s.phase _ free
  step-Ready (fire {s} i t taken g p here) h =
      let (u, only, dir) = subst (λ x. Fits spec x s.going_up s.timers) here h.fits in
      let one = (set-only s.timers u t (resumed t) i only g).0 in
      always-Ready _ _ (resumed t, 1, count-timers spec taken (replace i (resumed t) s) ∙ one, refl)
  step-Ready (control {s} here) h = tt
  step-Ready (hand_over {s} i n t taken g p here) h = offer-Ready taken _ refl
  step-Ready (finish {s} i n t g p here) h = tt

  Steps-Ready :
      spec.min <ℤ spec.max
      → {s : IncDecRate} → Steps spec (start_rate spec) s
      → Ready s.phase s.timers
  Steps-Ready apart r = go r refl
    where
      go : {s₀ s : IncDecRate} → Steps spec s₀ s → s₀ ≡ start_rate spec → Ready s.phase s.timers
      go stay e = subst (λ x. Ready x.phase x.timers) (sym e) tt
      go (then_step {t} r x) e =
          step-Ready x (Steps-Sound spec apart (subst (λ z. Steps spec z t) e r))

  -- If the minimum of the rate is below its maximum, then a turn never waits for ever: in every
  -- state that the rate reaches in which it waits to end one timer and start the other, the step
  -- that does so is possible, and it leads back to the `select` of the rate.
  pub turn-goes_on :
      spec.min <ℤ spec.max
      → {s : IncDecRate} → Steps spec (start_rate spec) s
      → s.phase ≡ switching
      → (s' : IncDecRate) × Step spec s s' × (s'.phase ≡ selecting)
  turn-goes_on apart {s} r here =
      let (t, n, only, waits) = subst (λ x. Ready x s.timers) here (Steps-Ready apart r) in
      (_, hand_over 0 n t false (ap (λ ts. get_elem? ts 0) only) waits here, unfold offer in refl)
