-- ===== src/Rates/Counter.antt =====
-- What holds in every run of an increasing and decreasing rate.
use cnsbench.Prelude.{
  ℕ, ℤ, pos, ◌+ℤ◌, ◌-ℤ◌, ◌≤ℤ◌, ◌<ℤ◌, int_eq, int_beq_iff, +ℤ_parts, -ℤ_parts, eq_of_parts, ◌≢◌,
  arith, Bool, true, false, not, some, List, [], ◌∷◌, ◌++◌, All, set, get_elem?, ◌==◌, ◌≡◌, refl,
  sym, ap, ◌∙◌, subst, if◌then◌else◌, Bool-cases, inl, inr,
}
use mathlib.Core.Bool.{false≢true}
use cnsbench.Api.{ConstantIncreaseDecreaseRate}
use cnsbench.Rates.Timers.{set-only, remove-only}
use cnsbench.Rates.{
  Timer, resumed, Phase, selecting, ending, switching, ended, IncDecRate, interval_of, start_rate,
  count_to, offer, deliver, count, remove_at, replace, Step, tick, fire, control, hand_over, finish,
  Steps, stay, then_step, start_timer,
}

module _ (spec : ConstantIncreaseDecreaseRate) where
  abbrev pub Within : ℤ → Type 0
  Within c = (spec.min ≤ℤ c) × (c ≤ℤ spec.max)

  -- On the way up the counter is below the maximum, on the way down above the minimum.
  abbrev pub Room : Bool → ℤ → Type 0
  Room true c = c <ℤ spec.max
  Room false c = spec.min <ℤ c

  -- The timers that run in each phase of the rate.
  abbrev pub Fits : Phase → Bool → List Timer → Type 0
  Fits selecting up ts = (t : Timer) × (ts ≡ t ∷ []) × (t.interval ≡ interval_of spec up)
  Fits switching up ts = (t : Timer) × (ts ≡ t ∷ []) × (t.interval ≡ interval_of spec (not up))
  Fits ending up ts = (t : Timer) × (ts ≡ t ∷ [])
  Fits ended up ts = ts ≡ []

  pub record Sound (s : IncDecRate) : Type 0 where
    pub within : Within s.counter
    pub room : Room s.going_up s.counter
    pub received : All Within s.sent
    pub fits : Fits s.phase s.going_up s.timers

  Fits-set :
      (p : Phase) (up : Bool) (ts : List Timer) (i : ℕ) (t v : Timer)
      → get_elem? ts i ≡ some t
      → v.interval ≡ t.interval
      → Fits p up ts
      → Fits p up (set ts i v)
  Fits-set selecting up ts i t v g same (u, only, dir) =
      let (only', eq) = set-only ts u t v i only g in
      (v, only', same ∙ ap (λ x. x.interval) (sym eq) ∙ dir)
  Fits-set switching up ts i t v g same (u, only, dir) =
      let (only', eq) = set-only ts u t v i only g in
      (v, only', same ∙ ap (λ x. x.interval) (sym eq) ∙ dir)
  Fits-set ending up ts i t v g same (u, only) = (v, (set-only ts u t v i only g).0)
  Fits-set ended up [] i t v g same only = refl
  Fits-set ended up (x ∷ ts) i t v g same only = ground arith

  Fits-ending : (up : Bool) (ts : List Timer) → Fits selecting up ts → Fits ending up ts
  Fits-ending up ts (t, only, dir) = (t, only)

  Fits-start :
      (up : Bool) (ts : List Timer) (i : ℕ) (t : Timer)
      → get_elem? ts i ≡ some t
      → Fits switching up ts
      → Fits selecting up (remove_at ts i ++ start_timer (interval_of spec up) ∷ [])
  Fits-start up ts i t g (u, only, dir) = (
    start_timer (interval_of spec up),
    ap (λ xs. xs ++ start_timer (interval_of spec up) ∷ []) (remove-only ts u t i only g),
    refl,
  )

  Fits-finish :
      (up : Bool) (ts : List Timer) (i : ℕ) (t : Timer)
      → get_elem? ts i ≡ some t
      → Fits ending up ts
      → Fits ended up (remove_at ts i)
  Fits-finish up ts i t g (u, only) = remove-only ts u t i only g

  offer-Sound : (taken : Bool) (s : IncDecRate) → Sound s → Sound (offer taken s)
  unfolding offer
  offer-Sound true s h = record {
    within = h.within;
    room = h.room;
    received = (h.within, h.received);
    fits = h.fits;
  }
  offer-Sound false s h = h

  up-Within : (c : ℤ) → Within c → c <ℤ spec.max → Within (c +ℤ pos 1)
  up-Within c h r = ground (arith, +ℤ_parts c (pos 1))

  up_room : (c : ℤ) → c <ℤ spec.max → (c +ℤ pos 1) ≢ spec.max → (c +ℤ pos 1) <ℤ spec.max
  up_room c r h = ground (arith, +ℤ_parts c (pos 1), eq_of_parts (c +ℤ pos 1) spec.max)

  down-Within : (c : ℤ) → Within c → spec.min <ℤ c → Within (c -ℤ pos 1)
  down-Within c h r = ground (arith, -ℤ_parts c (pos 1))

  down_room : (c : ℤ) → spec.min <ℤ c → (c -ℤ pos 1) ≢ spec.min → spec.min <ℤ (c -ℤ pos 1)
  down_room c r h = ground (arith, -ℤ_parts c (pos 1), eq_of_parts (c -ℤ pos 1) spec.min)

  module _ (apart : spec.min <ℤ spec.max) where
    abbrev selecting_rate : Bool → ℤ → List Timer → List ℤ → IncDecRate
    selecting_rate up c ts sent = record {
      going_up = up;
      counter = c;
      phase = selecting;
      timers = ts;
      sent = sent;
    }

    count_to-Sound :
        (up taken : Bool) (c next bound : ℤ) (ts : List Timer) (sent : List ℤ)
        → Sound (selecting_rate up c ts sent)
        → Within next
        → (next ≡ bound → Room (not up) next)
        → (next ≢ bound → Room up next)
        → Sound (deliver taken (count_to next bound (selecting_rate up c ts sent)))
    unfolding count_to deliver
    count_to-Sound up taken c next bound ts sent h w hit miss = elim (Bool-cases (next == bound)) [
      | inl same ↦
          subst (λ b. Sound (deliver taken (chosen b))) (sym same)
            (record {
              within = w;
              room = hit ((int_beq_iff next bound).0 same);
              received = h.received;
              fits = turned up h.fits;
            })
      | inr other ↦
          subst (λ b. Sound (deliver taken (chosen b))) (sym other)
            (offer-Sound taken (selecting_rate up next ts sent) (record {
              within = w;
              room = miss (λ e. false≢true (sym other ∙ (int_beq_iff next bound).1 e));
              received = h.received;
              fits = h.fits;
            }))
    ]
      where
        s : IncDecRate
        s = selecting_rate up c ts sent

        chosen : Bool → IncDecRate
        chosen b =
            if b
            then record s { counter = next; going_up = not up; phase = switching }
            else record s { counter = next }

        turned : (x : Bool) → Fits selecting x ts → Fits switching (not x) ts
        turned true f = f
        turned false f = f

    count_either :
        (up taken : Bool) (c : ℤ) (ts : List Timer) (sent : List ℤ)
        → Sound (selecting_rate up c ts sent)
        → Sound (count spec taken (selecting_rate up c ts sent))
    unfolding count
    count_either true taken c ts sent h =
        count_to-Sound true taken c (c +ℤ pos 1) spec.max ts sent h (up-Within c h.within h.room)
          (λ e. subst (λ x. spec.min <ℤ x) (sym e) apart) (up_room c h.room)
    count_either false taken c ts sent h =
        count_to-Sound false taken c (c -ℤ pos 1) spec.min ts sent h (down-Within c h.within h.room)
          (λ e. subst (λ x. x <ℤ spec.max) (sym e) apart) (down_room c h.room)

    count-Sound :
        (taken : Bool) (s : IncDecRate) → s.phase ≡ selecting → Sound s → Sound (count spec taken s)
    count-Sound taken s here h =
        let same : s ≡ selecting_rate s.going_up s.counter s.timers s.sent =
          ap (λ p. record s { phase = p }) here in
        subst (λ x. Sound (count spec taken x)) (sym same)
          (count_either s.going_up taken s.counter s.timers s.sent (subst Sound same h))

    step-Sound : {s s' : IncDecRate} → Step spec s s' → Sound s → Sound s'
    step-Sound (tick {s} i n t g p free) h = record {
      within = h.within;
      room = h.room;
      received = h.received;
      fits = Fits-set s.phase s.going_up s.timers i t _ g refl h.fits;
    }
    step-Sound (fire {s} i t taken g p here) h =
        count-Sound taken (replace i (resumed t) s) here (record {
          within = h.within;
          room = h.room;
          received = h.received;
          fits = Fits-set s.phase s.going_up s.timers i t _ g refl h.fits;
        })
    step-Sound (control {s} here) h = record {
      within = h.within;
      room = h.room;
      received = h.received;
      fits = Fits-ending s.going_up s.timers (subst (λ p. Fits p s.going_up s.timers) here h.fits);
    }
    step-Sound (hand_over {s} i n t taken g p here) h = offer-Sound taken _ (record {
      within = h.within;
      room = h.room;
      received = h.received;
      fits =
          Fits-start s.going_up s.timers i t g
            (subst (λ p. Fits p s.going_up s.timers) here h.fits);
    })
    step-Sound (finish {s} i n t g p here) h = record {
      within = h.within;
      room = h.room;
      received = h.received;
      fits =
          Fits-finish s.going_up s.timers i t g
            (subst (λ p. Fits p s.going_up s.timers) here h.fits);
    }

    start-Sound : Sound (start_rate spec)
    start-Sound = record {
      within = ground arith;
      room = apart;
      received = tt;
      fits = (start_timer spec.inc_interval, refl, refl);
    }

    pub Steps-Sound : {s : IncDecRate} → Steps spec (start_rate spec) s → Sound s
    Steps-Sound r = go r refl
      where
        go : {s₀ s : IncDecRate} → Steps spec s₀ s → s₀ ≡ start_rate spec → Sound s
        go stay e = subst Sound (sym e) start-Sound
        go (then_step r x) e = step-Sound x (go r e)
