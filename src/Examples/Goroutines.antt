-- ===== src/Examples/Goroutines.antt =====
-- The theorems on the goroutines of a rate, at concrete rates.
use cnsbench.Prelude.{pos, ◌+ℤ◌, ◌≡◌, refl, arith, string_eq, false, [], ◌∷◌}
use cnsbench.Api.{ConstantIncreaseDecreaseRate}
use cnsbench.Rates.{
  IncDecRate, Step, Steps, stay, then_step, tick, start_rate, start_timer, poll, ending, counting,
  sending, fire, switching, selecting, count, count_to, deliver, offer,
}
use cnsbench.Rates.Turn.{turn-goes_on}
use cnsbench.Rates.Single
use cnsbench.Rates.Deadlock.{ending-deadlock}
use cnsbench.Examples.{climb}

ending-deadlock_example :
    (s : IncDecRate) × Steps climb (start_rate climb) s
    × (s.phase ≡ ending)
    × ((s' : IncDecRate) → ¬ Step climb s s')
ending-deadlock_example = ending-deadlock climb 1 refl

-- The rate after two ticks and one received value: it has met its maximum and waits for the turn.
abbrev short : ConstantIncreaseDecreaseRate
short = record { inc_interval = pos 0; dec_interval = pos 2; max = pos 2; min = pos 1 }

abbrev at_turn : IncDecRate
at_turn = record {
  going_up = false;
  counter = pos 2;
  phase = switching;
  timers = record { interval = pos 0; phase = counting 1 } ∷ [];
  sent = [];
}

to_turn : Steps short (start_rate short) at_turn
unfolding poll count count_to deliver offer ◌+ℤ◌
to_turn =
    then_step (then_step stay (tick 0 0 (start_timer (pos 0)) refl refl refl))
      (fire 0 (record { interval = pos 0; phase = sending }) false refl refl refl)

turn-goes_on_example : (s' : IncDecRate) × Step short at_turn s' × (s'.phase ≡ selecting)
turn-goes_on_example = turn-goes_on short (ground arith) to_turn refl
