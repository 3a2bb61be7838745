-- ===== src/Rates.antt =====
-- pkg/rates/rates.go: the goroutine of an increasing and decreasing rate, with the timers that it
-- starts. They share an unbuffered channel `pin`: a send on it waits until the other side receives.
mod Timers
pub mod Counter
pub mod Deadlock
pub mod Turn
pub mod Single
use cnsbench.Prelude.{
  ℕ, zero, suc, ℤ, pos, ◌+◌, ◌+ℤ◌, ◌-ℤ◌, Bool, true, false, Option, some, List, [], ◌∷◌, ◌++◌, set,
  get_elem?, ◌==◌, int_eq, ◌≡◌, not, if◌then◌else◌,
}
use cnsbench.Api.{ConstantIncreaseDecreaseRate}

-- Where a timer is: before its `select` with its count, or in its send on `pin`.
pub data TimerPhase : Type 0 where
  counting : ℕ → TimerPhase
  sending : TimerPhase

-- ConstTimer, as a running goroutine.
pub record Timer : Type 0 where
  pub interval : ℤ
  pub phase : TimerPhase

abbrev pub start_timer : ℤ → Timer
start_timer interval = record { interval = interval; phase = counting 0 }

-- One round of the loop of `Run` in which nothing is received, up to the next `select`.
unfoldable pub poll : ℤ → ℕ → TimerPhase
poll interval count = if pos count == interval then sending else counting (count + 1)

-- The rest of the round once the send was received: the count was reset, and is increased.
abbrev pub resumed : Timer → Timer
resumed t = record t { phase = counting 1 }

-- Where the goroutine of a rate is: at its `select`, in the send that ends the timer before it
-- returns, in the send that ends the timer before it starts the other one, or gone.
pub data Phase : Type 0 where
  selecting ending switching ended : Phase

pub record IncDecRate : Type 0 where
  pub going_up : Bool
  pub counter : ℤ
  pub phase : Phase
  -- the timers that have not returned
  pub timers : List Timer
  -- what the consumer received, the newest first
  pub sent : List ℤ

abbrev pub interval_of : ConstantIncreaseDecreaseRate → Bool → ℤ
interval_of spec up = if up then spec.inc_interval else spec.dec_interval

abbrev pub start_rate : ConstantIncreaseDecreaseRate → IncDecRate
start_rate spec = record {
  going_up = true;
  counter = spec.min;
  phase = selecting;
  timers = start_timer spec.inc_interval ∷ [];
  sent = [];
}

-- The new counter, and the turn where it meets its bound.
unfoldable pub count_to : ℤ → ℤ → IncDecRate → IncDecRate
count_to c bound s =
    if c == bound
    then record s { counter = c; going_up = not s.going_up; phase = switching }
    else record s { counter = c }

-- The send to the consumer, which is left out where the consumer does not wait for it.
unfoldable pub offer : Bool → IncDecRate → IncDecRate
offer taken s = if taken then record s { sent = s.counter ∷ s.sent } else s

-- It stands behind the switch of the timers, if there is one.
unfoldable pub deliver : Bool → IncDecRate → IncDecRate
unfolding offer
deliver taken s = elim s.phase [ switching ↦ s | _ ↦ offer taken s ]

-- What the rate does with a value from the timer, up to the next send on `pin` or `select`.
unfoldable pub count : ConstantIncreaseDecreaseRate → Bool → IncDecRate → IncDecRate
unfolding count_to deliver
count spec taken s = deliver taken (
    if s.going_up
    then count_to (s.counter +ℤ pos 1) spec.max s
    else count_to (s.counter -ℤ pos 1) spec.min s)

abbrev pub remove_at : List Timer → ℕ → List Timer
remove_at [] i = []
remove_at (t ∷ ts) zero = ts
remove_at (t ∷ ts) (suc i) = t ∷ remove_at ts i

abbrev pub replace : ℕ → Timer → IncDecRate → IncDecRate
replace i t s = record s { timers = set s.timers i t }

-- The rate waits in a send on `pin`, so a timer at its `select` does not take the default.
abbrev pub sends : Phase → Bool
sends selecting = false
sends ending = true
sends switching = true
sends ended = false

-- One step of the goroutines.
pub data Step (spec : ConstantIncreaseDecreaseRate) : IncDecRate → IncDecRate → Type 0 where
  tick :
      {s : IncDecRate} (i n : ℕ) (t : Timer)
      → get_elem? s.timers i ≡ some t
      → t.phase ≡ counting n
      → sends s.phase ≡ false
      → Step spec s (replace i (record t { phase = poll t.interval n }) s)
  fire :
      {s : IncDecRate} (i : ℕ) (t : Timer) (taken : Bool)
      → get_elem? s.timers i ≡ some t
      → t.phase ≡ sending
      → s.phase ≡ selecting
      → Step spec s (count spec taken (replace i (resumed t) s))
  control : {s : IncDecRate} → s.phase ≡ selecting → Step spec s (record s { phase = ending })
  hand_over :
      {s : IncDecRate} (i n : ℕ) (t : Timer) (taken : Bool)
      → get_elem? s.timers i ≡ some t
      → t.phase ≡ counting n
      → s.phase ≡ switching
      → Step spec s (
          offer taken (record s {
            phase = selecting;
            timers = remove_at s.timers i ++ start_timer (interval_of spec s.going_up) ∷ [];
          }))
  finish :
      {s : IncDecRate} (i n : ℕ) (t : Timer)
      → get_elem? s.timers i ≡ some t
      → t.phase ≡ counting n
      → s.phase ≡ ending
      → Step spec s (record s { phase = ended; timers = remove_at s.timers i })

pub data Steps (spec : ConstantIncreaseDecreaseRate) : IncDecRate → IncDecRate → Type 0 where
  stay : {s : IncDecRate} → Steps spec s s
  then_step : {s t u : IncDecRate} → Steps spec s t → Step spec t u → Steps spec s u
