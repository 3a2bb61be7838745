-- ===== src/Rates/Single.antt =====
-- SingleRate of pkg/rates/rates.go: the goroutine of a constant rate with its timer.
use cnsbench.Prelude.{
  ℕ, ℤ, Bool, true, false, some, List, [], ◌∷◌, All, set, get_elem?, ◌≡◌, if◌then◌else◌,
}
use cnsbench.Rates.{counting, sending, Timer, start_timer, poll, resumed, remove_at}

-- Where the goroutine is: at its `select`, in the send that ends the timer, or gone.
pub data SinglePhase : Type 0 where
  watching stopping stopped : SinglePhase

pub record SingleRate : Type 0 where
  pub phase : SinglePhase
  -- the timers that have not returned
  pub timers : List Timer
  -- what the consumer received, the newest first
  pub sent : List ℕ

abbrev pub start_single : ℤ → SingleRate
start_single interval = record { phase = watching; timers = start_timer interval ∷ []; sent = [] }

abbrev pub replace_timer : ℕ → Timer → SingleRate → SingleRate
replace_timer i t s = record s { timers = set s.timers i t }

-- The value 1 of the timer goes on to the consumer, if that waits for it.
unfoldable pub hand_on : Bool → SingleRate → SingleRate
hand_on taken s = if taken then record s { sent = 1 ∷ s.sent } else s

abbrev pub is_stopping : SinglePhase → Bool
is_stopping watching = false
is_stopping stopping = true
is_stopping stopped = false

-- One step of the goroutines.
pub data SingleStep : SingleRate → SingleRate → Type 0 where
  tick :
      {s : SingleRate} (i n : ℕ) (t : Timer)
      → get_elem? s.timers i ≡ some t
      → t.phase ≡ counting n
      → is_stopping s.phase ≡ false
      → SingleStep s (replace_timer i (record t { phase = poll t.interval n }) s)
  fire :
      {s : SingleRate} (i : ℕ) (t : Timer) (taken : Bool)
      → get_elem? s.timers i ≡ some t
      → t.phase ≡ sending
      → s.phase ≡ watching
      → SingleStep s (hand_on taken (replace_timer i (resumed t) s))
  control : {s : SingleRate} → s.phase ≡ watching → SingleStep s (record s { phase = stopping })
  finish :
      {s : SingleRate} (i n : ℕ) (t : Timer)
      → get_elem? s.timers i ≡ some t
      → t.phase ≡ counting n
      → s.phase ≡ stopping
      → SingleStep s (record s { phase = stopped; timers = remove_at s.timers i })

pub data SingleSteps : SingleRate → SingleRate → Type 0 where
  stay : {s : SingleRate} → SingleSteps s s
  then_step : {s t u : SingleRate} → SingleSteps s t → SingleStep t u → SingleSteps s u

abbrev pub Runs : SinglePhase → List Timer → Type 0
Runs stopped ts = ts ≡ []
Runs _ ts = (t : Timer) × (ts ≡ t ∷ [])

pub record SingleSound (s : SingleRate) : Type 0 where
  pub ones : All (λ n. n ≡ 1) s.sent
  pub runs : Runs s.phase s.timers
