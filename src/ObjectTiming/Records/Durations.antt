-- ===== src/ObjectTiming/Records/Durations.antt =====
-- pkg/objecttiming/timing.go: the rounding of a duration.
use cnsbench.Prelude.{ℕ, pos, suc, ◌+◌, ◌-◌, ◌*◌, ◌/◌, ◌≤◌, ◌<◌, ◌≡◌, arith, nat_eq}
use cnsbench.Api.{Time}
use cnsbench.ObjectTiming.Records.{time_diff}

-- If the second time is not earlier and less than 2^63 nanoseconds later, timeDiff is the
-- number of whole microseconds between the two times.
pub time_diff-rounds :
    (t1 t2 : Time)
    → t1 ≤ t2
    → t2 < t1 + 9223372036854775808
    → (n : ℕ) × (time_diff t1 t2 ≡ pos n) × (n * 1000 ≤ t2 - t1) × (t2 - t1 < suc n * 1000)
unfolding time_diff
time_diff-rounds t1 t2 order small = ((t2 - t1) / 1000, ground arith, omega arith, omega arith)
