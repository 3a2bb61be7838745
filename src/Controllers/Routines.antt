-- ===== src/Controllers/Routines.antt =====
-- startRates, stopRoutines, runControlOps, runControlOp and cleanup of
-- controllers/benchmark_controller.go. A control channel is the number of goroutines that still
-- receive from it: the goroutine of a rate and the one of its operations, each of which takes one
-- message and exits. A send that none of them can take blocks for ever.
pub mod Channels
use cnsbench.Prelude.{
  ℕ, ℤ, pos, zero, suc, ◌+◌, String, Bool, true, false, Option, none, some, List, [], ◌∷◌, ◌++◌,
  Assoc, get, put, ltb, ◌&&◌, not, ◌==◌, nat_eq, int_eq, string_eq, itoa, if◌then◌else◌,
}
use cnsbench.Exec.{
  on_option, Error, unknown_rate, panic, blocked, Exec, pure, raise, crash, logged, when, for_each,
  ◌>>=◌, ◌>>◌,
}
use cnsbench.Api.{Benchmark, Rate, Volume, Workload, ControlOperation}
use cnsbench.Utils.{contains, remove}
use cnsbench.Env.{Env, Run, Reconciler, updated, request, call, gets, set_channels}
use cnsbench.Controllers.Create.{metric, create_volume}
use cnsbench.Controllers.Actions.{run_workload, create_snapshot, delete_obj, scale_obj}

-- The tests on the two intervals: whether a rate has a known kind.
unfoldable pub is_known : Rate → Bool
is_known rate =
    if not (rate.constant_rate_spec.interval == pos 0)
    then true
    else not (rate.constant_increase_decrease_rate_spec.inc_interval == pos 0)

abbrev pub rate_finalizer : String
rate_finalizer = "RateFinalizer"

unfoldable pub with_finalizer : Benchmark → Benchmark
with_finalizer b =
    if ltb 0 b.status.running_rates && not (contains b.finalizers rate_finalizer)
    then record b { finalizers = b.finalizers ++ rate_finalizer ∷ [] }
    else b

unfoldable pub count_rate : Benchmark → Benchmark
count_rate b = record b {
  status = record (b.status) { running_rates = b.status.running_rates + 1 };
}

abbrev pub no_rates : Benchmark → Benchmark
no_rates b = record b { status = record (b.status) { running_rates = 0 } }

-- A message on the control channel, and a value on the channel of the rate.
pub data Message : Type 0 where
  exit : Message
  value : ℤ → Message

module _ (env : Env) where
  open env use {World}

  -- `go f(…, controlChannel)` for the two goroutines of a rate.
  unfoldable pub listen : String → Run World (Unit {0})
  listen name = do
    m ← gets (λ s. s.control_channels)
    on_option (get name m) (set_channels (put name 2 m)) (λ n. set_channels (put name (n + 2) m))

  unfoldable pub start_each : List Rate → Benchmark → Run World (Benchmark × Option Error)
  unfolding is_known listen count_rate
  start_each [] b = pure (b, none)
  start_each (rate ∷ rates) b =
      if is_known rate
      then (listen b.name >>= λ _. start_each rates (count_rate b))
      else pure (b, some unknown_rate)

  abbrev pub finish_start : Benchmark × Option Error → Run World (Benchmark × Option Error)
  finish_start (b, none) = pure (with_finalizer b, none)
  finish_start (b, some e) = pure (b, some e)

  -- The benchmark is changed in place, so it comes back beside the error.
  unfoldable pub start_rates : Benchmark → Run World (Benchmark × Option Error)
  unfolding start_each with_finalizer
  start_rates b = do
    m ← gets (λ s. s.control_channels)
    set_channels (put b.name 0 m)
    started ← start_each b.spec.rates (no_rates b)
    finish_start started

  -- `r.controlChannels[name] <- true`; a channel that is missing is nil.
  abbrev pub send_on : String → Assoc String ℕ → Option ℕ → Run World (Unit {0})
  send_on name m none = crash blocked
  send_on name m (some zero) = crash blocked
  send_on name m (some (suc n)) = set_channels (put name n m)

  unfoldable pub send : String → Run World (Unit {0})
  send name = gets (λ s. s.control_channels) >>= λ m. send_on name m (get name m)

  unfoldable pub stop_each : String → ℕ → Run World (Unit {0})
  unfolding send
  stop_each name zero = pure tt
  stop_each name (suc rates) = do send name; send name; stop_each name rates

  unfoldable pub stop_routines : Benchmark → Run World (Unit {0})
  unfolding stop_each
  stop_routines b = stop_each b.name b.status.running_rates

  abbrev pub write_removed : Benchmark → Option (List String) → Run World (Unit {0})
  write_removed b none = crash panic
  write_removed b (some finalizers) =
      let b' = record b { finalizers = finalizers } in
      call (updated b') (env.update b') >>= λ _. pure tt

  unfoldable pub cleanup : Benchmark → Run World (Unit {0})
  unfolding stop_routines
  cleanup b = do
    stop_routines b
    if contains b.finalizers rate_finalizer
        then write_removed b (remove b.finalizers rate_finalizer)
        else pure tt

  unfoldable pub run_control_op : Benchmark → ControlOperation → ℤ → Run World (Unit {0})
  run_control_op bm a n =
      if not (a.snapshot_spec.snapshot_class == "")
      then create_snapshot env bm a.snapshot_spec a.name
      else if not (env.format_selector a.delete_spec.selector == "")
          && not (env.format_selector a.delete_spec.selector == "<none>")
      then delete_obj env a.delete_spec
      else if not (a.scale_spec.obj_name == "")
      then scale_obj env bm a.scale_spec n
      else pure tt

  fire_volume : Benchmark → String → Volume → Run World (Unit {0})
  fire_volume bm rate_name a = when (a.rate_name == rate_name) (create_volume env bm a)

  fire_workload : Benchmark → String → Workload → Run World (Unit {0})
  fire_workload bm rate_name a =
      when (a.rate_name == rate_name) (logged (run_workload env bm a a.name))

  fire_operation : Benchmark → String → ℤ → ControlOperation → Run World (Unit {0})
  fire_operation bm rate_name n a = when (a.rate_name == rate_name) (logged (run_control_op bm a n))

  -- What the goroutine of a rate's operations does when the rate fires with `n`.
  unfoldable pub rate_fired : Benchmark → String → ℤ → Run World (Unit {0})
  unfolding fire_volume fire_workload fire_operation
  rate_fired bm rate_name n = do
    metric env bm "rateFired" ("rateName" ∷ rate_name ∷ "n" ∷ itoa n ∷ [])
    for_each bm.spec.volumes (fire_volume bm rate_name)
    for_each bm.spec.workloads (fire_workload bm rate_name)
    for_each bm.spec.control_operations (fire_operation bm rate_name n)

  -- The select of the goroutine of a rate's operations, for the messages in the order in which it
  -- takes them; without one it waits.
  unfoldable pub run_control_ops : Benchmark → String → List Message → Run World (Unit {0})
  unfolding rate_fired
  run_control_ops bm rate_name [] = pure tt
  run_control_ops bm rate_name (exit ∷ messages) = pure tt
  run_control_ops bm rate_name (value n ∷ messages) =
      rate_fired bm rate_name n >>= λ _. run_control_ops bm rate_name messages
