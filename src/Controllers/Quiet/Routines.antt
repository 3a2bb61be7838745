-- ===== src/Controllers/Quiet/Routines.antt =====
-- The requests of controllers/benchmark_controller.go below Reconcile.
use cnsbench.Prelude.{
  ℕ, zero, suc, String, Option, none, some, List, [], ◌∷◌, Assoc, get, string_eq,
}
use cnsbench.Exec.{Error, unknown_rate, pure}
use cnsbench.Api.{Benchmark, Rate}
use cnsbench.Env.{Env, Call, Admits, Emits, Emits-if, Emits-bind, emits_rules}
use cnsbench.Utils.{contains, remove}
use cnsbench.Controllers.Routines.{
  is_known, count_rate, write_removed, listen, start_each, start_rates, finish_start, send_on, send,
  stop_each, stop_routines, cleanup, rate_finalizer,
}

module _ (env : Env) {P : Call → Type 0} (q : Admits P) where
  open q use {of_updated}

  listen-Emits : (name : String) → Emits P (listen env name)
  unfolding listen
  listen-Emits name = Emits-bind _ _ (search emits_rules) (λ m. search emits_rules)

  start_each-Emits : (rates : List Rate) (b : Benchmark) → Emits P (start_each env rates b)
  unfolding start_each
  start_each-Emits [] b = search emits_rules
  start_each-Emits (r ∷ rates) b =
      Emits-if (is_known r) _ (pure (b, some unknown_rate))
        (Emits-bind _ _ (listen-Emits b.name) (λ _. start_each-Emits rates (count_rate b)))
        (search emits_rules)

  finish_start-Emits : (x : Benchmark × Option Error) → Emits P (finish_start env x)
  finish_start-Emits (b, none) = search emits_rules
  finish_start-Emits (b, some e) = search emits_rules

  pub start_rates-Emits : (b : Benchmark) → Emits P (start_rates env b)
  unfolding start_rates
  start_rates-Emits b = search (emits_rules, start_each-Emits, finish_start-Emits) depth 8

  on_channel-Emits :
      (name : String) (o : Option ℕ) (m : Assoc String ℕ) → Emits P (send_on env name m o)
  on_channel-Emits name none m = search emits_rules
  on_channel-Emits name (some zero) m = search emits_rules
  on_channel-Emits name (some (suc n)) m = search emits_rules

  send-Emits : (name : String) → Emits P (send env name)
  unfolding send
  send-Emits name = Emits-bind _ _ (search emits_rules) (λ m. on_channel-Emits name (get name m) m)

  stop_each-Emits : (name : String) (k : ℕ) → Emits P (stop_each env name k)
  unfolding stop_each
  stop_each-Emits name zero = search emits_rules
  stop_each-Emits name (suc k) =
      Emits-bind _ _ (send-Emits name)
        (λ _. Emits-bind _ _ (send-Emits name) (λ _. stop_each-Emits name k))

  pub stop_routines-Emits : (b : Benchmark) → Emits P (stop_routines env b)
  unfolding stop_routines
  stop_routines-Emits b = stop_each-Emits b.name b.status.running_rates

  removed-Emits : (b : Benchmark) (o : Option (List String)) → Emits P (write_removed env b o)
  removed-Emits b none = search emits_rules
  removed-Emits b (some f) = search (emits_rules, of_updated)

  pub cleanup-Emits : (b : Benchmark) → Emits P (cleanup env b)
  unfolding cleanup
  cleanup-Emits b = Emits-bind _ _ (stop_routines-Emits b) (λ _.
      Emits-if (contains b.finalizers rate_finalizer) _ (pure tt)
        (removed-Emits b (remove b.finalizers rate_finalizer)) (search emits_rules))
