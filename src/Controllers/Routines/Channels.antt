-- ===== src/Controllers/Routines/Channels.antt =====
-- The control channel of a benchmark as the number of its receivers: how many startRates leaves,
-- and how many messages stopRoutines sends.
use cnsbench.Prelude.{
  put-put, get-put-same, put-same, ℕ, zero, suc, ◌+◌, ◌*◌, count_if, ◌≤◌, String, Option, none,
  some, List, [], ◌∷◌, get, put, all, ◌==◌, string_eq, ◌≡◌, refl, sym, ap, subst, ◌∙◌, arith,
  if◌then◌else◌, Bool-cases, inl, inr, ◌<◌,
}
use native.Mathlib.Nat.{zero-add}
use cnsbench.Exec.{
  Error, Outcome, ok, err, fault, unknown_rate, blocked, pure, crash, continue, ◌>>=◌,
}
use cnsbench.Api.{Benchmark, Rate}
use cnsbench.Utils.{contains}
use cnsbench.Utils.Laws.{without, remove-without}
use cnsbench.Env.{Env, updated, call, Reconciler, gets, set_channels}
use cnsbench.Controllers.Routines.{
  is_known, rate_finalizer, with_finalizer, count_rate, listen, start_each, start_rates, send,
  stop_each, stop_routines, cleanup,
}

-- How many rates stand before the first one of an unknown kind.
unfoldable pub known_rates : List Rate → ℕ
known_rates [] = 0
known_rates (rate ∷ rates) = let n = known_rates rates in if is_known rate then suc n else 0

abbrev pub with_rates : ℕ → Benchmark → Benchmark
with_rates n b = record b { status = record (b.status) { running_rates = n } }

-- The benchmark and the error that startRates hands back.
abbrev pub started : Benchmark → Benchmark × Option Error
started b =
    let b' = with_rates (known_rates b.spec.rates) b in
    if all is_known b.spec.rates then (with_finalizer b', none) else (b', some unknown_rate)

abbrev with_listeners : {W : Type 0} → String → ℕ → Reconciler W → Reconciler W
with_listeners name n s = record s { control_channels = put name n s.control_channels }

add_zero : (n : ℕ) → n + 0 ≡ n
add_zero n = omega arith

twice_suc : (n k : ℕ) → 2 * suc n + k ≡ suc (suc (2 * n + k))
twice_suc n k = omega arith

no_less : (j : ℕ) → ¬ (j < 2 * 0)
no_less j h = omega arith

add_suc : (n k : ℕ) → n + suc k ≡ n + 1 + k
add_suc n k = omega arith

twice_next : (n : ℕ) → 2 * n + 2 ≡ 2 * (n + 1)
twice_next n = omega arith

module _ {W : Type 0} where
  with_same :
      (name : String) (n : ℕ) (s : Reconciler W)
      → get name s.control_channels ≡ some n
      → with_listeners name n s ≡ s
  with_same name n s h = ap (λ m. record s { control_channels = m }) (put-same name n _ h)

  with_twice :
      (name : String) (n k : ℕ) (s : Reconciler W)
      → with_listeners name n (with_listeners name k s) ≡ with_listeners name n s
  with_twice name n k s = rw (put-put name n k s.control_channels) refl

-- Leaving the result of a call aside leaves the state as it is.
dropped-state :
    {S A : Type 0} (r : Outcome A) (s : S) → (continue r (λ _. pure {A = Unit {0}} tt) s).1 ≡ s
unfolding pure
dropped-state (ok a) s = refl
dropped-state (err e) s = refl
dropped-state (fault x) s = refl

-- What startRates does to the benchmark besides starting goroutines.
started-name : (b : Benchmark) → (started b).0.name ≡ b.name
unfolding with_finalizer
started-name b = ground arith

started-rates : (b : Benchmark) → (started b).0.status.running_rates ≡ known_rates b.spec.rates
unfolding with_finalizer
started-rates b = ground arith

module _ (env : Env) where
  listen-eq :
      (name : String) (n : ℕ) (s : Reconciler env.World)
      → listen env name (with_listeners name n s) ≡ (ok tt, with_listeners name (n + 2) s)
  unfolding listen gets set_channels ◌>>=◌
  listen-eq name n s = simp (get-put-same, put-put)

  start_each-eq :
      (rates : List Rate) (b : Benchmark) (n : ℕ) (s : Reconciler env.World)
      → start_each env rates (with_rates n b) (with_listeners b.name (2 * n) s) ≡ (
        ok (
          with_rates (n + known_rates rates) b,
          if all is_known rates then none else some unknown_rate,
        ),
        with_listeners b.name (2 * (n + known_rates rates)) s,
      )
  unfolding start_each known_rates pure ◌>>=◌ count_rate
  start_each-eq [] b n s = rw (add_zero n) refl
  start_each-eq (rate ∷ rates) b n s = elim (Bool-cases (is_known rate)) [
    | inl known ↦
        simp (known, listen-eq b.name (2 * n) s, twice_next n, add_suc n (known_rates rates))
          (start_each-eq rates b (n + 1) s)
    | inr unknown ↦ simp (unknown, add_zero n)
  ]

  send-listener :
      (name : String) (n : ℕ) (s : Reconciler env.World)
      → send env name (with_listeners name (suc n) s) ≡ (ok tt, with_listeners name n s)
  unfolding send gets set_channels ◌>>=◌
  send-listener name n s = simp (get-put-same, put-put)

  send-blocked :
      (name : String) (s : Reconciler env.World)
      → (send env name (with_listeners name 0 s)).0 ≡ fault blocked
  unfolding send gets crash ◌>>=◌
  send-blocked name s = simp get-put-same

  stop_each-eq :
      (name : String) (rates k : ℕ) (s : Reconciler env.World)
      → stop_each env name rates (with_listeners name (2 * rates + k) s)
        ≡ (ok tt, with_listeners name k s)
  unfolding stop_each pure ◌>>=◌
  stop_each-eq name zero k s = rw (zero-add k) refl
  stop_each-eq name (suc rates) k s =
      simp
        (
          twice_suc rates k,
          send-listener name (suc (2 * rates + k)) s,
          send-listener name (2 * rates + k) s,
        )
        (stop_each-eq name rates k s)

  stop_each-blocked :
      (name : String) (rates j : ℕ) (s : Reconciler env.World)
      → j < 2 * rates
      → (stop_each env name rates (with_listeners name j s)).0 ≡ fault blocked
  unfolding stop_each ◌>>=◌
  stop_each-blocked name zero j s h = absurd (no_less j h)
  stop_each-blocked name (suc rates) zero s h = ground (arith, send-blocked name s)
  stop_each-blocked name (suc rates) (suc zero) s h =
      ground (arith, send-listener name 0 s, send-blocked name s)
  stop_each-blocked name (suc rates) (suc (suc j)) s h =
      simp (send-listener name (suc j) s, send-listener name j s)
        (stop_each-blocked name rates j s (omega arith))

  -- startRates hands back `started`: the rates in front of the first one of an unknown kind are
  -- running, an unknown kind is an error, and the finalizer is there if a rate runs and there is no
  -- error. The new channel of the benchmark has two receivers for every running rate.
  pub start_rates-eq :
      (b : Benchmark) (s : Reconciler env.World)
      → start_rates env b s
        ≡ (ok (started b), with_listeners b.name (2 * known_rates b.spec.rates) s)
  unfolding start_rates gets set_channels pure ◌>>=◌
  start_rates-eq b s = elim (Bool-cases (all is_known b.spec.rates)) [
    | inl known ↦ simp (start_each-eq b.spec.rates b 0 s, zero-add, known)
    | inr unknown ↦ simp (start_each-eq b.spec.rates b 0 s, zero-add, unknown)
  ]

  -- If the channel of a benchmark has two receivers for every running rate and `k` more, then
  -- stopRoutines returns and leaves these `k`.
  pub stop_routines-eq :
      (b : Benchmark) (k : ℕ) (s : Reconciler env.World)
      → get b.name s.control_channels ≡ some (2 * b.status.running_rates + k)
      → stop_routines env b s ≡ (ok tt, with_listeners b.name k s)
  unfolding stop_routines
  stop_routines-eq b k s h =
      let n = 2 * b.status.running_rates + k in
      ap (stop_each env b.name b.status.running_rates) (sym (with_same b.name n s h))
      ∙ stop_each-eq b.name b.status.running_rates k s

  -- With fewer than two receivers for every running rate on the channel of a benchmark,
  -- stopRoutines blocks for ever.
  pub stop_routines-blocks :
      (b : Benchmark) (j : ℕ) (s : Reconciler env.World)
      → get b.name s.control_channels ≡ some j
      → j < 2 * b.status.running_rates
      → (stop_routines env b s).0 ≡ fault blocked
  unfolding stop_routines
  stop_routines-blocks b j s h few =
      ap (λ x. (stop_each env b.name b.status.running_rates x).0) (sym (with_same b.name j s h))
      ∙ stop_each-blocked b.name b.status.running_rates j s few

  stop_started :
      (b : Benchmark) (s : Reconciler env.World)
      → stop_routines env (started b).0 (with_listeners b.name (2 * known_rates b.spec.rates) s)
        ≡ (ok tt, with_listeners b.name 0 s)
  unfolding stop_routines
  stop_started b s =
      rw (started-name b, started-rates b)
        (subst
          (λ n.
            stop_each env b.name (known_rates b.spec.rates) (with_listeners b.name n s)
            ≡ (ok tt, with_listeners b.name 0 s))
          (add_zero (2 * known_rates b.spec.rates))
          (stop_each-eq b.name (known_rates b.spec.rates) 0 s))

  stop_again :
      (b : Benchmark) (s : Reconciler env.World)
      → 0 < known_rates b.spec.rates
      → (stop_routines env (started b).0 (with_listeners b.name 0 s)).0 ≡ fault blocked
  unfolding stop_routines
  stop_again b s h =
      rw (started-name b, started-rates b)
        (stop_each-blocked b.name (known_rates b.spec.rates) 0 s (omega arith))

  -- With a control channel as the number of its receivers, each of which takes one message:
  -- whether startRates succeeds or meets a rate of an unknown kind, stopRoutines on the
  -- benchmark that it hands back returns, with no receiver left on the new channel of the
  -- benchmark and nothing else of the controller's state changed.
  pub start_rates-stop_routines :
      (b : Benchmark) (s : Reconciler env.World)
      → (start_rates env b >>= λ x. stop_routines env x.0) s ≡ (ok tt, with_listeners b.name 0 s)
  unfolding ◌>>=◌
  start_rates-stop_routines b s = simp (start_rates-eq b s, stop_started b s)

  -- If startRates started a rate, then a second stopRoutines on the benchmark that it hands back
  -- blocks for ever.
  pub stop_routines-stop_routines :
      (b : Benchmark) (s : Reconciler env.World)
      → 0 < known_rates b.spec.rates
      → ((start_rates env b >>= λ x. stop_routines env x.0 >>= λ _. stop_routines env x.0) s).0
        ≡ fault blocked
  unfolding ◌>>=◌
  stop_routines-stop_routines b s h = simp (start_rates-eq b s, stop_started b s, stop_again b s h)

  -- With a control channel as the number of its receivers, each of which takes one message: if
  -- the channel of the benchmark has two receivers for every running rate, and the finalizer
  -- list holds the finalizer of the rates at most once, cleanup leaves no receiver; if the
  -- finalizer is there it makes one request, an update of the benchmark with the finalizer
  -- removed, and otherwise none.
  pub cleanup-calls :
      (b : Benchmark) (s : Reconciler env.World)
      → get b.name s.control_channels ≡ some (2 * b.status.running_rates)
      → count_if (λ v. v == rate_finalizer) b.finalizers ≤ 1
      → ((cleanup env b s).1.calls ≡ (
          if contains b.finalizers rate_finalizer
          then updated (record b { finalizers = without rate_finalizer b.finalizers }) ∷ s.calls
          else s.calls))
        × ((cleanup env b s).1.control_channels ≡ put b.name 0 s.control_channels)
  unfolding cleanup call pure ◌>>=◌
  cleanup-calls b s h once =
      let stop =
        stop_routines-eq b 0 s (h ∙ ap some (sym (add_zero (2 * b.status.running_rates)))) in
      elim (Bool-cases (contains b.finalizers rate_finalizer)) [
        | inl there ↦
            simp (stop, there, remove-without b.finalizers rate_finalizer once, dropped-state)
              (refl, refl)
        | inr missing ↦ simp (stop, missing) (refl, refl)
      ]
