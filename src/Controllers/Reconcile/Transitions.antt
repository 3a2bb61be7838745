-- ===== src/Controllers/Reconcile/Transitions.antt =====
-- Which states a run of Reconcile writes to the status of a benchmark.
use cnsbench.Prelude.{
  ℕ, arith, pos, ltb_ℤ, ltb, string_eq, ◌==◌, String, Bool, true, false, ◌≡◌, refl, sym, subst,
  Option, none, some, List, [], ◌∷◌, ◌++◌, All,
}
use cnsbench.Exec.{Error, Try, returned, failed, pure, continue, caught, of_try, attempt, ◌>>=◌}
use cnsbench.Api.{
  Time, Benchmark, BenchmarkStatus, BenchmarkState, BenchmarkCondition, Workload, complete, running,
  initializing, other,
}
use cnsbench.Env.{
  Env, Reconciler, request, Call, status_updated, Admits, Emits, Emits-if, Emits-bind,
  Emits-for_each, emits_rules,
}
use cnsbench.Controllers.Quiet.{
  output-Emits, create_volume-Emits, check_init-Emits, count_completions-Emits, run_workload-Emits,
  reconcile_instances-Emits, start_rates-Emits, stop_routines-Emits, cleanup-Emits,
}
use cnsbench.Controllers.Reconcile.{
  get_completed_pods, update_instance_status, update_instance, start_workloads, all_complete,
  being_deleted, write_final, finish, on_running, with_target, start_running, on_initializing,
  initialize, on_fixed, on_new, add_default_outputs, on_state, on_deletion, on_fetched, reconcile,
}

-- The life of a benchmark.
pub data Edge : BenchmarkState → BenchmarkState → Type 0 where
  start : {t : String} → Edge (other t) initializing
  init : Edge initializing running
  stop : Edge running complete

-- A write of the status follows an edge from the fetched state, and is made only for a
-- benchmark that was found and is not being deleted.
abbrev pub Follows : Try Benchmark → Call → Type 0
Follows (returned b) (status_updated b') =
    (b.deletion_timestamp ≡ none) × Edge b.status.state b'.status.state
Follows (failed e) (status_updated b') = ⊥
Follows t _ = Unit

Follows-Admits : (t : Try Benchmark) → Admits (Follows t)
Follows-Admits (returned b) = record {
  of_created = λ o. tt;
  of_watched = λ o. tt;
  of_deleted = λ n. tt;
  of_posted = λ u t. tt;
  of_updated = λ c. tt;
}
Follows-Admits (failed e) = record {
  of_created = λ o. tt;
  of_watched = λ o. tt;
  of_deleted = λ n. tt;
  of_posted = λ u t. tt;
  of_updated = λ c. tt;
}

module _ (env : Env) {P : Call → Type 0} (q : Admits P) where
  open q use {of_updated}

  update_status-Emits :
      (b : Benchmark) → P (status_updated b) → Emits P (update_instance_status env b)
  unfolding update_instance_status
  update_status-Emits b h = search (emits_rules, h, cleanup-Emits env q) depth 8

  update-Emits : (b : Benchmark) → Emits P (update_instance env b)
  unfolding update_instance
  update-Emits b = search (emits_rules, of_updated, cleanup-Emits env q) depth 8

  completed_pods-Emits :
      (end : Time) (ws : List Workload) (n : ℕ) → Emits P (get_completed_pods env end ws n)
  unfolding get_completed_pods
  completed_pods-Emits end [] n = search emits_rules
  completed_pods-Emits end (a ∷ ws) n =
      Emits-bind _ _ (search emits_rules)
        (λ sel. Emits-bind _ _ (search emits_rules) (λ pods. completed_pods-Emits end ws _))

  all_complete-Emits : (ws : List Workload) → Emits P (all_complete env ws)
  unfolding all_complete
  all_complete-Emits [] = search emits_rules
  all_complete-Emits (w ∷ ws) = Emits-bind _ _ (count_completions-Emits env q w.name) (λ t.
      Emits-if (ltb_ℤ (pos t.complete) w.count) (pure false) _ (search emits_rules)
        (all_complete-Emits ws))

  being_deleted-Emits : (b : Benchmark) → Emits P (being_deleted env b)
  unfolding being_deleted
  being_deleted-Emits b = search (emits_rules, cleanup-Emits env q) depth 10

  module _ (ends : (b : Benchmark) → b.status.state ≡ complete → P (status_updated b)) where
    final-Emits :
        (b : Benchmark) (st : BenchmarkStatus) (c : BenchmarkCondition)
        (cs : List BenchmarkCondition)
        → st.state ≡ complete
        → Emits P (write_final env b st c cs)
    unfolding write_final
    final-Emits b st c [] h = search emits_rules
    final-Emits b st c (_ ∷ cs) h =
        Emits-bind _ _ (update_status-Emits _ (ends _ h))
          (λ b'. search (emits_rules, cleanup-Emits env q))

    finish-Emits : (b : Benchmark) (t : Time) → Emits P (finish env b t)
    unfolding finish
    finish-Emits b t = Emits-bind _ _ (search (emits_rules, completed_pods-Emits)) (λ n.
        Emits-bind _ _ (search emits_rules) (λ out.
          Emits-bind _ _ (output-Emits env q _ _ _ _ _) (λ _.
            Emits-bind _ _ (search emits_rules) (λ t₁.
              Emits-bind _ _ (search emits_rules)
                (λ t₂. Emits-bind _ _ (search emits_rules) (λ t₃. final-Emits _ _ _ _ refl))))))

    on_running-Emits : (b : Benchmark) → Emits P (on_running env b)
    unfolding on_running
    on_running-Emits b = Emits-bind _ _ (search emits_rules) (λ end.
        Emits-if (b.spec.runtime == "") _ _
          (Emits-bind _ _ (all_complete-Emits b.spec.workloads)
            (λ all. Emits-if all _ _ (finish-Emits b end) (search emits_rules)))
          (Emits-bind _ _ (search emits_rules) (λ now.
            Emits-if (ltb now b.status.target_completion_time) _ _
              (Emits-bind _ _ (reconcile_instances-Emits env q b b.spec.workloads)
                (λ _. search emits_rules))
              (finish-Emits b end))))

  state-with_target :
      (r : String) (t : Time) (st : BenchmarkStatus)
      → st.state ≡ running
      → (with_target env r t st).state ≡ running
  unfolding with_target
  state-with_target r t st h = ground arith

  module _ (runs : (b : Benchmark) → b.status.state ≡ running → P (status_updated b)) where
    start_running-Emits : (x : Benchmark × Option Error) → Emits P (start_running env x)
    unfolding start_running
    start_running-Emits (b, some e) =
        Emits-bind _ _ (stop_routines-Emits env q b) (λ _. search emits_rules)
    start_running-Emits (b, none) = Emits-bind _ _ (search emits_rules) (λ t₁.
        Emits-bind _ _ (search emits_rules) (λ t₂.
          Emits-bind _ _ (update_status-Emits _ (runs _ (state-with_target _ t₁ _ refl)))
            (λ b₁. Emits-bind _ _ (update-Emits b₁) (λ _. search emits_rules))))

    on_initializing-Emits : (b : Benchmark) → Emits P (on_initializing env b)
    unfolding on_initializing
    on_initializing-Emits b = Emits-bind _ _ (check_init-Emits env q b.spec.workloads) (λ up.
        Emits-if up _ _ (Emits-bind _ _ (start_rates-Emits env q b) start_running-Emits)
          (search emits_rules))

  module _ (inits : (b : Benchmark) → b.status.state ≡ initializing → P (status_updated b)) where
    initialize-Emits : (b : Benchmark) → Emits P (initialize env b)
    unfolding initialize start_workloads
    initialize-Emits b = Emits-bind _ _ (search emits_rules) (λ t.
        Emits-bind _ _ (Emits-for_each _ _ (λ v. create_volume-Emits env q _ v)) (λ _.
          Emits-bind _ _ (Emits-for_each _ _ (λ a. run_workload-Emits env q _ a a.name)) (λ _.
            Emits-bind _ _ (update_status-Emits _ (inits _ refl))
              (λ b₂. Emits-bind _ _ (update-Emits b₂) (λ _. search emits_rules)))))

    on_fixed-Emits : (x : Benchmark × Bool) → Emits P (on_fixed env x)
    unfolding on_fixed
    on_fixed-Emits (b, true) = Emits-bind _ _ (update-Emits b) (λ _. search emits_rules)
    on_fixed-Emits (b, false) = initialize-Emits b

written :
    (b b' : Benchmark) {x y : BenchmarkState}
    → b.deletion_timestamp ≡ none
    → b.status.state ≡ x
    → Edge x y
    → b'.status.state ≡ y
    → Follows (returned b) (status_updated b')
written b b' {x} {y} alive from edge to =
    (alive, subst (λ z. Edge b.status.state z) (sym to) (subst (λ z. Edge z y) (sym from) edge))

module _ (env : Env) where
  on_state-Emits :
      (st : BenchmarkState) (b : Benchmark)
      → b.deletion_timestamp ≡ none
      → b.status.state ≡ st
      → Emits (Follows (returned b)) (on_state env st b)
  unfolding on_state on_new
  on_state-Emits complete b alive from = search emits_rules
  on_state-Emits running b alive from =
      on_running-Emits env (Follows-Admits (returned b)) (λ b'. written b b' alive from stop) b
  on_state-Emits initializing b alive from =
      on_initializing-Emits env (Follows-Admits (returned b)) (λ b'. written b b' alive from init) b
  on_state-Emits (other t) b alive from =
      on_fixed-Emits env (Follows-Admits (returned b)) (λ b'. written b b' alive from start)
        (add_default_outputs b)

  on_deletion-Emits :
      (d : Option Time) (b : Benchmark)
      → b.deletion_timestamp ≡ d
      → Emits (Follows (returned b)) (on_deletion env d b)
  unfolding on_deletion
  on_deletion-Emits none b h = on_state-Emits b.status.state b h refl
  on_deletion-Emits (some t) b h = being_deleted-Emits env (Follows-Admits (returned b)) b

  on_fetched-Emits : (t : Try Benchmark) → Emits (Follows t) (on_fetched env t)
  unfolding on_fetched
  on_fetched-Emits (returned b) = on_deletion-Emits b.deletion_timestamp b refl
  on_fetched-Emits (failed e) = search emits_rules

  after_get :
      (r : Try Benchmark × env.World) (s : Reconciler env.World)
      → (new : List Call) × ((continue
            (caught (of_try r.0))
            (on_fetched env)
            (record s { world = r.1 })).1.calls
          ≡ new ++ s.calls)
        × All (Follows r.0) new
  after_get (returned b, w) s = (on_fetched-Emits (returned b)).at (record s { world = w })
  after_get (failed e, w) s = (on_fetched-Emits (failed e)).at (record s { world = w })

-- Whatever the outside answers, every write of a benchmark's status that a run of Reconcile makes
-- follows an edge of its life: from a new benchmark to initializing, from there to running, from
-- there to complete, counted from the state that was fetched. A benchmark that is not found or
-- that is being deleted gets no such write.
pub reconcile-Follows :
    (env : Env) (name : String) (s : Reconciler env.World)
    → (new : List Call) × ((reconcile env name s).1.calls ≡ new ++ s.calls)
      × All (Follows (env.get_benchmark name s.world).0) new
unfolding reconcile request attempt ◌>>=◌
reconcile-Follows env name s = after_get env (env.get_benchmark name s.world) s
