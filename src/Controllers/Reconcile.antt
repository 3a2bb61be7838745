-- ===== src/Controllers/Reconcile.antt =====
-- Reconcile of controllers/benchmark_controller.go, with the functions that only it calls.
pub mod Transitions
pub mod Outputs
pub mod Finished
use cnsbench.Prelude.{
  ℕ, ℤ, pos, negsuc, zero, suc, ◌+◌, String, Bool, true, false, Option, none, some, List, [], ◌∷◌,
  ◌++◌, any, count_if, get, delete, ltb, leb, ltb_ℤ, ◌&&◌, not, ◌==◌, string_eq, ◌⧺◌, if◌then◌else◌,
}
use cnsbench.Exec.{
  on_try, on_option, Error, Try, returned, failed, is_not_found, panic, Exec, pure, raise, crash,
  lift, of_try, attempt, for_each, ◌>>=◌, ◌>>◌,
}
use cnsbench.Api.{
  Time, unix, Benchmark, BenchmarkStatus, BenchmarkState, complete, running, initializing, other,
  BenchmarkCondition, Output, Workload, Volume,
}
use cnsbench.Kube.{PodInfo, ContainerStatus}
use cnsbench.Output
use cnsbench.Env.{
  Env, Run, Reconciler, updated, status_updated, request, read, call, gets, set_channels,
  set_instances,
}
use cnsbench.Controllers.Completion.{empty_selector, check_init, count_completions}
use cnsbench.Controllers.Create.{create_volume}
use cnsbench.Controllers.Actions.{run_workload, reconcile_instances}
use cnsbench.Controllers.Routines.{start_rates, stop_routines, cleanup}

-- ctrl.Result, with the delay in seconds.
pub record Result : Type 0 where
  pub requeue : Bool
  pub requeue_after : ℕ

abbrev pub done : Result
done = record { requeue = false; requeue_after = 0 }

abbrev pub again : Result
again = record { requeue = true; requeue_after = 0 }

abbrev pub default_endpoints : List (String × String)
default_endpoints =
    ("defaultWorkloadsOutput", "workloads")
    ∷ ("defaultMetadataOutput", "metadata")
    ∷ ("defaultMetricsOutput", "metrics")
    ∷ []

abbrev pub has_output : String → List Output → Bool
has_output name outputs = any (λ (o : Output). o.name == name) outputs

abbrev pub default_output : String → String → Output
default_output name endpoint = record {
  name = name;
  http_post_spec = record {
    url = "http://cnsbench-output-collector.cnsbench-system.svc.cluster.local:8888/" ⧺ endpoint;
  };
}

-- The loop over the endpoints, in the order in which the map is visited.
unfoldable pub add_outputs : List (String × String) → List Output → Bool → List Output × Bool
add_outputs [] outputs changed = (outputs, changed)
add_outputs ((name, endpoint) ∷ endpoints) outputs changed =
    let found = has_output name outputs in
    add_outputs endpoints (if found then outputs else outputs ++ default_output name endpoint ∷ [])
      (if found then changed else true)

unfoldable pub add_default_outputs : Benchmark → Benchmark × Bool
unfolding add_outputs
add_default_outputs b =
    let (outputs, changed) = add_outputs default_endpoints b.spec.outputs false in
    (record b { spec = record (b.spec) { outputs = outputs } }, changed)

abbrev fixup_spec : Benchmark → Benchmark × Bool
fixup_spec b = add_default_outputs b

-- The last of the container statuses.
unfoldable pub last_status : List ContainerStatus → Option ContainerStatus
last_status [] = none
last_status (c ∷ []) = some c
last_status (c ∷ d ∷ cs) = last_status (d ∷ cs)

unfoldable pub completed_in_time : Time → PodInfo → Bool
unfolding last_status
completed_in_time end pod = pod.phase == "Succeeded" && elim (last_status pod.container_statuses) [
  | none ↦ false
  | some c ↦ elim c.terminated [ none ↦ false | some t ↦ leb t.finished_at end ]
]

abbrev pub complete_condition : String → Time → BenchmarkCondition
complete_condition status now = record {
  last_probe_time = 0;
  last_transition_time = now;
  message = "";
  reason = "";
  status = status;
  type = "Complete";
}

module _ (env : Env) where
  open env use {World}

  unfoldable pub get_completed_pods : Time → List Workload → ℕ → Run World ℕ
  unfolding completed_in_time
  get_completed_pods end [] n = pure n
  get_completed_pods end (a ∷ workloads) n = do
    selector ← lift (
        of_try (
          env.as_selector (
            env.add_label (env.add_label empty_selector "workloadname" a.name) "duplicate" "true")))
    pods ← request (env.list_pods selector)
    get_completed_pods end workloads (n + count_if (completed_in_time end) pods)

  unfoldable pub update_instance_status : Benchmark → Run World Benchmark
  update_instance_status b = do
    t ← attempt (call (status_updated b) (env.update_status b))
    on_try t (λ e. (attempt (cleanup env b) >>= λ _. raise e)) (λ b'. pure b')

  unfoldable pub update_instance : Benchmark → Run World Benchmark
  update_instance b = do
    t ← attempt (call (updated b) (env.update b))
    on_try t (λ e. (attempt (cleanup env b) >>= λ _. raise e)) (λ b'. pure b')

  abbrev create_volumes : Benchmark → List Volume → Run World (Unit {0})
  create_volumes b volumes = for_each volumes (create_volume env b)

  abbrev do_outputs : Benchmark → ℕ → ℕ → ℕ → Run World (Unit {0})
  do_outputs b start_time completion_time init_completion_time =
      Output.output env b.spec.metadata_output b start_time completion_time init_completion_time

  unfoldable pub start_workloads : Benchmark → List Workload → Run World (Unit {0})
  start_workloads b workloads = for_each workloads (λ a. run_workload env b a a.name)

  -- The loop of the running state: whether every workload has `count` complete objects.
  unfoldable pub all_complete : List Workload → Run World Bool
  all_complete [] = pure true
  all_complete (w ∷ workloads) = do
    t ← count_completions env w.name
    if ltb_ℤ (pos t.complete) w.count then pure false else all_complete workloads

  unfoldable pub being_deleted : Benchmark → Run World Result
  being_deleted b = do
    m ← gets (λ s. s.control_channels)
    on_option (get b.name m) (pure done) (λ _. do
      cleanup env b
      m' ← gets (λ s. s.control_channels)
      set_channels (delete b.name m')
      pure done)

  -- The first of the conditions is replaced, which panics where there is none.
  unfoldable pub write_final :
      Benchmark → BenchmarkStatus → BenchmarkCondition → List BenchmarkCondition → Run World Result
  write_final b status c [] = crash panic
  write_final b status c (_ ∷ conditions) = do
    b' ←
        update_instance_status (record b { status = record status { conditions = c ∷ conditions } })
    cleanup env b'
    pure done

  abbrev pub completed_objs : Try ℕ → ℤ
  completed_objs (returned n) = pos n
  completed_objs (failed e) = negsuc 0

  -- The end of a benchmark: the outputs, the final status, and the cleanup.
  unfoldable pub finish : Benchmark → Time → Run World Result
  finish b runtime_end = do
    n ← attempt (get_completed_pods runtime_end b.spec.workloads 0)
    let status₁ = record (b.status) { num_completed_objs = completed_objs n }
    out_time ← read env.now
    do_outputs (record b { status = status₁ }) (unix b.creation_timestamp) (unix out_time)
        b.status.init_completion_time_unix
    t₁ ← read env.now
    t₂ ← read env.now
    t₃ ← read env.now
    let status₂ = record status₁ {
      state = complete;
      completion_time = t₁;
      completion_time_unix = unix t₂;
      start_time_unix = unix b.creation_timestamp;
    }
    write_final b status₂ (complete_condition "True" t₃) status₂.conditions

  unfoldable pub on_running : Benchmark → Run World Result
  unfolding finish all_complete
  on_running b = do
    runtime_end ← read env.now
    if b.spec.runtime == ""
        then (do
          all_done ← all_complete b.spec.workloads
          if all_done then finish b runtime_end else pure done)
        else do
          now ← read env.now
          if ltb now b.status.target_completion_time
              then (do reconcile_instances env b b.spec.workloads; pure done)
              else finish b runtime_end

  -- Where the runtime does not parse, the target stays as it was.
  unfoldable pub with_target : String → Time → BenchmarkStatus → BenchmarkStatus
  with_target runtime init status =
      if runtime == "" then status else elim (env.parse_duration runtime) [
        | failed e ↦ status
        | returned d ↦ record status { target_completion_time = init + d }
      ]

  unfoldable pub start_running : Benchmark × Option Error → Run World Result
  unfolding with_target
  start_running (b, some e) = do stop_routines env b; raise e
  start_running (b, none) = do
    t₁ ← read env.now
    t₂ ← read env.now
    let status = record (b.status) {
      state = running;
      init_completion_time = t₁;
      init_completion_time_unix = unix t₂;
    }
    b₁ ← update_instance_status (record b { status = with_target b.spec.runtime t₁ status })
    update_instance b₁
    pure done

  unfoldable pub on_initializing : Benchmark → Run World Result
  unfolding start_running
  on_initializing b = do
    done_init ← check_init env b.spec.workloads
    if done_init
        then (start_rates env b >>= start_running)
        else pure (record { requeue = false; requeue_after = 5 })

  unfoldable pub initialize : Benchmark → Run World Result
  initialize b = do
    t ← read env.now
    let status = record (b.status) {
      running_workloads = 0;
      state = initializing;
      conditions = complete_condition "False" t ∷ [];
    }
    let b₁ = record b { status = status }
    create_volumes b₁ b₁.spec.volumes
    start_workloads b₁ b₁.spec.workloads
    b₂ ← update_instance_status b₁
    update_instance b₂
    pure again

  unfoldable pub on_fixed : Benchmark × Bool → Run World Result
  unfolding initialize
  on_fixed (b, true) = do update_instance b; pure again
  on_fixed (b, false) = initialize b

  unfoldable pub on_new : Benchmark → Run World Result
  unfolding on_fixed add_default_outputs
  on_new b = on_fixed (fixup_spec b)

  unfoldable pub on_state : BenchmarkState → Benchmark → Run World Result
  on_state complete b = pure done
  on_state running b = on_running b
  on_state initializing b = on_initializing b
  on_state (other _) b = on_new b

  unfoldable pub on_deletion : Option Time → Benchmark → Run World Result
  unfolding on_state
  on_deletion (some _) b = being_deleted b
  on_deletion none b = on_state b.status.state b

  unfoldable pub on_fetched : Try Benchmark → Run World Result
  unfolding on_deletion
  on_fetched (failed e) = if is_not_found e then pure done else raise e
  on_fetched (returned b) = on_deletion b.deletion_timestamp b

  unfoldable pub reconcile : String → Run World Result
  unfolding on_fetched
  reconcile name = attempt (request (env.get_benchmark name)) >>= on_fetched

  -- SetupWithManager, where `build` is what the builder of controller-runtime does.
  unfoldable pub setup_with_manager : (World → Try (Unit {0}) × World) → Run World (Unit {0})
  setup_with_manager build = do set_channels []; set_instances []; request build
