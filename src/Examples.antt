-- ===== src/Examples.antt =====
-- A cluster with one benchmark, at which the theorems are applied.
mod Goroutines
mod Controller
mod Timing
mod Following
mod Tracing
mod Search
use cnsbench.Prelude.{
  ℕ, pos, ◌≡◌, refl, ◌≤◌, arith, String, string_eq, true, false, none, some, List, [], ◌∷◌, ◌++◌,
  All, all, get, put,
}
use cnsbench.Exec.{returned, failed, not_found, ok, fault, blocked, ◌>>=◌}
use cnsbench.Api.{
  Benchmark, LabelSelector, Workload, Rate, Output, initializing, ConstantIncreaseDecreaseRate,
  Delete,
}
use cnsbench.Kube.{PodInfo, Unstructured, PodSpec, Container, nil}
use cnsbench.Env.{Env, Reconciler, Call, updated, deleted}
use cnsbench.Utils.{contains, remove}
use cnsbench.Utils.Laws.{without, remove-without}
use cnsbench.Rates.{
  IncDecRate, Step, Steps, stay, then_step, tick, start_rate, start_timer, poll, ending, replace,
}
use cnsbench.Rates.{counting, sending, fire, switching, selecting, count, count_to, deliver, offer}
use cnsbench.Rates.Turn.{turn-goes_on}
use cnsbench.Env.{posted}
use cnsbench.Output.{do_output}
use cnsbench.Output.Posts.{do_output-posts}
use cnsbench.Podutils.ScalePods.{cleanup_scale_pods, cleanup_scale_pods-calls}
use cnsbench.Prelude.{◌+ℤ◌}
use cnsbench.Rates.Counter.{Sound, Steps-Sound}
use cnsbench.Rates.Deadlock.{ending-deadlock}
use cnsbench.Controllers.Completion.{restarted}
use cnsbench.Controllers.Completion.Counts.{IsSnapshot}
use cnsbench.Controllers.Containers.{vol_in_spec, has_output_mount, with_output_vol}
use cnsbench.Controllers.Containers.Mounts.{with_output_vol-mounts}
use cnsbench.Controllers.Actions.{delete_obj}
use cnsbench.Controllers.Actions.Oldest.{age, In, delete_obj-oldest}
use cnsbench.Controllers.Routines.{is_known, start_rates, stop_routines, cleanup, rate_finalizer}
use cnsbench.Controllers.Routines.Channels.{
  known_rates, started, start_rates-eq, stop_routines-eq, stop_routines-blocks,
  start_rates-stop_routines, stop_routines-stop_routines, cleanup-calls,
}
use cnsbench.Controllers.Reconcile.{add_default_outputs, default_endpoints, reconcile}
use cnsbench.Controllers.Reconcile.Transitions.{Follows, reconcile-Follows}
use cnsbench.Controllers.Reconcile.Outputs.{
  HasOutput, add_default_outputs-settles, add_default_outputs-unchanged,
}

abbrev climb : ConstantIncreaseDecreaseRate
climb = record { inc_interval = pos 1; dec_interval = pos 2; max = pos 3; min = pos 1 }

abbrev climbing : Rate
climbing = record {
  name = "climb";
  constant_rate_spec = record { interval = pos 0 };
  constant_increase_decrease_rate_spec = climb;
}

abbrev idle : Rate
idle = record {
  name = "idle";
  constant_rate_spec = record { interval = pos 0 };
  constant_increase_decrease_rate_spec = record {
    inc_interval = pos 0;
    dec_interval = pos 0;
    max = pos 0;
    min = pos 0;
  };
}

abbrev fio : Workload
fio = record {
  name = "fio";
  workload = "fio";
  vars = [];
  count = pos 2;
  sync_group = "";
  output_files = [];
  rate_name = "";
}

abbrev bench : Benchmark
bench = record {
  name = "bench";
  deletion_timestamp = none;
  creation_timestamp = 0;
  finalizers = [];
  spec = record {
    runtime = "";
    volumes = [];
    workloads = fio ∷ [];
    control_operations = [];
    rates = climbing ∷ climbing ∷ [];
    workloads_output = "";
    metadata_output = "";
    metrics_output = "";
    outputs = [];
  };
  status = record {
    state = initializing;
    completion_time = 0;
    init_completion_time = 0;
    target_completion_time_unix = 0;
    target_completion_time = 0;
    completion_time_unix = 0;
    start_time_unix = 0;
    init_completion_time_unix = 0;
    num_completed_objs = pos 0;
    running_workloads = 0;
    running_rates = 0;
    conditions = [];
  };
}

abbrev bad_rates : Benchmark
bad_rates = record bench { spec = record (bench.spec) { rates = climbing ∷ idle ∷ [] } }

abbrev container : String → Container
container name = record { name = name; image = ""; command = []; volume_mounts = []; env = [] }

abbrev two_containers : PodSpec
two_containers = record {
  restart_policy = "Never";
  service_account_name = "";
  containers = container "a" ∷ container "b" ∷ [];
  init_containers = [];
  volumes = [];
}

abbrev pod_info : String → String → PodInfo
pod_info name phase = record { name = name; phase = phase; container_statuses = [] }

abbrev pods_up : List PodInfo
pods_up = pod_info "a" "Running" ∷ pod_info "b" "Succeeded" ∷ []

abbrev old_items : List Unstructured
old_items =
    record { name = "b"; creation_timestamp = 5000000000 }
    ∷ record { name = "c"; creation_timestamp = 9000000000 }
    ∷ []

abbrev new_item : Unstructured
new_item = record { name = "a"; creation_timestamp = 7000000000 }

abbrev cluster : Env
cluster = record {
  World = Unit {0};
  Selector = LabelSelector;
  get_benchmark = λ name w. (returned bench, w);
  get_config_map = λ name space w. (returned (record { annotations = []; items = [] }), w);
  update = λ b w. (returned b, w);
  update_status = λ b w. (returned b, w);
  create = λ o w. (returned tt, w);
  delete_item = λ o w. (returned tt, w);
  delete_pod = λ p w. (returned tt, w);
  list_pods = λ sel w. (returned pods_up, w);
  list_jobs = λ sel w. (returned (record { succeeded = 1; completions = some 1 } ∷ []), w);
  list_stateful_sets = λ sel w. (returned (record { selector = sel } ∷ []), w);
  list_claims = λ sel w. (returned (record { name = "c"; phase = "Pending" } ∷ []), w);
  list_unstructured = λ version kind sel w. (returned (new_item ∷ old_items), w);
  add_label = λ ls k v. record ls { match_labels = ls.match_labels ++ (k, v) ∷ [] };
  as_selector = λ ls. returned ls;
  parse_selector = λ text. returned (record { match_labels = []; match_expressions = [] });
  format_selector = λ ls. "";
  set_controller_reference = λ b m. returned m;
  set_owner_reference = λ b m. returned m;
  watch = λ o w. (returned tt, w);
  generate_name = λ base w. (base, w);
  decode = λ text. returned nil;
  read_file = λ path w. (failed not_found, w);
  parse_duration = λ text. returned 1;
  now = λ w. (10000000000, w);
  encode_metrics = λ m. "";
  encode_output = λ name spec a b c. "";
  post = λ url body w. (returned tt, w);
}

abbrev fresh : Reconciler (Unit {0})
fresh = record { control_channels = []; workload_instance = []; calls = []; world = tt }

abbrev with_channel : ℕ → Reconciler (Unit {0})
with_channel n = record fresh { control_channels = ("bench", n) ∷ [] }

abbrev snapshot :
    IsSnapshot cluster
      (λ ls. ls)
      (λ sel. pods_up)
      (λ sel. record { succeeded = 1; completions = some 1 } ∷ [])
      (λ sel. record { selector = sel } ∷ [])
      (λ sel. record { name = "c"; phase = "Pending" } ∷ [])
snapshot = record {
  list_pods = λ x w. refl;
  list_jobs = λ x w. refl;
  list_stateful_sets = λ x w. refl;
  list_claims = λ x w. refl;
}
