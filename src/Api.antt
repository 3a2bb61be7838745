-- ===== src/Api.antt =====
-- api/v1alpha1/benchmark_types.go: the specification and the status of a Benchmark.
-- A `metav1.Time` is the number of nanoseconds since the epoch; its zero value, which lies before
-- the epoch, is 0. The claim specification of a volume is passed on unread, and is a text here.
use cnsbench.Prelude.{ℕ, ℤ, ◌/◌, String, Option, List, Assoc}

abbrev pub Time : Type 0
Time = ℕ

-- (metav1.Time).Unix
abbrev pub unix : Time → ℕ
unix t = t / 1000000000

pub record Requirement : Type 0 where
  pub key : String
  pub operator : String
  pub values : List String

-- metav1.LabelSelector
pub record LabelSelector : Type 0 where
  pub match_labels : Assoc String String
  pub match_expressions : List Requirement

pub record HttpPost : Type 0 where
  pub url : String

pub record ActionOutput : Type 0 where
  pub output_name : String

pub record Output : Type 0 where
  pub name : String
  pub http_post_spec : HttpPost

pub record ConstantIncreaseDecreaseRate : Type 0 where
  pub inc_interval : ℤ
  pub dec_interval : ℤ
  pub max : ℤ
  pub min : ℤ

pub record ConstantRate : Type 0 where
  pub interval : ℤ

pub record Rate : Type 0 where
  pub name : String
  pub constant_rate_spec : ConstantRate
  pub constant_increase_decrease_rate_spec : ConstantIncreaseDecreaseRate

pub record Snapshot : Type 0 where
  pub workload_name : String
  pub volume_name : String
  pub snapshot_class : String

pub record Delete : Type 0 where
  pub api_version : String
  pub kind : String
  pub selector : LabelSelector

pub record Scale : Type 0 where
  pub obj_name : String
  pub scale_scripts : String
  pub workload_name : String
  pub service_account_name : String

pub record OutputFile : Type 0 where
  pub filename : String
  pub parser : String
  pub target : String
  pub sink : String

pub record Volume : Type 0 where
  pub name : String
  pub count : ℤ
  pub spec : String
  pub rate_name : String

pub record Workload : Type 0 where
  pub name : String
  pub workload : String
  pub vars : Assoc String String
  pub count : ℤ
  pub sync_group : String
  pub output_files : List OutputFile
  pub rate_name : String

pub record ControlOperation : Type 0 where
  pub name : String
  pub snapshot_spec : Snapshot
  pub scale_spec : Scale
  pub delete_spec : Delete
  pub outputs : ActionOutput
  pub rate_name : String

pub record BenchmarkSpec : Type 0 where
  pub runtime : String
  pub volumes : List Volume
  pub workloads : List Workload
  pub control_operations : List ControlOperation
  pub rates : List Rate
  pub workloads_output : String
  pub metadata_output : String
  pub metrics_output : String
  pub outputs : List Output

-- The three constants, and any other text, such as the empty one of a new Benchmark.
pub data BenchmarkState : Type 0 where
  complete running initializing : BenchmarkState
  other : String → BenchmarkState

pub record BenchmarkCondition : Type 0 where
  pub last_probe_time : Time
  pub last_transition_time : Time
  pub message : String
  pub reason : String
  pub status : String
  pub type : String

pub record BenchmarkStatus : Type 0 where
  pub state : BenchmarkState
  pub completion_time : Time
  pub init_completion_time : Time
  pub target_completion_time_unix : ℕ
  pub target_completion_time : Time
  pub completion_time_unix : ℕ
  pub start_time_unix : ℕ
  pub init_completion_time_unix : ℕ
  pub num_completed_objs : ℤ
  pub running_workloads : ℕ
  pub running_rates : ℕ
  pub conditions : List BenchmarkCondition

-- Of the embedded ObjectMeta the fields that the controller reads or writes.
pub record Benchmark : Type 0 where
  pub name : String
  pub deletion_timestamp : Option Time
  pub creation_timestamp : Time
  pub finalizers : List String
  pub spec : BenchmarkSpec
  pub status : BenchmarkStatus
