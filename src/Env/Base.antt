-- ===== src/Env/Base.antt =====
-- The interface, the state of a run of the controller, and the calls that a run makes.
use cnsbench.Prelude.{ℕ, ℤ, String, List, ◌∷◌, Assoc}
use cnsbench.Exec.{Try, ok, Exec, of_try}
use cnsbench.Api.{Time, Benchmark, BenchmarkSpec, LabelSelector}
use cnsbench.Kube.{
  Object, ObjectMeta, ConfigMap, PodInfo, JobInfo, StatefulSetInfo, ClaimInfo, Unstructured,
}

pub record Env : Type 1 where
  pub World : Type 0
  pub Selector : Type 0
  -- client.Client; an update overwrites the object with the server's answer
  pub get_benchmark : String → World → Try Benchmark × World
  pub get_config_map : String → String → World → Try ConfigMap × World
  pub update : Benchmark → World → Try Benchmark × World
  pub update_status : Benchmark → World → Try Benchmark × World
  pub create : Object → World → Try (Unit {0}) × World
  pub delete_item : Unstructured → World → Try (Unit {0}) × World
  pub delete_pod : PodInfo → World → Try (Unit {0}) × World
  pub list_pods : Selector → World → Try (List PodInfo) × World
  pub list_jobs : Selector → World → Try (List JobInfo) × World
  pub list_stateful_sets : Selector → World → Try (List StatefulSetInfo) × World
  pub list_claims : Selector → World → Try (List ClaimInfo) × World
  pub list_unstructured : String → String → Selector → World → Try (List Unstructured) × World
  -- metav1 selectors
  pub add_label : LabelSelector → String → String → LabelSelector
  pub as_selector : LabelSelector → Try Selector
  pub parse_selector : String → Try LabelSelector
  pub format_selector : LabelSelector → String
  -- controllerutil and controller.Watch
  pub set_controller_reference : Benchmark → ObjectMeta → Try ObjectMeta
  pub set_owner_reference : Benchmark → ObjectMeta → Try ObjectMeta
  pub watch : Object → World → Try (Unit {0}) × World
  -- names.SimpleNameGenerator, the YAML decoder, ioutil.ReadFile, time.ParseDuration, the clock
  pub generate_name : String → World → String × World
  pub decode : String → Try Object
  pub read_file : String → World → Try String × World
  pub parse_duration : String → Try ℕ
  pub now : World → Time × World
  -- encoding/json and net/http
  pub encode_metrics : Assoc String String → String
  pub encode_output : String → BenchmarkSpec → ℕ → ℕ → ℕ → String
  pub post : String → String → World → Try (Unit {0}) × World

-- A request that changes something outside of the controller.
pub data Call : Type 0 where
  updated : Benchmark → Call
  status_updated : Benchmark → Call
  created : Object → Call
  deleted : String → Call
  watched : Object → Call
  posted : String → String → Call

-- The fields of BenchmarkReconciler that change, and what lies outside. A control channel stands
-- with the number of goroutines that still receive from it. `calls` lists the requests made so
-- far, the newest first.
pub record Reconciler (W : Type 0) : Type 0 where
  pub control_channels : Assoc String ℕ
  pub workload_instance : Assoc String ℤ
  pub calls : List Call
  pub world : W

abbrev pub Run : Type 0 → Type 0 → Type 0
Run W A = Exec (Reconciler W) A

module _ {W : Type 0} where
  -- A call of the interface.
  unfoldable pub request : {A : Type 0} → (W → Try A × W) → Run W A
  request f s = let (r, w) = f s.world in (of_try r, record s { world = w })

  -- A call of the interface that cannot fail.
  unfoldable pub read : {A : Type 0} → (W → A × W) → Run W A
  read f s = let (a, w) = f s.world in (ok a, record s { world = w })

  unfoldable pub call : {A : Type 0} → Call → (W → Try A × W) → Run W A
  call c f s = let (r, w) = f s.world in (of_try r, record s { calls = c ∷ s.calls; world = w })

  unfoldable pub gets : {A : Type 0} → (Reconciler W → A) → Run W A
  gets f s = (ok (f s), s)

  unfoldable pub set_instances : Assoc String ℤ → Run W (Unit {0})
  set_instances m s = (ok tt, record s { workload_instance = m })

  unfoldable pub set_channels : Assoc String ℕ → Run W (Unit {0})
  set_channels m s = (ok tt, record s { control_channels = m })
