-- ===== src/Controllers/Actions.antt =====
-- RunWorkload, CreateSnapshot, DeleteObj, ScaleObj and ReconcileInstances of controllers/actions.go.
pub mod Oldest
use cnsbench.Prelude.{
  ℕ, ℤ, pos, negsuc, pos_part, zero, suc, ◌+◌, ◌+ℤ◌, ◌-ℤ◌, leb_ℤ, leb, String, Bool, true, false,
  Option, none, some, List, [], ◌∷◌, ◌++◌, Assoc, get, put, not, ◌==◌, string_eq, ◌⧺◌, itoa,
  contains_text, if◌then◌else◌,
}
use cnsbench.Exec.{
  Try, returned, failed, Exec, pure, raise, lift, of_try, attempt, logged, for_each, ◌>>=◌, ◌>>◌,
}
use cnsbench.Api.{Benchmark, Workload, Snapshot, Delete, Scale, unix}
use cnsbench.Kube.{
  Object, pod, volume_snapshot, ObjectMeta, ConfigMap, ClaimInfo, Unstructured, PodSpec, Container,
}
use cnsbench.Podutils.{object_meta}
use cnsbench.Env.{Env, Run, Reconciler, created, deleted, request, read, call, gets, set_instances}
use cnsbench.Controllers.Completion.{empty_selector, Tally, count_completions}
use cnsbench.Controllers.Create.{library_namespace, new_meta, create_obj, clone_parser}
use cnsbench.Controllers.Containers.{new_cm_vol}
use cnsbench.Controllers.Prepare.{replace_vars, prepare_and_run}

abbrev pub is_parser : String → Bool
is_parser k = contains_text k "parse"

-- `m[name] + 1`, where a missing name reads as 0.
unfoldable pub next_instance : String → Assoc String ℤ → ℤ
next_instance name m = elim (get name m) [ none ↦ pos 1 | some i ↦ i +ℤ pos 1 ]

-- `if _, ok := m[name]; !ok { m[name] = -1 }`
unfoldable pub start_instances : String → Assoc String ℤ → Assoc String ℤ
start_instances name m = elim (get name m) [ none ↦ put name (negsuc 0) m | some i ↦ m ]

-- The oldest item: where sort.Slice puts the first of those with the least time.
unfoldable pub older : Unstructured → Unstructured → Unstructured
older a b = if leb (unix a.creation_timestamp) (unix b.creation_timestamp) then a else b

unfoldable pub oldest : Unstructured → List Unstructured → Unstructured
unfolding older
oldest a [] = a
oldest a (b ∷ items) = oldest (older a b) items

module _ (env : Env) where
  open env use {World}

  -- `instances` objects from one text, with the next instance numbers of the workload.
  unfoldable pub run_instances :
      Benchmark → String → Workload → Assoc String String → String → ℕ → Run World (Unit {0})
  run_instances bm workload_name a annotations text zero = pure tt
  run_instances bm workload_name a annotations text (suc instances) = do
    m ← gets (λ s. s.workload_instance)
    let w = next_instance a.workload m
    set_instances (put a.workload w m)
    prepare_and_run env bm w workload_name a annotations text
    run_instances bm workload_name a annotations text instances

  unfoldable pub run_parser :
      Benchmark → Workload → String → ConfigMap → String × String → Run World (Unit {0})
  run_parser bm a workload_name cm (k, text) =
      if is_parser k
      then prepare_and_run env bm (pos 0) workload_name a cm.annotations text
      else pure tt

  unfoldable pub run_object :
      Benchmark → Workload → String → ConfigMap → String × String → Run World (Unit {0})
  unfolding run_instances
  run_object bm a workload_name cm (k, text) = if is_parser k then pure tt else do
    m ← gets (λ s. s.workload_instance)
    set_instances (start_instances a.workload m)
    run_instances bm workload_name a cm.annotations text (pos_part a.count)

  unfoldable pub run_workload : Benchmark → Workload → String → Run World (Unit {0})
  unfolding run_parser run_object
  run_workload bm a workload_name = do
    cm ← request (env.get_config_map a.workload library_namespace)
    for_each cm.items (run_parser bm a workload_name cm)
    for_each cm.items (run_object bm a workload_name cm)

  unfoldable pub take_snapshot : Benchmark → Snapshot → String → ClaimInfo → Run World (Unit {0})
  take_snapshot bm s action_name pvc = do
    name ← read (env.generate_name (bm.name ⧺ "-snapshot-"))
    let m = new_meta name (some (("workloadname", action_name) ∷ []))
    logged (
        create_obj env bm
          (volume_snapshot m (record {
            volume_snapshot_class_name = s.snapshot_class;
            persistent_volume_claim_name = pvc.name;
          }))
          false)

  unfoldable pub create_snapshot : Benchmark → Snapshot → String → Run World (Unit {0})
  unfolding take_snapshot
  create_snapshot bm s action_name = do
    let ls =
        if not (s.workload_name == "")
        then env.add_label empty_selector "workloadname" s.workload_name
        else if not (s.volume_name == "")
        then env.add_label empty_selector "volumename" s.volume_name
        else empty_selector
    selector ← lift (of_try (env.as_selector ls))
    pvcs ← request (env.list_claims selector)
    for_each pvcs (take_snapshot bm s action_name)

  unfoldable pub delete_first : List Unstructured → Run World (Unit {0})
  unfolding oldest
  delete_first [] = pure tt
  delete_first (a ∷ items) =
      let item = oldest a items in call (deleted item.name) (env.delete_item item)

  unfoldable pub delete_obj : Delete → Run World (Unit {0})
  unfolding delete_first
  delete_obj d = do
    selector ← lift (of_try (env.as_selector d.selector))
    items ← request (env.list_unstructured d.api_version d.kind selector)
    delete_first items

  scale_pod_spec : Scale → ℤ → String → PodSpec
  scale_pod_spec s num_replicas scripts_cm_name = record {
    restart_policy = "Never";
    service_account_name = s.service_account_name;
    containers =
        record {
          name = "scale-container";
          image = "cnsbench/kubectl-container";
          command = "/scripts/scale.sh" ∷ s.obj_name ∷ itoa num_replicas ∷ [];
          volume_mounts =
              record { mount_path = "/scripts/"; name = "scale-script"; sub_path = "" } ∷ [];
          env = [];
        }
        ∷ [];
    init_containers = [];
    volumes = new_cm_vol "scale-script" scripts_cm_name ∷ [];
  }

  unfoldable pub scale_obj : Benchmark → Scale → ℤ → Run World (Unit {0})
  unfolding scale_pod_spec
  scale_obj bm s num_replicas = do
    scripts_cm_name ← clone_parser env bm s.scale_scripts
    name ← read (env.generate_name "scale-pod-")
    let m = new_meta name (some (("app", "scale-pod") ∷ []))
    m' ← lift (of_try (env.set_controller_reference bm m))
    m'' ← lift (of_try (env.set_owner_reference bm m'))
    let scale_pod = pod m'' (scale_pod_spec s num_replicas scripts_cm_name)
    call (created scale_pod) (env.create scale_pod)

  -- `instances` objects from one text, numbered from `w`.
  unfoldable pub create_instances :
      Benchmark → Workload → ConfigMap → String → ℕ → ℤ → Run World (Unit {0})
  create_instances bm a cm text zero w = pure tt
  create_instances bm a cm text (suc instances) w = do
    prepare_and_run env bm w a.name a cm.annotations text
    create_instances bm a cm text instances (w +ℤ pos 1)

  abbrev pub is_duplicate : ObjectMeta → Bool
  is_duplicate m = elim (get "duplicate" m.annotations) [ none ↦ false | some d ↦ d == "true" ]

  -- One text of the config map; `instances` objects are missing.
  unfoldable pub reconcile_object :
      Benchmark → Workload → ConfigMap → ℕ → ℤ → String × String → Run World (Unit {0})
  unfolding create_instances
  reconcile_object bm a cm instances w (k, text) = do
    obj ← lift (of_try (env.decode (replace_vars text a (pos 0) a.count a.name cm.annotations)))
    m ← lift (object_meta obj)
    if is_duplicate m then create_instances bm a cm text instances w else pure tt

  unfoldable pub reconcile_workload : Benchmark → Workload → Run World (Unit {0})
  unfolding reconcile_object
  reconcile_workload bm a = do
    t ← count_completions env a.name
    let needed = a.count -ℤ pos t.notcomplete
    if leb_ℤ needed (pos 0) then pure tt else do
      cm ← request (env.get_config_map a.workload library_namespace)
      for_each cm.items
          (reconcile_object bm a cm (pos_part needed) (pos (t.complete + t.notcomplete)))

  unfoldable pub reconcile_instances : Benchmark → List Workload → Run World (Unit {0})
  unfolding reconcile_workload
  reconcile_instances bm workloads = for_each workloads (reconcile_workload bm)
