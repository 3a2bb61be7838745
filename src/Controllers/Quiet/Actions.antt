-- ===== src/Controllers/Quiet/Actions.antt =====
-- The requests of controllers/actions.go and of the goroutines.
use cnsbench.Prelude.{
  ℕ, ℤ, pos, ◌+ℤ◌, ◌-ℤ◌, leb_ℤ, all, false, zero, suc, String, List, [], ◌∷◌, Assoc,
}
use cnsbench.Exec.{pure}
use cnsbench.Api.{Benchmark, Workload, Snapshot, Delete, Scale}
use cnsbench.Kube.{ConfigMap, StatefulSetInfo, ClaimInfo, Unstructured}
use cnsbench.Env.{Env, Call, Admits, Emits, Emits-if, Emits-bind, Emits-for_each, emits_rules}
use cnsbench.Controllers.Completion.{
  Tally, workload_pods, check_init, pods_complete, jobs_complete, tally_stateful_sets,
  stateful_sets_complete, pvcs_complete, count_completions, is_up,
}
use cnsbench.Controllers.Actions.{
  run_instances, run_parser, run_object, run_workload, create_instances, reconcile_object,
  reconcile_workload, reconcile_instances, is_duplicate, next_instance, take_snapshot,
  create_snapshot, delete_first, delete_obj, scale_obj,
}
use cnsbench.Controllers.Quiet.Create.{create_obj-Emits, clone_parser-Emits}
use cnsbench.Controllers.Quiet.Containers.{prepare-Emits}

module _ (env : Env) {P : Call → Type 0} (q : Admits P) where
  open q use {of_created, of_deleted}

  pub check_init-Emits : (ws : List Workload) → Emits P (check_init env ws)
  unfolding check_init workload_pods
  check_init-Emits [] = search emits_rules
  check_init-Emits (w ∷ ws) =
      Emits-bind _ _ (search emits_rules) (λ pods.
        Emits-if (all is_up pods) _ (pure false) (check_init-Emits ws) (search emits_rules))

  stateful_sets-Emits :
      (xs : List StatefulSetInfo) (t : Tally) → Emits P (tally_stateful_sets env xs t)
  unfolding tally_stateful_sets
  stateful_sets-Emits [] t = search emits_rules
  stateful_sets-Emits (x ∷ xs) t = search (emits_rules, stateful_sets-Emits xs) depth 8

  pub count_completions-Emits : (name : String) → Emits P (count_completions env name)
  unfolding count_completions pods_complete jobs_complete stateful_sets_complete pvcs_complete
  count_completions-Emits name = search (emits_rules, stateful_sets-Emits) depth 14

  run_instances-Emits :
      (bm : Benchmark) (n : String) (a : Workload) (as' : Assoc String String) (t : String) (k : ℕ)
      → Emits P (run_instances env bm n a as' t k)
  unfolding run_instances
  run_instances-Emits bm n a as' t zero = search emits_rules
  run_instances-Emits bm n a as' t (suc k) = Emits-bind _ _ (search emits_rules) (λ m.
      Emits-bind _ _ (search emits_rules) (λ _.
        Emits-bind _ _ (prepare-Emits env q bm (next_instance a.workload m) n a as' t)
          (λ _. run_instances-Emits bm n a as' t k)))

  run_parser-Emits :
      (bm : Benchmark) (a : Workload) (n : String) (cm : ConfigMap) (x : String × String)
      → Emits P (run_parser env bm a n cm x)
  unfolding run_parser
  run_parser-Emits bm a n cm (k, t) = search (emits_rules, prepare-Emits env q)

  run_object-Emits :
      (bm : Benchmark) (a : Workload) (n : String) (cm : ConfigMap) (x : String × String)
      → Emits P (run_object env bm a n cm x)
  unfolding run_object
  run_object-Emits bm a n cm (k, t) = search (emits_rules, run_instances-Emits)

  pub run_workload-Emits :
      (bm : Benchmark) (a : Workload) (n : String) → Emits P (run_workload env bm a n)
  unfolding run_workload
  run_workload-Emits bm a n = search (emits_rules, run_parser-Emits, run_object-Emits) depth 8

  snapshot-Emits :
      (bm : Benchmark) (s : Snapshot) (n : String) (c : ClaimInfo)
      → Emits P (take_snapshot env bm s n c)
  unfolding take_snapshot
  snapshot-Emits bm s n c = search (emits_rules, create_obj-Emits env q)

  pub create_snapshot-Emits :
      (bm : Benchmark) (s : Snapshot) (n : String) → Emits P (create_snapshot env bm s n)
  unfolding create_snapshot
  create_snapshot-Emits bm s n = search (emits_rules, snapshot-Emits) depth 8

  delete_first-Emits : (items : List Unstructured) → Emits P (delete_first env items)
  unfolding delete_first
  delete_first-Emits [] = search emits_rules
  delete_first-Emits (x ∷ items) = search (emits_rules, of_deleted)

  pub delete_obj-Emits : (d : Delete) → Emits P (delete_obj env d)
  unfolding delete_obj
  delete_obj-Emits d = search (emits_rules, delete_first-Emits) depth 8

  pub scale-Emits : (bm : Benchmark) (s : Scale) (n : ℤ) → Emits P (scale_obj env bm s n)
  unfolding scale_obj
  scale-Emits bm s n = search (emits_rules, clone_parser-Emits env q, of_created) depth 12

  instances-Emits :
      (bm : Benchmark) (a : Workload) (cm : ConfigMap) (t : String) (k : ℕ) (w : ℤ)
      → Emits P (create_instances env bm a cm t k w)
  unfolding create_instances
  instances-Emits bm a cm t zero w = search emits_rules
  instances-Emits bm a cm t (suc k) w =
      Emits-bind _ _ (prepare-Emits env q bm w a.name a cm.annotations t)
        (λ _. instances-Emits bm a cm t k (w +ℤ pos 1))

  reconcile_object-Emits :
      (bm : Benchmark) (a : Workload) (cm : ConfigMap) (k : ℕ) (w : ℤ) (x : String × String)
      → Emits P (reconcile_object env bm a cm k w x)
  unfolding reconcile_object
  reconcile_object-Emits bm a cm k w (key, t) = Emits-bind _ _ (search emits_rules) (λ o.
      Emits-bind _ _ (search emits_rules) (λ m.
        Emits-if (is_duplicate env m) _ (pure tt) (instances-Emits bm a cm t k w)
          (search emits_rules)))

  reconcile_workload-Emits : (bm : Benchmark) (a : Workload) → Emits P (reconcile_workload env bm a)
  unfolding reconcile_workload
  reconcile_workload-Emits bm a = Emits-bind _ _ (count_completions-Emits a.name) (λ t.
      Emits-if (leb_ℤ (a.count -ℤ pos t.notcomplete) (pos 0)) (pure tt) _ (search emits_rules) (
        Emits-bind _ _ (search emits_rules)
          (λ cm. Emits-for_each _ _ (λ x. reconcile_object-Emits bm a cm _ _ x))))

  pub reconcile_instances-Emits :
      (bm : Benchmark) (ws : List Workload) → Emits P (reconcile_instances env bm ws)
  unfolding reconcile_instances
  reconcile_instances-Emits bm ws = search (emits_rules, reconcile_workload-Emits)
