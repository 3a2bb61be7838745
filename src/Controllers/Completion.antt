-- ===== src/Controllers/Completion.antt =====
-- controllers/completion.go: whether the pods of a benchmark are initialised, and how many of its
-- workload objects are complete.
pub mod Tallies
pub mod Counts
use cnsbench.Prelude.{
  ℕ, zero, suc, ◌+◌, String, Bool, true, false, Option, none, some, List, [], ◌∷◌, ◌&&◌, ◌||◌, all,
  any, not, leb, ltb, length, ◌==◌, ◌⧺◌, nat_eq, string_eq, if◌then◌else◌,
}
use cnsbench.Exec.{Outcome, ok, fault, panic, Exec, pure, crash, lift, of_try, ◌>>=◌, ◌>>◌}
use cnsbench.Api.{LabelSelector, Workload}
use cnsbench.Kube.{PodInfo, ContainerStatus, JobInfo, StatefulSetInfo, ClaimInfo}
use cnsbench.Env.{Env, Run, request}

abbrev pub empty_selector : LabelSelector
empty_selector = record { match_labels = []; match_expressions = [] }

-- Objects that are complete, and objects that are not.
pub record Tally : Type 0 where
  pub complete : ℕ
  pub notcomplete : ℕ

unfoldable pub add_tally : Tally → Tally → Tally
add_tally a b = record {
  complete = a.complete + b.complete;
  notcomplete = a.notcomplete + b.notcomplete;
}

abbrev pub empty_tally : Tally
empty_tally = record { complete = 0; notcomplete = 0 }

-- `if done { complete += 1 } else { notcomplete += 1 }`
unfoldable pub tick : Bool → Tally → Tally
tick done t =
    if done
    then record t { complete = t.complete + 1 }
    else record t { notcomplete = t.notcomplete + 1 }

-- A loop of that statement over a list.
unfoldable pub tally_by : {A : Type 0} → (A → Bool) → List A → Tally → Tally
unfolding tick
tally_by done [] t = t
tally_by done (x ∷ xs) t = tally_by done xs (tick (done x) t)

abbrev pub succeeded : PodInfo → Bool
succeeded pod = pod.phase == "Succeeded"

abbrev pub is_up : PodInfo → Bool
is_up pod = pod.phase == "Running" || pod.phase == "Succeeded"

abbrev pub is_bound : ClaimInfo → Bool
is_bound pvc = pvc.phase == "Bound"

abbrev has_statuses : PodInfo → Bool
has_statuses pod = ltb 0 (length pod.container_statuses)

-- What `podsComplete` asks of one pod: some container has a status, and all have restarted.
unfoldable pub restarted : PodInfo → Bool
restarted pod =
    has_statuses pod
    && all (λ (c : ContainerStatus). not (c.restart_count == 0)) pod.container_statuses

-- `*job.Spec.Completions` panics on a nil pointer.
unfoldable pub tally_jobs : List JobInfo → Tally → Outcome Tally
unfolding tick
tally_jobs [] t = ok t
tally_jobs (job ∷ jobs) t = elim job.completions [
  | none ↦ fault panic
  | some completions ↦ tally_jobs jobs (tick (leb completions job.succeeded) t)
]

module _ (env : Env) where
  open env use {World, Selector, list_pods, list_jobs, list_stateful_sets, list_claims}

  -- The selector of `workloadname=<name>`, parsed from a text.
  unfoldable pub workload_pods : String → Run World (List PodInfo)
  workload_pods name = do
    ls ← lift (of_try (env.parse_selector ("workloadname=" ⧺ name)))
    selector ← lift (of_try (env.as_selector ls))
    request (list_pods selector)

  unfoldable pub check_init : List Workload → Run World Bool
  unfolding workload_pods
  check_init [] = pure true
  check_init (a ∷ workloads) = do
    pods ← workload_pods a.name
    if all is_up pods then check_init workloads else pure false

  unfoldable pub pods_complete : Selector → Run World Tally
  pods_complete selector = do
    pods ← request (list_pods selector)
    pure (tally_by succeeded pods empty_tally)

  unfoldable pub jobs_complete : Selector → Run World Tally
  jobs_complete selector = do
    jobs ← request (list_jobs selector)
    lift (tally_jobs jobs empty_tally)

  -- A stateful set without pods ends the loop, and the counts so far are dropped.
  unfoldable pub tally_stateful_sets : List StatefulSetInfo → Tally → Run World Tally
  unfolding tick
  tally_stateful_sets [] t = pure t
  tally_stateful_sets (sts ∷ stss) t = do
    selector ← lift (of_try (env.as_selector sts.selector))
    pods ← request (list_pods selector)
    if length pods == 0
        then pure empty_tally
        else tally_stateful_sets stss (tick (all restarted pods) t)

  unfoldable pub stateful_sets_complete : Selector → Run World Tally
  unfolding tally_stateful_sets
  stateful_sets_complete selector = do
    stss ← request (list_stateful_sets selector)
    tally_stateful_sets stss empty_tally

  unfoldable pub pvcs_complete : Selector → Run World Tally
  pvcs_complete selector = do
    pvcs ← request (list_claims selector)
    pure (tally_by is_bound pvcs empty_tally)

  unfoldable pub workload_selector : String → LabelSelector
  workload_selector name =
      env.add_label (env.add_label empty_selector "workloadname" name) "role" "workload"

  unfoldable pub count_completions : String → Run World Tally
  count_completions name = do
    selector ← lift (of_try (env.as_selector (workload_selector name)))
    pods ← pods_complete selector
    jobs ← jobs_complete selector
    stss ← stateful_sets_complete selector
    pvcs ← pvcs_complete selector
    pure (add_tally (add_tally (add_tally (add_tally empty_tally pods) jobs) stss) pvcs)
