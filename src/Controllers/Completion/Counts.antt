-- ===== src/Controllers/Completion/Counts.antt =====
-- The counts of controllers/completion.go against the lists that they count.
use cnsbench.Prelude.{
  ◌+◌, String, ◌≡◌, refl, Bool, false, List, [], ◌∷◌, all, All, count_if, nat_eq, string_eq, ◌==◌,
  not, arith, Bool-cases, inl, inr, ◌⧺◌, ◌≢◌, ◌⊎◌, ◌↔◌, true, eq_iff, sym, ◌∙◌,
}
use mathlib.Core.Bool.{false≢true}
use native.Mathlib.Nat.{zero-add}
use cnsbench.Exec.{ok, returned, pure, lift, ◌>>=◌}
use cnsbench.Api.{Workload, LabelSelector}
use cnsbench.Kube.{PodInfo, JobInfo, StatefulSetInfo, ClaimInfo}
use cnsbench.Env.{Env, Reconciler, request}
use cnsbench.Controllers.Completion.{
  Tally, add_tally, empty_tally, tick, tally_by, succeeded, is_up, is_bound, workload_pods,
  check_init, pods_complete, jobs_complete, tally_stateful_sets, stateful_sets_complete,
  pvcs_complete, workload_selector, count_completions,
}
use cnsbench.Controllers.Completion.Tallies.{
  tally_by-count, job_done, HasCompletions, tally_jobs-count, length-ne-zero, is_restarted,
  all-restarted,
}

-- A cluster that answers every list request from one snapshot. `sel` gives the selector of those
-- label selectors that can be converted.
pub record IsSnapshot (env : Env) (sel : LabelSelector → env.Selector)
    (pods : env.Selector → List PodInfo) (jobs : env.Selector → List JobInfo)
    (stss : env.Selector → List StatefulSetInfo) (pvcs : env.Selector → List ClaimInfo)
    : Type 0 where
  pub list_pods : (x : env.Selector) (w : env.World) → env.list_pods x w ≡ (returned (pods x), w)
  pub list_jobs : (x : env.Selector) (w : env.World) → env.list_jobs x w ≡ (returned (jobs x), w)
  pub list_stateful_sets :
      (x : env.Selector) (w : env.World) → env.list_stateful_sets x w ≡ (returned (stss x), w)
  pub list_claims :
      (x : env.Selector) (w : env.World) → env.list_claims x w ≡ (returned (pvcs x), w)

module _ (env : Env) {sel : LabelSelector → env.Selector} {pods : env.Selector → List PodInfo}
    {jobs : env.Selector → List JobInfo} {stss : env.Selector → List StatefulSetInfo}
    {pvcs : env.Selector → List ClaimInfo} (snap : IsSnapshot env sel pods jobs stss pvcs) where
  -- A label selector that can be converted.
  abbrev pub IsValid : LabelSelector → Type 0
  IsValid ls = env.as_selector ls ≡ returned (sel ls)

  -- A stateful set with a valid selector and a pod.
  abbrev pub HasPods : StatefulSetInfo → Type 0
  HasPods sts = IsValid sts.selector × (pods (sel sts.selector) ≢ [])

  abbrev pub sts_done : StatefulSetInfo → Bool
  sts_done sts = all is_restarted (pods (sel sts.selector))

  tally_stateful_sets-count :
      (xs : List StatefulSetInfo) (t : Tally) (s : Reconciler env.World)
      → All HasPods xs
      → tally_stateful_sets env xs t s ≡ (ok (tally_by sts_done xs t), s)
  unfolding tally_stateful_sets tally_by pure lift request ◌>>=◌
  tally_stateful_sets-count [] t s h = refl
  tally_stateful_sets-count (x ∷ xs) t s h =
      simp
        (
          h.0.0,
          snap.list_pods,
          length-ne-zero (pods (sel x.selector)) h.0.1,
          all-restarted (pods (sel x.selector)),
        )
        (tally_stateful_sets-count xs (tick (sts_done x) t) s h.1)

  pods_complete-eq :
      (x : env.Selector) (s : Reconciler env.World)
      → pods_complete env x s ≡ (ok (tally_by succeeded (pods x) empty_tally), s)
  unfolding pods_complete pure request ◌>>=◌
  pods_complete-eq x s = simp snap.list_pods

  pvcs_complete-eq :
      (x : env.Selector) (s : Reconciler env.World)
      → pvcs_complete env x s ≡ (ok (tally_by is_bound (pvcs x) empty_tally), s)
  unfolding pvcs_complete pure request ◌>>=◌
  pvcs_complete-eq x s = simp snap.list_claims

  jobs_complete-eq :
      (x : env.Selector) (s : Reconciler env.World)
      → All HasCompletions (jobs x)
      → jobs_complete env x s ≡ (ok (tally_by job_done (jobs x) empty_tally), s)
  unfolding jobs_complete lift request ◌>>=◌
  jobs_complete-eq x s h = simp (snap.list_jobs, tally_jobs-count (jobs x) empty_tally h)

  stateful_sets_complete-eq :
      (x : env.Selector) (s : Reconciler env.World)
      → All HasPods (stss x)
      → stateful_sets_complete env x s ≡ (ok (tally_by sts_done (stss x) empty_tally), s)
  unfolding stateful_sets_complete request ◌>>=◌
  stateful_sets_complete-eq x s h =
      simp snap.list_stateful_sets (tally_stateful_sets-count (stss x) empty_tally s h)

  -- The answers of the cluster for one workload.
  abbrev pub tally_of : String → Tally
  tally_of name =
      let x = sel (workload_selector env name) in
      record {
        complete =
            count_if (λ (p : PodInfo). p.phase == "Succeeded") (pods x)
            + count_if job_done (jobs x)
            + count_if sts_done (stss x)
            + count_if (λ (c : ClaimInfo). c.phase == "Bound") (pvcs x);
        notcomplete =
            count_if (λ (p : PodInfo). not (p.phase == "Succeeded")) (pods x)
            + count_if (λ j. not (job_done j)) (jobs x)
            + count_if (λ t. not (sts_done t)) (stss x)
            + count_if (λ (c : ClaimInfo). not (c.phase == "Bound")) (pvcs x);
      }

  -- On a snapshot of the cluster, if the selector of the workload can be converted, every job
  -- of the workload has a number of completions, and every stateful set of it has a selector
  -- that can be converted and a pod, the two counts of the workload are the numbers of its
  -- pods, jobs, stateful sets and claims that are complete and that are not; counting makes no
  -- request that changes the cluster and leaves the state of the controller as it was.
  pub count_completions-eq :
      (name : String) (s : Reconciler env.World)
      → IsValid (workload_selector env name)
      → All HasCompletions (jobs (sel (workload_selector env name)))
      → All HasPods (stss (sel (workload_selector env name)))
      → count_completions env name s ≡ (ok (tally_of name), s)
  unfolding count_completions add_tally pure lift ◌>>=◌
  count_completions-eq name s valid hj hs =
      let x : env.Selector = sel (workload_selector env name) in
      simp (
        valid,
        pods_complete-eq x s,
        jobs_complete-eq x s hj,
        stateful_sets_complete-eq x s hs,
        pvcs_complete-eq x s,
        tally_by-count,
        zero-add,
      )

-- A pod that runs or has succeeded.
abbrev pub IsUp : PodInfo → Type 0
IsUp pod = (pod.phase ≡ "Running") ⊎ (pod.phase ≡ "Succeeded")

is_up-IsUp_iff : (pod : PodInfo) → (is_up pod ≡ true) ↔ IsUp pod
is_up-IsUp_iff pod = ground (arith, eq_iff pod.phase "Running", eq_iff pod.phase "Succeeded")

all-IsUp_iff : (ps : List PodInfo) → (all is_up ps ≡ true) ↔ All IsUp ps
all-IsUp_iff [] = ground arith
all-IsUp_iff (p ∷ ps) = ground (arith, is_up-IsUp_iff p, all-IsUp_iff ps)

module _ (env : Env) {sel : LabelSelector → env.Selector} {pods : env.Selector → List PodInfo}
    {jobs : env.Selector → List JobInfo} {stss : env.Selector → List StatefulSetInfo}
    {pvcs : env.Selector → List ClaimInfo} (snap : IsSnapshot env sel pods jobs stss pvcs)
    (parsed : String → LabelSelector) where
  -- The text for the pods of a workload is that of a selector, which can be converted.
  abbrev pub IsNamed : Workload → Type 0
  IsNamed a =
      (env.parse_selector ("workloadname=" ⧺ a.name) ≡ returned (parsed a.name))
      × (env.as_selector (parsed a.name) ≡ returned (sel (parsed a.name)))

  -- The pods of the snapshot for a workload.
  abbrev pub PodsUp : Workload → Type 0
  PodsUp a = All IsUp (pods (sel (parsed a.name)))

  workload_pods-eq :
      (a : Workload) (s : Reconciler env.World)
      → IsNamed a
      → workload_pods env a.name s ≡ (ok (pods (sel (parsed a.name))), s)
  unfolding workload_pods lift request ◌>>=◌
  workload_pods-eq a s (read, valid) = simp (read, valid, snap.list_pods)

  -- On a snapshot of the cluster, if the text for the pods of each workload is that of a
  -- selector which can be converted, CheckInit answers and leaves the state of the controller
  -- as it was; the answer is true exactly if every pod that the snapshot has for one of the
  -- workloads is in the phase Running or Succeeded.
  pub check_init-eq :
      (workloads : List Workload) (s : Reconciler env.World)
      → All IsNamed workloads
      → (b : Bool) × (check_init env workloads s ≡ (ok b, s)) × ((b ≡ true) ↔ All PodsUp workloads)
  unfolding check_init pure ◌>>=◌
  check_init-eq [] s named = (true, refl, (λ e. tt, λ h. refl))
  check_init-eq (a ∷ workloads) s (named, more) =
      let ps : List PodInfo = pods (sel (parsed a.name)) in
      let (b, answered, all_up) = check_init-eq workloads s more in
      elim (Bool-cases (all is_up ps)) [
        | inl up ↦ (
          b,
          simp (workload_pods-eq a s named, up) answered,
          (λ e. ((all-IsUp_iff ps).0 up, all_up.0 e), λ h. all_up.1 h.1),
        )
        | inr down ↦ (
          false,
          simp (workload_pods-eq a s named, down),
          (
            λ e. absurd (false≢true e),
            λ h. absurd (false≢true (sym down ∙ (all-IsUp_iff ps).1 h.0)),
          ),
        )
      ]
