-- ===== src/Controllers/Reconcile/Finished.antt =====
-- When a benchmark without a runtime is complete.
use cnsbench.Prelude.{pos, ltb_ℤ, Bool, string_eq, not, List, All}
use cnsbench.Api.{LabelSelector, Workload}
use cnsbench.Kube.{PodInfo, JobInfo, StatefulSetInfo, ClaimInfo}
use cnsbench.Env.{Env}
use cnsbench.Controllers.Completion.{workload_selector}
use cnsbench.Controllers.Completion.Tallies.{HasCompletions}
use cnsbench.Controllers.Completion.Counts.{IsSnapshot, IsValid, HasPods, tally_of}

module _ (env : Env) {sel : LabelSelector → env.Selector} {pods : env.Selector → List PodInfo}
    {jobs : env.Selector → List JobInfo} {stss : env.Selector → List StatefulSetInfo}
    {pvcs : env.Selector → List ClaimInfo} (snap : IsSnapshot env sel pods jobs stss pvcs) where
  -- What the counts of a workload rely on.
  abbrev pub Countable : Workload → Type 0
  Countable w =
      IsValid env snap (workload_selector env w.name)
      × All HasCompletions (jobs (sel (workload_selector env w.name)))
      × All (HasPods env snap) (stss (sel (workload_selector env w.name)))

  abbrev pub is_finished : Workload → Bool
  is_finished w = not (ltb_ℤ (pos (tally_of env snap w.name).complete) w.count)
