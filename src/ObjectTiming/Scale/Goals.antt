-- ===== src/ObjectTiming/Scale/Goals.antt =====
-- pkg/objecttiming/scale.go: when a status has reached the goal of a scaling.
use cnsbench.Prelude.{
  ℕ, List, [], ◌∷◌, All, subst, none, Bool, true, false, String, some, ◌==◌, nat_eq, string_eq, ◌≡◌,
  ◌↔◌, arith, if◌then◌else◌,
}
use mathlib.Core.Option.{some-injective}
use cnsbench.ObjectTiming.Types.{ScaleStatus}
use cnsbench.ObjectTiming.Criteria.{scale_end_crit, scale_status}
use cnsbench.ObjectTiming.Scale.{all_goals_fulfilled}

-- The numbers of a status that count for each resource.
abbrev pub of_deployment : ScaleStatus → List ℕ
of_deployment s = s.available_replicas ∷ s.ready_replicas ∷ s.updated_replicas ∷ []

abbrev pub of_job : ScaleStatus → List ℕ
of_job s = s.active ∷ []

abbrev pub of_replica_set : ScaleStatus → List ℕ
of_replica_set s = s.available_replicas ∷ s.fully_labeled_replicas ∷ s.ready_replicas ∷ []

abbrev pub of_stateful_set : ScaleStatus → List ℕ
of_stateful_set s = s.current_replicas ∷ s.ready_replicas ∷ []

unfoldable pub counted : String → ScaleStatus → List ℕ
counted resource s =
    if resource == "deployments"
    then of_deployment s
    else if resource == "jobs"
    then of_job s
    else if resource == "replicasets"
    then of_replica_set s
    else if resource == "statefulsets"
    then of_stateful_set s
    else []

module _ (s : ScaleStatus) (goal : ℕ) where
  abbrev Agrees : ScaleStatus → List ℕ → Type 0
  Agrees criteria values = (all_goals_fulfilled s criteria goal ≡ true) ↔ All (λ v. v ≡ goal) values

  Agrees-deployments : Agrees (scale_status 1 0 0 1 1 0) (of_deployment s)
  unfolding all_goals_fulfilled
  Agrees-deployments = ground arith

  Agrees-jobs : Agrees (scale_status 0 0 0 0 0 1) (of_job s)
  unfolding all_goals_fulfilled
  Agrees-jobs = ground arith

  Agrees-replicasets : Agrees (scale_status 1 0 1 1 0 0) (of_replica_set s)
  unfolding all_goals_fulfilled
  Agrees-replicasets = ground arith

  Agrees-statefulsets : Agrees (scale_status 0 1 0 1 0 0) (of_stateful_set s)
  unfolding all_goals_fulfilled
  Agrees-statefulsets = ground arith

  to_criteria :
      (known criteria : ScaleStatus) (values : List ℕ)
      → some known ≡ some criteria
      → Agrees known values
      → Agrees criteria values
  to_criteria known criteria values e = subst (λ c. Agrees c values) (some-injective _ _ e)

module _ (criteria s : ScaleStatus) (goal : ℕ) where
  by_resource :
      (b1 b2 b3 b4 : Bool)
      → (if b1
          then some (scale_status 1 0 0 1 1 0)
          else if b2
          then some (scale_status 0 0 0 0 0 1)
          else if b3
          then some (scale_status 1 0 1 1 0 0)
          else if b4
          then some (scale_status 0 1 0 1 0 0)
          else none)
        ≡ some criteria
      → Agrees s goal criteria (
          if b1
          then of_deployment s
          else if b2
          then of_job s
          else if b3
          then of_replica_set s
          else if b4
          then of_stateful_set s
          else [])
  by_resource true b2 b3 b4 h =
      to_criteria s goal _ criteria (of_deployment s) h (Agrees-deployments s goal)
  by_resource false true b3 b4 h = to_criteria s goal _ criteria (of_job s) h (Agrees-jobs s goal)
  by_resource false false true b4 h =
      to_criteria s goal _ criteria (of_replica_set s) h (Agrees-replicasets s goal)
  by_resource false false false true h =
      to_criteria s goal _ criteria (of_stateful_set s) h (Agrees-statefulsets s goal)
  by_resource false false false false h = cc

-- For a resource that can be scaled, allGoalsFulfilled holds of its criteria exactly if each
-- number of the status that counts for the resource is the goal: the available, ready and
-- updated replicas of a deployment, the active pods of a job, the available, fully labeled and
-- ready replicas of a replica set, and the current and ready replicas of a stateful set.
pub all_goals_fulfilled_iff :
    (resource : String) (criteria s : ScaleStatus) (goal : ℕ)
    → scale_end_crit resource ≡ some criteria
    → (all_goals_fulfilled s criteria goal ≡ true) ↔ All (λ v. v ≡ goal) (counted resource s)
unfolding scale_end_crit counted
all_goals_fulfilled_iff resource criteria s goal =
    by_resource criteria s goal (resource == "deployments") (resource == "jobs")
      (resource == "replicasets") (resource == "statefulsets")
