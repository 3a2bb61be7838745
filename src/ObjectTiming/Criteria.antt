-- ===== src/ObjectTiming/Criteria.antt =====
-- createEndCrit of pkg/objecttiming/create.go and scaleEndCrit of pkg/objecttiming/scale.go.
use cnsbench.Prelude.{
  ℕ, String, Bool, true, false, Option, none, some, List, [], ◌∷◌, ◌==◌, string_eq, if◌then◌else◌,
}
use cnsbench.ObjectTiming.Types.{ScaleStatus}

-- `_, found := m[key]`
abbrev pub is_some {ℓ} : {A : Type ℓ} → Option A → Bool
is_some none = false
is_some (some a) = true

-- The phases in which the creation of an object of a supported resource is over.
unfoldable pub create_end_crit : String → Option (List String)
create_end_crit resource =
    if resource == "pods"
    then some ("Running" ∷ "Succeeded" ∷ [])
    else if resource == "persistentvolumes"
    then some ("Bound" ∷ [])
    else if resource == "persistentvolumeclaims"
    then some ("Bound" ∷ [])
    else none

abbrev pub scale_status : ℕ → ℕ → ℕ → ℕ → ℕ → ℕ → ScaleStatus
scale_status available current labeled ready updated active = record {
  available_replicas = available;
  current_replicas = current;
  fully_labeled_replicas = labeled;
  ready_replicas = ready;
  updated_replicas = updated;
  active = active;
}

-- A field that is not 0 must reach the goal.
unfoldable pub scale_end_crit : String → Option ScaleStatus
scale_end_crit resource =
    if resource == "deployments"
    then some (scale_status 1 0 0 1 1 0)
    else if resource == "jobs"
    then some (scale_status 0 0 0 0 0 1)
    else if resource == "replicasets"
    then some (scale_status 1 0 1 1 0 0)
    else if resource == "statefulsets"
    then some (scale_status 0 1 0 1 0 0)
    else none
