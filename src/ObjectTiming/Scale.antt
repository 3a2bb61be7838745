-- ===== src/ObjectTiming/Scale.antt =====
-- pkg/objecttiming/scale.go: the log lines at which a scaling starts and ends.
pub mod Goals
pub mod Saved
use cnsbench.Prelude.{
  ℕ, pos, String, Bool, true, false, Option, none, some, List, [], ◌∷◌, get_elem?, put, ◌&&◌, ◌||◌,
  not, ◌==◌, nat_eq, string_eq, int_eq, if◌then◌else◌,
}
use cnsbench.Exec.{Outcome, ok}
use cnsbench.Exec.Results.{◌>>=◌}
use cnsbench.ObjectTiming.Types.{
  uint, Dict, read, is_uint, as_uint, AuditLog, ObjSpec, ScaleStatus, Decoders, or_panic,
}
use cnsbench.ObjectTiming.Criteria.{is_some, scale_end_crit}
use cnsbench.ObjectTiming.Records.{get_generic_start, get_end_index}
use cnsbench.ObjectTiming.Store.{ObjInfoStore, get_obj_info}

unfoldable pub get_goal_value : String → ObjSpec → ℕ
get_goal_value resource s = if resource == "jobs" then s.parallelism else s.replicas

unfoldable pub spec_label : String → String
spec_label resource = if resource == "jobs" then "parallelism" else "replicas"

unfoldable pub start_label : String → String
start_label resource = if resource == "jobs" then "startParallelism" else "startReplicas"

unfoldable pub end_label : String → String
end_label resource = if resource == "jobs" then "endParallelism" else "endReplicas"

unfoldable pub get_scale_end_index : AuditLog → List Dict → Option ℕ
unfolding get_end_index
get_scale_end_index log all = get_end_index "scale" log all

-- The closure `rf`: whether one field reaches the goal, if it counts.
abbrev pub fulfilled : ℕ → ℕ → ℕ → Bool
fulfilled goal s c = if c == 0 then true else s == goal

unfoldable pub all_goals_fulfilled : ScaleStatus → ScaleStatus → ℕ → Bool
all_goals_fulfilled stat crit goal =
    fulfilled goal stat.available_replicas crit.available_replicas
    && fulfilled goal stat.current_replicas crit.current_replicas
    && fulfilled goal stat.fully_labeled_replicas crit.fully_labeled_replicas
    && fulfilled goal stat.ready_replicas crit.ready_replicas
    && fulfilled goal stat.updated_replicas crit.updated_replicas
    && fulfilled goal stat.active crit.active

-- Whether an open record of the object has these two numbers.
unfoldable pub is_recorded : AuditLog → List Dict → ℕ → ℕ → Bool
unfolding get_scale_end_index start_label end_label
is_recorded log all old new = elim (get_scale_end_index log all) [
  | none ↦ false
  | some i ↦ elim (get_elem? all i) [
    | none ↦ false
    | some rec ↦
        is_uint (read (start_label log.object_ref.resource) rec) old
        && is_uint (read (end_label log.object_ref.resource) rec) new
  ]
]

unfoldable pub has_changed : ℕ → ℕ → Bool
has_changed old new = not (old == 0 || new == 0 || old == new)

-- The requests that may change the number of replicas.
abbrev pub may_scale : AuditLog → Bool
may_scale log =
    (log.verb == "update" || log.verb == "patch")
    && log.code == pos 200
    && is_some (scale_end_crit log.object_ref.resource)

unfoldable pub is_scale_start : AuditLog → ObjInfoStore → List Dict → Outcome Bool
unfolding get_obj_info spec_label get_goal_value is_recorded has_changed
is_scale_start log store all =
    if may_scale log
    then elim (get_obj_info log store) [
      | none ↦ ok false
      | some prev ↦ as_uint (read (spec_label log.object_ref.resource) prev) >>= λ old.
          let new = get_goal_value log.object_ref.resource log.response_object.spec in
          ok (has_changed old new && not (is_recorded log all old new))
    ]
    else ok false

-- `all[i][endLabel(resource)].(uint8)`, where `i` is an index of the slice.
abbrev pub goal_at : List Dict → ℕ → String → Outcome ℕ
goal_at all i label = or_panic (get_elem? all i) >>= λ rec. as_uint (read label rec)

module _ (dec : Decoders) where
  -- What is left once the record `i` was found: its goal against the status of the response.
  unfoldable pub end_at_goal : AuditLog → List Dict → ScaleStatus → ℕ → Outcome (Option ℕ)
  unfolding end_label all_goals_fulfilled
  end_at_goal log all criteria i = goal_at all i (end_label log.object_ref.resource) >>= λ goal.
      elim log.response_object.status [
        | none ↦ ok none
        | some status ↦ or_panic (dec.scale_status status) >>= λ response.
            ok (if all_goals_fulfilled response criteria goal then some i else none)
      ]

  -- The status of the request is decoded, and then not looked at.
  unfoldable pub end_of_request : AuditLog → List Dict → ScaleStatus → String → Outcome (Option ℕ)
  unfolding end_at_goal get_scale_end_index
  end_of_request log all criteria req_stat = or_panic (dec.scale_status req_stat) >>= λ _.
      elim (get_scale_end_index log all) [
        | none ↦ ok none
        | some i ↦ end_at_goal log all criteria i
      ]

  abbrev pub may_end_scale : AuditLog → Bool
  may_end_scale log =
      log.verb == "update" && log.object_ref.subresource == "status" && log.code == pos 200

  unfoldable pub is_scale_end : AuditLog → List Dict → Outcome (Option ℕ)
  unfolding end_of_request
  is_scale_end log all =
      if may_end_scale log
      then elim (scale_end_crit log.object_ref.resource) [
        | none ↦ ok none
        | some criteria ↦ elim log.request_object.status [
          | none ↦ ok none
          | some req_stat ↦ end_of_request log all criteria req_stat
        ]
      ]
      else ok none

  -- The caller has tested that the object is in the store; a missing one reads as nil.
  unfoldable pub get_scale_start : AuditLog → ObjInfoStore → Outcome Dict
  unfolding get_generic_start get_obj_info spec_label start_label end_label get_goal_value
  get_scale_start log store = do
    rec ← get_generic_start dec log "scale"
    let resource = log.object_ref.resource
    let prev = elim (get_obj_info log store) as (λ _. Dict) [ none ↦ [] | some info ↦ info ]
    ok (
        put (end_label resource) (uint (get_goal_value resource log.response_object.spec))
          (put (start_label resource) (read (spec_label resource) prev) rec))
