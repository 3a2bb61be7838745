-- ===== src/ObjectTiming/Records.antt =====
-- pkg/objecttiming/helpers.go and timing.go: making, finding and timing records.
pub mod Latest
pub mod Durations
use cnsbench.Prelude.{
  ℕ, ℤ, pos, negsuc, zero, suc, ◌+◌, ◌-◌, ◌^◌, ◌/◌, String, Bool, true, false, Option, none, some,
  List, [], ◌∷◌, map, put, length, get_elem?, leb, ltb, ◌&&◌, ◌==◌, nat_eq, string_eq,
  if◌then◌else◌,
}
use cnsbench.Exec.{Outcome, ok}
use cnsbench.Exec.Results.{◌>>=◌}
use cnsbench.Api.{Time}
use cnsbench.ObjectTiming.Types.{
  Value, text, time, Dict, read, is_text, is_null, as_text, AuditLog, Decoders, or_panic,
}

unfoldable pub initialize_record : String → String → String → String → Time → Dict
initialize_record op nm rs ns tm =
    ("action", text op)
    ∷ ("name", text nm)
    ∷ ("resource", text rs)
    ∷ ("namespace", text ns)
    ∷ ("startTime", time tm)
    ∷ []

unfoldable pub object_match : Dict → String → String → String → Bool
object_match obj name resource namespace =
    is_text (read "name" obj) name
    && is_text (read "resource" obj) resource
    && is_text (read "namespace" obj) namespace

unfoldable pub get_name : AuditLog → String
get_name log = if log.object_ref.name == "" then log.response_object.name else log.object_ref.name

-- The name, the resource and the namespace by which an object is known.
unfoldable pub get_identification : AuditLog → String × String × String
unfolding get_name
get_identification log = (get_name log, log.object_ref.resource, log.object_ref.namespace)

-- The test of the loop: a record of the action on the object.
unfoldable pub is_record_of : String → String → String → String → Dict → Bool
unfolding object_match
is_record_of action name resource namespace rec =
    is_text (read "action" rec) action && object_match rec name resource namespace

abbrev pub is_open : Dict → Bool
is_open rec = is_null (read "endTime" rec)

-- The rounds with the indices below `i`, from the last one on; `none` is -1.
unfoldable pub search_from : (Dict → Bool) → List Dict → ℕ → Option ℕ
search_from matches all zero = none
search_from matches all (suc i) =
    let earlier = search_from matches all i in
    elim (get_elem? all i) [
      | none ↦ earlier
      | some rec ↦ if matches rec then (if is_open rec then some i else none) else earlier
    ]

unfoldable pub find_log : String → String → String → String → List Dict → Option ℕ
unfolding search_from is_record_of
find_log action name resource namespace all =
    search_from (is_record_of action name resource namespace) all (length all)

unfoldable pub get_end_index : String → AuditLog → List Dict → Option ℕ
unfolding find_log get_identification
get_end_index action log all =
    let (name, resource, namespace) = get_identification log in
    find_log action name resource namespace all

unfoldable pub convert_name : String → String
convert_name resource =
    if resource == "deployments"
    then "Deployment"
    else if resource == "jobs"
    then "Job"
    else if resource == "persistentvolumeclaims"
    then "PersistentVolumeClaim"
    else if resource == "persistentvolumes"
    then "PersistentVolume"
    else if resource == "pods"
    then "Pod"
    else if resource == "replicasets"
    then "ReplicaSet"
    else if resource == "statefulsets"
    then "StatefulSet"
    else resource

unfoldable pub format_resource_name : Dict → Outcome Dict
unfolding convert_name
format_resource_name rec = as_text (read "resource" rec) >>= λ resource.
    ok (put "resource" (text (convert_name resource)) rec)

-- The largest Duration is 2^63 - 1 nanoseconds, the least one -2^63.
abbrev pub at_most : ℕ → ℕ → ℕ
at_most bound n = if leb n bound then n else bound

-- `t2.Sub(t1).Microseconds()`: the difference stops at the bounds, and the division rounds to 0.
unfoldable pub time_diff : Time → Time → ℤ
time_diff t1 t2 =
    if leb t1 t2
    then pos (at_most (2 ^ 63 - 1) (t2 - t1) / 1000)
    else (let n = at_most (2 ^ 63) (t1 - t2) / 1000 in if n == 0 then pos 0 else negsuc (n - 1))

module _ (dec : Decoders) where
  -- parseStrTime
  unfoldable pub parse_str_time : String → Outcome Time
  parse_str_time t = or_panic (dec.parse_time t)

  unfoldable pub get_start_time : AuditLog → Outcome Time
  unfolding parse_str_time
  get_start_time log = parse_str_time log.request_received_timestamp

  unfoldable pub get_end_time : AuditLog → Outcome Time
  unfolding parse_str_time
  get_end_time log = parse_str_time log.stage_timestamp

  unfoldable pub get_generic_start : AuditLog → String → Outcome Dict
  unfolding get_start_time get_identification initialize_record
  get_generic_start log action = do
    start ← get_start_time log
    let (name, resource, namespace) = get_identification log
    ok (initialize_record action name resource namespace start)
