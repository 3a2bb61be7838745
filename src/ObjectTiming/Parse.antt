-- ===== src/ObjectTiming/Parse.antt =====
-- pkg/objecttiming/parselogs.go: the loop over the lines of the log, and the durations.
pub mod Plural
pub mod Sound
pub mod Identity
pub mod Moves
pub mod Lines
pub mod Totals
pub mod Begun
use Prim.Native.Nat.{bit_and}
use cnsbench.Prelude.{
  ℕ, String, Bool, true, false, Option, none, some, List, [], ◌∷◌, ◌++◌, get, put, delete,
  get_elem?, erase_at, not, ◌&&◌, ◌==◌, nat_eq, string_eq, if◌then◌else◌,
}
use cnsbench.Exec.{Outcome, ok, err, of_try}
use cnsbench.Exec.Results.{◌>>=◌}
use cnsbench.Api.{Time}
use cnsbench.ObjectTiming.Types.{
  Value, text, time, int, labels, flag, Dict, read, as_time, AuditLog, Decoders, or_panic,
}
use cnsbench.ObjectTiming.Records.{get_end_time, time_diff, format_resource_name}
use cnsbench.ObjectTiming.Store.{ObjInfoStore, is_get_create_request, save_obj_info}
use cnsbench.ObjectTiming.Create.{is_create_start, is_create_end, get_create_start}
use cnsbench.ObjectTiming.Scale.{get_scale_end_index, is_scale_start, is_scale_end, get_scale_start}
use cnsbench.ObjectTiming.Pods.{
  is_attach_volume_event, set_attach_time, is_container_creating_status, set_container_time,
  bound_times,
}

-- The variables of the loop.
pub record Parsing : Type 0 where
  pub ongoing : List Dict
  pub results : List Dict
  pub store : ObjInfoStore

abbrev pub parse_create : ℕ
parse_create = 1

abbrev pub parse_scale : ℕ
parse_scale = 2

abbrev pub parse_pvc_pod : ℕ
parse_pvc_pod = 4

-- `flags&f != 0`
abbrev pub has_flag : ℕ → ℕ → Bool
has_flag flags f = not (bit_and flags f == 0)

-- An action that took up the line, as the loop goes on with the next one then.
abbrev pub Taken : Type 0
Taken = Outcome (Option Parsing)

abbrev pub or_else : Taken → Outcome Parsing → Outcome Parsing
or_else t next = t >>= λ o. elim o [ some st ↦ ok st | none ↦ next ]

-- Labels, if there are any.
abbrev pub with_labels : AuditLog → Dict → Dict
with_labels log rec = elim log.response_object.labels [
  | none ↦ rec
  | some ls ↦ put "labels" (labels ls) rec
]

-- A claim also keeps the name of its volume.
abbrev pub with_volume : AuditLog → Dict → Dict
with_volume log rec =
    if log.object_ref.resource == "persistentvolumeclaims"
    then put "pvName" (text log.response_object.spec.volume_name) rec
    else rec

abbrev pub unfinished : Dict → Dict
unfinished rec = put "unfinished" (flag true) rec

module _ (dec : Decoders) where
  unfoldable pub set_end_time : AuditLog → Dict → Outcome Dict
  unfolding get_end_time
  set_end_time log rec =
      get_end_time dec log >>= λ end. ok (with_labels log (put "endTime" (time end) rec))

  -- The record `i` is ended, and moved from the ongoing ones to the results.
  unfoldable pub end_action : AuditLog → ℕ → (Dict → Dict) → Parsing → Outcome Parsing
  unfolding set_end_time
  end_action log i change st = do
    rec ← or_panic (get_elem? st.ongoing i)
    rec' ← set_end_time log rec
    ok (record st { ongoing = erase_at st.ongoing i; results = st.results ++ change rec' ∷ [] })

  unfoldable pub end_if_found : AuditLog → (Dict → Dict) → Parsing → Option ℕ → Taken
  unfolding end_action
  end_if_found log change st none = ok none
  end_if_found log change st (some i) = end_action log i change st >>= λ st'. ok (some st')

  -- A record that was just made is ongoing.
  abbrev pub begin_action : Parsing → Outcome Dict → Taken
  begin_action st made = made >>= λ rec. ok (some (record st { ongoing = st.ongoing ++ rec ∷ [] }))

  unfoldable pub create_action : AuditLog → Parsing → Taken
  unfolding end_if_found
  create_action log st =
      if is_create_start log
      then begin_action st (get_create_start dec log)
      else (is_create_end dec log st.ongoing >>= end_if_found log (with_volume log) st)

  -- An unfinished scaling of the object is ended first.
  unfoldable pub force_end : AuditLog → Parsing → Outcome Parsing
  unfolding end_action
  force_end log st = elim (get_scale_end_index log st.ongoing) [
    | none ↦ ok st
    | some i ↦ end_action log i unfinished st
  ]

  unfoldable pub scale_action : AuditLog → Parsing → Taken
  unfolding force_end end_if_found
  scale_action log st = is_scale_start log st.store st.ongoing >>= λ starts.
      if starts
      then (force_end log st >>= λ st'. begin_action st' (get_scale_start dec log st'.store))
      else (is_scale_end dec log st.ongoing >>= end_if_found log (λ rec. rec) st)

  abbrev pub with_ongoing : Parsing → Outcome (List Dict) → Taken
  with_ongoing st changed = changed >>= λ all. ok (some (record st { ongoing = all }))

  unfoldable pub pod_action : AuditLog → Parsing → Taken
  pod_action log st =
      if is_attach_volume_event log
      then with_ongoing st (set_attach_time dec log st.ongoing)
      else (is_container_creating_status dec log >>= λ creating.
          if creating then with_ongoing st (set_container_time dec log st.ongoing) else ok none)

  unfoldable pub save_action : AuditLog → Parsing → Outcome Parsing
  save_action log st =
      if is_get_create_request log
      then (save_obj_info dec log st.store >>= λ store. ok (record st { store = store }))
      else ok st

  abbrev pub when_flag : Bool → Taken → Taken
  when_flag b t = if b then t else ok none

  -- One log line.
  unfoldable pub parse_log : ℕ → AuditLog → Parsing → Outcome Parsing
  unfolding create_action scale_action pod_action save_action
  parse_log flags log st =
      if log.stage == "ResponseComplete"
      then or_else (when_flag (has_flag flags parse_create) (create_action log st)) (
          or_else (when_flag (has_flag flags parse_scale) (scale_action log st)) (
            or_else (when_flag (has_flag flags parse_pvc_pod) (pod_action log st))
              (save_action log st)))
      else ok st

  unfoldable pub parse_lines : ℕ → List String → Parsing → Outcome Parsing
  unfolding parse_log
  parse_lines flags [] st = ok st
  parse_lines flags (line ∷ lines) st = do
    log ← of_try (dec.audit_log line)
    st' ← parse_log flags log st
    parse_lines flags lines st'

-- The deltas of a pod with a volume.
unfoldable pub with_deltas : Time → Time → Dict → Outcome Dict
with_deltas start end rec = elim (get "attachTime" rec) [
  | none ↦ ok rec
  | some at ↦ do
    attach ← as_time at
    bound ← as_time (read "boundTime" rec)
    container ← as_time (read "containerTime" rec)
    ok (
        put "delta14" (int (time_diff start container)) (
          put "delta45" (int (time_diff container end)) (
            put "delta34" (int (time_diff attach container)) (
              put "delta23" (int (time_diff bound attach))
                (put "delta12" (int (time_diff start bound)) rec)))))
]

abbrev pub cleaned : Dict → Dict
cleaned rec = delete "pvName" (
    delete "containerTime"
      (delete "boundTime" (delete "attachTime" (delete "endTime" (delete "startTime" rec)))))

unfoldable pub calculate_delta : ℕ → Dict → Outcome Dict
unfolding with_deltas time_diff
calculate_delta flags rec = do
  start ← as_time (read "startTime" rec)
  end ← as_time (read "endTime" rec)
  rec' ← (if has_flag flags parse_pvc_pod then with_deltas start end rec else ok rec)
  ok (cleaned (put "duration" (int (time_diff start end)) rec'))

-- A loop over the records that may panic.
unfoldable pub for_records : (Dict → Outcome Dict) → List Dict → Outcome (List Dict)
for_records f [] = ok []
for_records f (rec ∷ recs) = f rec >>= λ rec'. for_records f recs >>= λ recs'. ok (rec' ∷ recs')

unfoldable pub calculate_deltas : ℕ → List Dict → Outcome (List Dict)
unfolding calculate_delta for_records
calculate_deltas flags results = for_records (calculate_delta flags) results

unfoldable pub format_resource_names : List Dict → Outcome (List Dict)
unfolding format_resource_name for_records
format_resource_names results = for_records format_resource_name results

abbrev pub no_actions : Parsing
no_actions = record { ongoing = []; results = []; store = [] }

-- Where a line is not json, the error stands beside the results so far, which have no durations;
-- here the error is the result.
unfoldable pub parse_logs : Decoders → List String → ℕ → Outcome (List Dict)
unfolding parse_lines calculate_deltas format_resource_names bound_times
parse_logs dec lines flags = if flags == 0 then ok [] else do
  st ← parse_lines dec flags lines no_actions
  let results = if has_flag flags parse_pvc_pod then bound_times st.results else st.results
  timed ← calculate_deltas flags results
  format_resource_names timed
