-- ===== src/Examples/Timing.antt =====
-- The theorems on the object timing, at the log of a pod and of a deployment.
use cnsbench.Prelude.{
  ℕ, suc, ◌*◌, ◌<◌, arith, ℤ, pos, ◌≤◌, ◌≡◌, refl, ◌↔◌, String, string_eq, true, none, some, List,
  [], ◌∷◌, ◌⧺◌, All, get, put, delete, ◌==◌, nat_eq, if◌then◌else◌,
}
use cnsbench.Exec.{returned, failed, other, ok}
use cnsbench.ObjectTiming.Types.{text, time, int, read, Dict, AuditLog, ScaleStatus, Decoders}
use cnsbench.ObjectTiming.Criteria.{scale_status, scale_end_crit, create_end_crit}
use cnsbench.ObjectTiming.Records.{is_record_of, find_log, time_diff, get_name, get_identification}
use cnsbench.ObjectTiming.Records.Latest.{IsLatest, find_log_iff}
use cnsbench.ObjectTiming.Records.Durations.{time_diff-rounds}
use cnsbench.ObjectTiming.Store.{save_obj_info, get_obj_info}
use cnsbench.ObjectTiming.Create.{
  get_create_end_index, is_create_start, get_create_start, is_create_end,
}
use cnsbench.ObjectTiming.Scale.{all_goals_fulfilled}
use cnsbench.ObjectTiming.Scale.Goals.{counted, all_goals_fulfilled_iff}
use cnsbench.ObjectTiming.Scale.Saved.{is_same_object, saved, get_obj_info-save_obj_info}
use cnsbench.ObjectTiming.Pods.{quoted}
use cnsbench.ObjectTiming.Pods.Quotes.{is_plain, quoted-append}
use cnsbench.ObjectTiming.Parse.{
  Parsing, parse_lines, parse_logs, create_action, no_actions, calculate_deltas,
  format_resource_names,
}
use cnsbench.ObjectTiming.Parse.Moves.{Moves}
use cnsbench.ObjectTiming.Parse.Lines.{parse_lines-ok}
use cnsbench.ObjectTiming.Parse.Begun.{create_action-begins}
use cnsbench.ObjectTiming.Parse.Totals.{Related, Summarises, parse_logs-total}

abbrev line_of : String → String → ℤ → String → AuditLog
line_of verb resource code at = record {
  stage = "ResponseComplete";
  verb = verb;
  stage_timestamp = at;
  request_received_timestamp = at;
  object_ref = record {
    resource = resource;
    namespace = "default";
    name = "fio";
    subresource = "";
  };
  code = code;
  request_object = record {
    status = none;
    involved_object = record { kind = ""; namespace = ""; name = "" };
    reason = "";
    message = "";
  };
  response_object = record {
    name = "fio";
    labels = none;
    spec = record { replicas = 3; parallelism = 0; volume_name = "" };
    status = some "Running";
  };
}

abbrev pub pod_created : AuditLog
pod_created = line_of "create" "pods" (pos 201) "early"

abbrev pub pod_running : AuditLog
pod_running = line_of "patch" "pods" (pos 200) "late"

abbrev deployment_seen : AuditLog
deployment_seen = line_of "get" "deployments" (pos 200) "early"

abbrev pub machine : Decoders
machine = record {
  audit_log = λ line.
      if line == "created"
      then returned pod_created
      else if line == "running"
      then returned pod_running
      else failed (other "json");
  create_phase = λ phase. some phase;
  scale_status = λ status. none;
  waiting_reasons = λ status. none;
  parse_time = λ t. if t == "early" then some 5000 else if t == "late" then some 12345000 else none;
}

abbrev pub pod_lines : List String
pod_lines = "created" ∷ "running" ∷ []

abbrev pub pod_record : Dict
pod_record =
    ("action", text "create")
    ∷ ("name", text "fio")
    ∷ ("resource", text "pods")
    ∷ ("namespace", text "default")
    ∷ ("startTime", time 5000)
    ∷ []

abbrev pub pod_done : Parsing
pod_done = record {
  ongoing = [];
  results =
      (("action", text "create")
        ∷ ("name", text "fio")
        ∷ ("resource", text "pods")
        ∷ ("namespace", text "default")
        ∷ ("startTime", time 5000)
        ∷ ("endTime", time 12345000)
        ∷ [])
      ∷ [];
  store = [];
}

pod_lines_test : parse_lines machine 1 pod_lines no_actions ≡ ok pod_done
unfolding parse_lines is_create_start create_end_crit get_create_start is_create_end read get put
pod_lines_test = refl

parse_logs-total_example :
    (sums : List Dict) × (parse_logs machine pod_lines 1 ≡ ok sums)
    × Related Summarises pod_done.results sums
parse_logs-total_example = parse_logs-total machine pod_lines 1 pod_done refl refl pod_lines_test

parse_lines-ok_example : Moves 2 no_actions pod_done
parse_lines-ok_example = parse_lines-ok machine 1 pod_lines no_actions pod_done pod_lines_test

create_action-begins_example :
    (rec : Dict) × (create_action machine pod_created no_actions
      ≡ ok (some (record no_actions { ongoing = rec ∷ [] })))
    × (get_create_end_index pod_running (rec ∷ []) ≡ some 0)
unfolding is_create_start create_end_crit get_identification
create_action-begins_example =
    create_action-begins machine pod_created pod_running no_actions 5000 refl refl refl

find_log_iff_example :
    (find_log "create" "fio" "pods" "default" (pod_record ∷ []) ≡ some 0)
    ↔ IsLatest (is_record_of "create" "fio" "pods" "default") (pod_record ∷ []) 0
find_log_iff_example = find_log_iff "create" "fio" "pods" "default" (pod_record ∷ []) 0

get_obj_info-save_obj_info_example :
    (store : List (String × List (String × List (String × Dict)))) × (save_obj_info machine
        deployment_seen []
      ≡ ok store)
    × (get_obj_info deployment_seen store ≡ some (saved deployment_seen 5000))
unfolding is_same_object scale_end_crit get_name
get_obj_info-save_obj_info_example =
    get_obj_info-save_obj_info machine deployment_seen deployment_seen [] 5000 refl refl refl

abbrev scaled_up : ScaleStatus
scaled_up = scale_status 3 0 3 3 3 0

all_goals_fulfilled_iff_example :
    (all_goals_fulfilled scaled_up (scale_status 1 0 0 1 1 0) 3 ≡ true)
    ↔ All (λ v. v ≡ 3) (counted "deployments" scaled_up)
unfolding scale_end_crit
all_goals_fulfilled_iff_example =
    all_goals_fulfilled_iff "deployments" (scale_status 1 0 0 1 1 0) scaled_up 3 refl

quoted-append_example : quoted ("volume " ⧺ ("\"" ⧺ ("pvc-1" ⧺ ("\"" ⧺ " attached")))) ≡ "pvc-1"
unfolding is_plain
quoted-append_example = quoted-append "volume " "pvc-1" " attached" refl refl

time_diff-rounds_example :
    (n : ℕ) × (time_diff 5000 12345678 ≡ pos n) × (n * 1000 ≤ 12340678) × (12340678 < suc n * 1000)
time_diff-rounds_example = time_diff-rounds 5000 12345678 (omega arith) (omega arith)

abbrev pod_sums : List Dict
pod_sums =
    (("action", text "create")
      ∷ ("name", text "fio")
      ∷ ("resource", text "Pod")
      ∷ ("namespace", text "default")
      ∷ ("duration", int (pos 12340))
      ∷ [])
    ∷ []

pod_sums_test : parse_logs machine pod_lines 1 ≡ ok pod_sums
unfolding parse_logs is_create_start create_end_crit get_create_start is_create_end read get put
    delete calculate_deltas format_resource_names
pod_sums_test = refl
