-- ===== src/TimingCommand/Lines.antt =====
-- util/analysis/objecttiming/parselogs.go and output.go: what the program does with one line.
-- json.Marshal is the parameter `encode`, which has no result where it returns an error.

pub mod Framed
pub mod Printed
pub mod Finished
pub mod Removed
pub mod Returned
use cnsbench.Prelude.{
  ℕ, zero, suc, ◌-◌, String, Bool, true, false, Option, none, some, List, [], ◌∷◌, ◌++◌, get, put,
  delete, get_elem?, length, take, drop, leb, ◌&&◌, ◌==◌, string_eq, if◌then◌else◌,
}
use cnsbench.Exec.{Outcome, ok, err, fault, of_try, on_option, panic}
use cnsbench.Exec.Results.{◌>>=◌}
use cnsbench.ObjectTiming.Types.{
  Dict, read, int, is_text, as_text, as_time, AuditLog, Decoders, or_panic,
}
use cnsbench.ObjectTiming.Records.{time_diff, format_resource_name}
use cnsbench.ObjectTiming.Create.{is_create_start, is_create_end, get_create_start}
use cnsbench.ObjectTiming.Parse.{
  Parsing, Taken, or_else, when_flag, has_flag, parse_create, parse_scale, parse_pvc_pod,
  with_volume, end_if_found, scale_action, pod_action, save_action, with_deltas, cleaned,
}

-- The loop over the ongoing records: whether one has the name. Its type assertion may panic.
unfoldable pub is_ongoing : String → List Dict → Outcome Bool
is_ongoing name [] = ok false
is_ongoing name (o ∷ ongoing) =
    as_text (read "name" o) >>= λ other. if other == name then ok true else is_ongoing name ongoing

-- A creation of an object with the name of an ongoing record is dropped.
abbrev pub begun_once : Parsing → Dict → Bool → Parsing
begun_once st rec dup = if dup then st else record st { ongoing = st.ongoing ++ rec ∷ [] }

module _ (dec : Decoders) (flags : ℕ) where
  -- The part for `ParseCreate`.
  unfoldable pub create_once : AuditLog → Parsing → Taken
  unfolding is_ongoing
  create_once log st =
      if is_create_start log
      then (get_create_start dec log >>= λ rec.
          is_ongoing log.object_ref.name st.ongoing >>= λ dup. ok (some (begun_once st rec dup)))
      else (is_create_end dec log st.ongoing >>= end_if_found dec log (with_volume log) st)

  -- The closure `parseLog`, once the line is decoded.
  unfoldable pub read_log : AuditLog → Parsing → Outcome Parsing
  unfolding create_once
  read_log log st =
      if log.stage == "ResponseComplete"
      then or_else (when_flag dec (has_flag flags parse_create) (create_once log st)) (
          or_else (when_flag dec (has_flag flags parse_scale) (scale_action dec log st)) (
            or_else (when_flag dec (has_flag flags parse_pvc_pod) (pod_action dec log st))
              (save_action dec log st)))
      else ok st

  -- The closure `parseLog`.
  unfoldable pub read_line : String → Parsing → Outcome Parsing
  unfolding read_log
  read_line line st = of_try (dec.audit_log line) >>= λ log. read_log log st

-- One round of the first loop of `outputFinishedActions`.
unfoldable pub set_duration : ℕ → Dict → Outcome Dict
unfolding with_deltas time_diff
set_duration flags rec = as_time (read "startTime" rec) >>= λ start.
    as_time (read "endTime" rec) >>= λ end.
    if has_flag flags parse_pvc_pod && is_text (read "resource" rec) "pod"
    then elim (get "attachTime" rec) [
      | none ↦ ok rec
      | some _ ↦ with_deltas start end rec >>= λ rec'.
          ok (cleaned (put "duration" (int (time_diff start end)) rec'))
    ]
    else ok (delete "endTime" (delete "startTime" (put "duration" (int (time_diff start end)) rec)))

unfoldable pub set_durations : ℕ → List Dict → Outcome (List Dict)
unfolding set_duration
set_durations flags [] = ok []
set_durations flags (rec ∷ recs) =
    set_duration flags rec >>= λ rec'. set_durations flags recs >>= λ recs'. ok (rec' ∷ recs')

-- The array below `results`, how many of its elements `results` still has, and what was printed.
pub record Removing : Type 0 where
  pub cells : List Dict
  pub left : ℕ
  pub printed : List String

-- `append(results[0:i], results[i+1:len(results)]...)` moves the elements in the array; the slice
-- panics if its bounds are in the wrong order.
unfoldable pub cut : ℕ → Removing → Outcome Removing
cut i st =
    if leb (suc i) st.left
    then ok (record st {
      cells =
          take i st.cells
          ++ take (st.left - suc i) (drop (suc i) st.cells)
          ++ drop (st.left - 1) st.cells;
      left = st.left - 1;
    })
    else fault panic

module _ (encode : Dict → Option String) where
  -- OutputJson
  unfoldable pub output_json : Dict → Outcome String
  output_json rec = or_panic (encode rec)

  -- The loop over the namespaces, for one result, which is the same map in each round.
  unfoldable pub print_matching : List String → Dict → List String → Outcome (List String)
  unfolding output_json format_resource_name
  print_matching [] rec printed = ok printed
  print_matching (ns ∷ rest) rec printed =
      if is_text (read "namespace" rec) ns
      then (format_resource_name rec >>= λ rec'.
          output_json rec' >>= λ text. print_matching rest rec' (printed ++ text ∷ []))
      else print_matching rest rec printed

module _ (encode : Dict → Option String) (namespaces : List String) where
  -- One round of the second loop of `outputFinishedActions`.
  unfoldable pub print_result : ℕ → Removing → Outcome Removing
  unfolding cut print_matching
  print_result i st = or_panic (get_elem? st.cells i) >>= λ rec.
      on_option (get "duration" rec) (ok st) λ _. cut i st >>= λ st'.
      print_matching encode namespaces rec st'.printed >>= λ printed.
      ok (record st' { printed = printed })

  -- The loop goes over the elements that `results` had at first: `rounds` of them are left.
  unfoldable pub print_results : ℕ → ℕ → Removing → Outcome Removing
  unfolding print_result
  print_results zero i st = ok st
  print_results (suc rounds) i st = print_result i st >>= λ st'. print_results rounds (suc i) st'

-- The variables of ParseLogs, and what the program has printed.
pub record Following : Type 0 where
  pub parsing : Parsing
  pub printed : List String

module _ (encode : Dict → Option String) (flags : ℕ) (namespaces : List String) where
  -- The closure `outputFinishedActions`.
  unfoldable pub output_finished_actions : Following → Outcome Following
  unfolding set_durations print_results
  output_finished_actions st = set_durations flags st.parsing.results >>= λ recs.
      print_results encode namespaces (length recs) 0
        (record { cells = recs; left = length recs; printed = st.printed })
      >>= λ done. ok (record {
        parsing = record {
          ongoing = st.parsing.ongoing;
          results = take done.left done.cells;
          store = st.parsing.store;
        };
        printed = done.printed;
      })

  -- The closure `callback`.
  unfoldable pub take_line : Decoders → String → Following → Outcome Following
  unfolding read_line output_finished_actions
  take_line dec line st = read_line dec flags line st.parsing >>= λ parsing.
      output_finished_actions (record st { parsing = parsing })
