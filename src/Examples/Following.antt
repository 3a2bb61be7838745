-- ===== src/Examples/Following.antt =====
-- The theorems on the program of util/analysis/objecttiming and on the tables of pkg/objecttiming,
-- at a log with the creation of one pod.
use cnsbench.Prelude.{
  length, arith, pos, String, List, [], ◌∷◌, ◌++◌, All, any, get, put, ◌==◌, ◌&&◌, nat_eq,
  string_eq, ◌≡◌, refl, if◌then◌else◌,
}
use cnsbench.Exec.{Outcome, ok, returned, failed, other}
use cnsbench.Exec.Results.{◌>>=◌}
use cnsbench.ObjectTiming.Types.{Value, text, int, read, Dict, Decoders}
use cnsbench.ObjectTiming.Criteria.{create_end_crit}
use cnsbench.ObjectTiming.Create.{is_create_start, get_create_start, is_create_end}
use cnsbench.ObjectTiming.Parse.{
  Parsing, has_flag, parse_create, parse_scale, parse_pvc_pod, no_actions,
}
use cnsbench.ObjectTiming.Parse
use cnsbench.ObjectTiming.Parse.Sound.{IsFinished}
use cnsbench.ObjectTiming.Print.{Printed}
use cnsbench.TimingCommand.Lines.{Following, read_line}
use cnsbench.TimingCommand.Lines.Printed.{cleared, collect, lines_for}
use cnsbench.TimingCommand.Lines.Removed.{encode_all}
use cnsbench.TimingCommand.Tail.{LogReader, nothing, call_all, text_of, tail}
use cnsbench.TimingCommand.Tail.History.{
  joined, Happening, appended, truncated, rotated, file_of, events_of, reader_at, reached,
}
use cnsbench.TimingCommand.Tail.Delivered.{tail-delivers}
use cnsbench.TimingCommand.Options.{is_scalable, flags_of}
use cnsbench.TimingCommand.Options.Selected.{is_creatable, flags_of-has}
use cnsbench.TimingCommand.Program.{parse_logs}
use cnsbench.TimingCommand.Program.Followed.{parse_logs-prints, parse_logs-returns}
use cnsbench.Examples.Timing.{machine, pod_created, pod_running, pod_done}

abbrev show : String → List Value → String
show format values = format

abbrev pod_shown : Dict
pod_shown =
    ("action", text "create")
    ∷ ("name", text "fio")
    ∷ ("resource", text "Pod")
    ∷ ("namespace", text "default")
    ∷ ("duration", int (pos 12340))
    ∷ []

-- A log of lines with one letter each.
abbrev noted : String → List String → Outcome (List String)
noted line lines = ok (lines ++ line ∷ [])

abbrev history : List Happening
history =
    appended (("b" ∷ []) ∷ []) ∷ truncated ([] ∷ []) ∷ rotated ∷ appended (("c" ∷ []) ∷ []) ∷ []

tail-delivers_example :
    tail noted "audit.log"
      (returned (file_of (("a" ∷ []) ∷ [])))
      (events_of "audit.log" (("a" ∷ []) ∷ []) history)
      []
    ≡ (call_all noted (("a" ∷ []) ∷ ("b" ∷ []) ∷ [] ∷ ("c" ∷ []) ∷ []) []
        >>= reached (("c" ∷ []) ∷ []))
tail-delivers_example =
    tail-delivers noted "audit.log" (("a" ∷ []) ∷ []) history [] ((refl, tt), tt)
      (((refl, tt), tt), ((tt, tt), omega arith, (((refl, tt), tt), tt)))

abbrev letters : Decoders
letters = record machine {
  audit_log = λ line.
      if line == "c"
      then returned pod_created
      else if line == "r"
      then returned pod_running
      else failed (other "json");
}

abbrev pod_history : List Happening
pod_history = appended (("x" ∷ []) ∷ ("r" ∷ []) ∷ []) ∷ []

collected_test :
    collect letters 1 (("c" ∷ []) ∷ ("x" ∷ []) ∷ ("r" ∷ []) ∷ []) no_actions ≡ ok pod_done
unfolding call_all text_of read_line Parse.end_if_found is_create_start create_end_crit
    get_create_start is_create_end read get put
collected_test = refl

parse_logs-prints_example :
    (h : All IsFinished pod_done.results) × (parse_logs letters
        (encode_all (λ rec. "json"))
        "audit.log"
        1
        ("default" ∷ [])
        (returned (file_of (("c" ∷ []) ∷ [])))
        (events_of "audit.log" (("c" ∷ []) ∷ []) pod_history)
      ≡ ok (
        reader_at (("c" ∷ []) ∷ ("x" ∷ []) ∷ ("r" ∷ []) ∷ []) (record {
          parsing = cleared pod_done;
          printed = lines_for (λ rec. "json") ("default" ∷ []) pod_done.results h;
        }),
        nothing,
      ))
parse_logs-prints_example =
    parse_logs-prints letters (λ rec. "json") "audit.log" 1 ("default" ∷ []) (("c" ∷ []) ∷ [])
      pod_history pod_done refl ((refl, tt), tt) (((refl, tt), ((refl, tt), tt)), tt) collected_test

parse_logs-returns_example :
    (l : LogReader Following) × (q : Parsing) × (collect letters parse_create
        (("c" ∷ []) ∷ ("x" ∷ []) ∷ ("r" ∷ []) ∷ [])
        no_actions
      ≡ ok q)
    × (parse_logs letters
          (encode_all (λ rec. "json"))
          "audit.log"
          parse_create
          ("default" ∷ [])
          (returned (file_of (("c" ∷ []) ∷ [])))
          (events_of "audit.log" (("c" ∷ []) ∷ []) pod_history)
        ≡ ok (l, nothing))
    × (l.state.parsing ≡ cleared q)
    × (l.offset ≡ length (joined (("c" ∷ []) ∷ ("x" ∷ []) ∷ ("r" ∷ []) ∷ [])))
unfolding text_of
parse_logs-returns_example =
    parse_logs-returns letters (λ rec. "json") "audit.log" ("default" ∷ []) (("c" ∷ []) ∷ [])
      pod_history
      (
        record {
          received = (5000, refl);
          ended = (5000, refl);
          phase = λ phases status may ends is. (status, refl);
        },
        (
          tt,
          (
            record {
              received = (12345000, refl);
              ended = (12345000, refl);
              phase = λ phases status may ends is. (status, refl);
            },
            tt,
          ),
        ),
      )
      ((refl, tt), tt) (((refl, tt), ((refl, tt), tt)), tt)

flags_of-has_example :
    (has_flag (flags_of ("pod" ∷ "pvc" ∷ "job" ∷ [])) parse_create
      ≡ any is_creatable ("pod" ∷ "pvc" ∷ "job" ∷ []))
    × (has_flag (flags_of ("pod" ∷ "pvc" ∷ "job" ∷ [])) parse_scale
        ≡ any is_scalable ("pod" ∷ "pvc" ∷ "job" ∷ []))
    × (has_flag (flags_of ("pod" ∷ "pvc" ∷ "job" ∷ [])) parse_pvc_pod ≡ (
        any (λ (r : String). r == "pod") ("pod" ∷ "pvc" ∷ "job" ∷ [])
        && any (λ (r : String). r == "pvc") ("pod" ∷ "pvc" ∷ "job" ∷ [])))
flags_of-has_example = flags_of-has ("pod" ∷ "pvc" ∷ "job" ∷ [])
