-- ===== src/TimingCommand/Program.antt =====
-- util/analysis/objecttiming/parselogs.go: the program as a whole.
-- The watcher of readLogFile is made and started without an error.
pub mod Followed
use cnsbench.Prelude.{ℕ, String, Option, List, [], ◌==◌, nat_eq, if◌then◌else◌}
use cnsbench.Exec.{Outcome, ok, Try}
use cnsbench.ObjectTiming.Types.{Dict, Decoders}
use cnsbench.ObjectTiming.Parse.{no_actions}
use cnsbench.TimingCommand.Lines.{Following, take_line}
use cnsbench.TimingCommand.Tail.{File, Event, LogReader, Sent, error, tail}
use cnsbench.TimingCommand.Options.{log_file, flags_of}

abbrev pub nothing_printed : Following
nothing_printed = record { parsing = no_actions; printed = [] }

-- A reader that has not read.
abbrev pub fresh : LogReader Following
fresh = record { offset = 0; cur_read_pos = 0; state = nothing_printed }

module _ (dec : Decoders) (encode : Dict → Option String) where
  -- ParseLogs returns the error that `tail` sends.
  unfoldable pub parse_logs :
      String → ℕ → List String → Try File → List Event → Outcome (LogReader Following × Sent)
  unfolding take_line tail
  parse_logs file flags namespaces opened events =
      if flags == 0
      then ok (fresh, error Option.none)
      else tail (take_line encode flags namespaces dec) file opened events nothing_printed

  -- main, after the flags are parsed and split at the commas.
  unfoldable pub run :
      List String
      → List String
      → List String
      → Try File
      → List Event
      → Outcome (LogReader Following × Sent)
  unfolding parse_logs log_file flags_of
  run args resources namespaces opened events =
      parse_logs (log_file args) (flags_of resources) namespaces opened events
