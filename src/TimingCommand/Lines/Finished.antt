-- ===== src/TimingCommand/Lines/Finished.antt =====
-- util/analysis/objecttiming/parselogs.go: a line keeps the records of the actions well-formed.
use cnsbench.Prelude.{ℕ, String, Bool, true, false, ◌==◌, string_eq}
use cnsbench.Exec.{of_try}
use cnsbench.Exec.Results.{Yields, yields, Yields->>=, Yields-then, Yields-if, Yields-if-true}
use cnsbench.ObjectTiming.Types.{Dict, AuditLog, Decoders}
use cnsbench.ObjectTiming.Create.{is_create_start, is_create_end, get_create_start}
use cnsbench.ObjectTiming.Parse.{Parsing, with_volume}
use cnsbench.ObjectTiming.Parse.Sound.{IsRunning, IsFinished-volume}
use cnsbench.ObjectTiming.Parse.Identity.{identity-volume}
use cnsbench.ObjectTiming.Parse.Moves.{
  Moves, Moves-stay, Moves-begin, Taking, taken, end_if_found-Moves,
}
use cnsbench.ObjectTiming.Parse.Lines.{
  create_start-IsRunning, scale_action-Taking, pod_action-Taking, save_action-Moves, or_else-Moves,
  when_flag-Taking,
}
use cnsbench.TimingCommand.Lines.{is_ongoing, begun_once, create_once, read_log, read_line}

module _ (dec : Decoders) (flags : ℕ) (log : AuditLog) where
  begun_once-Moves :
      (st : Parsing) (rec : Dict) (dup : Bool) → IsRunning rec → Moves 1 st (begun_once st rec dup)
  begun_once-Moves st rec true running = Moves-stay 1 st
  begun_once-Moves st rec false running = Moves-begin st rec running

  create_once-Taking : (st : Parsing) → Yields (Taking 1 st) (create_once dec flags log st)
  unfolding create_once
  create_once-Taking st =
      Yields-if-true (is_create_start log) _ _
        (λ h.
          Yields->>= (get_create_start dec log) _ (create_start-IsRunning dec log h) λ rec running.
            Yields-then (is_ongoing log.object_ref.name st.ongoing) _
              λ dup. yields (taken (begun_once-Moves st rec dup running)))
        (Yields-then (is_create_end dec log st.ongoing) _ λ found.
          end_if_found-Moves dec log (with_volume log) st found
            (λ rec. (IsFinished-volume log rec, identity-volume log rec)))

  read_log-Moves : (st : Parsing) → Yields (Moves 1 st) (read_log dec flags log st)
  unfolding read_log
  read_log-Moves st =
      Yields-if (log.stage == "ResponseComplete") _ _
        (or_else-Moves dec log st _ _ (when_flag-Taking dec log st _ _ (create_once-Taking st)) (
          or_else-Moves dec log st _ _
            (when_flag-Taking dec log st _ _ (scale_action-Taking dec log st))
            (or_else-Moves dec log st _ _
              (when_flag-Taking dec log st _ _ (pod_action-Taking dec log st))
              (save_action-Moves dec log st))))
        (yields (Moves-stay 1 st))

pub read_line-Moves :
    (dec : Decoders) (flags : ℕ) (line : String) (st : Parsing)
    → Yields (Moves 1 st) (read_line dec flags line st)
unfolding read_line
read_line-Moves dec flags line st =
    Yields-then (of_try (dec.audit_log line)) _ λ log. read_log-Moves dec flags log st
