-- ===== src/TimingCommand/Program/Followed.antt =====
-- util/analysis/objecttiming: what the program prints of a log that it follows.
use cnsbench.Prelude.{
  length, ℕ, String, false, none, List, [], ◌++◌, All, ◌==◌, nat_eq, ◌≡◌, refl, ap, ◌∙◌, subst,
  if◌then◌else◌,
}
use cnsbench.Exec.{Outcome, ok, returned}
use cnsbench.Exec.Results.{◌>>=◌}
use cnsbench.Exec.Alike.{Alike, alike}
use cnsbench.ObjectTiming.Types.{Dict, Decoders}
use cnsbench.ObjectTiming.Parse.{Parsing, no_actions, parse_create}
use cnsbench.ObjectTiming.Parse.Sound.{IsFinished}
use cnsbench.TimingCommand.Lines.{Following, take_line}
use cnsbench.TimingCommand.Lines.Returned.{IsReadableLine, collect-Returns}
use cnsbench.TimingCommand.Lines.Removed.{encode_all}
use cnsbench.TimingCommand.Lines.Printed.{cleared, collect, lines_for, take_lines-PrintedAs}
use cnsbench.TimingCommand.Tail.{LogReader, Bytes, nothing, error, call_all, tail}
use cnsbench.TimingCommand.Tail.History.{
  joined, IsLine, Happening, IsHistory, file_of, events_of, lines_in, lines_after, reader_at,
  reached,
}
use cnsbench.TimingCommand.Tail.Delivered.{tail-delivers}
use cnsbench.TimingCommand.Program.{nothing_printed, fresh, parse_logs}

on_ok :
    {A B : Type 0} {R : A → B → Type 0} {a : A} (n : Outcome B)
    → Alike R (ok a) n
    → (b : B) × (n ≡ ok b) × R a b
on_ok _ (alike {b = b} r) = (b, refl, r)

-- What returned on the one side returned on the other one.
returned_with :
    {A B : Type 0} {R : A → B → Type 0} {m : Outcome A} {n : Outcome B} {a : A}
    → Alike R m n
    → m ≡ ok a
    → (b : B) × (n ≡ ok b) × R a b
returned_with {R = R} {n = n} h e = on_ok n (subst (λ o. Alike R o n) e h)

-- With some flag set, and where every record can be encoded, ParseLogs prints line by line
-- what it would print at the end. The log exists and has whole lines; then whole lines are
-- appended to it, it is cut off to fewer bytes than curReadPos counts and written anew with
-- whole lines, or an empty file takes its place. If collecting the results of all these lines
-- returns, ParseLogs goes on to wait, no finished action is left among its results, and it has
-- printed, in order, each finished action with its duration and its formatted resource, once
-- for each selected namespace that is its own.
pub parse_logs-prints :
    (dec : Decoders) (encoded : Dict → String) (filename : String) (flags : ℕ)
    (namespaces : List String) (lines : List Bytes) (more : List Happening) (q : Parsing)
    → (flags == 0) ≡ false
    → All IsLine lines
    → IsHistory lines more
    → collect dec flags (lines ++ lines_in more) no_actions ≡ ok q
    → (h : All IsFinished q.results) × (parse_logs dec
          (encode_all encoded)
          filename
          flags
          namespaces
          (returned (file_of lines))
          (events_of filename lines more)
        ≡ ok (
          reader_at
              (lines_after lines more)
              (record { parsing = cleared q; printed = lines_for encoded namespaces q.results h }),
          nothing,
        ))
unfolding parse_logs
parse_logs-prints dec encoded filename flags namespaces lines more q some_flag are_lines are_more
      e =
    let callback = take_line (encode_all encoded) flags namespaces dec in
    let printing = call_all callback (lines ++ lines_in more) nothing_printed in
    let (f, ran, (_, h, same)) =
      returned_with
        (take_lines-PrintedAs dec flags encoded namespaces (lines ++ lines_in more) [] no_actions
          tt)
        e in
    (
      h,
      ap
            (λ b.
              if b
              then ok (fresh, error none)
              else tail callback filename (returned (file_of lines)) (events_of filename lines more)
                  nothing_printed)
            some_flag
          ∙ tail-delivers callback filename lines more nothing_printed are_lines are_more
          ∙ ap (λ o. o >>= reached (lines_after lines more)) ran
          ∙ ap (reached (lines_after lines more)) same,
    )

-- With the flag for creations alone, ParseLogs does not panic if every record can be encoded
-- and, of every line that is json, the two times can be parsed, and the phase too where the
-- line may end a creation. The log exists and has whole lines; then whole lines are appended
-- to it, it is cut off to fewer bytes than curReadPos counts and written anew with whole
-- lines, or an empty file takes its place. ParseLogs takes all of these lines, also those that
-- are not json, and goes on to wait at the end of the file, with the ongoing actions and the
-- store that collecting the lines leaves, and with no result left.
pub parse_logs-returns :
    (dec : Decoders) (encoded : Dict → String) (filename : String) (namespaces : List String)
    (lines : List Bytes) (more : List Happening)
    → All (IsReadableLine dec) (lines ++ lines_in more)
    → All IsLine lines
    → IsHistory lines more
    → (l : LogReader Following) × (q : Parsing) × (collect dec parse_create
          (lines ++ lines_in more)
          no_actions
        ≡ ok q)
      × (parse_logs dec
            (encode_all encoded)
            filename
            parse_create
            namespaces
            (returned (file_of lines))
            (events_of filename lines more)
          ≡ ok (l, nothing))
      × (l.state.parsing ≡ cleared q)
      × (l.offset ≡ length (joined (lines_after lines more)))
parse_logs-returns dec encoded filename namespaces lines more readable are_lines history =
    let (q, collected, _) = collect-Returns dec (lines ++ lines_in more) no_actions readable tt in
    let (h, e) =
      parse_logs-prints dec encoded filename parse_create namespaces lines more q refl are_lines
        history collected in
    (_, q, collected, e, refl, refl)
