-- ===== src/TimingCommand/Tail/Delivered.antt =====
-- util/analysis/objecttiming/tail.go: the lines that a log hands to the callback while it changes.
use cnsbench.Prelude.{
  ℕ, ◌+◌, ◌≤◌, ◌<◌, lt→ltb, String, Option, none, some, List, [], ◌∷◌, ◌++◌, length, drop, ltb, All,
  ◌==◌, nat_eq, string_eq, beq_refl, ◌≡◌, refl, sym, ap, ◌∙◌, arith, if◌then◌else◌,
}
use cnsbench.Exec.{Error, Outcome, ok, returned}
use cnsbench.Exec.Results.{◌>>=◌, bind_assoc, bind_cong}
use cnsbench.TimingCommand.Tail.{
  Bytes, lines_of, LogReader, ignored, Sent, error, Event, text_of, call_all, take_lines,
  read_lines, handle_write, on_change, handle_events, tail,
}
use cnsbench.TimingCommand.Tail.History.{
  appended, truncated, rotated, IsLine, joined, Happening, file_of, events_of, total, IsHistory,
  lines_in, lines_after, reader_at, reached, lines_of-joined, joined-append, total-append, total-le,
  drop-append, joined-longer, furthest, not_shorter, drop-past, not_longer,
}

module _ {S : Type 0} (callback : String → S → Outcome S) where
  call_all-append :
      (xs ys : List Bytes) (s : S)
      → call_all callback (xs ++ ys) s ≡ (call_all callback xs s >>= call_all callback ys)
  unfolding call_all
  call_all-append [] ys s = refl
  call_all-append (x ∷ xs) ys s =
      let first = ignored s (callback (text_of x) s) in
      bind_cong first _ _ (call_all-append xs ys)
      ∙ sym (bind_assoc first (call_all callback xs) (call_all callback ys))

  take_lines-eq :
      (lines : List Bytes) (l : LogReader S)
      → take_lines callback lines l ≡ (
          call_all callback lines l.state >>= λ s.
          ok (record l { cur_read_pos = l.cur_read_pos + total lines; state = s }))
  unfolding take_lines call_all
  take_lines-eq [] l = ap (moved l l.state) (omega arith)
    where
      moved : LogReader S → S → ℕ → Outcome (LogReader S)
      moved l s n = ok (record l { cur_read_pos = n; state = s })
  take_lines-eq (line ∷ lines) l =
      let first = ignored l.state (callback (text_of line) l.state) in
      bind_cong first _ _ (λ s.
        take_lines-eq lines (record l { cur_read_pos = l.cur_read_pos + length line; state = s })
        ∙ ap
            (λ n.
              call_all callback lines s >>= λ s'. ok (record l { cur_read_pos = n; state = s' }))
            (omega arith))
      ∙ sym (bind_assoc first (call_all callback lines) _)

  -- What is left of a file is read, and the reader stands at its end.
  abbrev at_end : List Bytes → S → Outcome (LogReader S × Option Error)
  at_end seen s = ok (reader_at seen s, none)

  abbrev then_at_end : List Bytes → List Bytes → S → Outcome (LogReader S × Option Error)
  then_at_end seen lines s = call_all callback lines s >>= at_end (seen ++ lines)

  -- What `readLines` and `handleFsnotifyWrite` do after the lines.
  abbrev stopped : ℕ → ℕ → LogReader S → Outcome (LogReader S × Option Error)
  stopped from size l = ok (record l { offset = if ltb from size then size else from }, none)

  abbrev start_of : S → LogReader S
  start_of s = record { offset = 0; cur_read_pos = 0; state = s }

  abbrev checked : List Bytes → LogReader S × Option Error → Outcome (LogReader S × Option Error)
  checked seen r = elim r.1 [
    | some e ↦ ok (r.0, some e)
    | none ↦
        if ltb (length (joined seen)) r.0.cur_read_pos
        then read_lines callback (file_of seen) (record r.0 { offset = 0; cur_read_pos = 0 })
        else ok (r.0, none)
  ]

  read_lines-eq :
      (seen lines : List Bytes) (s : S)
      → All IsLine lines
      → read_lines callback (file_of (seen ++ lines)) (reader_at seen s) ≡ then_at_end seen lines s
  unfolding read_lines
  read_lines-eq seen lines s h =
      let rest : lines_of (drop (length (joined seen)) (joined (seen ++ lines))) ≡ lines =
        ap (λ bs. lines_of (drop (length (joined seen)) bs)) (joined-append seen lines)
        ∙ ap lines_of (drop-append (joined seen) (joined lines))
        ∙ lines_of-joined lines h in
      let from = length (joined seen) in
      let size = length (joined (seen ++ lines)) in
      let start = reader_at seen s in
      ap (λ ls. take_lines callback ls start >>= stopped from size) rest
      ∙ ap (λ o. o >>= stopped from size) (take_lines-eq lines start)
      ∙ bind_assoc (call_all callback lines s) _ (stopped from size)
      ∙ bind_cong (call_all callback lines s) _ _ (λ s'.
        ap
          (λ n.
            ok (record { offset = n; cur_read_pos = total seen + total lines; state = s' }, none))
          (furthest from size (omega (arith, joined-longer seen lines)))
        ∙ ap (λ n. ok (record { offset = size; cur_read_pos = n; state = s' }, none))
            (sym (total-append seen lines)))

  handle_write-eq :
      (seen lines : List Bytes) (s : S)
      → All IsLine lines
      → handle_write callback (file_of (seen ++ lines)) none (reader_at seen s)
        ≡ then_at_end seen lines s
  unfolding handle_write
  handle_write-eq seen lines s h =
      ap (λ o. o >>= checked (seen ++ lines)) (read_lines-eq seen lines s h)
      ∙ bind_assoc (call_all callback lines s) (at_end (seen ++ lines)) (checked (seen ++ lines))
      ∙ bind_cong (call_all callback lines s) _ _ (λ s'.
        ap
          (λ b.
            if b
            then read_lines callback (file_of (seen ++ lines)) (start_of s')
            else at_end (seen ++ lines) s')
          (not_shorter (length (joined (seen ++ lines))) (total (seen ++ lines))
            (total-le (seen ++ lines))))

  read_nothing :
      (from size : ℕ) (seen : List Bytes) (s : S)
      → size ≤ from
      → (take_lines callback (lines_of []) (reader_at seen s) >>= stopped from size)
        ≡ ok (record (reader_at seen s) { offset = from }, none)
  unfolding take_lines lines_of
  read_nothing from size seen s past =
      ap (λ b. ok (record (reader_at seen s) { offset = if b then size else from }, none))
        (not_longer from size past)

  -- A file that was cut off is not longer than what was read: nothing more is read of it at first,
  -- and then all of it.
  read_lines-past :
      (seen lines : List Bytes) (s : S)
      → length (joined lines) < total seen
      → read_lines callback (file_of lines) (reader_at seen s) ≡ ok (reader_at seen s, none)
  unfolding read_lines
  read_lines-past seen lines s short =
      let from = length (joined seen) in
      let size = length (joined lines) in
      let past : size ≤ from = omega (arith, short, total-le seen) in
      ap (λ bs. take_lines callback (lines_of bs) (reader_at seen s) >>= stopped from size)
        (drop-past from (joined lines) past)
      ∙ read_nothing from size seen s past

  handle_write-truncated :
      (seen lines : List Bytes) (s : S)
      → All IsLine lines
      → length (joined lines) < total seen
      → handle_write callback (file_of lines) none (reader_at seen s)
        ≡ (call_all callback lines s >>= at_end lines)
  unfolding handle_write
  handle_write-truncated seen lines s h short =
      ap (λ o. o >>= checked lines) (read_lines-past seen lines s short)
      ∙ ap
          (λ b.
            if b
            then read_lines callback (file_of lines) (start_of s)
            else ok (reader_at seen s, none))
          (lt→ltb (length (joined lines)) (total seen) short)
      ∙ read_lines-eq [] lines s h

  -- How the loop over the events goes on after one of them, and where it stops without one.
  abbrev go_on : String → List Event → LogReader S × Option Error → Outcome (LogReader S × Sent)
  go_on filename events r = elim r.1 [
    | some e ↦ ok (r.0, error (some e))
    | none ↦ handle_events callback filename events r.0
  ]

  -- After lines were read, the other events follow.
  go_on-lines :
      (filename : String) (lines seen : List Bytes) (more : List Happening) (s : S)
      (first : Outcome (LogReader S × Option Error))
      → first ≡ (call_all callback lines s >>= at_end seen)
      → ((s' : S)
          → handle_events callback filename (events_of filename seen more) (reader_at seen s')
            ≡ (call_all callback (lines_in more) s' >>= reached (lines_after seen more)))
      → (first >>= go_on filename (events_of filename seen more))
        ≡ (call_all callback (lines ++ lines_in more) s >>= reached (lines_after seen more))
  go_on-lines filename lines seen more s first e later =
      let next = go_on filename (events_of filename seen more) in
      let done = reached (lines_after seen more) in
      let calls = call_all callback lines s in
      ap (λ o. o >>= next) e
      ∙ bind_assoc calls (at_end seen) next
      ∙ bind_cong calls _ _ later
      ∙ sym (bind_assoc calls (call_all callback (lines_in more)) done)
      ∙ ap (λ o. o >>= done) (sym (call_all-append lines (lines_in more) s))

  -- An event with the name of the log is handled.
  at_log :
      (filename : String) (l : LogReader S) (handled : Outcome (LogReader S × Option Error))
      → (if filename == filename then handled else ok (l, none)) ≡ handled
  at_log filename l handled = ap (λ b. if b then handled else ok (l, none)) (beq_refl filename)

  handle_events-eq :
      (filename : String) (more : List Happening) (seen : List Bytes) (s : S)
      → IsHistory seen more
      → handle_events callback filename (events_of filename seen more) (reader_at seen s)
        ≡ (call_all callback (lines_in more) s >>= reached (lines_after seen more))
  unfolding handle_events on_change call_all
  handle_events-eq filename [] seen s h = refl
  handle_events-eq filename (appended lines ∷ more) seen s (h, hs) =
      go_on-lines filename lines (seen ++ lines) more s _
        (at_log filename (reader_at seen s) _ ∙ handle_write-eq seen lines s h)
        λ s'. handle_events-eq filename more (seen ++ lines) s' hs
  handle_events-eq filename (truncated lines ∷ more) seen s (h, short, hs) =
      go_on-lines filename lines lines more s _
        (at_log filename (reader_at seen s) _ ∙ handle_write-truncated seen lines s h short)
        λ s'. handle_events-eq filename more lines s' hs
  handle_events-eq filename (rotated ∷ more) seen s h =
      ap (λ o. o >>= go_on filename (events_of filename [] more))
        (at_log filename (reader_at seen s) (ok (start_of s, none)))
      ∙ handle_events-eq filename more [] s h

  -- The log exists and has whole lines; then whole lines are appended to it, it is cut off to
  -- fewer bytes than curReadPos counts and written anew with whole lines, or an empty file
  -- takes its place. The callback gets each of these lines exactly once and in order, also
  -- after it returned an error, and the program stops exactly if a call of it panics;
  -- otherwise the reader stands at the end of the file and waits.
  pub tail-delivers :
      (filename : String) (lines : List Bytes) (more : List Happening) (s : S)
      → All IsLine lines
      → IsHistory lines more
      → tail callback filename (returned (file_of lines)) (events_of filename lines more) s
        ≡ (call_all callback (lines ++ lines_in more) s >>= reached (lines_after lines more))
  unfolding tail
  tail-delivers filename lines more s h hs =
      go_on-lines filename lines lines more s _ (read_lines-eq [] lines s h)
        λ s'. handle_events-eq filename more lines s' hs
