-- ===== src/TimingCommand/Tail.antt =====
-- util/analysis/objecttiming/tail.go: reading a log that grows, is cut off or is replaced.
-- The watcher of package fsnotify is a list of events, each with what the file system answers when
-- it is handled. A character of a file is a byte.
pub mod History
pub mod Delivered
use Prim.Native.Nat.{bit_and}
use Prim.Native.Char.{Char, code}
use Prim.Native.String
use cnsbench.Prelude.{
  ℕ, ◌+◌, String, Bool, true, false, Option, none, some, List, [], ◌∷◌, length, drop, ltb, ◌&&◌,
  ◌==◌, nat_eq, string_eq, if◌then◌else◌,
}
use cnsbench.Exec.{Error, Outcome, ok, err, fault, Try, returned, failed}
use cnsbench.Exec.Results.{◌>>=◌}

-- The bytes of a file, or of a line without its newline.
abbrev pub Bytes : Type 0
Bytes = List Char

unfoldable pub text_of : Bytes → String
text_of [] = ""
text_of (c ∷ cs) = String.◌∷◌ c (text_of cs)

-- What a reading descriptor gives: the bytes of the file, and the error after them, where that is
-- not io.EOF.
pub record File : Type 0 where
  pub content : Bytes
  pub failure : Option Error

unfoldable pub longer : Char → List Bytes → List Bytes
longer c [] = []
longer c (line ∷ lines) = (c ∷ line) ∷ lines

-- What the calls of `ReadString('\n')` return before the first error, without the newlines. The
-- bytes after the last newline come back beside the error, and are dropped.
unfoldable pub lines_of : Bytes → List Bytes
unfolding longer
lines_of [] = []
lines_of (c ∷ cs) =
    let lines = lines_of cs in if code c == b'\n' then [] ∷ lines else longer c lines

-- A logreader, whose callback has the state `S`. `offset` is the one of the descriptor: its buffer
-- is empty at the end of the file.
pub record LogReader (S : Type 0) : Type 0 where
  pub offset : ℕ
  pub cur_read_pos : ℕ
  pub state : S

-- `l.callback(line)`: an error is ignored. The callback has changed nothing then.
abbrev pub ignored {ℓ} : {S : Type ℓ} → S → Outcome S → Outcome S
ignored s (ok s') = ok s'
ignored s (err e) = ok s
ignored s (fault x) = fault x

-- What was sent on the channel of errors.
pub data Sent : Type 0 where
  nothing : Sent
  error : Option Error → Sent

pub data Event : Type 0 where
  signal : Event
  -- the channel of the events is closed
  closed : Event
  -- an event with its operation and its name, what os.Open gives if it is called, the file behind
  -- the open descriptor, if it is not called, and whether Stat fails
  changed : ℕ → String → Try File → File → Option Error → Event

abbrev pub create_op : ℕ
create_op = 1

abbrev pub write_op : ℕ
write_op = 2

-- `event.Op&op == op`
abbrev pub has_op : ℕ → ℕ → Bool
has_op ops op = bit_and ops op == op

module _ {S : Type 0} (callback : String → S → Outcome S) where
  -- The callback on each line in turn.
  unfoldable pub call_all : List Bytes → S → Outcome S
  unfolding text_of
  call_all [] s = ok s
  call_all (line ∷ lines) s = ignored s (callback (text_of line) s) >>= λ s'. call_all lines s'

  -- The loop of `readLines` over the lines.
  unfoldable pub take_lines : List Bytes → LogReader S → Outcome (LogReader S)
  unfolding text_of
  take_lines [] l = ok l
  take_lines (line ∷ lines) l = ignored l.state (callback (text_of line) l.state) >>= λ s.
      take_lines lines (record l { cur_read_pos = l.cur_read_pos + length line; state = s })

  -- readLines; `none` is io.EOF.
  unfoldable pub read_lines : File → LogReader S → Outcome (LogReader S × Option Error)
  unfolding take_lines lines_of
  read_lines file l = take_lines (lines_of (drop l.offset file.content)) l >>= λ l'. ok (
    record l' {
      offset = if ltb l.offset (length file.content) then length file.content else l.offset;
    },
    file.failure,
  )

  -- handleFsnotifyWrite; Stat gives the size of the file.
  unfoldable pub handle_write :
      File → Option Error → LogReader S → Outcome (LogReader S × Option Error)
  unfolding read_lines
  handle_write file stat l = read_lines file l >>= λ r. elim r.1 [
    | some e ↦ ok (r.0, some e)
    | none ↦ elim stat [
      | some e ↦ ok (r.0, some e)
      | none ↦
          if ltb (length file.content) r.0.cur_read_pos
          then read_lines file (record r.0 { offset = 0; cur_read_pos = 0 })
          else ok (r.0, none)
    ]
  ]

  -- An event with the name of the log: a new file is opened, and then a write is handled.
  abbrev on_write : ℕ → File → Option Error → LogReader S → Outcome (LogReader S × Option Error)
  on_write op file stat l = if has_op op write_op then handle_write file stat l else ok (l, none)

  unfoldable pub on_change :
      ℕ → Try File → File → Option Error → LogReader S → Outcome (LogReader S × Option Error)
  unfolding handle_write
  on_change op opened file stat l =
      if has_op op create_op
      then elim opened [
        | returned new ↦ on_write op new stat (record l { offset = 0; cur_read_pos = 0 })
        | failed e ↦ ok (l, some e)
      ]
      else on_write op file stat l

  -- The loop over the events, until something is sent.
  unfoldable pub handle_events : String → List Event → LogReader S → Outcome (LogReader S × Sent)
  unfolding on_change
  handle_events filename [] l = ok (l, nothing)
  handle_events filename (signal ∷ _) l = ok (l, error none)
  handle_events filename (closed ∷ _) l = ok (l, error (some (Error.other "watcher.Events error")))
  handle_events filename (changed op name opened file stat ∷ events) l =
      (if name == filename then on_change op opened file stat l else ok (l, none)) >>= λ r.
      elim r.1 [ some e ↦ ok (r.0, error (some e)) | none ↦ handle_events filename events r.0 ]

  -- tail: what is there is read first.
  unfoldable pub tail : String → Try File → List Event → S → Outcome (LogReader S × Sent)
  unfolding read_lines handle_events
  tail filename (failed e) events s =
      ok (record { offset = 0; cur_read_pos = 0; state = s }, error (some e))
  tail filename (returned file) events s =
      read_lines file (record { offset = 0; cur_read_pos = 0; state = s }) >>= λ r. elim r.1 [
        | some e ↦ ok (r.0, error (some e))
        | none ↦ handle_events filename events r.0
      ]
