-- ===== src/TimingCommand/Tail/History.antt =====
-- util/analysis/objecttiming/tail.go: what may happen to a log, and its lines.
use Prim.Native.Char.{Char, code}
use cnsbench.Prelude.{
  ℕ, zero, suc, ◌+◌, ◌≤◌, ◌<◌, String, false, none, List, [], ◌∷◌, ◌++◌, length, length-append,
  drop, ltb, All, ◌==◌, nat_eq, string_eq, ◌≡◌, refl, sym, ap, ◌∙◌, arith, if◌then◌else◌,
}
use cnsbench.Exec.{Outcome, ok, returned, failed, not_found}
use cnsbench.TimingCommand.Tail.{
  Bytes, File, longer, lines_of, LogReader, Sent, nothing, Event, changed, create_op, write_op,
}

-- A line has no newline.
abbrev pub IsLine : Bytes → Type 0
IsLine = All (λ c. (code c == b'\n') ≡ false)

abbrev pub newline : Char
newline = "\n"

-- The content of a log with these lines.
abbrev pub joined : List Bytes → Bytes
joined [] = []
joined (line ∷ lines) = line ++ newline ∷ joined lines

-- What happens to a log: whole lines are appended, it is cut off and written anew, or an empty file
-- takes its place.
pub data Happening : Type 0 where
  appended : List Bytes → Happening
  truncated : List Bytes → Happening
  rotated : Happening

abbrev pub file_of : List Bytes → File
file_of lines = record { content = joined lines; failure = none }

-- The events of the watcher for a log that has the lines `seen`.
abbrev pub events_of : String → List Bytes → List Happening → List Event
events_of filename seen [] = []
events_of filename seen (appended lines ∷ more) =
    changed write_op filename (failed not_found) (file_of (seen ++ lines)) none
    ∷ events_of filename (seen ++ lines) more
events_of filename seen (truncated lines ∷ more) =
    changed write_op filename (failed not_found) (file_of lines) none
    ∷ events_of filename lines more
events_of filename seen (rotated ∷ more) =
    changed create_op filename (returned (file_of [])) (file_of seen) none
    ∷ events_of filename [] more

-- The bytes of the lines without their newlines.
abbrev pub total : List Bytes → ℕ
total [] = 0
total (line ∷ lines) = length line + total lines

-- What is written are whole lines, and a file that was cut off is shorter than the lines that were
-- read of it, without their newlines.
abbrev pub IsHistory : List Bytes → List Happening → Type 0
IsHistory seen [] = Unit
IsHistory seen (appended lines ∷ more) = All IsLine lines × IsHistory (seen ++ lines) more
IsHistory seen (truncated lines ∷ more) =
    All IsLine lines × (length (joined lines) < total seen) × IsHistory lines more
IsHistory seen (rotated ∷ more) = IsHistory [] more

-- All lines that are written, and those that the file has at the end.
abbrev pub lines_in : List Happening → List Bytes
lines_in [] = []
lines_in (appended lines ∷ more) = lines ++ lines_in more
lines_in (truncated lines ∷ more) = lines ++ lines_in more
lines_in (rotated ∷ more) = lines_in more

abbrev pub lines_after : List Bytes → List Happening → List Bytes
lines_after seen [] = seen
lines_after seen (appended lines ∷ more) = lines_after (seen ++ lines) more
lines_after seen (truncated lines ∷ more) = lines_after lines more
lines_after seen (rotated ∷ more) = lines_after [] more

-- A reader that has read the file.
abbrev pub reader_at : {S : Type 0} → List Bytes → S → LogReader S
reader_at seen s = record { offset = length (joined seen); cur_read_pos = total seen; state = s }

abbrev pub reached : {S : Type 0} → List Bytes → S → Outcome (LogReader S × Sent)
reached seen s = ok (reader_at seen s, nothing)

lines_of-line :
    (line rest : Bytes) → IsLine line → lines_of (line ++ newline ∷ rest) ≡ line ∷ lines_of rest
unfolding lines_of longer
lines_of-line [] rest h = refl
lines_of-line (c ∷ line) rest h = rw (h.0, lines_of-line line rest h.1) refl

pub lines_of-joined : (lines : List Bytes) → All IsLine lines → lines_of (joined lines) ≡ lines
unfolding lines_of
lines_of-joined [] h = refl
lines_of-joined (line ∷ lines) h =
    lines_of-line line (joined lines) h.0 ∙ ap (λ ls. line ∷ ls) (lines_of-joined lines h.1)

append_line : (xs ys zs : Bytes) → (xs ++ ys) ++ zs ≡ xs ++ (ys ++ zs)
append_line [] ys zs = refl
append_line (x ∷ xs) ys zs = ap (λ l. x ∷ l) (append_line xs ys zs)

pub joined-append : (xs ys : List Bytes) → joined (xs ++ ys) ≡ joined xs ++ joined ys
joined-append [] ys = refl
joined-append (x ∷ xs) ys =
    ap (λ l. x ++ newline ∷ l) (joined-append xs ys)
    ∙ sym (append_line x (newline ∷ joined xs) (joined ys))

pub total-append : (xs ys : List Bytes) → total (xs ++ ys) ≡ total xs + total ys
total-append [] ys = omega arith
total-append (x ∷ xs) ys = omega (arith, total-append xs ys)

pub total-le : (xs : List Bytes) → total xs ≤ length (joined xs)
total-le [] = omega arith
total-le (x ∷ xs) = omega (arith, total-le xs, length-append x (newline ∷ joined xs))

pub drop-append : (xs ys : Bytes) → drop (length xs) (xs ++ ys) ≡ ys
drop-append [] ys = refl
drop-append (x ∷ xs) ys = drop-append xs ys

pub joined-longer : (xs ys : List Bytes) → length (joined xs) ≤ length (joined (xs ++ ys))
joined-longer xs ys =
    omega (arith, ap length (joined-append xs ys), length-append (joined xs) (joined ys))

pub furthest : (a b : ℕ) → a ≤ b → (if ltb a b then b else a) ≡ b
furthest a b h = ground arith

pub not_shorter : (a b : ℕ) → b ≤ a → ltb a b ≡ false
not_shorter a b h = ground arith

pub drop-past : (n : ℕ) (xs : Bytes) → length xs ≤ n → drop n xs ≡ []
drop-past zero [] h = refl
drop-past zero (x ∷ xs) h = absurd (omega (arith, h))
drop-past (suc n) [] h = refl
drop-past (suc n) (x ∷ xs) h = drop-past n xs (omega (arith, h))

pub not_longer : (from size : ℕ) → size ≤ from → ltb from size ≡ false
not_longer from size h = ground arith
