-- ===== src/ObjectTiming/Print.antt =====
-- pkg/objecttiming/output.go: the records as a table, and as lines of json.
-- The verbs of package fmt are the parameter `sprintf`, and json.Marshal is `encode`, which has no
-- result where it returns an error. The columns are aligned by a writer of the standard library.
pub mod Typed
use cnsbench.Prelude.{String, Option, List, [], ◌∷◌, ◌==◌, string_eq, if◌then◌else◌}
use cnsbench.Exec.{Outcome, ok}
use cnsbench.Exec.Results.{◌>>=◌}
use cnsbench.ObjectTiming.Types.{Value, Dict, read, as_text, or_panic}

-- A call of fmt.Fprintf or fmt.Fprintln appends a line to what is printed.
abbrev pub Printed : Type 0
Printed = List String

module _ (sprintf : String → List Value → String) where
  unfoldable pub print_create_row : Dict → String
  print_create_row rec =
      sprintf "%s\t%s\t%s\t%d\t\t\n"
        (read "action" rec ∷ read "name" rec ∷ read "resource" rec ∷ read "duration" rec ∷ [])

  unfoldable pub print_scale_row : Dict → String
  print_scale_row rec = sprintf "%s\t%s\t%s\t%d\t%d\t%d\n" (
      read "action" rec
      ∷ read "name" rec
      ∷ read "resource" rec
      ∷ read "duration" rec
      ∷ read "startReplicas" rec
      ∷ read "endReplicas" rec
      ∷ [])

  -- The switch on the action.
  unfoldable pub row_of : String → Dict → String
  unfolding print_create_row print_scale_row
  row_of action rec =
      if action == "create"
      then print_create_row rec
      else if action == "scale"
      then print_scale_row rec
      else print_create_row rec

  unfoldable pub print_row : Dict → Outcome String
  unfolding row_of
  print_row rec = as_text (read "action" rec) >>= λ action. ok (row_of action rec)

  unfoldable pub print_rows : List Dict → Outcome Printed
  unfolding print_row
  print_rows [] = ok []
  print_rows (rec ∷ records) =
      print_row rec >>= λ row. print_rows records >>= λ rows. ok (row ∷ rows)

  abbrev pub table_header : String
  table_header = "action\tname\tresource\tduration(microsec)\tstartReplicas\tendReplicas"

  unfoldable pub print_table_results : List Dict → Outcome Printed
  unfolding print_rows
  print_table_results records = print_rows records >>= λ rows. ok (table_header ∷ rows)

-- OutputJson
unfoldable pub output_json : (Dict → Option String) → List Dict → Outcome Printed
output_json encode [] = ok []
output_json encode (rec ∷ records) =
    or_panic (encode rec) >>= λ line. output_json encode records >>= λ rest. ok (line ∷ rest)
