-- ===== src/ObjectTiming/Print/Typed.antt =====
-- pkg/objecttiming/output.go: the assertion of printRow on the records that ParseLogs returns.
use cnsbench.Prelude.{String, some, List, [], ◌∷◌, get, nat_eq, string_eq, ◌≡◌}
use cnsbench.ObjectTiming.Types.{Value, Dict, text}
use cnsbench.ObjectTiming.Parse.Sound.{HasText}
use cnsbench.ObjectTiming.Print.{Printed, row_of}

-- A record whose action is a text.
abbrev pub HasAction : Dict → Type 0
HasAction = HasText "action"

-- Each row shows its record in the way of the record's action.
abbrev pub RowsOf : (String → List Value → String) → List Dict → Printed → Type 0
RowsOf sprintf [] [] = Unit
RowsOf sprintf [] (row ∷ rows) = ⊥
RowsOf sprintf (rec ∷ recs) [] = ⊥
RowsOf sprintf (rec ∷ recs) (row ∷ rows) =
    ((action : String) × (get "action" rec ≡ some (text action))
      × (row ≡ row_of sprintf action rec))
    × RowsOf sprintf recs rows
