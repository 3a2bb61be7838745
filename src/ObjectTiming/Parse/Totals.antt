-- ===== src/ObjectTiming/Parse/Totals.antt =====
-- pkg/objecttiming/parselogs.go: the results of ParseLogs.
use cnsbench.Prelude.{
  ℕ, ℤ, String, false, none, some, List, [], ◌∷◌, get, put, get-put, get-delete, All, ◌==◌, nat_eq,
  string_eq, ◌≡◌, refl, ◌∙◌,
}
use cnsbench.Exec.{Outcome, ok}
use cnsbench.Exec.Results.{Yields-ok}
use cnsbench.ObjectTiming.Types.{Dict, text, int, Decoders}
use cnsbench.ObjectTiming.Records.{time_diff, convert_name, format_resource_name}
use cnsbench.ObjectTiming.Parse.{
  Parsing, has_flag, parse_pvc_pod, parse_lines, cleaned, calculate_delta, for_records,
  calculate_deltas, format_resource_names, no_actions, parse_logs,
}
use cnsbench.ObjectTiming.Parse.Sound.{IsFinished, HasTime, put-other, delete-other, read-of_get}
use cnsbench.ObjectTiming.Parse.Lines.{parse_lines-Moves}

-- A finished action and its record in the output.
pub record Summarises (rec sum : Dict) : Type 0 where
  pub start : HasTime "startTime" rec
  pub end : HasTime "endTime" rec
  pub duration : get "duration" sum ≡ some (int (time_diff start.0 end.0))
  pub resource :
      (r : String) × (get "resource" rec ≡ some (text r))
      × (get "resource" sum ≡ some (text (convert_name r)))
  pub no_start : get "startTime" sum ≡ none
  pub no_end : get "endTime" sum ≡ none

abbrev pub Related : (Dict → Dict → Type 0) → List Dict → List Dict → Type 0
Related R [] [] = Unit
Related R [] (y ∷ ys) = ⊥
Related R (x ∷ xs) [] = ⊥
Related R (x ∷ xs) (y ∷ ys) = R x y × Related R xs ys

summary : Dict → ℤ → String → Dict
summary rec d r = put "resource" (text r) (cleaned (put "duration" (int d) rec))

get-cleaned :
    (key : String) (rec : Dict)
    → ("pvName" == key) ≡ false
    → ("containerTime" == key) ≡ false
    → ("boundTime" == key) ≡ false
    → ("attachTime" == key) ≡ false
    → ("endTime" == key) ≡ false
    → ("startTime" == key) ≡ false
    → get key (cleaned rec) ≡ get key rec
get-cleaned key rec a b c d e f =
    delete-other _ key _ a
    ∙ delete-other _ key _ b
    ∙ delete-other _ key _ c
    ∙ delete-other _ key _ d
    ∙ delete-other _ key _ e
    ∙ delete-other _ key _ f

-- Neither time is left, since each key is deleted.
cleaned-no_end : (rec : Dict) → get "endTime" (cleaned rec) ≡ none
cleaned-no_end rec =
    delete-other "pvName" "endTime" _ refl
    ∙ delete-other "containerTime" "endTime" _ refl
    ∙ delete-other "boundTime" "endTime" _ refl
    ∙ delete-other "attachTime" "endTime" _ refl
    ∙ get-delete "endTime" "endTime" _

cleaned-no_start : (rec : Dict) → get "startTime" (cleaned rec) ≡ none
cleaned-no_start rec =
    delete-other "pvName" "startTime" _ refl
    ∙ delete-other "containerTime" "startTime" _ refl
    ∙ delete-other "boundTime" "startTime" _ refl
    ∙ delete-other "attachTime" "startTime" _ refl
    ∙ delete-other "endTime" "startTime" _ refl
    ∙ get-delete "startTime" "startTime" _

summary-Summarises :
    (rec : Dict) (h : IsFinished rec)
    → Summarises rec (summary rec (time_diff h.0.start.0 h.1.0) (convert_name h.0.resource.0))
unfolding summary
summary-Summarises rec h = record {
  start = h.0.start;
  end = h.1;
  duration =
      put-other "resource" "duration" _ _ refl
      ∙ get-cleaned "duration" _ refl refl refl refl refl refl
      ∙ get-put "duration" "duration" _ rec;
  resource = (h.0.resource.0, h.0.resource.1, get-put "resource" "resource" _ _);
  no_start = put-other "resource" "startTime" _ _ refl ∙ cleaned-no_start _;
  no_end = put-other "resource" "endTime" _ _ refl ∙ cleaned-no_end _;
}

timed : Dict → ℤ → Dict
timed rec d = cleaned (put "duration" (int d) rec)

calculate_delta-ok :
    (flags : ℕ) (rec : Dict) (h : IsFinished rec)
    → has_flag flags parse_pvc_pod ≡ false
    → calculate_delta flags rec ≡ ok (timed rec (time_diff h.0.start.0 h.1.0))
unfolding calculate_delta timed
calculate_delta-ok flags rec h off =
    rw (read-of_get "startTime" rec _ h.0.start.1, read-of_get "endTime" rec _ h.1.1, off) refl

format-timed :
    (rec : Dict) (d : ℤ) (r : String)
    → get "resource" rec ≡ some (text r)
    → format_resource_name (timed rec d) ≡ ok (summary rec d (convert_name r))
unfolding format_resource_name timed summary
format-timed rec d r e =
    let kept : get "resource" (timed rec d) ≡ some (text r) =
      get-cleaned "resource" (put "duration" (int d) rec) refl refl refl refl refl refl
      ∙ put-other "duration" "resource" (int d) rec refl
      ∙ e in
    rw (read-of_get "resource" (timed rec d) _ kept) refl

-- Two loops, of which the second one is over the results of the first one.
for_records-twice :
    (f g : Dict → Outcome Dict) (R : Dict → Dict → Type 0) (xs : List Dict)
    → All (λ x. (y z : Dict) × (f x ≡ ok y) × (g y ≡ ok z) × R x z) xs
    → (ys zs : List Dict) × (for_records f xs ≡ ok ys)
      × (for_records g ys ≡ ok zs)
      × Related R xs zs
unfolding for_records
for_records-twice f g R [] h = ([], [], refl, refl, tt)
for_records-twice f g R (x ∷ xs) ((y, z, fx, gy, r), h) =
    let (ys, zs, fs, gs, rs) = for_records-twice f g R xs h in
    (y ∷ ys, z ∷ zs, rw (fx, fs) refl, rw (gy, gs) refl, (r, rs))

each-Summarises :
    (flags : ℕ) (results : List Dict)
    → has_flag flags parse_pvc_pod ≡ false
    → All IsFinished results
    → All
        (λ x.
          (y z : Dict) × (calculate_delta flags x ≡ ok y)
          × (format_resource_name y ≡ ok z)
          × Summarises x z)
        results
each-Summarises flags [] off h = tt
each-Summarises flags (rec ∷ results) off (h, hs) = (
  (
    timed rec _,
    summary rec _ _,
    calculate_delta-ok flags rec h off,
    format-timed rec _ h.0.resource.0 h.0.resource.1,
    summary-Summarises rec h,
  ),
  each-Summarises flags results off hs,
)

no_actions-IsFinished :
    (dec : Decoders) (lines : List String) (flags : ℕ) {st : Parsing}
    → parse_lines dec flags lines no_actions ≡ ok st
    → All IsFinished st.results
no_actions-IsFinished dec lines flags e =
    ((Yields-ok _ (parse_lines-Moves dec flags lines no_actions) e).sound (tt, tt)).1

-- Where the flags are not 0 and the one for pods and claims is off, and the loop over the
-- lines returns, ParseLogs returns one record for each finished action, in order: its duration
-- is the difference of the end and the start time of the action, its resource is the converted
-- name, and both times are gone. No type assertion in the loops over the results panics.
pub parse_logs-total :
    (dec : Decoders) (lines : List String) (flags : ℕ) (st : Parsing)
    → (flags == 0) ≡ false
    → has_flag flags parse_pvc_pod ≡ false
    → parse_lines dec flags lines no_actions ≡ ok st
    → (sums : List Dict) × (parse_logs dec lines flags ≡ ok sums)
      × Related Summarises st.results sums
unfolding parse_logs calculate_deltas format_resource_names
parse_logs-total dec lines flags st some_flag off e =
    let finished = no_actions-IsFinished dec lines flags e in
    let (ys, zs, fs, gs, rs) =
      for_records-twice (calculate_delta flags) format_resource_name Summarises st.results
        (each-Summarises flags st.results off finished) in
    (zs, rw (some_flag, e, off, fs) gs, rs)
