-- ===== src/TimingCommand/Lines/Removed.antt =====
-- util/analysis/objecttiming/parselogs.go: what outputFinishedActions does with one result.
use cnsbench.Prelude.{
  ℕ, ℤ, String, Bool, true, false, Option, none, some, List, [], ◌∷◌, ◌++◌, get, put, delete,
  get-put, put-put, ◌==◌, ◌&&◌, nat_eq, string_eq, by_else, ◌≡◌, refl, sym, ap, ◌∙◌, append_assoc,
  append-nil, arith, if◌then◌else◌,
}
use cnsbench.Exec.{Outcome, ok}
use cnsbench.Exec.Results.{◌>>=◌}
use cnsbench.ObjectTiming.Types.{Value, null, Dict, text, int, read, is_text}
use cnsbench.ObjectTiming.Records.{time_diff, convert_name, format_resource_name}
use cnsbench.ObjectTiming.Parse.{has_flag, parse_pvc_pod}
use cnsbench.ObjectTiming.Parse.Sound.{IsFinished, put-other, delete-other, read-of_get}
use cnsbench.TimingCommand.Lines.{
  set_duration, set_durations, print_matching, print_result, print_results, Following, output_json,
  output_finished_actions, cut,
}

-- What is printed of a finished action: its record with the duration and the formatted resource.
abbrev lasting : Dict → ℤ → Dict
lasting rec d = delete "endTime" (delete "startTime" (put "duration" (int d) rec))

abbrev pub shown : (rec : Dict) → IsFinished rec → Dict
shown rec h =
    put "resource" (text (convert_name h.0.resource.0)) (lasting rec (time_diff h.0.start.0 h.1.0))

-- One line for each of the namespaces that is the record's.
abbrev pub repeated : List String → Value → String → List String
repeated [] v line = []
repeated (ns ∷ rest) v line =
    if is_text v ns then line ∷ repeated rest v line else repeated rest v line

abbrev Stable : String → Type 0
Stable r = convert_name r ≡ r

convert_name_twice : (r : String) → convert_name (convert_name r) ≡ convert_name r
unfolding convert_name
convert_name_twice r = by_else Stable (r == "deployments") _ _ refl λ a.
    by_else Stable (r == "jobs") _ _ refl λ b.
      by_else Stable (r == "persistentvolumeclaims") _ _ refl λ c.
        by_else Stable (r == "persistentvolumes") _ _ refl λ d.
          by_else Stable (r == "pods") _ _ refl λ e.
            by_else Stable (r == "replicasets") _ _ refl
              λ f. by_else Stable (r == "statefulsets") _ _ refl λ g. rw (a, b, c, d, e, f, g) refl

and_false : (b : Bool) → (b && false) ≡ false
and_false b = ground arith

set_duration-ok :
    (flags : ℕ) (rec : Dict) (h : IsFinished rec)
    → set_duration flags rec ≡ ok (lasting rec (time_diff h.0.start.0 h.1.0))
unfolding set_duration
set_duration-ok flags rec h =
    rw
      (
        read-of_get "startTime" rec _ h.0.start.1,
        read-of_get "endTime" rec _ h.1.1,
        read-of_get "resource" rec _ h.0.resource.1,
        h.0.plural,
        and_false (has_flag flags parse_pvc_pod),
      )
      refl

both_branches :
    (b : Bool) (x y : Outcome (List String)) (before a c : List String)
    → x ≡ ok (before ++ a)
    → y ≡ ok (before ++ c)
    → (if b then x else y) ≡ ok (before ++ (if b then a else c))
both_branches true x y before a c hx hy = hx
both_branches false x y before a c hx hy = hy

module _ (encoded : Dict → String) where
  -- No record fails to encode.
  abbrev pub encode_all : Dict → Option String
  encode_all rec = some (encoded rec)

  after_format : List String → List String → Dict → Outcome (List String)
  after_format rest printed rec = print_matching encode_all rest rec (printed ++ encoded rec ∷ [])

  print_formatted :
      (f : Dict)
      → format_resource_name f ≡ ok f
      → (rest printed : List String)
      → print_matching encode_all rest f printed
        ≡ ok (printed ++ repeated rest (read "namespace" f) (encoded f))
  unfolding print_matching output_json after_format
  print_formatted f same [] printed = ap ok (sym (append-nil printed))
  print_formatted f same (ns ∷ rest) printed =
      both_branches (is_text (read "namespace" f) ns) _ _ printed _ _
        (ap (λ o. o >>= after_format rest printed) same
          ∙ print_formatted f same rest (printed ++ encoded f ∷ [])
          ∙ ap ok (append_assoc printed (encoded f ∷ []) _))
        (print_formatted f same rest printed)

  print_matching-ok :
      (rec f : Dict)
      → format_resource_name rec ≡ ok f
      → format_resource_name f ≡ ok f
      → read "namespace" f ≡ read "namespace" rec
      → (rest printed : List String)
      → print_matching encode_all rest rec printed
        ≡ ok (printed ++ repeated rest (read "namespace" rec) (encoded f))
  unfolding print_matching output_json after_format
  print_matching-ok rec f first same at [] printed = ap ok (sym (append-nil printed))
  print_matching-ok rec f first same at (ns ∷ rest) printed =
      both_branches (is_text (read "namespace" rec) ns) _ _ printed _ _
        (ap (λ o. o >>= after_format rest printed) first
          ∙ print_formatted f same rest (printed ++ encoded f ∷ [])
          ∙ ap ok (append_assoc printed (encoded f ∷ []) _)
          ∙ ap (λ v. ok (printed ++ encoded f ∷ repeated rest v (encoded f))) at)
        (print_matching-ok rec f first same at rest printed)

format_resource_name-ok :
    (rec : Dict) (r : String)
    → get "resource" rec ≡ some (text r)
    → format_resource_name rec ≡ ok (put "resource" (text (convert_name r)) rec)
unfolding format_resource_name
format_resource_name-ok rec r e = rw (read-of_get "resource" rec _ e) refl

lasting-other :
    (key : String) (rec : Dict) (d : ℤ)
    → ("endTime" == key) ≡ false
    → ("startTime" == key) ≡ false
    → ("duration" == key) ≡ false
    → get key (lasting rec d) ≡ get key rec
lasting-other key rec d a b c =
    delete-other "endTime" key _ a
    ∙ delete-other "startTime" key _ b
    ∙ put-other "duration" key (int d) rec c

read-cong : (key : String) (r s : Dict) → get key r ≡ get key s → read key r ≡ read key s
unfolding read
read-cong key r s e = ap (λ o. elim o [ none ↦ null | some v ↦ v ]) e

print_results-one :
    (encode : Dict → Option String) (namespaces printed after : List String) (rec : Dict)
    (v : Value)
    → get "duration" rec ≡ some v
    → print_matching encode namespaces rec printed ≡ ok after
    → print_results encode namespaces 1 0 (record { cells = rec ∷ []; left = 1; printed = printed })
      ≡ ok (record { cells = rec ∷ []; left = 0; printed = after })
unfolding print_results print_result cut
print_results-one encode namespaces printed after rec v e p = rw (e, p) refl

module _ (rec : Dict) (h : IsFinished rec) where
  abbrev lasted : Dict
  lasted = lasting rec (time_diff h.0.start.0 h.1.0)

  print_shown :
      (encoded : Dict → String) (namespaces printed : List String)
      → print_matching (encode_all encoded) namespaces lasted printed
        ≡ ok (printed ++ repeated namespaces (read "namespace" rec) (encoded (shown rec h)))
  print_shown encoded namespaces printed =
      let r = h.0.resource.0 in
      let resource : get "resource" lasted ≡ some (text r) =
        lasting-other "resource" rec _ refl refl refl ∙ h.0.resource.1 in
      let again : format_resource_name (shown rec h) ≡ ok (shown rec h) =
        format_resource_name-ok (shown rec h) (convert_name r)
          (get-put "resource" "resource" (text (convert_name r)) lasted)
        ∙ ap ok (
            put-put "resource" (text (convert_name (convert_name r))) (text (convert_name r))
              lasted)
        ∙ ap (λ n. ok (put "resource" (text n) lasted)) (convert_name_twice r) in
      let lasted_at : read "namespace" lasted ≡ read "namespace" rec =
        read-cong "namespace" lasted rec (lasting-other "namespace" rec _ refl refl refl) in
      let shown_at : read "namespace" (shown rec h) ≡ read "namespace" lasted =
        read-cong "namespace" (shown rec h) lasted
          (put-other "resource" "namespace" (text (convert_name r)) lasted refl) in
      print_matching-ok encoded lasted (shown rec h) (format_resource_name-ok lasted r resource)
        again shown_at namespaces printed
      ∙ ap (λ v. ok (printed ++ repeated namespaces v (encoded (shown rec h)))) lasted_at

  -- A finished action is removed from the results, and printed for its namespace.
  pub output_finished_actions-one :
      (encoded : Dict → String) (flags : ℕ) (namespaces : List String) (st : Following)
      → output_finished_actions
          (encode_all encoded)
          flags
          namespaces
          (record { parsing = record st.parsing { results = rec ∷ [] }; printed = st.printed })
        ≡ ok (record {
          parsing = record st.parsing { results = [] };
          printed =
              st.printed ++ repeated namespaces (read "namespace" rec) (encoded (shown rec h));
        })
  unfolding output_finished_actions set_durations
  output_finished_actions-one encoded flags namespaces st =
      let duration : get "duration" lasted ≡ some (int (time_diff h.0.start.0 h.1.0)) =
        delete-other "endTime" "duration" _ refl
        ∙ delete-other "startTime" "duration" _ refl
        ∙ get-put "duration" "duration" _ rec in
      rw
        (
          set_duration-ok flags rec h,
          print_results-one (encode_all encoded) namespaces st.printed _ lasted _ duration
              (print_shown encoded namespaces st.printed),
        )
        refl

pub output_finished_actions-none :
    (encode : Dict → Option String) (flags : ℕ) (namespaces : List String) (st : Following)
    → output_finished_actions encode flags namespaces
        (record { parsing = record st.parsing { results = [] }; printed = st.printed })
      ≡ ok (record { parsing = record st.parsing { results = [] }; printed = st.printed })
unfolding output_finished_actions set_durations print_results
output_finished_actions-none encode flags namespaces st = refl
