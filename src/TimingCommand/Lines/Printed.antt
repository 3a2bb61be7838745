-- ===== src/TimingCommand/Lines/Printed.antt =====
-- util/analysis/objecttiming/parselogs.go: printing the results line by line.
use cnsbench.Prelude.{
  ℕ, ◌≤◌, String, List, [], ◌∷◌, ◌++◌, append_assoc, append-nil, length, All, ◌≡◌, refl, sym, ap,
  ◌∙◌, subst, arith,
}
use cnsbench.Exec.{Outcome, ok}
use cnsbench.Exec.Results.{Yields, Yields-mono, Yields-both}
use cnsbench.Exec.Alike.{
  Alike, alike, both_err, both_fault, Alike->>=, Alike-after, Alike-join, Alike-right,
}
use cnsbench.ObjectTiming.Types.{Dict, read, Decoders}
use cnsbench.ObjectTiming.Parse.{Parsing}
use cnsbench.ObjectTiming.Parse.Sound.{IsRunning, IsFinished, IsSound}
use cnsbench.TimingCommand.Tail.{Bytes, text_of, ignored, call_all}
use cnsbench.TimingCommand.Lines.{read_line, Following, output_finished_actions, take_line}
use cnsbench.TimingCommand.Lines.Framed.{preceded, Behind, read_line-Behind}
use cnsbench.TimingCommand.Lines.Finished.{read_line-Moves}
use cnsbench.TimingCommand.Lines.Removed.{
  shown, repeated, encode_all, output_finished_actions-one, output_finished_actions-none,
}

-- The same state without results.
abbrev pub cleared : Parsing → Parsing
cleared st = record st { results = [] }

module _ (encoded : Dict → String) (namespaces : List String) where
  -- What is printed for a list of finished actions.
  abbrev pub lines_for : (recs : List Dict) → All IsFinished recs → List String
  lines_for [] h = []
  lines_for (rec ∷ recs) (h, hs) =
      repeated namespaces (read "namespace" rec) (encoded (shown rec h)) ++ lines_for recs hs

  lines_for-append :
      (xs ys : List Dict) (h : All IsFinished xs) (k : All IsFinished ys)
      → (hk : All IsFinished (xs ++ ys)) × (lines_for (xs ++ ys) hk
          ≡ lines_for xs h ++ lines_for ys k)
  lines_for-append [] ys h k = (k, refl)
  lines_for-append (rec ∷ xs) ys (h, hs) k =
      let line = repeated namespaces (read "namespace" rec) (encoded (shown rec h)) in
      let (hk, e) = lines_for-append xs ys hs k in
      ((h, hk), ap (λ l. line ++ l) e ∙ sym (append_assoc line (lines_for xs hs) (lines_for ys k)))

module _ (dec : Decoders) (flags : ℕ) where
  -- The lines are read, and their results collected.
  abbrev pub collect : List Bytes → Parsing → Outcome Parsing
  collect = call_all (read_line dec flags)

  ignored-preceded :
      (rs : List Dict) (st : Parsing) (m n : Outcome Parsing)
      → Alike (Behind rs 1 st) m n
      → Alike (λ p q. p ≡ preceded rs q) (ignored (preceded rs st) m) (ignored st n)
  ignored-preceded rs st _ _ (alike h) = alike h.0
  ignored-preceded rs st _ _ both_err = alike refl
  ignored-preceded rs st _ _ both_fault = both_fault

  -- Earlier results do not change what is collected.
  collect-preceded :
      (lines : List Bytes) (rs : List Dict) (st : Parsing)
      → Alike (λ p q. p ≡ preceded rs q) (collect lines (preceded rs st)) (collect lines st)
  unfolding call_all
  collect-preceded [] rs st = alike refl
  collect-preceded (line ∷ lines) rs st =
      Alike->>= (ignored (preceded rs st) (read_line dec flags (text_of line) (preceded rs st)))
        (ignored st (read_line dec flags (text_of line) st)) _ _
        (ignored-preceded rs st _ _ (read_line-Behind dec flags (text_of line) rs st))
        λ p q e.
          subst (λ b. Alike (λ p q. p ≡ preceded rs q) (collect lines b) (collect lines q)) (sym e)
            (collect-preceded lines rs q)

  module _ (encoded : Dict → String) (namespaces : List String) where
    -- The collected results against what was printed, after the lines `before`.
    abbrev pub PrintedAs : List String → Parsing → Following → Type 0
    PrintedAs before p f =
        All IsRunning p.ongoing
        × (h : All IsFinished p.results) × (f ≡ record {
          parsing = cleared p;
          printed = before ++ lines_for encoded namespaces p.results h;
        })

    -- What one line does, if it can be read.
    abbrev OneLine : Parsing → Type 0
    OneLine p = IsSound p × (length p.results ≤ 1)

    read_line-OneLine :
        (line : String) (st : Parsing)
        → All IsRunning st.ongoing
        → Yields OneLine (read_line dec flags line (cleared st))
    read_line-OneLine line st running =
        Yields-mono (read_line dec flags line (cleared st))
          (Yields-both (read_line dec flags line (cleared st))
            (read_line-Moves dec flags line (cleared st))
            (Alike-right (read_line-Behind dec flags line [] (cleared st))))
          λ p (moves, (_, (_, adds))).
            (moves.sound (running, tt), omega (arith, ap length adds.grown, adds.few))

    -- The state in which the results are printed, with other results.
    abbrev to_print : List String → Parsing → List Dict → Following
    to_print before p recs = record { parsing = record p { results = recs }; printed = before }

    output-PrintedAs :
        (before : List String) (p : Parsing) (recs : List Dict)
        → OneLine (record p { results = recs })
        → (f : Following) × (output_finished_actions
              (encode_all encoded)
              flags
              namespaces
              (to_print before p recs)
            ≡ ok f)
          × PrintedAs before (record p { results = recs }) f
    output-PrintedAs before p [] (sound, few) = (
      to_print before p [],
      output_finished_actions-none (encode_all encoded) flags namespaces (to_print before p []),
      (sound.0, tt, ap (λ l. to_print l p []) (sym (append-nil before))),
    )
    output-PrintedAs before p (rec ∷ []) (sound, few) = (
      _,
      output_finished_actions-one rec sound.1.0 encoded flags namespaces (to_print before p []),
      (sound.0, (sound.1.0, tt), ap (λ l. to_print (before ++ l) p []) (sym (append-nil _))),
    )
    output-PrintedAs before p (rec ∷ other ∷ recs) (sound, few) = absurd (omega (arith, few))

    -- The line may also be refused, and then nothing has changed.
    take_line-PrintedAs :
        (line : Bytes) (before : List String) (st : Parsing)
        → All IsRunning st.ongoing
        → Alike
            (PrintedAs before)
            (ignored (cleared st) (read_line dec flags (text_of line) (cleared st)))
            (ignored (to_print before st []) (
              take_line
                (encode_all encoded)
                flags
                namespaces
                dec
                (text_of line)
                (to_print before st [])))
    unfolding take_line
    take_line-PrintedAs line before st running = go _ _ (
        Alike-after (read_line dec flags (text_of line) (cleared st)) _
          (read_line-OneLine (text_of line) st running)
          λ p one. output-PrintedAs before p p.results one)
      where
        go :
            (m : Outcome Parsing) (n : Outcome Following)
            → Alike (PrintedAs before) m n
            → Alike (PrintedAs before) (ignored (cleared st) m) (ignored (to_print before st []) n)
        go _ _ (alike h) = alike h
        go _ _ both_err =
            alike {a = cleared st}
              (running, tt, ap (λ l. to_print l st []) (sym (append-nil before)))
        go _ _ both_fault = both_fault

    PrintedAs-preceded :
        (before : List String) (p q : Parsing) (f : Following) (recs : List Dict)
        (h : All IsFinished recs)
        → p ≡ preceded recs q
        → PrintedAs (before ++ lines_for encoded namespaces recs h) q f
        → PrintedAs before p f
    PrintedAs-preceded before p q f recs h e (running, k, same) =
        let (hk, lines) = lines_for-append encoded namespaces recs q.results h k in
        subst (λ b. PrintedAs before b f) (sym e)
          (
            running,
            hk,
            same
                ∙ ap (λ l. to_print l q [])
                    (append_assoc before (lines_for encoded namespaces recs h)
                        (lines_for encoded namespaces q.results k)
                      ∙ ap (λ l. before ++ l) (sym lines)),
          )

    abbrev print_lines : List Bytes → Following → Outcome Following
    print_lines = call_all (take_line (encode_all encoded) flags namespaces dec)

    -- The results of one line are printed before those of the later lines.
    after_line :
        (lines : List Bytes) (before : List String) (p : Parsing) (f : Following)
        (h : All IsFinished p.results)
        → f ≡ to_print (before ++ lines_for encoded namespaces p.results h) p []
        → Alike
            (PrintedAs (before ++ lines_for encoded namespaces p.results h))
            (collect lines (cleared p))
            (print_lines lines (to_print (before ++ lines_for encoded namespaces p.results h) p []))
        → Alike (PrintedAs before) (collect lines p) (print_lines lines f)
    after_line lines before p f h same later =
        let whole : preceded p.results (cleared p) ≡ p =
          ap (λ recs. record p { results = recs }) (append-nil p.results) in
        subst (λ g. Alike (PrintedAs before) (collect lines p) (print_lines lines g)) (sym same)
          (Alike-join (collect lines (cleared p))
            (subst
              (λ a.
                Alike (λ b c. b ≡ preceded p.results c) (collect lines a)
                  (collect lines (cleared p)))
              whole (collect-preceded lines p.results (cleared p)))
            later λ a b c e shows. PrintedAs-preceded before a b c p.results h e shows)

    pub take_lines-PrintedAs :
        (lines : List Bytes) (before : List String) (st : Parsing)
        → All IsRunning st.ongoing
        → Alike (PrintedAs before) (collect lines (cleared st)) (
            call_all
              (take_line (encode_all encoded) flags namespaces dec)
              lines
              (to_print before st []))
    unfolding call_all
    take_lines-PrintedAs [] before st running =
        alike {a = cleared st} (running, tt, ap (λ l. to_print l st []) (sym (append-nil before)))
    take_lines-PrintedAs (line ∷ lines) before st running =
        Alike->>= (ignored (cleared st) (read_line dec flags (text_of line) (cleared st)))
          (ignored (to_print before st []) (
            take_line (encode_all encoded) flags namespaces dec (text_of line)
              (to_print before st [])))
          _ _ (take_line-PrintedAs line before st running)
          λ p f (runs, h, same).
            after_line lines before p f h same (
              take_lines-PrintedAs lines (before ++ lines_for encoded namespaces p.results h) p
                runs)
