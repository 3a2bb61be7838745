-- ===== src/TimingCommand/Lines/Framed.antt =====
-- util/analysis/objecttiming/parselogs.go: a line adds at most one result, and does not look at
-- the results before it.
use cnsbench.Prelude.{
  ℕ, ◌≤◌, String, Bool, true, false, Option, none, some, List, [], ◌∷◌, ◌++◌, append_assoc,
  append-nil, length, erase_at, get_elem?, ◌≡◌, refl, sym, ap, ◌∙◌, subst, arith, ◌==◌, string_eq,
}
use cnsbench.Exec.{Outcome, ok, of_try}
use cnsbench.Exec.Alike.{Alike, alike, Alike->>=, Alike-then, Alike-if}
use cnsbench.ObjectTiming.Types.{Dict, AuditLog, Decoders, or_panic}
use cnsbench.ObjectTiming.Create.{is_create_start, is_create_end, get_create_start}
use cnsbench.ObjectTiming.Scale.{is_scale_start, is_scale_end, get_scale_start, get_scale_end_index}
use cnsbench.ObjectTiming.Store.{is_get_create_request, save_obj_info}
use cnsbench.ObjectTiming.Pods.{
  set_attach_time, set_container_time, is_attach_volume_event, is_container_creating_status,
}
use cnsbench.ObjectTiming.Parse.{
  Parsing, Taken, or_else, when_flag, with_volume, unfinished, set_end_time, end_action,
  end_if_found, force_end, begin_action, scale_action, pod_action, save_action,
}
use cnsbench.TimingCommand.Lines.{is_ongoing, begun_once, create_once, read_log, read_line}

-- The same state with more results in front.
abbrev pub preceded : List Dict → Parsing → Parsing
preceded rs st = record st { results = rs ++ st.results }

-- At most `n` results are new.
pub record Adds (n : ℕ) (old new : Parsing) : Type 0 where
  pub more : List Dict
  pub grown : new.results ≡ old.results ++ more
  pub few : length more ≤ n

abbrev pub Behind : List Dict → ℕ → Parsing → Parsing → Parsing → Type 0
Behind rs n old p q = (p ≡ preceded rs q) × Adds n old q

abbrev BehindIf : List Dict → ℕ → Parsing → Option Parsing → Option Parsing → Type 0
BehindIf rs n old none none = Unit
BehindIf rs n old none (some q) = ⊥
BehindIf rs n old (some p) none = ⊥
BehindIf rs n old (some p) (some q) = Behind rs n old p q

Adds-stay : (n : ℕ) (old new : Parsing) → new.results ≡ old.results → Adds n old new
Adds-stay n old new same = record {
  more = [];
  grown = same ∙ sym (append-nil old.results);
  few = omega arith;
}

-- Whatever is done to the ongoing records after that.
Adds-ongoing :
    (n : ℕ) {old new : Parsing} (all : List Dict)
    → Adds n old new
    → Adds n old (record new { ongoing = all })
Adds-ongoing n all h = record { more = h.more; grown = h.grown; few = h.few }

module _ (dec : Decoders) (log : AuditLog) (rs : List Dict) where
  end_action-Behind :
      (i : ℕ) (change : Dict → Dict) (st : Parsing)
      → Alike
          (Behind rs 1 st)
          (end_action dec log i change (preceded rs st))
          (end_action dec log i change st)
  unfolding end_action
  end_action-Behind i change st = Alike-then (or_panic (get_elem? st.ongoing i)) _ _ λ rec.
      Alike-then (set_end_time dec log rec) _ _ λ rec'. alike (
        ap (λ all. record st { ongoing = erase_at st.ongoing i; results = all })
            (append_assoc rs st.results (change rec' ∷ [])),
        record { more = change rec' ∷ []; grown = refl; few = omega arith },
      )

  end_if_found-Behind :
      (change : Dict → Dict) (st : Parsing) (found : Option ℕ)
      → Alike
          (BehindIf rs 1 st)
          (end_if_found dec log change (preceded rs st) found)
          (end_if_found dec log change st found)
  unfolding end_if_found
  end_if_found-Behind change st none = alike tt
  end_if_found-Behind change st (some i) =
      Alike->>= (end_action dec log i change (preceded rs st)) (end_action dec log i change st) _ _
        (end_action-Behind i change st) λ p q h. alike h

  begun_once-Behind :
      (st : Parsing) (rec : Dict) (dup : Bool)
      → Behind rs 1 st (begun_once (preceded rs st) rec dup) (begun_once st rec dup)
  begun_once-Behind st rec true = (refl, Adds-stay 1 st st refl)
  begun_once-Behind st rec false =
      (refl, Adds-ongoing 1 (st.ongoing ++ rec ∷ []) (Adds-stay 1 st st refl))

  create_once-Behind :
      (flags : ℕ) (st : Parsing)
      → Alike
          (BehindIf rs 1 st)
          (create_once dec flags log (preceded rs st))
          (create_once dec flags log st)
  unfolding create_once
  create_once-Behind flags st =
      Alike-if (is_create_start log) _ _ _ _
        (Alike-then (get_create_start dec log) _ _ λ rec.
          Alike-then (is_ongoing log.object_ref.name st.ongoing) _ _
            λ dup. alike (begun_once-Behind st rec dup))
        (Alike-then (is_create_end dec log st.ongoing) _ _
          λ found. end_if_found-Behind (with_volume log) st found)

  force_end-Behind :
      (st : Parsing)
      → Alike (Behind rs 1 st) (force_end dec log (preceded rs st)) (force_end dec log st)
  unfolding force_end
  force_end-Behind st = go (get_scale_end_index log st.ongoing)
    where
      go :
          (found : Option ℕ)
          → Alike
              (Behind rs 1 st)
              (elim found [
                | none ↦ ok (preceded rs st)
                | some i ↦ end_action dec log i unfinished (preceded rs st)
              ])
              (elim found [ none ↦ ok st | some i ↦ end_action dec log i unfinished st ])
      go none = alike (refl, Adds-stay 1 st st refl)
      go (some i) = end_action-Behind i unfinished st

  scale_action-Behind :
      (st : Parsing)
      → Alike (BehindIf rs 1 st) (scale_action dec log (preceded rs st)) (scale_action dec log st)
  unfolding scale_action
  scale_action-Behind st = Alike-then (is_scale_start log st.store st.ongoing) _ _ λ starts.
      Alike-if starts _ _ _ _
        (Alike->>= (force_end dec log (preceded rs st)) (force_end dec log st) _ _
          (force_end-Behind st)
          λ p q h.
            subst
              (λ b.
                Alike (BehindIf rs 1 st) (begin_action dec b (get_scale_start dec log b.store))
                  (begin_action dec q (get_scale_start dec log q.store)))
              (sym h.0)
              (Alike-then (get_scale_start dec log q.store) _ _
                λ rec. alike (refl, Adds-ongoing 1 (q.ongoing ++ rec ∷ []) h.1)))
        (Alike-then (is_scale_end dec log st.ongoing) _ _
          λ found. end_if_found-Behind (λ rec. rec) st found)

  pod_action-Behind :
      (st : Parsing)
      → Alike (BehindIf rs 1 st) (pod_action dec log (preceded rs st)) (pod_action dec log st)
  unfolding pod_action
  pod_action-Behind st =
      Alike-if (is_attach_volume_event log) _ _ _ _
        (Alike-then (set_attach_time dec log st.ongoing) _ _
          λ all. alike (refl, Adds-ongoing 1 all (Adds-stay 1 st st refl)))
        (Alike-then (is_container_creating_status dec log) _ _ λ creating.
          Alike-if creating _ _ _ _
            (Alike-then (set_container_time dec log st.ongoing) _ _
              λ all. alike (refl, Adds-ongoing 1 all (Adds-stay 1 st st refl)))
            (alike tt))

  save_action-Behind :
      (st : Parsing)
      → Alike (Behind rs 1 st) (save_action dec log (preceded rs st)) (save_action dec log st)
  unfolding save_action
  save_action-Behind st =
      Alike-if (is_get_create_request log) _ _ _ _
        (Alike-then (save_obj_info dec log st.store) _ _ λ store.
          alike
            (refl, record { more = []; grown = sym (append-nil st.results); few = omega arith }))
        (alike (refl, Adds-stay 1 st st refl))

  or_else-Behind :
      (st : Parsing) (t t' : Taken) (next next' : Outcome Parsing)
      → Alike (BehindIf rs 1 st) t t'
      → Alike (Behind rs 1 st) next next'
      → Alike (Behind rs 1 st) (or_else t next) (or_else t' next')
  or_else-Behind st t t' next next' h more = Alike->>= t t' _ _ h go
    where
      go :
          (o o' : Option Parsing)
          → BehindIf rs 1 st o o'
          → Alike
              (Behind rs 1 st)
              (elim o [ some p ↦ ok p | none ↦ next ])
              (elim o' [ some q ↦ ok q | none ↦ next' ])
      go none none h = more
      go none (some q) h = absurd h
      go (some p) none h = absurd h
      go (some p) (some q) h = alike h

  when_flag-Behind :
      (st : Parsing) (b : Bool) (t t' : Taken)
      → Alike (BehindIf rs 1 st) t t'
      → Alike (BehindIf rs 1 st) (when_flag dec b t) (when_flag dec b t')
  when_flag-Behind st b t t' h = Alike-if b _ _ _ _ h (alike tt)

  read_log-Behind :
      (flags : ℕ) (st : Parsing)
      → Alike (Behind rs 1 st) (read_log dec flags log (preceded rs st)) (read_log dec flags log st)
  unfolding read_log
  read_log-Behind flags st =
      Alike-if (log.stage == "ResponseComplete") _ _ _ _
        (or_else-Behind st _ _ _ _ (when_flag-Behind st _ _ _ (create_once-Behind flags st)) (
          or_else-Behind st _ _ _ _ (when_flag-Behind st _ _ _ (scale_action-Behind st)) (
            or_else-Behind st _ _ _ _ (when_flag-Behind st _ _ _ (pod_action-Behind st))
              (save_action-Behind st))))
        (alike (refl, Adds-stay 1 st st refl))

pub read_line-Behind :
    (dec : Decoders) (flags : ℕ) (line : String) (rs : List Dict) (st : Parsing)
    → Alike
        (Behind rs 1 st)
        (read_line dec flags line (preceded rs st))
        (read_line dec flags line st)
unfolding read_line
read_line-Behind dec flags line rs st =
    Alike-then (of_try (dec.audit_log line)) _ _ λ log. read_log-Behind dec log rs flags st
