-- ===== src/TimingCommand/Lines/Returned.antt =====
-- util/analysis/objecttiming/parselogs.go: with the flag for creations alone every line is taken.
use cnsbench.Prelude.{
  ℕ, String, Bool, true, false, Option, none, some, List, [], ◌∷◌, get, get_elem?, All, All-append,
  All-erase_at, ◌==◌, string_eq, ◌≡◌, refl, ap, ◌∙◌, by_if, by_then, by_option,
}
use cnsbench.Exec.{Outcome, ok, Try, returned, failed, of_try}
use cnsbench.Exec.Results.{◌>>=◌}
use cnsbench.Api.{Time}
use cnsbench.ObjectTiming.Types.{null, Dict, read, as_text, AuditLog, Decoders, or_panic}
use cnsbench.ObjectTiming.Criteria.{create_end_crit}
use cnsbench.ObjectTiming.Records.{
  initialize_record, get_identification, get_end_index, get_generic_start, get_start_time,
  get_end_time, parse_str_time,
}
use cnsbench.ObjectTiming.Records.Latest.{find_log_iff}
use cnsbench.ObjectTiming.Store.{is_get_create_request, save_obj_info}
use cnsbench.ObjectTiming.Create.{
  is_create_start, get_create_start, get_create_end_index, is_match, end_in_phase, may_end_create,
  is_create_end,
}
use cnsbench.ObjectTiming.Parse.{
  Parsing, parse_create, with_volume, set_end_time, end_action, end_if_found, save_action,
}
use cnsbench.ObjectTiming.Parse.Sound.{HasText}
use cnsbench.TimingCommand.Lines.{is_ongoing, begun_once, create_once, read_log, read_line}
use cnsbench.TimingCommand.Tail.{Bytes, text_of, ignored, call_all}

-- A call that returns, with a result that has the property.
abbrev pub Returns : {A : Type 0} → (A → Type 0) → Outcome A → Type 0
Returns {A} P m = (a : A) × (m ≡ ok a) × P a

Returns->>= :
    {A B : Type 0} {P : A → Type 0} {Q : B → Type 0} (m : Outcome A) (f : A → Outcome B)
    → Returns P m
    → ((a : A) → P a → Returns Q (f a))
    → Returns Q (m >>= f)
Returns->>= m f (a, e, p) next = let (b, e', q) = next a p in (b, ap (λ o. o >>= f) e ∙ e', q)

-- The times of an entry of the log can be parsed, and the status that is looked at, if the entry
-- may end a creation, has a phase.
pub record IsReadable (dec : Decoders) (log : AuditLog) : Type 0 where
  pub received : (t : Time) × (dec.parse_time log.request_received_timestamp ≡ some t)
  pub ended : (t : Time) × (dec.parse_time log.stage_timestamp ≡ some t)
  pub phase :
      (phases : List String) (status : String)
      → may_end_create log ≡ true
      → create_end_crit log.object_ref.resource ≡ some phases
      → log.response_object.status ≡ some status
      → (p : String) × (dec.create_phase status ≡ some p)

-- Nothing is asked of a line that is not json.
abbrev IsReadableIf : Decoders → Try AuditLog → Type 0
IsReadableIf dec (failed e) = Unit
IsReadableIf dec (returned log) = IsReadable dec log

abbrev pub IsReadableLine : Decoders → Bytes → Type 0
IsReadableLine dec line = IsReadableIf dec (dec.audit_log (text_of line))

-- Every ongoing record has a name.
abbrev pub Named : Parsing → Type 0
Named st = All (HasText "name") st.ongoing

abbrev NamedIf : Option Parsing → Type 0
NamedIf none = Unit
NamedIf (some st) = Named st

-- The index that is found is one of the slice.
abbrev InRange : List Dict → Option ℕ → Type 0
InRange all found = (i : ℕ) → found ≡ some i → (rec : Dict) × (get_elem? all i ≡ some rec)

is_ongoing-Returns :
    (name : String) (ongoing : List Dict)
    → All (HasText "name") ongoing
    → Returns (λ _. Unit {0}) (is_ongoing name ongoing)
unfolding is_ongoing read
is_ongoing-Returns name [] h = (false, refl, tt)
is_ongoing-Returns name (o ∷ ongoing) (h, hs) =
    Returns->>= {P = λ _. Unit {0}} (as_text (read "name" o)) _
      (h.0, ap (λ v. as_text (elim v [ none ↦ null | some v ↦ v ])) h.1, tt)
      λ other _.
        by_if (Returns (λ _. Unit {0})) (other == name) _ _ (true, refl, tt)
          (is_ongoing-Returns name ongoing hs)

parse_str_time-Returns :
    (dec : Decoders) (s : String)
    → (t : Time) × (dec.parse_time s ≡ some t)
    → Returns (λ _. Unit {0}) (parse_str_time dec s)
unfolding parse_str_time
parse_str_time-Returns dec s (t, e) = (t, ap or_panic e, tt)

module _ (dec : Decoders) (log : AuditLog) (readable : IsReadable dec log) where
  get_create_start-Returns : Returns (HasText "name") (get_create_start dec log)
  unfolding get_create_start get_generic_start get_start_time initialize_record get
  get_create_start-Returns =
      Returns->>= {P = λ _. Unit {0}} (parse_str_time dec log.request_received_timestamp) _
        (parse_str_time-Returns dec _ readable.received) λ t _. (_, refl, (_, refl))

  in_range : (all : List Dict) → InRange all (get_create_end_index log all)
  unfolding get_create_end_index get_end_index
  in_range all i e =
      let (name, resource, namespace) = get_identification log in
      let latest = (find_log_iff "create" name resource namespace all i).0 e in
      (latest.found.0, latest.found.1)

  is_create_end-Returns : (all : List Dict) → Returns (InRange all) (is_create_end dec log all)
  unfolding is_create_end end_in_phase
  is_create_end-Returns all =
      let nowhere : Returns (InRange all) (ok none) = (none, refl, λ i e. cc) in
      by_then (Returns (InRange all)) (may_end_create log) _ _
        (λ may.
          by_option (Returns (InRange all)) (create_end_crit log.object_ref.resource) _ _ nowhere
            λ phases ends.
              by_option (Returns (InRange all)) log.response_object.status _ _ nowhere λ status is.
                let (p, e) = readable.phase phases status may ends is in
                Returns->>= {P = λ _. Unit {0}} (or_panic (dec.create_phase status)) _
                  (p, ap or_panic e, tt)
                  λ phase _. (
                    _,
                    refl,
                    by_if (InRange all) (is_match phase phases) _ _ (in_range all) (λ i e. cc),
                  ))
        nowhere

  set_end_time-Returns : (rec : Dict) → Returns (λ _. Unit {0}) (set_end_time dec log rec)
  unfolding set_end_time get_end_time
  set_end_time-Returns rec =
      Returns->>= {P = λ _. Unit {0}} (parse_str_time dec log.stage_timestamp) _
        (parse_str_time-Returns dec _ readable.ended) λ end _. (_, refl, tt)

  end_action-Returns :
      (i : ℕ) (st : Parsing) (rec : Dict)
      → Named st
      → get_elem? st.ongoing i ≡ some rec
      → Returns Named (end_action dec log i (with_volume log) st)
  unfolding end_action
  end_action-Returns i st rec named e =
      Returns->>= {P = λ _. Unit {0}} (or_panic (get_elem? st.ongoing i)) _ (rec, ap or_panic e, tt)
        λ found _.
          Returns->>= {P = λ _. Unit {0}} (set_end_time dec log found) _
            (set_end_time-Returns found)
            λ ended _. (_, refl, All-erase_at (HasText "name") st.ongoing i named)

  end_if_found-Returns :
      (st : Parsing) (found : Option ℕ)
      → Named st
      → InRange st.ongoing found
      → Returns NamedIf (end_if_found dec log (with_volume log) st found)
  unfolding end_if_found
  end_if_found-Returns st none named found_in = (none, refl, tt)
  end_if_found-Returns st (some i) named found_in =
      let (rec, e) = found_in i refl in
      Returns->>= {P = Named} (end_action dec log i (with_volume log) st) _
        (end_action-Returns i st rec named e) λ st' named'. (some st', refl, named')

  begun_once-Named :
      (st : Parsing) (rec : Dict) (dup : Bool)
      → Named st
      → HasText "name" rec
      → Named (begun_once st rec dup)
  begun_once-Named st rec true named name = named
  begun_once-Named st rec false named name =
      All-append (HasText "name") st.ongoing (rec ∷ []) named (name, tt)

  create_once-Returns :
      (st : Parsing) → Named st → Returns NamedIf (create_once dec parse_create log st)
  unfolding create_once
  create_once-Returns st named =
      by_if (Returns NamedIf) (is_create_start log) _ _
        (Returns->>= {P = HasText "name"} (get_create_start dec log) _ get_create_start-Returns
          λ rec name.
            Returns->>= {P = λ _. Unit {0}} (is_ongoing log.object_ref.name st.ongoing) _
              (is_ongoing-Returns log.object_ref.name st.ongoing named)
              λ dup _. (some (begun_once st rec dup), refl, begun_once-Named st rec dup named name))
        (Returns->>= {P = InRange st.ongoing} (is_create_end dec log st.ongoing) _
          (is_create_end-Returns st.ongoing)
          λ found found_in. end_if_found-Returns st found named found_in)

  save_action-Returns : (st : Parsing) → Named st → Returns Named (save_action dec log st)
  unfolding save_action save_obj_info
  save_action-Returns st named =
      by_if (Returns Named) (is_get_create_request log) _ _
        (Returns->>= {P = λ _. Unit {0}} (save_obj_info dec log st.store) _
          (by_if (Returns (λ _. Unit {0})) _ _ _
            (Returns->>= {P = λ _. Unit {0}} (parse_str_time dec log.request_received_timestamp) _
              (parse_str_time-Returns dec _ readable.received) λ t _. (_, refl, tt))
            (st.store, refl, tt))
          λ store _. (_, refl, named))
        (st, refl, named)

  read_log-Returns : (st : Parsing) → Named st → Returns Named (read_log dec parse_create log st)
  unfolding read_log
  read_log-Returns st named =
      by_if (Returns Named) (log.stage == "ResponseComplete") _ _
        (Returns->>= {P = NamedIf} (create_once dec parse_create log st) _
          (create_once-Returns st named) taken_or_saved)
        (st, refl, named)
    where
      taken_or_saved :
          (o : Option Parsing)
          → NamedIf o
          → Returns Named (elim o [ some st' ↦ ok st' | none ↦ save_action dec log st ])
      taken_or_saved none h = save_action-Returns st named
      taken_or_saved (some st') h = (st', refl, h)

module _ (dec : Decoders) where
  -- A line that is not json is left out.
  read_line-Returns :
      (line : String) (st : Parsing)
      → IsReadableIf dec (dec.audit_log line)
      → Named st
      → Returns Named (ignored st (read_line dec parse_create line st))
  unfolding read_line
  read_line-Returns line st readable named = go (dec.audit_log line) readable
    where
      go :
          (t : Try AuditLog)
          → IsReadableIf dec t
          → Returns Named (ignored st (of_try t >>= λ log. read_log dec parse_create log st))
      go (failed e) readable = (st, refl, named)
      go (returned log) readable =
          let (st', e, named') = read_log-Returns dec log readable st named in
          (st', ap (ignored st) e, named')

  pub collect-Returns :
      (lines : List Bytes) (st : Parsing)
      → All (IsReadableLine dec) lines
      → Named st
      → Returns Named (call_all (read_line dec parse_create) lines st)
  unfolding call_all
  collect-Returns [] st readable named = (st, refl, named)
  collect-Returns (line ∷ lines) st (readable, more) named =
      Returns->>= {P = Named} (ignored st (read_line dec parse_create (text_of line) st)) _
        (read_line-Returns (text_of line) st readable named)
        (λ st' named'. collect-Returns lines st' more named')
