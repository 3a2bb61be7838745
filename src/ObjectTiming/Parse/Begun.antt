-- ===== src/ObjectTiming/Parse/Begun.antt =====
-- pkg/objecttiming: an action that has begun is the one that its end is matched with.
use cnsbench.Prelude.{
  suc, String, true, none, some, List, [], ◌∷◌, ◌++◌, length, length-append, get_elem?-last, get,
  string_eq, beq_refl, ◌≡◌, refl, ap, ◌∙◌, arith, if◌then◌else◌,
}
use cnsbench.Exec.{ok}
use cnsbench.Api.{Time}
use cnsbench.ObjectTiming.Types.{Dict, read, AuditLog, Decoders}
use cnsbench.ObjectTiming.Records.{
  initialize_record, object_match, get_identification, is_record_of, is_open, search_from, find_log,
  get_end_index, get_generic_start, get_start_time, parse_str_time,
}
use cnsbench.ObjectTiming.Records.Latest.{search_from-stop}
use cnsbench.ObjectTiming.Create.{is_create_start, get_create_start, get_create_end_index}
use cnsbench.ObjectTiming.Parse.{Parsing, create_action}

is_record_of-initialize_record :
    (op nm rs ns : String) (t : Time)
    → is_record_of op nm rs ns (initialize_record op nm rs ns t) ≡ true
unfolding is_record_of object_match initialize_record read get
is_record_of-initialize_record op nm rs ns t =
    rw (beq_refl op, beq_refl nm, beq_refl rs, beq_refl ns) refl

is_open-initialize_record :
    (op nm rs ns : String) (t : Time) → is_open (initialize_record op nm rs ns t) ≡ true
unfolding initialize_record read get
is_open-initialize_record op nm rs ns t = refl

find_log-begun :
    (op nm rs ns : String) (t : Time) (all : List Dict)
    → find_log op nm rs ns (all ++ initialize_record op nm rs ns t ∷ []) ≡ some (length all)
unfolding find_log
find_log-begun op nm rs ns t all =
    let rec = initialize_record op nm rs ns t in
    let longer : length (all ++ rec ∷ []) ≡ suc (length all) =
      length-append all (rec ∷ []) ∙ omega arith in
    ap (search_from (is_record_of op nm rs ns) (all ++ rec ∷ [])) longer
    ∙ search_from-stop (is_record_of op nm rs ns) (all ++ rec ∷ []) (length all) rec
        (get_elem?-last all rec) (is_record_of-initialize_record op nm rs ns t)
    ∙ ap (λ b. if b then some (length all) else none) (is_open-initialize_record op nm rs ns t)

-- A line at which a creation starts, with a time that can be parsed, puts a record behind the
-- ongoing ones and changes nothing else of the state; for a line with the same identification
-- this record is the one that the end of a creation is matched with in the state that results.
pub create_action-begins :
    (dec : Decoders) (log other : AuditLog) (st : Parsing) (t : Time)
    → is_create_start log ≡ true
    → dec.parse_time log.request_received_timestamp ≡ some t
    → get_identification other ≡ get_identification log
    → (rec : Dict) × (create_action dec log st
        ≡ ok (some (record st { ongoing = st.ongoing ++ rec ∷ [] })))
      × (get_create_end_index other (st.ongoing ++ rec ∷ []) ≡ some (length st.ongoing))
unfolding create_action get_create_start get_generic_start get_start_time parse_str_time
    get_create_end_index get_end_index
create_action-begins dec log other st t starts at same =
    let (name, resource, namespace) = get_identification log in
    let rec = initialize_record "create" name resource namespace t in
    (
      rec,
      rw (starts, at) refl,
      ap (λ id. find_log "create" id.0 id.1 id.2 (st.ongoing ++ rec ∷ [])) same
          ∙ find_log-begun "create" name resource namespace t st.ongoing,
    )
