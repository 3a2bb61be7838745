-- ===== src/Elastic.antt =====
-- pkg/utils/es.go and ParseInterface of pkg/utils/utils.go: a search that asks for page after page.
-- The server, with the client library and the JSON codec, is the parameter `search`.
pub mod Pages
use cnsbench.Prelude.{
  ℕ, zero, suc, ℤ, pos, itoa, String, Bool, Option, none, some, List, [], ◌∷◌, ◌++◌, ◌==◌,
  string_eq, if◌then◌else◌,
}
use cnsbench.Exec.{Error, Outcome, ok, err, fault, panic}
use cnsbench.Exec.Results.{◌>>=◌}

-- A decoded value: an `interface{}`, a `[]interface{}` and a `map[string]interface{}`.
mutual
  pub data Json : Type 0 where
    null : Json
    text : String → Json
    number : ℤ → Json
    flag : Bool → Json
    array : Elements → Json
    object : Fields → Json

  pub data Elements : Type 0 where
    no_elements : Elements
    element : Json → Elements → Elements

  pub data Fields : Type 0 where
    no_fields : Fields
    field : String → Json → Fields → Fields

-- `m[key]`, which is nil where the key is missing, and `m[key] = v`
unfoldable pub field_of : String → Fields → Json
field_of key no_fields = null
field_of key (field name v fields) = if name == key then v else field_of key fields

unfoldable pub set_field : String → Json → Fields → Fields
set_field key v no_fields = field key v no_fields
set_field key v (field name w fields) =
    if name == key then field name v fields else field name w (set_field key v fields)

-- The type assertions, which panic.
abbrev pub as_object : Json → Outcome Fields
as_object (object fields) = ok fields
as_object _ = fault panic

abbrev pub as_array : Json → Outcome Elements
as_array (array elements) = ok elements
as_array _ = fault panic

abbrev pub as_string : Json → Outcome String
as_string (text s) = ok s
as_string _ = fault panic

unfoldable pub parse_interface : Json → List String → Outcome Json
unfolding field_of
parse_interface last [] = ok last
parse_interface last (key ∷ keys) =
    as_object last >>= λ fields. parse_interface (field_of key fields) keys

-- What comes of a request: an error of the client, an answer with an error status, a body that is
-- not JSON, or the decoded body.
pub data Reply : Type 0 where
  failed : Error → Reply
  status_error : Reply
  undecodable : Error → Reply
  body : Fields → Reply

-- A Go result `(results, err)` with both halves.
abbrev pub Answer : Type 0
Answer = List Json × Option Error

-- `r["hits"].(map[string]interface{})["hits"].([]interface{})`
unfoldable pub hits_of : Fields → Outcome Elements
unfolding field_of
hits_of r = as_object (field_of "hits" r) >>= λ hits. as_array (field_of "hits" hits)

-- The documents of a page, put behind the results so far.
unfoldable pub sources_of : Elements → List Json → Outcome (List Json)
unfolding field_of
sources_of no_elements results = ok results
sources_of (element hit hits) results =
    as_object hit >>= λ fields. sources_of hits (results ++ field_of "_source" fields ∷ [])

unfoldable pub last_hit : Json → Elements → Json
last_hit hit no_elements = hit
last_hit hit (element next hits) = last_hit next hits

abbrev pub search_after : String → Fields → Fields
search_after ts query =
    if ts == ""
    then query
    else set_field "search_after" (array (element (text ts) no_elements)) query

-- A round of the loop ends it with an answer, or goes on with the results and the time so far.
pub data Round : Type 0 where
  answered : Answer → Round
  next : List Json → String → Round

module _ (search : String → Fields → Reply) (index time_field : String) where
  -- The time of the last hit of a page.
  abbrev pub last_time : Json → Elements → Outcome String
  last_time hit hits =
      parse_interface (last_hit hit hits) ("_source" ∷ time_field ∷ []) >>= as_string

  -- The end of a round: the results of the page, and the time after which to go on.
  unfoldable pub end_round : Json → Elements → List Json → Outcome (List Json × String)
  unfolding sources_of parse_interface last_hit
  end_round hit hits results = sources_of (element hit hits) results >>= λ results'.
      last_time hit hits >>= λ ts. ok (results', ts)

  abbrev pub on_hits : List Json → Elements → Outcome Round
  on_hits results no_elements = ok (answered (results, none))
  on_hits results (element hit hits) = end_round hit hits results >>= λ r. ok (next r.0 r.1)

  -- The error of an answer with an error status is the one of the request, which is nil.
  unfoldable pub on_reply : List Json → Reply → Outcome Round
  unfolding hits_of end_round
  on_reply results (failed e) = ok (answered (results, some e))
  on_reply results status_error = ok (answered (results, none))
  on_reply results (undecodable e) = ok (answered (results, some e))
  on_reply results (body r) = hits_of r >>= on_hits results

  -- The loop, for at most `fuel` rounds; `none` when more are needed.
  unfoldable pub query_pages : ℕ → Fields → String → List Json → Option (Outcome Answer)
  unfolding on_reply set_field
  query_pages zero query ts results = none
  query_pages (suc fuel) query ts results =
      let query' = search_after ts query in
      elim (on_reply results (search index query')) [
        | ok (answered a) ↦ some (ok a)
        | ok (next results' ts') ↦ query_pages fuel query' ts' results'
        | err e ↦ some (err e)
        | fault x ↦ some (fault x)
      ]

-- At most `fuel` pages are asked for.
unfoldable pub query_es :
    (String → Fields → Reply) → ℕ → Fields → String → String → Option (Outcome Answer)
unfolding query_pages
query_es search fuel query index time_field =
    query_pages search index (if time_field == "" then "@timestamp" else time_field) fuel
      (set_field "size" (number (pos 100)) query) "" []

-- The query for the lines of the audit log between two times.
unfoldable pub audit_query : ℤ → ℤ → Fields
audit_query start end =
    let range =
      field "gte" (text (itoa start))
        (field "lte" (text (itoa end)) (field "format" (text "epoch_second") no_fields)) in
    field "sort" (array (element (object (field "@timestamp" (text "asc") no_fields)) no_elements))
      (field "query"
        (object (field "range" (object (field "@timestamp" (object range) no_fields)) no_fields))
        no_fields)

unfoldable pub messages_of : List Json → Outcome (List String)
unfolding field_of
messages_of [] = ok []
messages_of (r ∷ rs) = as_object r >>= λ fields.
    as_string (field_of "message" fields) >>= λ m. messages_of rs >>= λ ms. ok (m ∷ ms)

abbrev pub lines_of : Answer → Outcome (List String × Option Error)
lines_of (res, some e) = ok ([], some e)
lines_of (res, none) = messages_of res >>= λ ms. ok (ms, none)

unfoldable pub get_audit_logs :
    (String → Fields → Reply) → ℕ → ℤ → ℤ → Option (Outcome (List String × Option Error))
unfolding query_es audit_query messages_of
get_audit_logs search fuel start end =
    elim (query_es search fuel (audit_query start end) "filebeat*" "") [
      | none ↦ none
      | some answer ↦ some (answer >>= lines_of)
    ]
