-- ===== src/Examples/Search.antt =====
-- The theorem on the search, at a server with one line of a log.
use cnsbench.Prelude.{String, string_eq, none, some, [], ◌∷◌, ◌≡◌, refl}
use cnsbench.Exec.{ok}
use cnsbench.Elastic.{
  Json, text, null, array, object, Elements, no_elements, element, Fields, no_fields, field, Reply,
  body, field_of, set_field, hits_of, sources_of, parse_interface, last_hit, query_es,
}
use cnsbench.Elastic.Pages.{Page, query_es-Serves}

abbrev line_fields : String → Fields
line_fields t = field "@timestamp" (text t) (field "message" (text "line") no_fields)

abbrev log_line : String → Json
log_line t = object (line_fields t)

abbrev log_hit : String → Fields
log_hit t = field "_source" (log_line t) no_fields

abbrev two_hits : Elements
two_hits = element (object (log_hit "t1")) (element (object (log_hit "t2")) no_elements)

abbrev reply_with : Elements → Fields
reply_with hits = field "hits" (object (field "hits" (array hits) no_fields)) no_fields

abbrev has_value : Json → Reply
has_value null = body (reply_with two_hits)
has_value _ = body (reply_with no_elements)

abbrev server : String → Fields → Reply
server index query = has_value (field_of "search_after" query)

abbrev one_page : Page
one_page = record {
  earlier = log_hit "t1" ∷ [];
  final = log_hit "t2";
  source = line_fields "t2";
  time = "t2";
}

query_es-Serves_example :
    query_es server 2 no_fields "filebeat*" ""
    ≡ some (ok (log_line "t1" ∷ log_line "t2" ∷ [], none))
unfolding field_of set_field hits_of sources_of parse_interface last_hit
query_es-Serves_example = query_es-Serves server no_fields "filebeat*" "" (one_page ∷ []) (
  (reply_with two_hits, refl, refl, record { source_eq = refl; time_eq = refl }),
  (reply_with no_elements, refl, refl),
)
