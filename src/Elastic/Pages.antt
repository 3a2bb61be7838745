-- ===== src/Elastic/Pages.antt =====
-- pkg/utils/es.go: the pages of a search, until the first empty one.
use cnsbench.Prelude.{
  ℕ, suc, String, none, some, List, [], ◌∷◌, ◌++◌, append_assoc, append-nil, map, length, ◌≡◌, refl,
  sym, ap, ◌∙◌, pos, ◌==◌, string_eq, if◌then◌else◌,
}
use cnsbench.Exec.{Outcome, ok}
use cnsbench.Exec.Results.{◌>>=◌}
use cnsbench.Elastic.{
  number, text, object, set_field, field_of, as_string, parse_interface, last_hit, query_es, Json,
  Elements, no_elements, element, Fields, Reply, body, Answer, hits_of, sources_of, end_round,
  Round, answered, next, on_hits, on_reply, query_pages, search_after,
}

-- A page that is not empty: the fields of its hits, with those of the last one apart, and what the
-- last hit has for its document and its time.
pub record Page : Type 0 where
  pub earlier : List Fields
  pub final : Fields
  pub source : Fields
  pub time : String

-- The list of hits in an answer.
abbrev pub elements_of : List Fields → Elements
elements_of [] = no_elements
elements_of (h ∷ hs) = element (object h) (elements_of hs)

abbrev pub hits_in : Page → List Fields
hits_in p = p.earlier ++ p.final ∷ []

-- The document of a hit.
abbrev pub document : Fields → Json
document h = field_of "_source" h

sources_of-documents :
    (hs : List Fields) (results : List Json)
    → sources_of (elements_of hs) results ≡ ok (results ++ map document hs)
unfolding sources_of
sources_of-documents [] results = ap ok (sym (append-nil results))
sources_of-documents (h ∷ hs) results =
    sources_of-documents hs (results ++ document h ∷ [])
    ∙ ap ok (append_assoc results (document h ∷ []) (map document hs))

last_hit_alone : (hit : Json) → last_hit hit no_elements ≡ hit
unfolding last_hit
last_hit_alone hit = refl

last_hit-final :
    (hit : Json) (earlier : List Fields) (final : Fields)
    → last_hit hit (elements_of (earlier ++ final ∷ [])) ≡ object final
unfolding last_hit
last_hit-final hit [] final = refl
last_hit-final hit (h ∷ earlier) final = last_hit-final (object h) earlier final

module _ (search : String → Fields → Reply) (index time_field : String) where
  -- The last hit has a document with a time.
  pub record IsPage (p : Page) : Type 0 where
    pub source_eq : document p.final ≡ object p.source
    pub time_eq : field_of time_field p.source ≡ text p.time

  -- The server answers the loop with these pages, each after the time of the one before, and then
  -- with an empty one.
  abbrev pub Serves : Fields → String → List Page → Type 0
  Serves query ts [] =
      (r : Fields) × (search index (search_after ts query) ≡ body r) × (hits_of r ≡ ok no_elements)
  Serves query ts (p ∷ ps) =
      ((r : Fields) × (search index (search_after ts query) ≡ body r)
        × (hits_of r ≡ ok (elements_of (hits_in p)))
        × IsPage p)
      × Serves (search_after ts query) p.time ps

  abbrev pub all_documents : List Page → List Json
  all_documents [] = []
  all_documents (p ∷ ps) = map document (hits_in p) ++ all_documents ps

  round : List Json → Fields → String → Outcome Round
  round results query ts =
      on_reply search index time_field results (search index (search_after ts query))

  query_pages-answered :
      (fuel : ℕ) (query : Fields) (ts : String) (results : List Json) (a : Answer)
      → round results query ts ≡ ok (answered a)
      → query_pages search index time_field (suc fuel) query ts results ≡ some (ok a)
  unfolding query_pages round
  query_pages-answered fuel query ts results a e = rw (query_pages, e) refl

  query_pages-next :
      (fuel : ℕ) (query : Fields) (ts ts' : String) (results results' : List Json)
      → round results query ts ≡ ok (next results' ts')
      → query_pages search index time_field (suc fuel) query ts results
        ≡ query_pages search index time_field fuel (search_after ts query) ts' results'
  unfolding query_pages round
  query_pages-next fuel query ts ts' results results' e = rw (query_pages, e) refl

  round-empty :
      (results : List Json) (query : Fields) (ts : String) (r : Fields)
      → search index (search_after ts query) ≡ body r
      → hits_of r ≡ ok no_elements
      → round results query ts ≡ ok (answered (results, none))
  unfolding round on_reply
  round-empty results query ts r reply hits =
      ap (on_reply search index time_field results) reply
      ∙ ap (λ m. m >>= on_hits search index time_field results) hits

  abbrev time_at : Json → Outcome String
  time_at hit = parse_interface hit ("_source" ∷ time_field ∷ []) >>= as_string

  time_of-final :
      (p : Page)
      → IsPage p
      → (parse_interface (object p.final) ("_source" ∷ time_field ∷ []) >>= as_string) ≡ ok p.time
  unfolding parse_interface
  time_of-final p page = rw (page.source_eq, page.time_eq) refl

  on_hits-element :
      (h : Fields) (hs : List Fields) (results : List Json) (time : String)
      → (parse_interface (last_hit (object h) (elements_of hs)) ("_source" ∷ time_field ∷ [])
          >>= as_string)
        ≡ ok time
      → on_hits search index time_field results (elements_of (h ∷ hs))
        ≡ ok (next (results ++ map document (h ∷ hs)) time)
  unfolding end_round
  on_hits-element h hs results time e = rw (sources_of-documents (h ∷ hs) results, e) refl

  on_hits-page :
      (earlier : List Fields) (p : Page) (results : List Json)
      → IsPage p
      → on_hits search index time_field results (elements_of (earlier ++ p.final ∷ []))
        ≡ ok (next (results ++ map document (earlier ++ p.final ∷ [])) p.time)
  on_hits-page [] p results page =
      on_hits-element p.final [] results p.time
        (ap time_at (last_hit_alone (object p.final)) ∙ time_of-final p page)
  on_hits-page (h ∷ earlier) p results page =
      on_hits-element h (earlier ++ p.final ∷ []) results p.time
        (ap time_at (last_hit-final (object h) earlier p.final) ∙ time_of-final p page)

  round-page :
      (results : List Json) (query : Fields) (ts : String) (r : Fields) (p : Page)
      → search index (search_after ts query) ≡ body r
      → hits_of r ≡ ok (elements_of (hits_in p))
      → IsPage p
      → round results query ts ≡ ok (next (results ++ map document (hits_in p)) p.time)
  unfolding round on_reply
  round-page results query ts r p reply hits page =
      ap (on_reply search index time_field results) reply
      ∙ ap (λ m. m >>= on_hits search index time_field results) hits
      ∙ on_hits-page p.earlier p results page

  pub query_pages-Serves :
      (query : Fields) (ts : String) (pages : List Page) (results : List Json)
      → Serves query ts pages
      → query_pages search index time_field (suc (length pages)) query ts results
        ≡ some (ok (results ++ all_documents pages, none))
  query_pages-Serves query ts [] results (r, reply, hits) =
      query_pages-answered 0 query ts results (results, none)
        (round-empty results query ts r reply hits)
      ∙ ap (λ l. some (ok (l, none))) (sym (append-nil results))
  query_pages-Serves query ts (p ∷ ps) results ((r, reply, hits, page), rest) =
      query_pages-next (suc (length ps)) query ts p.time results
        (results ++ map document (hits_in p)) (round-page results query ts r p reply hits page)
      ∙ query_pages-Serves (search_after ts query) p.time ps (results ++ map document (hits_in p))
          rest
      ∙ ap (λ l. some (ok (l, none)))
          (append_assoc results (map document (hits_in p)) (all_documents ps))

abbrev pub field_or_default : String → String
field_or_default time_field = if time_field == "" then "@timestamp" else time_field

-- If the server answers the query with pages of hits and at last with an empty page, each page
-- asked for with the time of the last hit of the page before it, and the last hit of each page
-- has a document with a text as its time, then QueryES ends after one request for each of them
-- and returns the documents of all hits of all pages in order, without an error.
pub query_es-Serves :
    (search : String → Fields → Reply) (query : Fields) (index time_field : String)
    (pages : List Page)
    → Serves search index
        (field_or_default time_field)
        (set_field "size" (number (pos 100)) query)
        ""
        pages
    → query_es search (suc (length pages)) query index time_field
      ≡ some (ok (all_documents search index (field_or_default time_field) pages, none))
unfolding query_es
query_es-Serves search query index time_field pages serves =
    query_pages-Serves search index (field_or_default time_field)
      (set_field "size" (number (pos 100)) query) "" pages [] serves
