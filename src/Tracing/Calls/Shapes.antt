-- ===== src/Tracing/Calls/Shapes.antt =====
-- util/analysis/csi-tracing/grpc.go: which streams are taken for a request, and which for a response.
use cnsbench.Prelude.{
  ℕ, suc, ◌-◌, String, Bool, true, false, List, [], ◌∷◌, any, all, length, ltb, not, take,
  get_elem?, ◌&&◌, ◌||◌, ◌==◌, string_eq, ◌≡◌, refl, ◌∙◌, arith, if◌then◌else◌, Bool-cases, inl,
  inr, eq_iff,
}
use cnsbench.Api.{Time}
use cnsbench.Tracing.Types.{Frame, HeaderField, Stream}
use cnsbench.Tracing.Calls.{
  is_headers, is_data, says, seen_request, is_grpc_request, seen_response, is_grpc_response,
  frame_is,
}

-- Whether a header is among the fields.
abbrev pub has : String → String → List HeaderField → Bool
has name value fields = any (says name value) fields

-- No field can be two of the headers, as their names differ.
says-one :
    (n m v w : String) (h : HeaderField) → (n == m) ≡ false → says n v h ≡ true → says m w h ≡ false
says-one n m v w h other e = ground (arith, eq_iff h.name n, eq_iff h.name m, eq_iff n m)

or_true : (b : Bool) → true ≡ (b || true)
or_true true = refl
or_true false = refl

or_false : (b : Bool) → b ≡ (b || false)
or_false true = refl
or_false false = refl

seen_request-has :
    (fields : List HeaderField) (method scheme content : Bool)
    → seen_request fields (method, scheme, content) ≡ (
      method || has ":method" "POST" fields,
      scheme || has ":scheme" "http" fields,
      content || has "content-type" "application/grpc" fields,
    )
unfolding seen_request
seen_request-has [] method scheme content =
    λ i. (or_false method i, or_false scheme i, or_false content i)
seen_request-has (h ∷ fields) method scheme content = elim (Bool-cases (says ":method" "POST" h)) [
  | inl m ↦
      rw
        (
          m,
          says-one ":method" ":scheme" "POST" "http" h refl m,
          says-one ":method" "content-type" "POST" "application/grpc" h refl m,
        )
        (seen_request-has fields true scheme content ∙ λ i. (
          or_true method i,
          scheme || has ":scheme" "http" fields,
          content || has "content-type" "application/grpc" fields,
        ))
  | inr m ↦ elim (Bool-cases (says ":scheme" "http" h)) [
    | inl s ↦
        rw (m, s, says-one ":scheme" "content-type" "http" "application/grpc" h refl s)
          (seen_request-has fields method true content ∙ λ i. (
            method || has ":method" "POST" fields,
            or_true scheme i,
            content || has "content-type" "application/grpc" fields,
          ))
    | inr s ↦ elim (Bool-cases (says "content-type" "application/grpc" h)) [
      | inl c ↦
          rw (m, s, c)
            (seen_request-has fields method scheme true ∙ λ i. (
              method || has ":method" "POST" fields,
              scheme || has ":scheme" "http" fields,
              or_true content i,
            ))
      | inr c ↦ rw (m, s, c) (seen_request-has fields method scheme content)
    ]
  ]
]

seen_response-has :
    (fields : List HeaderField) (status content : Bool)
    → seen_response fields (status, content) ≡ (
      status || has ":status" "200" fields,
      content || has "content-type" "application/grpc" fields,
    )
unfolding seen_response
seen_response-has [] status content = λ i. (or_false status i, or_false content i)
seen_response-has (h ∷ fields) status content = elim (Bool-cases (says ":status" "200" h)) [
  | inl s ↦
      rw (s, says-one ":status" "content-type" "200" "application/grpc" h refl s)
        (seen_response-has fields true content ∙ λ i.
          (or_true status i, content || has "content-type" "application/grpc" fields))
  | inr s ↦ elim (Bool-cases (says "content-type" "application/grpc" h)) [
    | inl c ↦
        rw (s, c)
          (seen_response-has fields status true ∙ λ i.
            (status || has ":status" "200" fields, or_true content i))
    | inr c ↦ rw (s, c) (seen_response-has fields status content)
  ]
]

-- A request: a frame of headers and then at least one frame of data, and nothing else.
unfoldable pub is_request : List Frame → Bool
is_request (first ∷ second ∷ others) =
    is_headers first
    && all is_data (second ∷ others)
    && has ":method" "POST" first.header_fields
    && has ":scheme" "http" first.header_fields
    && has "content-type" "application/grpc" first.header_fields
is_request _ = false

-- A response: the same with headers once more at the end.
unfoldable pub data_then_headers : List Frame → Bool
data_then_headers [] = false
data_then_headers (last ∷ []) = is_headers last
data_then_headers (f ∷ g ∷ others) = is_data f && data_then_headers (g ∷ others)

unfoldable pub is_response : List Frame → Bool
is_response (first ∷ second ∷ third ∷ others) =
    is_headers first
    && is_data second
    && data_then_headers (third ∷ others)
    && has ":status" "200" first.header_fields
    && has "content-type" "application/grpc" first.header_fields
is_response _ = false

request_guards :
    (a b m s c : Bool)
    → (if not a then false else if not b then false else m && s && c) ≡ (a && b && m && s && c)
request_guards a b m s c = ground arith

response_guards :
    (a d x y z s c : Bool)
    → (x && y) ≡ z
    → (if not a then false else if not (d && x) then false else if not y then false else s && c)
      ≡ (a && d && z && s && c)
response_guards a d x y z s c h = ground (arith, h)

and_step : (d x y z : Bool) → (x && y) ≡ z → (d && x && y) ≡ (d && z)
and_step d x y z h = ground (arith, h)

many : (n : ℕ) → (ltb (suc (suc n)) 2 ≡ false) × (ltb (suc (suc (suc n))) 3 ≡ false)
many n = (ground arith, ground arith)

request_frames :
    (strm : Stream) (frames : List Frame)
    → strm.frames ≡ frames
    → is_grpc_request strm ≡ is_request frames
unfolding is_grpc_request is_request
request_frames strm [] e = rw (e) refl
request_frames strm (first ∷ []) e = rw (e) refl
request_frames strm (first ∷ second ∷ others) e =
    rw (e, (many (length others)).0, seen_request-has first.header_fields false false false)
      (request_guards (is_headers first) (all is_data (second ∷ others)) _ _ _)

pub is_grpc_request-eq : (strm : Stream) → is_grpc_request strm ≡ is_request strm.frames
is_grpc_request-eq strm = request_frames strm strm.frames refl

data_then_headers-eq :
    (f : Frame) (others : List Frame)
    → (all is_data (take (length others) (f ∷ others))
        && frame_is is_headers (get_elem? (f ∷ others) (length others)))
      ≡ data_then_headers (f ∷ others)
unfolding data_then_headers
data_then_headers-eq f [] = refl
data_then_headers-eq f (g ∷ others) = and_step (is_data f) _ _ _ (data_then_headers-eq g others)

fewer : (n : ℕ) → (suc (suc (suc n)) - 2 ≡ suc n) × (suc (suc (suc n)) - 1 ≡ suc (suc n))
fewer n = (omega arith, omega arith)

response_frames :
    (frames : List Frame) (t : Time)
    → is_grpc_response (record { frames = frames; capture_timestamp = t }) ≡ is_response frames
unfolding is_grpc_response is_response
response_frames [] t = refl
response_frames (first ∷ []) t = refl
response_frames (first ∷ second ∷ []) t = refl
response_frames (first ∷ second ∷ third ∷ others) t =
    let n = length others in
    rw ((many n).1, (fewer n).0, (fewer n).1, seen_response-has first.header_fields false false)
      (response_guards (is_headers first) (is_data second) _ _ _ _ _
        (data_then_headers-eq third others))

pub is_grpc_response-eq : (strm : Stream) → is_grpc_response strm ≡ is_response strm.frames
is_grpc_response-eq strm = response_frames strm.frames strm.capture_timestamp

-- A stream is taken for a request exactly if it has one frame of headers, with the method
-- POST, the scheme http and the content type of gRPC among them, and then one or more frames
-- of data; it is taken for a response exactly if it has a frame of headers, with the status
-- 200 and the content type, one or more frames of data, and a frame of headers at the end.
pub shapes_eq :
    (strm : Stream)
    → (is_grpc_request strm ≡ is_request strm.frames)
      × (is_grpc_response strm ≡ is_response strm.frames)
shapes_eq strm = (is_grpc_request-eq strm, is_grpc_response-eq strm)
