-- ===== src/Tracing/Calls.antt =====
-- util/analysis/csi-tracing/grpc.go: the calls in the streams of two hosts.
pub mod Paths
pub mod Shapes
pub mod Whole
use Prim.Native.Char.{Char, code}
use Prim.Native.String
use cnsbench.Prelude.{
  ℕ, zero, suc, ◌-◌, String, Bool, true, false, Option, none, some, List, [], ◌∷◌, ◌++◌, Assoc, get,
  get_elem?, take, drop, length, all, ltb, not, ◌&&◌, ◌==◌, nat_eq, string_eq, if◌then◌else◌,
}
use cnsbench.Exec.{Outcome, ok, fault, panic}
use cnsbench.Exec.Results.{◌>>=◌}
use cnsbench.Tracing.Types.{
  Bytes, Ip, Port, FrameType, data_type, headers_type, Frame, HeaderField, Stream, RawStreams,
  CsiRpc, or_fatal,
}
use cnsbench.Tracing.Messages.{parse_grpc_message}
use cnsbench.Tracing.Tables.{csi_request_struct, csi_response_struct}

abbrev pub is_headers_type : FrameType → Bool
is_headers_type headers_type = true
is_headers_type _ = false

abbrev pub is_data_type : FrameType → Bool
is_data_type data_type = true
is_data_type _ = false

abbrev pub is_headers : Frame → Bool
is_headers f = is_headers_type f.header.type

abbrev pub is_data : Frame → Bool
is_data f = is_data_type f.header.type

-- `h.Name == name && h.Value == value`
abbrev pub says : String → String → HeaderField → Bool
says name value h = h.name == name && h.value == value

-- One round of the loop over the headers of a request, and the loop.
abbrev pub see_request : HeaderField → Bool × Bool × Bool → Bool × Bool × Bool
see_request h (method, scheme, content) =
    if says ":method" "POST" h
    then (true, scheme, content)
    else if says ":scheme" "http" h
    then (method, true, content)
    else if says "content-type" "application/grpc" h
    then (method, scheme, true)
    else (method, scheme, content)

unfoldable pub seen_request : List HeaderField → Bool × Bool × Bool → Bool × Bool × Bool
seen_request [] seen = seen
seen_request (h ∷ hs) seen = seen_request hs (see_request h seen)

unfoldable pub is_grpc_request : Stream → Bool
unfolding seen_request
is_grpc_request strm = if ltb (length strm.frames) 2 then false else elim strm.frames [
  | [] ↦ false
  | first ∷ others ↦
      if not (is_headers first)
      then false
      else if not (all is_data others)
      then false
      else (let (method, scheme, content) =
            seen_request first.header_fields (false, false, false) in
          method && scheme && content)
]

abbrev pub see_response : HeaderField → Bool × Bool → Bool × Bool
see_response h (status, content) =
    if says ":status" "200" h
    then (true, content)
    else if says "content-type" "application/grpc" h
    then (status, true)
    else (status, content)

unfoldable pub seen_response : List HeaderField → Bool × Bool → Bool × Bool
seen_response [] seen = seen
seen_response (h ∷ hs) seen = seen_response hs (see_response h seen)

-- The frame with an index, where there is one.
abbrev pub frame_is : (Frame → Bool) → Option Frame → Bool
frame_is p none = false
frame_is p (some f) = p f

unfoldable pub is_grpc_response : Stream → Bool
unfolding seen_response
is_grpc_response strm =
    let n = length strm.frames in
    if ltb n 3 then false else elim strm.frames [
      | [] ↦ false
      | first ∷ others ↦
          if not (is_headers first)
          then false
          else if not (all is_data (take (n - 2) others))
          then false
          else if not (frame_is is_headers (get_elem? strm.frames (n - 1)))
          then false
          else (let (status, content) = seen_response first.header_fields (false, false) in
              status && content)
    ]

unfoldable pub find_field : List HeaderField → String → String
find_field [] field = ""
find_field (h ∷ hs) field = if h.name == field then h.value else find_field hs field

-- `path[n:]`; a path starts with characters of one byte.
unfoldable pub drop_text : ℕ → String → Option String
drop_text zero s = some s
drop_text (suc n) String.[] = none
drop_text (suc n) (String.◌∷◌ c s) = drop_text n s

-- The two parts beside the last slash; without one, `path[:-1]` is out of range.
unfoldable pub split_last : String → Option (String × String)
split_last String.[] = none
split_last (String.◌∷◌ c s) = elim (split_last s) [
  | some (front, back) ↦ some (String.◌∷◌ c front, back)
  | none ↦ elim (code c == b'/') [ true ↦ some ("", s) | false ↦ none ]
]

unfoldable pub parse_rpc_path : String → Outcome (String × String)
unfolding drop_text split_last
parse_rpc_path path = or_fatal (drop_text 8 path) >>= λ rest. or_fatal (split_last rest)

-- proto.Unmarshal into the message of a type, which it is given by name.
module _ {M : Type 0} (unmarshal : String → Bytes → Option M) where
  -- What is left of parseCSIRequest and of parseCSIResponse, once the struct is known.
  abbrev pub decoded : Bytes → Option String → Outcome (Option M)
  decoded message none = ok none
  decoded message (some type) = or_fatal (unmarshal type message) >>= λ m. ok (some m)

  unfoldable pub parse_csi_request : Bytes → String → String → Outcome (Option M)
  parse_csi_request frame service rpc =
      parse_grpc_message frame >>= λ msg. decoded msg.message (csi_request_struct service rpc)

  unfoldable pub parse_csi_response : Bytes → String → String → Outcome (Option M)
  parse_csi_response frame service rpc =
      parse_grpc_message frame >>= λ msg. decoded msg.message (csi_response_struct service rpc)

  -- The call, if both messages are there.
  abbrev pub both : (M → M → CsiRpc M) → Option M → Option M → Option (CsiRpc M)
  both make (some req) (some rep) = some (make req rep)
  both make _ _ = none

  unfoldable pub parse_grpc : Stream → Stream → Ip → Port → Outcome (Option (CsiRpc M))
  unfolding find_field parse_csi_request parse_csi_response
  parse_grpc request response client_ip client_port = do
    head ← or_fatal (get_elem? request.frames 0)
    let path = find_field head.header_fields ":path"
    let client_name = find_field head.header_fields ":authority"
    (service, rpc) ← parse_rpc_path path
    asked ← or_fatal (get_elem? request.frames 1)
    answered ← or_fatal (get_elem? response.frames 1)
    req ← parse_csi_request asked.body service rpc
    rep ← parse_csi_response answered.body service rpc
    ok (
        both
          (λ req rep. record {
            client_ip = client_ip;
            client_port = client_port;
            client_name = client_name;
            csi_path = path;
            request = req;
            response = rep;
            request_time = request.capture_timestamp;
            response_time = response.capture_timestamp;
          })
          req rep)

  -- One pair of opposite streams.
  unfoldable pub parse_pair : RawStreams → Stream → Stream → Outcome (Option (CsiRpc M))
  unfolding parse_grpc
  parse_pair streams ab ba =
      if is_grpc_request ab && is_grpc_response ba
      then parse_grpc ab ba streams.a_ip streams.a_port
      else if is_grpc_request ba && is_grpc_response ab
      then parse_grpc ba ab streams.b_ip streams.b_port
      else ok none

  abbrev pub appended : List (CsiRpc M) → Option (CsiRpc M) → List (CsiRpc M)
  appended rpcs none = rpcs
  appended rpcs (some rpc) = rpcs ++ rpc ∷ []

  -- The loop over the streams from a to b.
  unfoldable pub parse_streams :
      RawStreams → Assoc ℕ Stream → List (CsiRpc M) → Outcome (List (CsiRpc M))
  unfolding parse_pair
  parse_streams streams [] rpcs = ok rpcs
  parse_streams streams ((sid, ab) ∷ more) rpcs =
      (elim (get sid streams.ba) [
        | none ↦ ok rpcs
        | some ba ↦ parse_pair streams ab ba >>= λ found. ok (appended rpcs found)
      ])
      >>= parse_streams streams more

  unfoldable pub parse_rpcs : List RawStreams → List (CsiRpc M) → Outcome (List (CsiRpc M))
  unfolding parse_streams
  parse_rpcs [] rpcs = ok rpcs
  parse_rpcs (streams ∷ raw_streams) rpcs =
      parse_streams streams streams.ab rpcs >>= parse_rpcs raw_streams
