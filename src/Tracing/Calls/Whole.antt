-- ===== src/Tracing/Calls/Whole.antt =====
-- util/analysis/csi-tracing/grpc.go and csi.go: a call that was sent as the protocol says is found.
use cnsbench.Prelude.{
  String, Bool, true, Option, none, some, List, ◌∷◌, any, ◌⧺◌, ◌==◌, string_eq, ◌≡◌, refl, ap,
  if◌then◌else◌,
}
use cnsbench.Exec.{ok}
use cnsbench.Tracing.Types.{Bytes, Ip, Port, Frame, Stream}
use cnsbench.Tracing.Messages.Framing.{framed, parse_grpc_message-framed}
use cnsbench.Tracing.Tables.Specified.{
  calls_of, named, csi_request_struct-named, csi_response_struct-named,
}
use cnsbench.Tracing.Calls.{find_field, parse_csi_request, parse_csi_response, parse_grpc}
use cnsbench.Tracing.Calls.Paths.{has_no_slash, parse_rpc_path-append}

abbrev pub is_call : String → String → Bool
is_call service rpc = any (λ call. rpc == call) (calls_of service)

named-call :
    (suffix service rpc : String)
    → is_call service rpc ≡ true
    → named suffix rpc (calls_of service) ≡ some (rpc ⧺ suffix)
named-call suffix service rpc h = ap (λ b. if b then some (rpc ⧺ suffix) else none) h

module _ {M : Type 0} (unmarshal : String → Bytes → Option M) (service rpc : String) where
  parse_csi_request-framed :
      (message : Bytes) (req : M)
      → is_call service rpc ≡ true
      → unmarshal (rpc ⧺ "Request") message ≡ some req
      → parse_csi_request unmarshal (framed message) service rpc ≡ ok (some req)
  unfolding parse_csi_request
  parse_csi_request-framed message req call h =
      rw
        (
          parse_grpc_message-framed message,
          csi_request_struct-named service rpc,
          named-call "Request" service rpc call,
          h,
        )
        refl

  parse_csi_response-framed :
      (message : Bytes) (rep : M)
      → is_call service rpc ≡ true
      → unmarshal (rpc ⧺ "Response") message ≡ some rep
      → parse_csi_response unmarshal (framed message) service rpc ≡ ok (some rep)
  unfolding parse_csi_response
  parse_csi_response-framed message rep call h =
      rw
        (
          parse_grpc_message-framed message,
          csi_response_struct-named service rpc,
          named-call "Response" service rpc call,
          h,
        )
        refl

  -- If the headers of a request name the path of a call of the interface, and the first frame
  -- of data of the request and of the response is a message that is framed as gRPC says and
  -- that can be decoded, then parseGRPC gives the call with the two decoded messages, the
  -- path, the name of the client and the two times.
  pub parse_grpc-framed :
      (request response : Stream) (head asked first answered : Frame) (more more' : List Frame)
      (question answer : Bytes) (req rep : M) (ip : Ip) (port : Port)
      → request.frames ≡ head ∷ asked ∷ more
      → response.frames ≡ first ∷ answered ∷ more'
      → find_field head.header_fields ":path" ≡ "/csi.v1." ⧺ (service ⧺ ("/" ⧺ rpc))
      → has_no_slash rpc ≡ true
      → is_call service rpc ≡ true
      → asked.body ≡ framed question
      → answered.body ≡ framed answer
      → unmarshal (rpc ⧺ "Request") question ≡ some req
      → unmarshal (rpc ⧺ "Response") answer ≡ some rep
      → parse_grpc unmarshal request response ip port
        ≡ ok (
            some (record {
              client_ip = ip;
              client_port = port;
              client_name = find_field head.header_fields ":authority";
              csi_path = "/csi.v1." ⧺ (service ⧺ ("/" ⧺ rpc));
              request = req;
              response = rep;
              request_time = request.capture_timestamp;
              response_time = response.capture_timestamp;
            }))
  unfolding parse_grpc
  parse_grpc-framed request response head asked first answered more more' question answer req rep ip
        port asks answers path plain call body body' known known' =
      rw
        (
          asks,
          answers,
          path,
          parse_rpc_path-append service rpc plain,
          body,
          body',
          parse_csi_request-framed question req call known,
          parse_csi_response-framed answer rep call known',
        )
        refl
