-- ===== src/Examples/Tracing.antt =====
-- The theorems on the tracing of calls, at a probe of a driver.
use cnsbench.Prelude.{
  ℕ, suc, Option, String, string_eq, nat_eq, true, false, none, some, List, [], ◌∷◌, Assoc, map,
  get, put, length, ◌==◌, pos, ◌≡◌, refl, arith, if◌then◌else◌,
}
use mathlib.Core.Bool.{false≢true}
use cnsbench.Exec.{ok}
use cnsbench.Tracing.Types.{
  Bytes, data_type, headers_type, continuation_type, FrameType, FrameHeader, HeaderField, Frame,
  Stream, PacketFrames, CsiRpc,
}
use cnsbench.Tracing.Messages.{parse_grpc_message}
use cnsbench.Tracing.Messages.Framing.{framed, parse_grpc_message-accepts}
use cnsbench.Tracing.Tables.{csi_request_struct, csi_response_struct}
use cnsbench.Tracing.Tables.Specified.{tables_named}
use cnsbench.Tracing.Calls.{find_field, parse_grpc, is_grpc_request, is_grpc_response}
use cnsbench.Tracing.Calls.Paths.{has_no_slash}
use cnsbench.Tracing.Calls.Shapes.{is_request, is_response, shapes_eq}
use cnsbench.Tracing.Calls.Whole.{parse_grpc-framed}
use cnsbench.Tracing.Streams.{
  WireFrame, Http2, on_frame, read_packet, frames_to_streams, without_magic,
}
use cnsbench.Tracing.Streams.Wires.{headers_of}
use cnsbench.Tracing.Streams.Headers.{all_frames}
use cnsbench.Tracing.Streams.Delivered.{HasHeaders, frames_to_streams-headers}
use cnsbench.Tracing.Streams.Total.{frames_to_streams-total}
use cnsbench.Tracing.Packets.{Texts, Packet}
use cnsbench.Tracing.Logs.{process_rpc}
use cnsbench.Tracing.Logs.Entries.{process_rpc-entry}

abbrev frame_header : FrameType → FrameHeader
frame_header type = record { type = type; flags = 0; length = 4; stream_id = 7 }

-- A framer whose frames are bytes: 1 starts a header block, 2 ends it, and any other byte is data.
-- Its decoder accepts one block.
abbrev wire : ℕ → WireFrame
wire b =
    if b == 1
    then record { header = frame_header headers_type; payload = 8 ∷ []; headers_ended = false }
    else if b == 2
    then record { header = frame_header continuation_type; payload = 9 ∷ []; headers_ended = true }
    else record { header = frame_header data_type; payload = b ∷ []; headers_ended = false }

abbrev framer : Http2 ℕ
framer = record {
  read_frames = λ bytes. some (map wire bytes);
  decode_full = λ d block.
      if d == 0 then some (record { name = ":status"; value = "200" } ∷ [], suc d) else none;
  new_decoder = 0;
  client_preface = 80 ∷ 82 ∷ [];
}

abbrev capture : List PacketFrames
capture =
    record { frames = 80 ∷ 82 ∷ 1 ∷ []; capture_timestamp = 10 }
    ∷ record { frames = 2 ∷ 5 ∷ []; capture_timestamp = 20 }
    ∷ []

abbrev captured : Assoc ℕ Stream
captured =
    (
      7,
      record {
        frames =
            record {
              header = frame_header headers_type;
              body = [];
              header_fields = record { name = ":status"; value = "200" } ∷ [];
            }
            ∷ record { header = frame_header data_type; body = 5 ∷ []; header_fields = [] }
            ∷ [];
        capture_timestamp = 20;
      },
    )
    ∷ []

capture_test : frames_to_streams framer capture ≡ ok captured
unfolding frames_to_streams without_magic get put
capture_test = refl

frames_to_streams-headers_example :
    HasHeaders (get 7 captured) (headers_of 7 (all_frames framer capture))
frames_to_streams-headers_example = frames_to_streams-headers framer capture captured capture_test 7

frames_to_streams-total_example :
    (streams : Assoc ℕ Stream) × (frames_to_streams framer capture ≡ ok streams)
unfolding without_magic on_frame read_packet get put
frames_to_streams-total_example = frames_to_streams-total framer capture (
  _,
  refl,
  (λ e. absurd (false≢true e), tt),
  (_, refl, ((λ i f index found ended i' f' index' found'. (_, refl)), (tt, tt)), tt),
)

abbrev framed_bytes : Bytes
framed_bytes = 0 ∷ 0 ∷ 0 ∷ 0 ∷ 2 ∷ 3 ∷ 4 ∷ []

parse_grpc_message-accepts_example : framed_bytes ≡ framed (3 ∷ 4 ∷ [])
unfolding parse_grpc_message
parse_grpc_message-accepts_example =
    parse_grpc_message-accepts framed_bytes
      (record { compressed_flag = 0; message_length = 2; message = 3 ∷ 4 ∷ [] })
      (
        omega arith,
        (
          omega arith,
          (omega arith, (omega arith, (omega arith, (omega arith, (omega arith, tt))))),
        ),
      )
      refl

tables_named_example :
    (csi_request_struct "Identity" "Probe" ≡ some "ProbeRequest")
    × (csi_response_struct "Identity" "Probe" ≡ some "ProbeResponse")
tables_named_example = tables_named "Identity" "Probe"

abbrev field : String → String → HeaderField
field name value = record { name = name; value = value }

abbrev asking : Frame
asking = record {
  header = frame_header headers_type;
  body = [];
  header_fields =
      field ":method" "POST"
      ∷ field ":scheme" "http"
      ∷ field ":path" "/csi.v1.Identity/Probe"
      ∷ field ":authority" "kubelet"
      ∷ field "content-type" "application/grpc"
      ∷ [];
}

abbrev data_frame : Bytes → Frame
data_frame body = record { header = frame_header data_type; body = body; header_fields = [] }

abbrev answering : Frame
answering = record {
  header = frame_header headers_type;
  body = [];
  header_fields = field ":status" "200" ∷ field "content-type" "application/grpc" ∷ [];
}

abbrev probe_request : Stream
probe_request = record { frames = asking ∷ data_frame (framed []) ∷ []; capture_timestamp = 10 }

abbrev probe_response : Stream
probe_response = record {
  frames = answering ∷ data_frame (framed (8 ∷ 1 ∷ [])) ∷ answering ∷ [];
  capture_timestamp = 20;
}

abbrev probe : CsiRpc ℕ
probe = record {
  client_ip = 10 ∷ 0 ∷ 0 ∷ 1 ∷ [];
  client_port = 5000;
  client_name = "kubelet";
  csi_path = "/csi.v1.Identity/Probe";
  request = 1;
  response = 2;
  request_time = 10;
  response_time = 20;
}

abbrev unmarshal : String → Bytes → Option ℕ
unmarshal type bytes =
    if type == "ProbeRequest" then some 1 else if type == "ProbeResponse" then some 2 else none

shapes_eq_example :
    (is_grpc_request probe_request ≡ true) × (is_grpc_response probe_request ≡ false)
unfolding is_request is_response
shapes_eq_example = shapes_eq probe_request

parse_grpc-framed_example :
    parse_grpc unmarshal probe_request probe_response (10 ∷ 0 ∷ 0 ∷ 1 ∷ []) 5000 ≡ ok (some probe)
unfolding find_field has_no_slash
parse_grpc-framed_example =
    parse_grpc-framed unmarshal "Identity" "Probe" probe_request probe_response asking
      (data_frame (framed [])) answering (data_frame (framed (8 ∷ 1 ∷ []))) [] (answering ∷ []) []
      (8 ∷ 1 ∷ []) 1 2 (10 ∷ 0 ∷ 0 ∷ 1 ∷ []) 5000 refl refl refl refl refl refl refl refl refl

abbrev addresses : Texts
addresses = record {
  ip_text = λ ip. if length ip == 0 then "" else "10.0.0.1";
  port_text = λ port. if port == 5000 then "5000" else "80(http)";
}

abbrev packet_of : Bytes → Packet
packet_of bytes = record {
  ip = some (10 ∷ 0 ∷ 0 ∷ 1 ∷ [], 10 ∷ 0 ∷ 0 ∷ 1 ∷ []);
  tcp = some (5000, 80);
  application = some bytes;
  timestamp = 10;
}

process_rpc-entry_example :
    ((process_rpc addresses probe).action ≡ "Probe")
    × ((process_rpc addresses probe).duration ≡ pos 10)
unfolding has_no_slash
process_rpc-entry_example =
    process_rpc-entry addresses probe "/csi.v1.Identity" "Probe" refl refl (omega arith)
      (omega arith)
