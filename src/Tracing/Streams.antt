-- ===== src/Tracing/Streams.antt =====
-- util/analysis/csi-tracing/http2.go: the frames of captured packets, sorted into streams. The framer
-- and the decoder of header blocks are the parameter `Http2`.
pub mod Wires
pub mod Headers
pub mod Delivered
pub mod Total
use cnsbench.Prelude.{
  ℕ, zero, suc, Bool, true, false, Option, none, some, List, [], ◌∷◌, ◌++◌, Assoc, get, put,
  get_elem?, set, length, drop, ◌&&◌, ◌==◌, nat_eq, if◌then◌else◌,
}
use cnsbench.Exec.{Outcome, ok}
use cnsbench.Exec.Results.{◌>>=◌}
use cnsbench.Api.{Time}
use cnsbench.Tracing.Types.{
  Bytes, FrameType, data_type, headers_type, push_promise_type, continuation_type, other_type,
  FrameHeader, HeaderField, Frame, Stream, PacketFrames, or_fatal,
}

-- http2.Frame: the payload is the data, or the fragment of a header block.
pub record WireFrame : Type 0 where
  pub header : FrameHeader
  pub payload : Bytes
  pub headers_ended : Bool

-- http2.Framer.ReadFrame until the end of the bytes, hpack.Decoder.DecodeFull, whose state is `D`,
-- and http2.ClientPreface. `none` is an error.
pub record Http2 (D : Type 0) : Type 0 where
  pub read_frames : Bytes → Option (List WireFrame)
  pub decode_full : D → Bytes → Option (List HeaderField × D)
  pub new_decoder : D
  pub client_preface : Bytes

-- `none` is the index -1.
pub record StreamInfo : Type 0 where
  pub headers_ended : Bool
  pub headers_index : Option ℕ
  pub stream : Stream

abbrev pub new_info : StreamInfo
new_info = record {
  headers_ended = true;
  headers_index = none;
  stream = record { frames = []; capture_timestamp = 0 };
}

abbrev pub StreamInfos : Type 0
StreamInfos = Assoc ℕ StreamInfo

abbrev pub info_at : ℕ → StreamInfos → StreamInfo
info_at sid infos = elim (get sid infos) [ none ↦ new_info | some si ↦ si ]

abbrev pub with_frames : StreamInfo → List Frame → Time → StreamInfo
with_frames si frames t = record si { stream = record { frames = frames; capture_timestamp = t } }

-- `append(si.stream.frames, frame{hdr, body, nil})`
abbrev pub append_frame : WireFrame → Time → StreamInfo → StreamInfo
append_frame w t si =
    with_frames si
      (si.stream.frames ++ record { header = w.header; body = w.payload; header_fields = [] } ∷ [])
      t

-- A header block starts with the fragment of a frame, and goes on with the next fragment.
abbrev pub started_block : WireFrame → Time → StreamInfo → StreamInfo
started_block w t si = record (append_frame w t si) {
  headers_ended = w.headers_ended;
  headers_index = some (length si.stream.frames);
}

abbrev pub continued_block : WireFrame → Time → StreamInfo → ℕ → Frame → StreamInfo
continued_block w t si i f =
    record (with_frames si (set si.stream.frames i (record f { body = f.body ++ w.payload })) t) {
      headers_ended = w.headers_ended;
    }

-- The whole header block takes the place of the fragments.
abbrev pub decoded_block : StreamInfo → ℕ → Frame → List HeaderField → StreamInfo
decoded_block si i f fields =
    with_frames si (set si.stream.frames i (record f { header_fields = fields; body = [] }))
      si.stream.capture_timestamp

-- `si.stream.frames[si.headersIndex]`
abbrev pub headers_frame : StreamInfo → Outcome (ℕ × Frame)
headers_frame si =
    or_fatal si.headers_index >>= λ i. or_fatal (get_elem? si.stream.frames i) >>= λ f. ok (i, f)

abbrev pub starts_with : Bytes → Bytes → Bool
starts_with [] bytes = true
starts_with (p ∷ prefix) [] = false
starts_with (p ∷ prefix) (b ∷ bytes) = p == b && starts_with prefix bytes

-- The streams that have frames.
abbrev pub kept_entry : ℕ → Stream → List Frame → Assoc ℕ Stream → Assoc ℕ Stream
kept_entry k s [] rest = rest
kept_entry k s (f ∷ fs) rest = (k, s) ∷ rest

unfoldable pub kept_streams : StreamInfos → Assoc ℕ Stream
kept_streams [] = []
kept_streams ((sid, si) ∷ infos) = kept_entry sid si.stream si.stream.frames (kept_streams infos)

module _ {D : Type 0} (lib : Http2 D) where
  unfoldable pub without_magic : Bytes → Bytes
  without_magic bytes =
      if starts_with lib.client_preface bytes then drop (length lib.client_preface) bytes else bytes

  unfoldable pub decode_headers : StreamInfo → D → Outcome (StreamInfo × D)
  decode_headers si d = headers_frame si >>= λ p.
      or_fatal (lib.decode_full d p.1.body) >>= λ r. ok (decoded_block si p.0 p.1 r.0, r.1)

  unfoldable pub decode_if : Bool → StreamInfo → D → Outcome (StreamInfo × D)
  unfolding decode_headers
  decode_if ended si d = if ended then decode_headers si d else ok (si, d)

  unfoldable pub on_headers : WireFrame → Time → StreamInfo → D → Outcome (StreamInfo × D)
  unfolding decode_if
  on_headers w t si d = decode_if w.headers_ended (started_block w t si) d

  unfoldable pub on_continuation : WireFrame → Time → StreamInfo → D → Outcome (StreamInfo × D)
  unfolding decode_if
  on_continuation w t si d =
      headers_frame si >>= λ p. decode_if w.headers_ended (continued_block w t si p.0 p.1) d

  unfoldable pub on_type : FrameType → WireFrame → Time → StreamInfo → D → Outcome (StreamInfo × D)
  unfolding on_headers on_continuation
  on_type data_type w t si d = ok (append_frame w t si, d)
  on_type headers_type w t si d = on_headers w t si d
  on_type push_promise_type w t si d = on_headers w t si d
  on_type continuation_type w t si d =
      if si.headers_ended then ok (si, d) else on_continuation w t si d
  on_type (other_type n) w t si d = ok (si, d)

  unfoldable pub on_frame : WireFrame → Time → StreamInfo → D → Outcome (StreamInfo × D)
  unfolding on_type
  on_frame w t si d = on_type w.header.type w t si d

  -- The frames of one packet, and the packets.
  unfoldable pub read_packet : List WireFrame → Time → StreamInfos → D → Outcome (StreamInfos × D)
  unfolding on_frame
  read_packet [] t infos d = ok (infos, d)
  read_packet (w ∷ ws) t infos d = on_frame w t (info_at w.header.stream_id infos) d >>= λ r.
      read_packet ws t (put w.header.stream_id r.0 infos) r.1

  unfoldable pub read_packets : List PacketFrames → StreamInfos → D → Outcome (StreamInfos × D)
  unfolding without_magic read_packet
  read_packets [] infos d = ok (infos, d)
  read_packets (p ∷ ps) infos d = or_fatal (lib.read_frames (without_magic p.frames)) >>= λ ws.
      read_packet ws p.capture_timestamp infos d >>= λ r. read_packets ps r.0 r.1

  unfoldable pub frames_to_streams : List PacketFrames → Outcome (Assoc ℕ Stream)
  unfolding read_packets kept_streams
  frames_to_streams packets = read_packets packets [] lib.new_decoder >>= λ r. ok (kept_streams r.0)
