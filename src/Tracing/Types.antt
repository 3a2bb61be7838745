-- ===== src/Tracing/Types.antt =====
-- util/analysis/csi-tracing/types.go, with the types of the packages net, gopacket and http2 that
-- its records hold.
use cnsbench.Prelude.{ℕ, String, Option, List, Assoc}
use cnsbench.Exec.{Outcome, ok, fault, panic}
use cnsbench.Prelude.{none, some}
use cnsbench.Api.{Time}

abbrev pub Bytes : Type 0
Bytes = List ℕ

-- net.IP, whose nil is the empty list, and layers.TCPPort
abbrev pub Ip : Type 0
Ip = Bytes

abbrev pub Port : Type 0
Port = ℕ

-- http2.FrameType; `other_type` is any frame that the program does not look into.
pub data FrameType : Type 0 where
  data_type headers_type push_promise_type continuation_type : FrameType
  other_type : ℕ → FrameType

-- http2.FrameHeader
pub record FrameHeader : Type 0 where
  pub type : FrameType
  pub flags : ℕ
  pub length : ℕ
  pub stream_id : ℕ

-- hpack.HeaderField
pub record HeaderField : Type 0 where
  pub name : String
  pub value : String

pub record Frame : Type 0 where
  pub header : FrameHeader
  pub body : Bytes
  pub header_fields : List HeaderField

pub record Stream : Type 0 where
  pub frames : List Frame
  pub capture_timestamp : Time

pub record RawStreams : Type 0 where
  pub a_ip : Ip
  pub b_ip : Ip
  pub a_port : Port
  pub b_port : Port
  pub ab : Assoc ℕ Stream
  pub ba : Assoc ℕ Stream

-- frames: the bytes of one packet
pub record PacketFrames : Type 0 where
  pub frames : Bytes
  pub capture_timestamp : Time

pub record RawFrames : Type 0 where
  pub src_ip : Ip
  pub dst_ip : Ip
  pub src_port : Port
  pub dst_port : Port
  pub frames : List PacketFrames

-- The two messages of a call, of a type that the generated code declares.
pub record CsiRpc (M : Type 0) : Type 0 where
  pub client_ip : Ip
  pub client_port : Port
  pub client_name : String
  pub csi_path : String
  pub request : M
  pub response : M
  pub request_time : Time
  pub response_time : Time

-- log.Fatal, like a panic, ends the program.
abbrev pub or_fatal {ℓ} : {A : Type ℓ} → Option A → Outcome A
or_fatal none = fault panic
or_fatal (some a) = ok a
