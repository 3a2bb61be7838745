-- ===== src/Tracing/Packets.antt =====
-- util/analysis/csi-tracing/pcap.go, and extractStreams of http2.go: the packets between two hosts.
-- The layers of a packet are read by gopacket, and the texts of addresses by the packages net and
-- layers: the parameter `Texts`.
pub mod Directions
use cnsbench.Prelude.{
  ℕ, String, Option, none, some, List, [], ◌∷◌, ◌++◌, Assoc, get, put, delete, ◌⧺◌, string_eq, map,
}
use cnsbench.Exec.{Outcome, ok}
use cnsbench.Exec.Results.{◌>>=◌}
use cnsbench.Api.{Time}
use cnsbench.Tracing.Types.{Bytes, Ip, Port, PacketFrames, RawFrames, RawStreams}
use cnsbench.Tracing.Streams.{Http2, frames_to_streams}

pub record Texts : Type 0 where
  pub ip_text : Ip → String
  pub port_text : Port → String

-- gopacket.Packet, with the layers that it has.
pub record Packet : Type 0 where
  pub ip : Option (Ip × Ip)
  pub tcp : Option (Port × Port)
  pub application : Option Bytes
  pub timestamp : Time

abbrev pub raw_frames : Ip → Ip → Port → Port → List PacketFrames → RawFrames
raw_frames si di sp dp frames = record {
  src_ip = si;
  dst_ip = di;
  src_port = sp;
  dst_port = dp;
  frames = frames;
}

-- A packet without one of the layers has no addresses, and a nil address counts as none.
abbrev pub with_layers :
    Option (Ip × Ip) → Option (Port × Port) → Option Bytes → Time → Option RawFrames
with_layers (some (s ∷ si, di)) (some (sp, dp)) (some payload) t =
    some (raw_frames (s ∷ si) di sp dp (record { frames = payload; capture_timestamp = t } ∷ []))
with_layers _ _ _ t = none

unfoldable pub parse_packet : Packet → Option RawFrames
parse_packet packet = with_layers packet.ip packet.tcp packet.application packet.timestamp

module _ (texts : Texts) where
  unfoldable pub srcdst_identifier : Ip → Ip → Port → Port → String
  srcdst_identifier si di sp dp =
      texts.ip_text si ⧺ (texts.ip_text di ⧺ (texts.port_text sp ⧺ texts.port_text dp))

  abbrev pub identifier_of : RawFrames → String
  identifier_of one = srcdst_identifier one.src_ip one.dst_ip one.src_port one.dst_port

  unfoldable pub add_packet : RawFrames → Assoc String RawFrames → Assoc String RawFrames
  unfolding srcdst_identifier
  add_packet one rf =
      let id = identifier_of one in
      elim (get id rf) [
        | none ↦ put id one rf
        | some x ↦ put id (record x { frames = x.frames ++ one.frames }) rf
      ]

  unfoldable pub parse_packets : List Packet → Assoc String RawFrames → Assoc String RawFrames
  unfolding parse_packet add_packet
  parse_packets [] rf = rf
  parse_packets (packet ∷ packets) rf = elim (parse_packet packet) [
    | none ↦ parse_packets packets rf
    | some one ↦ parse_packets packets (add_packet one rf)
  ]

  module _ {D : Type 0} (lib : Http2 D) where
    abbrev pub paired : RawFrames → RawFrames → Outcome RawStreams
    paired rf x = frames_to_streams lib rf.frames >>= λ ab. frames_to_streams lib x.frames >>= λ ba.
        ok (record {
          a_ip = rf.src_ip;
          b_ip = rf.dst_ip;
          a_port = rf.src_port;
          b_port = rf.dst_port;
          ab = ab;
          ba = ba;
        })

    -- One round: the entry of a direction is taken out, and then the one of the other direction.
    unfoldable pub extract_round :
        String
        → Assoc String RawFrames
        → List RawStreams
        → Outcome (List RawStreams × Assoc String RawFrames)
    unfolding srcdst_identifier
    extract_round id rfs streams = elim (get id rfs) [
      | none ↦ ok (streams, rfs)
      | some rf ↦
          let rest = delete id rfs in
          let ba_id = srcdst_identifier rf.dst_ip rf.src_ip rf.dst_port rf.src_port in
          elim (get ba_id rest) [
            | none ↦ ok (streams, rest)
            | some x ↦ paired rf x >>= λ rs. ok (streams ++ rs ∷ [], delete ba_id rest)
          ]
    ]

    -- The loop over the keys; a key that was deleted is not visited.
    unfoldable pub extract_from :
        List String → Assoc String RawFrames → List RawStreams → Outcome (List RawStreams)
    unfolding extract_round
    extract_from [] rfs streams = ok streams
    extract_from (id ∷ ids) rfs streams =
        extract_round id rfs streams >>= λ r. extract_from ids r.1 r.0

    unfoldable pub extract_streams : Assoc String RawFrames → Outcome (List RawStreams)
    unfolding extract_from
    extract_streams rfs = extract_from (map (λ e. e.0) rfs) rfs []
