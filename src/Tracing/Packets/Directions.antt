-- ===== src/Tracing/Packets/Directions.antt =====
-- util/analysis/csi-tracing/pcap.go: the packets of each direction, in the order of the capture.
use cnsbench.Prelude.{
  String, none, some, List, [], ◌∷◌, ◌++◌, Assoc, get, ◌==◌, string_eq, if◌then◌else◌,
}
use cnsbench.Tracing.Types.{PacketFrames, RawFrames}
use cnsbench.Tracing.Packets.{Texts, Packet, parse_packet, identifier_of}

abbrev pub frames_at : String → Assoc String RawFrames → List PacketFrames
frames_at id rf = elim (get id rf) [ none ↦ [] | some x ↦ x.frames ]

module _ (texts : Texts) where
  -- The bytes of the packets with an identifier.
  unfoldable pub frames_with : String → List Packet → List PacketFrames
  frames_with id [] = []
  frames_with id (packet ∷ packets) =
      let rest = frames_with id packets in
      elim (parse_packet packet) [
        | none ↦ rest
        | some one ↦ if identifier_of texts one == id then one.frames ++ rest else rest
      ]
