-- ===== src/Tracing/Logs.antt =====
-- util/analysis/csi-tracing/tologs.go and timing.go: the log of the calls in a capture.
pub mod Entries
use Prim.Native.Char.{Char, code}
use Prim.Native.String
use cnsbench.Prelude.{
  ℕ, ℤ, pos, negsuc, ◌-◌, ◌^◌, String, Bool, true, false, Option, none, some, List, [], ◌∷◌, map,
  ltb, leb, ◌==◌, nat_eq, if◌then◌else◌,
}
use cnsbench.Exec.{Outcome, ok}
use cnsbench.Exec.Results.{◌>>=◌}
use cnsbench.Api.{Time}
use cnsbench.ObjectTiming.Records.{at_most}
use cnsbench.Tracing.Types.{Bytes, CsiRpc}
use cnsbench.Tracing.Streams.{Http2}
use cnsbench.Tracing.Calls.{split_last, parse_rpcs}
use cnsbench.Tracing.Packets.{Texts, Packet, parse_packets, extract_streams}

pub record CsiLog (M : Type 0) : Type 0 where
  pub action : String
  pub path : String
  pub agent_name : String
  pub agent_ip : String
  pub agent_port : String
  pub start : Time
  pub end : Time
  pub duration : ℤ
  pub request : M
  pub response : M

-- The last part of strings.Split(path, "/").
unfoldable pub last_part : String → String
unfolding split_last
last_part path = elim (split_last path) [ none ↦ path | some (front, back) ↦ back ]

-- `t2.Sub(t1)`, which stops at the bounds of a Duration.
unfoldable pub sub_time : Time → Time → ℤ
sub_time t2 t1 =
    if leb t1 t2
    then pos (at_most (2 ^ 63 - 1) (t2 - t1))
    else negsuc (at_most (2 ^ 63) (t1 - t2) - 1)

-- byResponseTime.Less(i, j), on the elements
abbrev pub is_earlier : {M : Type 0} → CsiRpc M → CsiRpc M → Bool
is_earlier a b = ltb a.response_time b.response_time

module _ (texts : Texts) {M : Type 0} where
  unfoldable pub process_rpc : CsiRpc M → CsiLog M
  unfolding last_part sub_time
  process_rpc r = record {
    action = last_part r.csi_path;
    path = r.csi_path;
    agent_name = r.client_name;
    agent_ip = texts.ip_text r.client_ip;
    agent_port = texts.port_text r.client_port;
    start = r.request_time;
    end = r.response_time;
    duration = sub_time r.response_time r.request_time;
    request = r.request;
    response = r.response;
  }

  unfoldable pub extract_logs : List (CsiRpc M) → List (CsiLog M)
  unfolding process_rpc
  extract_logs rpcs = map process_rpc rpcs

  -- sort.Sort is a parameter, which is given the order; the packets are those of the file.
  module _ {D : Type 0} (lib : Http2 D) (unmarshal : String → Bytes → Option M)
      (sort : (CsiRpc M → CsiRpc M → Bool) → List (CsiRpc M) → List (CsiRpc M)) where
    unfoldable pub parse_csi_pcap_file : List Packet → Outcome (List (CsiRpc M))
    unfolding parse_packets extract_streams parse_rpcs
    parse_csi_pcap_file packets =
        extract_streams texts lib (parse_packets texts packets []) >>= λ raw_streams.
        parse_rpcs unmarshal raw_streams [] >>= λ rpcs. ok (sort is_earlier rpcs)

    unfoldable pub pcap_to_logs : List Packet → Outcome (List (CsiLog M))
    unfolding parse_csi_pcap_file extract_logs
    pcap_to_logs packets = parse_csi_pcap_file packets >>= λ rpcs. ok (extract_logs rpcs)
