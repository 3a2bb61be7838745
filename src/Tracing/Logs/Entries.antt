-- ===== src/Tracing/Logs/Entries.antt =====
-- util/analysis/csi-tracing/tologs.go: what the log says of a call.
use cnsbench.Prelude.{pos, ◌-◌, ◌≤◌, ◌<◌, ◌+◌, String, true, ◌⧺◌, ◌≡◌, refl, ap, ◌∙◌, arith}
use cnsbench.Api.{Time}
use cnsbench.Tracing.Types.{CsiRpc}
use cnsbench.Tracing.Packets.{Texts}
use cnsbench.Tracing.Calls.Paths.{has_no_slash, split_last-append}
use cnsbench.Tracing.Logs.{last_part, sub_time, process_rpc}

sub_time-later :
    (t1 t2 : Time) → t1 ≤ t2 → t2 < t1 + 9223372036854775808 → sub_time t2 t1 ≡ pos (t2 - t1)
unfolding sub_time
sub_time-later t1 t2 order small = ground arith

last_part-append :
    (front back : String) → has_no_slash back ≡ true → last_part (front ⧺ ("/" ⧺ back)) ≡ back
unfolding last_part
last_part-append front back h = rw (last_part, split_last-append front back h) refl

-- If the path of a call ends in a slash and a name without slashes, and the response is not
-- earlier than the request and less than 2^63 nanoseconds later, the log entry has this name
-- as its action and the exact difference of the two times as its duration.
pub process_rpc-entry :
    (texts : Texts) {M : Type 0} (r : CsiRpc M) (front rpc : String)
    → r.csi_path ≡ front ⧺ ("/" ⧺ rpc)
    → has_no_slash rpc ≡ true
    → r.request_time ≤ r.response_time
    → r.response_time < r.request_time + 9223372036854775808
    → ((process_rpc texts r).action ≡ rpc)
      × ((process_rpc texts r).duration ≡ pos (r.response_time - r.request_time))
unfolding process_rpc
process_rpc-entry texts r front rpc path plain order small = (
  ap last_part path ∙ last_part-append front rpc plain,
  sub_time-later r.request_time r.response_time order small,
)
