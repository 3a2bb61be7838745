-- ===== src/Tracing/Messages.antt =====
-- util/analysis/csi-tracing/csi.go: the frame of a gRPC message, and the types of the messages.
pub mod Shifts
pub mod Framing
use Prim.Native.Nat.{bit_or}
use cnsbench.Prelude.{
  ℕ, ◌*◌, ◌%◌, ◌^◌, String, Bool, true, false, Option, none, some, List, [], ◌∷◌, length, ltb, not,
  ◌==◌, nat_eq, string_eq, if◌then◌else◌,
}
use cnsbench.Exec.{Outcome, ok, fault, panic}
use cnsbench.Exec.Results.{◌>>=◌}
use cnsbench.Tracing.Types.{Bytes, or_fatal}

pub record GrpcMessage : Type 0 where
  pub compressed_flag : ℕ
  pub message_length : ℕ
  pub message : Bytes

-- `n << 8 | b` on uint32
abbrev pub shift_in : ℕ → ℕ → ℕ
shift_in n b = bit_or (n * 2 ^ 8 % 2 ^ 32) b

-- The two checks of a message that was split from a frame.
abbrev pub checked : GrpcMessage → Outcome GrpcMessage
checked msg =
    if ltb 0 msg.compressed_flag
    then fault panic
    else if not (msg.message_length == length msg.message % 2 ^ 32)
    then fault panic
    else ok msg

-- A frame of fewer than five bytes is out of range.
unfoldable pub parse_grpc_message : Bytes → Outcome GrpcMessage
parse_grpc_message (c ∷ b1 ∷ b2 ∷ b3 ∷ b4 ∷ rest) = checked (record {
  compressed_flag = c;
  message_length = shift_in (shift_in (shift_in b1 b2) b3) b4;
  message = rest;
})
parse_grpc_message _ = fault panic
