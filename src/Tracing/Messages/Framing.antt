-- ===== src/Tracing/Messages/Framing.antt =====
-- util/analysis/csi-tracing/csi.go: a message that is framed as gRPC says is read back, and no other
-- frame is accepted.
use cnsbench.Prelude.{
  ℕ, ◌+◌, ◌*◌, ◌/◌, ◌%◌, ◌^◌, ◌<◌, [], ◌∷◌, All, length, nat_eq, ◌≡◌, refl, ap, ◌∙◌, sym, arith,
}
use cnsbench.Exec.{ok}
use cnsbench.Tracing.Types.{Bytes}
use cnsbench.Tracing.Messages.{GrpcMessage, shift_in, checked, parse_grpc_message}
use cnsbench.Tracing.Messages.Shifts.{bit_or-byte}

-- The format: a zero for a message that is not compressed, its length in four bytes with the highest
-- one first, and the message.
unfoldable pub framed : Bytes → Bytes
framed message =
    let n = length message % 2 ^ 32 in
    0 ∷ n / 2 ^ 24 ∷ n / 2 ^ 16 % 2 ^ 8 ∷ n / 2 ^ 8 % 2 ^ 8 ∷ n % 2 ^ 8 ∷ message

shift_in-add : (n b : ℕ) → n < 16777216 → b < 256 → shift_in n b ≡ n * 256 + b
shift_in-add n b small byte =
    bit_or-byte (n * 2 ^ 8 % 2 ^ 32) b (omega arith) byte ∙ omega (arith, small)

-- Four bytes, the highest one first.
shifted :
    (b1 b2 b3 b4 : ℕ)
    → b1 < 256
    → b2 < 256
    → b3 < 256
    → b4 < 256
    → shift_in (shift_in (shift_in b1 b2) b3) b4 ≡ b1 * 16777216 + b2 * 65536 + b3 * 256 + b4
shifted b1 b2 b3 b4 h1 h2 h3 h4 =
    let two : shift_in b1 b2 ≡ b1 * 256 + b2 = shift_in-add b1 b2 (omega (arith, h1)) h2 in
    let three : shift_in (shift_in b1 b2) b3 ≡ (b1 * 256 + b2) * 256 + b3 =
      ap (λ n. shift_in n b3) two ∙ shift_in-add (b1 * 256 + b2) b3 (omega (arith, h1, h2)) h3 in
    ap (λ n. shift_in n b4) three
    ∙ shift_in-add ((b1 * 256 + b2) * 256 + b3) b4 (omega (arith, h1, h2, h3)) h4
    ∙ omega arith

checked-ok :
    (c l : ℕ) (m : Bytes)
    → c ≡ 0
    → l ≡ length m % 4294967296
    → checked (record { compressed_flag = c; message_length = l; message = m })
      ≡ ok (record { compressed_flag = c; message_length = l; message = m })
checked-ok c l m zero same = ground (arith, zero, same)

checked-inv :
    (c l : ℕ) (m : Bytes) (msg : GrpcMessage)
    → checked (record { compressed_flag = c; message_length = l; message = m }) ≡ ok msg
    → (c ≡ 0) × (l ≡ length m % 4294967296) × (m ≡ msg.message)
checked-inv c l m msg h = ground arith

five :
    (b b' b1 b1' b2 b2' b3 b3' b4 b4' : ℕ) (m m' : Bytes)
    → b ≡ b'
    → b1 ≡ b1'
    → b2 ≡ b2'
    → b3 ≡ b3'
    → b4 ≡ b4'
    → m ≡ m'
    → (b ∷ b1 ∷ b2 ∷ b3 ∷ b4 ∷ m) ≡ (b' ∷ b1' ∷ b2' ∷ b3' ∷ b4' ∷ m')
five b b' b1 b1' b2 b2' b3 b3' b4 b4' m m' e e1 e2 e3 e4 f = cc

pub parse_grpc_message-framed :
    (message : Bytes)
    → parse_grpc_message (framed message)
      ≡ ok (record {
        compressed_flag = 0;
        message_length = length message % 4294967296;
        message = message;
      })
unfolding parse_grpc_message framed
parse_grpc_message-framed message =
    let n = length message % 2 ^ 32 in
    let joined : shift_in
          (shift_in (shift_in (n / 2 ^ 24) (n / 2 ^ 16 % 2 ^ 8)) (n / 2 ^ 8 % 2 ^ 8)) (n % 2 ^ 8)
        ≡ n =
      shifted (n / 2 ^ 24) (n / 2 ^ 16 % 2 ^ 8) (n / 2 ^ 8 % 2 ^ 8) (n % 2 ^ 8) (omega arith)
        (omega arith) (omega arith) (omega arith)
      ∙ omega arith in
    ap (λ l. checked (record { compressed_flag = 0; message_length = l; message = message })) joined
    ∙ checked-ok 0 n message refl refl

-- A frame of bytes from which a message is read is that message, framed: every other frame, a
-- shorter one, a compressed one and one with another length, ends the program.
pub parse_grpc_message-accepts :
    (frame : Bytes) (msg : GrpcMessage)
    → All (λ b. b < 256) frame
    → parse_grpc_message frame ≡ ok msg
    → frame ≡ framed msg.message
unfolding parse_grpc_message framed
parse_grpc_message-accepts [] msg bytes h = cc
parse_grpc_message-accepts (c ∷ []) msg bytes h = cc
parse_grpc_message-accepts (c ∷ b1 ∷ []) msg bytes h = cc
parse_grpc_message-accepts (c ∷ b1 ∷ b2 ∷ []) msg bytes h = cc
parse_grpc_message-accepts (c ∷ b1 ∷ b2 ∷ b3 ∷ []) msg bytes h = cc
parse_grpc_message-accepts (c ∷ b1 ∷ b2 ∷ b3 ∷ b4 ∷ rest) msg (_, (h1, (h2, (h3, (h4, _))))) h =
    let (plain, size, same) =
      checked-inv c (shift_in (shift_in (shift_in b1 b2) b3) b4) rest msg h in
    let total : b1 * 16777216 + b2 * 65536 + b3 * 256 + b4 ≡ length msg.message % 4294967296 =
      sym (shifted b1 b2 b3 b4 h1 h2 h3 h4) ∙ size ∙ ap (λ m. length m % 4294967296) same in
    five _ _ _ _ _ _ _ _ _ _ _ _ plain (omega (arith, total, h2, h3, h4))
      (omega (arith, total, h2, h3, h4)) (omega (arith, total, h2, h3, h4))
      (omega (arith, total, h4)) same
