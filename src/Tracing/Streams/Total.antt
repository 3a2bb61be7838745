-- ===== src/Tracing/Streams/Total.antt =====
-- util/analysis/csi-tracing/http2.go: no index of framesToStreams is out of range.
use cnsbench.Prelude.{
  ℕ, Bool, true, false, some, List, [], ◌∷◌, Assoc, get, put, get_elem?, length, get_elem?-last,
  get_elem?-append, get_elem?-set, ◌==◌, nat_eq, ◌≡◌, refl, sym, ap, ◌∙◌, subst, Bool-cases, inl,
  inr, if◌then◌else◌,
}
use mathlib.Core.Bool.{false≢true}
use cnsbench.Exec.{Outcome, ok, err, fault}
use cnsbench.Exec.Results.{◌>>=◌}
use cnsbench.Api.{Time}
use cnsbench.Tracing.Types.{
  FrameType, data_type, headers_type, push_promise_type, continuation_type, other_type, HeaderField,
  Frame, Stream, PacketFrames, or_fatal,
}
use cnsbench.Tracing.Streams.{
  WireFrame, Http2, StreamInfo, StreamInfos, info_at, append_frame, headers_frame, decoded_block,
  started_block, continued_block, without_magic, decode_headers, decode_if, on_headers,
  on_continuation, on_type, on_frame, read_packet, read_packets, kept_streams, frames_to_streams,
}
use cnsbench.Tracing.Streams.Wires.{info_at-put}

-- The index of a header block is in range.
abbrev HasBlock : StreamInfo → Type 0
HasBlock si =
    (i : ℕ) × (f : Frame) × (si.headers_index ≡ some i) × (get_elem? si.stream.frames i ≡ some f)

-- A block that has not ended is there to be continued.
abbrev IsReady : StreamInfo → Type 0
IsReady si = si.headers_ended ≡ false → HasBlock si

abbrev AllReady : StreamInfos → Type 0
AllReady infos = (sid : ℕ) → IsReady (info_at sid infos)

IsReady-append :
    (w : WireFrame) (t : Time) (si : StreamInfo) → IsReady si → IsReady (append_frame w t si)
IsReady-append w t si h still =
    let (i, f, index, found) = h still in (i, f, index, get_elem?-append si.stream.frames _ i found)

HasBlock-started : (w : WireFrame) (t : Time) (si : StreamInfo) → HasBlock (started_block w t si)
HasBlock-started w t si = (length si.stream.frames, _, refl, get_elem?-last si.stream.frames _)

headers_frame-at :
    (si : StreamInfo) (i : ℕ) (f : Frame)
    → si.headers_index ≡ some i
    → get_elem? si.stream.frames i ≡ some f
    → headers_frame si ≡ ok (i, f)
headers_frame-at si i f index found = rw (index, found) refl

AllReady-put :
    (id : ℕ) (si : StreamInfo) (infos : StreamInfos)
    → IsReady si
    → AllReady infos
    → AllReady (put id si infos)
AllReady-put id si infos h hs sid =
    subst IsReady (sym (info_at-put id sid si infos)) (either (id == sid))
  where
    either : (b : Bool) → IsReady (if b then si else info_at sid infos)
    either true = h
    either false = hs sid

-- What holds after a call, where it returns.
abbrev pub IfReturned : {A : Type 0} → (A → Type 0) → Outcome A → Type 0
IfReturned P (ok a) = P a
IfReturned P (err e) = Unit
IfReturned P (fault x) = Unit

IfReturned-ok :
    {A : Type 0} (P : A → Type 0) {m : Outcome A} {a : A} → m ≡ ok a → IfReturned P m → P a
IfReturned-ok P e h = subst (IfReturned P) e h

module _ {D : Type 0} (lib : Http2 D) where
  -- The decoder, in its state, accepts the block that the stream has collected.
  abbrev AcceptsBlock : StreamInfo → D → Type 0
  AcceptsBlock si d =
      (i : ℕ) (f : Frame)
      → si.headers_index ≡ some i
      → get_elem? si.stream.frames i ≡ some f
      → (r : List HeaderField × D) × (lib.decode_full d f.body ≡ some r)

  -- The same of a frame, if the frame ends a block.
  abbrev pub AcceptsFrame : FrameType → WireFrame → Time → StreamInfo → D → Type 0
  AcceptsFrame data_type w t si d = Unit
  AcceptsFrame headers_type w t si d =
      w.headers_ended ≡ true → AcceptsBlock (started_block w t si) d
  AcceptsFrame push_promise_type w t si d =
      w.headers_ended ≡ true → AcceptsBlock (started_block w t si) d
  AcceptsFrame continuation_type w t si d =
      (i : ℕ) (f : Frame)
      → si.headers_index ≡ some i
      → get_elem? si.stream.frames i ≡ some f
      → w.headers_ended ≡ true
      → AcceptsBlock (continued_block w t si i f) d
  AcceptsFrame (other_type n) w t si d = Unit

  -- Frame after frame, each with the state in which the ones before left the decoder.
  abbrev pub AcceptsFrames : List WireFrame → Time → StreamInfos → D → Type 0
  AcceptsFrames [] t infos d = Unit
  AcceptsFrames (w ∷ ws) t infos d =
      let si = info_at w.header.stream_id infos in
      AcceptsFrame w.header.type w t si d
      × IfReturned (λ r. AcceptsFrames ws t (put w.header.stream_id r.0 infos) r.1)
          (on_frame lib w t si d)

  -- The frames of every packet can be read, and the header blocks that end in it are accepted.
  abbrev pub Accepts : List PacketFrames → StreamInfos → D → Type 0
  Accepts [] infos d = Unit
  Accepts (p ∷ ps) infos d =
      (ws : List WireFrame) × (lib.read_frames (without_magic lib p.frames) ≡ some ws)
      × AcceptsFrames ws p.capture_timestamp infos d
      × IfReturned (λ r. Accepts ps r.0 r.1) (read_packet lib ws p.capture_timestamp infos d)

  decode_headers-ok :
      (si : StreamInfo) (d : D)
      → HasBlock si
      → AcceptsBlock si d
      → (r : StreamInfo × D) × (decode_headers lib si d ≡ ok r)
        × (r.0.headers_ended ≡ si.headers_ended)
  unfolding decode_headers
  decode_headers-ok si d (i, f, index, found) accepts =
      let ((fields, d'), decoded) = accepts i f index found in
      (
        (decoded_block si i f fields, d'),
        ap
              (λ m. m >>= λ p. or_fatal (lib.decode_full d p.1.body) >>= λ r.
                ok (decoded_block si p.0 p.1 r.0, r.1))
              (headers_frame-at si i f index found)
            ∙ ap (λ o. or_fatal o >>= λ r. ok (decoded_block si i f r.0, r.1)) decoded,
        refl,
      )

  -- A block that ends now is decoded, and one that does not can be continued.
  decode_if-ok :
      (ended : Bool) (si : StreamInfo) (d : D)
      → si.headers_ended ≡ ended
      → HasBlock si
      → (ended ≡ true → AcceptsBlock si d)
      → (r : StreamInfo × D) × (decode_if lib ended si d ≡ ok r) × IsReady r.0
  unfolding decode_if
  decode_if-ok true si d e h accepts =
      let (r, done, same) = decode_headers-ok si d h (accepts refl) in
      (r, done, λ still. absurd (false≢true (sym still ∙ same ∙ e)))
  decode_if-ok false si d e h accepts = ((si, d), refl, λ still. h)

  on_headers-ok :
      (w : WireFrame) (t : Time) (si : StreamInfo) (d : D)
      → (w.headers_ended ≡ true → AcceptsBlock (started_block w t si) d)
      → (r : StreamInfo × D) × (on_headers lib w t si d ≡ ok r) × IsReady r.0
  unfolding on_headers
  on_headers-ok w t si d accepts =
      decode_if-ok w.headers_ended (started_block w t si) d refl (HasBlock-started w t si) accepts

  on_continuation-ok :
      (w : WireFrame) (t : Time) (si : StreamInfo) (d : D)
      → HasBlock si
      → AcceptsFrame continuation_type w t si d
      → (r : StreamInfo × D) × (on_continuation lib w t si d ≡ ok r) × IsReady r.0
  unfolding on_continuation
  on_continuation-ok w t si d (i, f, index, found) accepts =
      let (r, done, ready) =
        decode_if-ok w.headers_ended (continued_block w t si i f) d refl
          (i, _, index, get_elem?-set si.stream.frames i _ found) (accepts i f index found) in
      (
        r,
        ap (λ m. m >>= λ p. decode_if lib w.headers_ended (continued_block w t si p.0 p.1) d)
              (headers_frame-at si i f index found)
            ∙ done,
        ready,
      )

  on_type-ok :
      (type : FrameType) (w : WireFrame) (t : Time) (si : StreamInfo) (d : D)
      → IsReady si
      → AcceptsFrame type w t si d
      → (r : StreamInfo × D) × (on_type lib type w t si d ≡ ok r) × IsReady r.0
  unfolding on_type
  on_type-ok data_type w t si d h accepts =
      ((append_frame w t si, d), refl, IsReady-append w t si h)
  on_type-ok headers_type w t si d h accepts = on_headers-ok w t si d accepts
  on_type-ok push_promise_type w t si d h accepts = on_headers-ok w t si d accepts
  on_type-ok continuation_type w t si d h accepts = elim (Bool-cases si.headers_ended) [
    | inl e ↦ ((si, d), rw (e) refl, h)
    | inr e ↦
        let (r, done, ready) = on_continuation-ok w t si d (h e) accepts in
        (r, ap (λ b. if b then ok (si, d) else on_continuation lib w t si d) e ∙ done, ready)
  ]
  on_type-ok (other_type n) w t si d h accepts = ((si, d), refl, h)

  read_packet-ok :
      (ws : List WireFrame) (t : Time) (infos : StreamInfos) (d : D)
      → AllReady infos
      → AcceptsFrames ws t infos d
      → (r : StreamInfos × D) × (read_packet lib ws t infos d ≡ ok r) × AllReady r.0
  unfolding read_packet on_frame
  read_packet-ok [] t infos d h accepts = ((infos, d), refl, h)
  read_packet-ok (w ∷ ws) t infos d h (accepts, more) =
      let id = w.header.stream_id in
      let (r, done, ready) = on_type-ok w.header.type w t (info_at id infos) d (h id) accepts in
      let (r', done', ready') =
        read_packet-ok ws t (put id r.0 infos) r.1 (AllReady-put id r.0 infos ready h)
          (IfReturned-ok (λ q. AcceptsFrames ws t (put id q.0 infos) q.1) done more) in
      (r', rw (done) done', ready')

  read_packets-ok :
      (ps : List PacketFrames) (infos : StreamInfos) (d : D)
      → Accepts ps infos d
      → AllReady infos
      → (r : StreamInfos × D) × (read_packets lib ps infos d ≡ ok r)
  unfolding read_packets
  read_packets-ok [] infos d accepts h = ((infos, d), refl)
  read_packets-ok (p ∷ ps) infos d (ws, read, accepts, more) h =
      let (r, done, ready) = read_packet-ok ws p.capture_timestamp infos d h accepts in
      let (r', done') =
        read_packets-ok ps r.0 r.1 (IfReturned-ok (λ q. Accepts ps q.0 q.1) done more) ready in
      (r', rw (read, done) done')

  -- If the frames of every packet can be read, and the decoder accepts each header block of
  -- the packets in the state in which the blocks before it left the decoder, framesToStreams
  -- returns: no index of a header block is out of range, whatever the order of the frames.
  pub frames_to_streams-total :
      (packets : List PacketFrames)
      → Accepts packets [] lib.new_decoder
      → (streams : Assoc ℕ Stream) × (frames_to_streams lib packets ≡ ok streams)
  unfolding frames_to_streams get
  frames_to_streams-total packets accepts =
      let (r, done) =
        read_packets-ok packets [] lib.new_decoder accepts
          (λ sid still. absurd (false≢true (sym still))) in
      (kept_streams r.0, rw (done) refl)
