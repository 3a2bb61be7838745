-- ===== src/Tracing/Streams/Delivered.antt =====
-- util/analysis/csi-tracing/http2.go: the streams that framesToStreams returns.
use cnsbench.Prelude.{
  ℕ, true, false, Option, none, some, List, [], ◌∷◌, Assoc, get, put, get-put, ◌==◌, nat_eq,
  nat_beq_iff, ◌≡◌, refl, sym, ap, ◌∙◌, arith, Bool-cases, inl, inr, by_if, ◌≢◌,
}
use cnsbench.Exec.{ok}
use cnsbench.Exec.Results.{Yields, yields, Yields->>=, Yields-then, Yields-ok, Yields-both}
use cnsbench.Api.{Time}
use cnsbench.Tracing.Types.{FrameHeader, Frame, Stream, PacketFrames, or_fatal}
use cnsbench.Tracing.Streams.{
  WireFrame, Http2, StreamInfo, StreamInfos, new_info, info_at, without_magic, on_frame,
  read_packet, read_packets, kept_entry, kept_streams, frames_to_streams,
}
use cnsbench.Tracing.Streams.Wires.{headers_of, frame_headers}
use cnsbench.Tracing.Streams.Headers.{all_frames, read_packets-adds}

-- No key occurs twice.
abbrev pub IsMap : StreamInfos → Type 0
IsMap [] = Unit
IsMap ((k, si) ∷ infos) = (get k infos ≡ none) × IsMap infos

get-put-other :
    (k j : ℕ) (si : StreamInfo) (infos : StreamInfos)
    → (k == j) ≡ false
    → get j infos ≡ none
    → get j (put k si infos) ≡ none
get-put-other k j si infos other e = ground (arith, get-put k j si infos, other, e)

IsMap-put : (k : ℕ) (si : StreamInfo) (infos : StreamInfos) → IsMap infos → IsMap (put k si infos)
unfolding put get
IsMap-put k si [] h = (refl, tt)
IsMap-put k si ((j, v) ∷ infos) h = elim (Bool-cases (j == k)) [
  | inl e ↦ rw (put, e) h
  | inr e ↦
      rw (put, e) (get-put-other k j si infos (ground (arith, e)) h.0, IsMap-put k si infos h.1)
]

module _ {D : Type 0} (lib : Http2 D) where
  read_packet-IsMap :
      (ws : List WireFrame) (t : Time) (infos : StreamInfos) (d : D)
      → IsMap infos
      → Yields (λ r. IsMap r.0) (read_packet lib ws t infos d)
  unfolding read_packet
  read_packet-IsMap [] t infos d h = yields h
  read_packet-IsMap (w ∷ ws) t infos d h =
      Yields-then (on_frame lib w t (info_at w.header.stream_id infos) d) _
        λ r. read_packet-IsMap ws t _ r.1 (IsMap-put w.header.stream_id r.0 infos h)

  read_packets-IsMap :
      (ps : List PacketFrames) (infos : StreamInfos) (d : D)
      → IsMap infos
      → Yields (λ r. IsMap r.0) (read_packets lib ps infos d)
  unfolding read_packets
  read_packets-IsMap [] infos d h = yields h
  read_packets-IsMap (p ∷ ps) infos d h =
      Yields-then (or_fatal (lib.read_frames (without_magic lib p.frames))) _ λ ws.
        Yields->>= (read_packet lib ws p.capture_timestamp infos d) _
          (read_packet-IsMap ws p.capture_timestamp infos d h)
          λ r h'. read_packets-IsMap ps r.0 r.1 h'

-- The frames of a stream that may be missing.
abbrev pub frames_of : Option Stream → List Frame
frames_of none = []
frames_of (some s) = s.frames

kept_entry-same :
    (k sid : ℕ) (s : Stream) (fs : List Frame) (rest : Assoc ℕ Stream)
    → (k == sid) ≡ true
    → s.frames ≡ fs
    → frames_of (get sid rest) ≡ []
    → frames_of (get sid (kept_entry k s fs rest)) ≡ s.frames
unfolding get
kept_entry-same k sid s [] rest same e none_left = none_left ∙ sym e
kept_entry-same k sid s (f ∷ fs) rest same e none_left = rw (get, same) refl

kept_entry-other :
    (k sid : ℕ) (s : Stream) (fs : List Frame) (rest : Assoc ℕ Stream)
    → (k == sid) ≡ false
    → frames_of (get sid (kept_entry k s fs rest)) ≡ frames_of (get sid rest)
unfolding get
kept_entry-other k sid s [] rest other = refl
kept_entry-other k sid s (f ∷ fs) rest other = rw (get, other) refl

info_at-same :
    (k sid : ℕ) (si : StreamInfo) (infos : StreamInfos)
    → (k == sid) ≡ true
    → info_at sid ((k, si) ∷ infos) ≡ si
unfolding get
info_at-same k sid si infos e = rw (info_at, get, e) refl

info_at-other :
    (k sid : ℕ) (si : StreamInfo) (infos : StreamInfos)
    → (k == sid) ≡ false
    → info_at sid ((k, si) ∷ infos) ≡ info_at sid infos
unfolding get
info_at-other k sid si infos e = rw (info_at, get, e) refl

info_at-none : (sid : ℕ) (infos : StreamInfos) → get sid infos ≡ none → info_at sid infos ≡ new_info
info_at-none sid infos e = rw (info_at, e) refl

kept_streams-frames :
    (infos : StreamInfos) (sid : ℕ)
    → IsMap infos
    → frames_of (get sid (kept_streams infos)) ≡ (info_at sid infos).stream.frames
unfolding get kept_streams
kept_streams-frames [] sid h = refl
kept_streams-frames ((k, si) ∷ infos) sid h =
    let rest : frames_of (get sid (kept_streams infos)) ≡ (info_at sid infos).stream.frames =
      kept_streams-frames infos sid h.1 in
    elim (Bool-cases (k == sid)) [
      | inl e ↦
          let missing : get sid infos ≡ none =
            ap (λ j. get j infos) (sym ((nat_beq_iff k sid).0 e)) ∙ h.0 in
          kept_entry-same k sid si.stream si.stream.frames (kept_streams infos) e refl
            (rest ∙ ap (λ i. i.stream.frames) (info_at-none sid infos missing))
          ∙ ap (λ i. i.stream.frames) (sym (info_at-same k sid si infos e))
      | inr e ↦
          kept_entry-other k sid si.stream si.stream.frames (kept_streams infos) e
          ∙ rest
          ∙ ap (λ i. i.stream.frames) (sym (info_at-other k sid si infos e))
    ]

-- A stream without frames is not kept.
abbrev HasFrames : Option Stream → Type 0
HasFrames none = Unit
HasFrames (some s) = s.frames ≢ []

kept_entry-HasFrames :
    (k sid : ℕ) (s : Stream) (fs : List Frame) (rest : Assoc ℕ Stream)
    → s.frames ≡ fs
    → HasFrames (get sid rest)
    → HasFrames (get sid (kept_entry k s fs rest))
unfolding get
kept_entry-HasFrames k sid s [] rest e h = h
kept_entry-HasFrames k sid s (f ∷ fs) rest e h = by_if HasFrames (k == sid) _ _ (λ none_left. cc) h

kept_streams-HasFrames : (infos : StreamInfos) (sid : ℕ) → HasFrames (get sid (kept_streams infos))
unfolding get kept_streams
kept_streams-HasFrames [] sid = tt
kept_streams-HasFrames ((k, si) ∷ infos) sid =
    kept_entry-HasFrames k sid si.stream si.stream.frames (kept_streams infos) refl
      (kept_streams-HasFrames infos sid)

no_frames : (fs : List Frame) → frame_headers fs ≡ [] → fs ≡ []
no_frames [] e = refl
no_frames (f ∷ fs) e = cc

missing_stream : (o : Option Stream) → HasFrames o → frame_headers (frames_of o) ≡ [] → o ≡ none
missing_stream none h e = refl
missing_stream (some s) h e = absurd (h (no_frames s.frames e))

-- The stream with a number has these headers, and is missing if there are none.
abbrev pub HasHeaders : Option Stream → List FrameHeader → Type 0
HasHeaders o headers = (frame_headers (frames_of o) ≡ headers) × (headers ≡ [] → o ≡ none)

module _ {D : Type 0} (lib : Http2 D) where
  frames_to_streams-Yields :
      (packets : List PacketFrames)
      → Yields
          (λ streams.
            (sid : ℕ) → HasHeaders (get sid streams) (headers_of sid (all_frames lib packets)))
          (frames_to_streams lib packets)
  unfolding frames_to_streams get
  frames_to_streams-Yields packets =
      Yields->>= (read_packets lib packets [] lib.new_decoder) _
        (Yields-both _ (read_packets-adds lib packets [] lib.new_decoder)
          (read_packets-IsMap lib packets [] lib.new_decoder tt))
        λ r p. yields λ sid.
          let same = ap frame_headers (kept_streams-frames r.0 sid p.1) ∙ p.0 sid in
          (same, λ empty. missing_stream _ (kept_streams-HasFrames r.0 sid) (same ∙ empty))

  -- If framesToStreams returns, then for each number of a stream the headers of the frames of
  -- that stream are, in order, the headers of the data, headers and push promise frames with
  -- that number in the packets; a number without such frames has no stream.
  pub frames_to_streams-headers :
      (packets : List PacketFrames) (streams : Assoc ℕ Stream)
      → frames_to_streams lib packets ≡ ok streams
      → (sid : ℕ) → HasHeaders (get sid streams) (headers_of sid (all_frames lib packets))
  frames_to_streams-headers packets streams e =
      Yields-ok (frames_to_streams lib packets) (frames_to_streams-Yields packets) e
