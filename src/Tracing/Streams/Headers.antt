-- ===== src/Tracing/Streams/Headers.antt =====
-- util/analysis/csi-tracing/http2.go: each stream has the frames with its number, in their order.
use cnsbench.Prelude.{
  ℕ, Bool, none, some, List, [], ◌∷◌, ◌++◌, append_assoc, append-nil, put, nat_eq, ◌≡◌, refl, sym,
  ap, ◌∙◌, if◌then◌else◌,
}
use cnsbench.Exec.Results.{Yields, yields, Yields->>=, Yields-then, Yields-if, Yields-mono}
use cnsbench.Api.{Time}
use cnsbench.Tracing.Types.{
  FrameType, data_type, headers_type, push_promise_type, continuation_type, other_type,
  PacketFrames, or_fatal,
}
use cnsbench.Tracing.Streams.{
  WireFrame, Http2, StreamInfo, StreamInfos, info_at, headers_frame, started_block, continued_block,
  on_type, without_magic, decode_headers, decode_if, on_headers, on_continuation, on_frame,
  read_packet, read_packets,
}
use cnsbench.Tracing.Streams.Wires.{
  is_stored, headers_of, headers_of-append, info_headers, frame_headers-set, Yields-or_fatal,
  headers_frame-found, appended_headers, one_more,
}

module _ {D : Type 0} (lib : Http2 D) where
  decode_headers-keeps :
      (si : StreamInfo) (d : D)
      → Yields (λ r. info_headers r.0 ≡ info_headers si) (decode_headers lib si d)
  unfolding decode_headers
  decode_headers-keeps si d = Yields->>= (headers_frame si) _ (headers_frame-found si) λ p e.
      Yields-then (or_fatal (lib.decode_full d p.1.body)) _
        λ r. yields (frame_headers-set si.stream.frames p.0 p.1 _ e refl)

  decode_if-keeps :
      (ended : Bool) (si : StreamInfo) (d : D)
      → Yields (λ r. info_headers r.0 ≡ info_headers si) (decode_if lib ended si d)
  unfolding decode_if
  decode_if-keeps ended si d = Yields-if ended _ _ (decode_headers-keeps si d) (yields refl)

  on_headers-adds :
      (w : WireFrame) (t : Time) (si : StreamInfo) (d : D)
      → Yields (λ r. info_headers r.0 ≡ info_headers si ++ w.header ∷ []) (on_headers lib w t si d)
  unfolding on_headers
  on_headers-adds w t si d =
      Yields-mono (decode_if lib w.headers_ended (started_block w t si) d)
        (decode_if-keeps w.headers_ended (started_block w t si) d)
        λ r same. same ∙ appended_headers w t si

  on_continuation-keeps :
      (w : WireFrame) (t : Time) (si : StreamInfo) (d : D)
      → Yields (λ r. info_headers r.0 ≡ info_headers si) (on_continuation lib w t si d)
  unfolding on_continuation
  on_continuation-keeps w t si d = Yields->>= (headers_frame si) _ (headers_frame-found si) λ p e.
      Yields-mono (decode_if lib w.headers_ended (continued_block w t si p.0 p.1) d)
        (decode_if-keeps w.headers_ended (continued_block w t si p.0 p.1) d)
        λ r same. same ∙ frame_headers-set si.stream.frames p.0 p.1 _ e refl

  on_type-adds :
      (type : FrameType) (w : WireFrame) (t : Time) (si : StreamInfo) (d : D)
      → Yields
          (λ r.
            info_headers r.0 ≡ info_headers si ++ (if is_stored type then w.header ∷ [] else []))
          (on_type lib type w t si d)
  unfolding on_type
  on_type-adds data_type w t si d = yields (appended_headers w t si)
  on_type-adds headers_type w t si d = on_headers-adds w t si d
  on_type-adds push_promise_type w t si d = on_headers-adds w t si d
  on_type-adds continuation_type w t si d =
      Yields-if si.headers_ended _ _ (yields (sym (append-nil _))) (
        Yields-mono (on_continuation lib w t si d) (on_continuation-keeps w t si d)
          λ r same. same ∙ sym (append-nil _))
  on_type-adds (other_type n) w t si d = yields (sym (append-nil _))

  read_packet-adds :
      (ws : List WireFrame) (t : Time) (infos : StreamInfos) (d : D)
      → Yields
          (λ r.
            (sid : ℕ)
            → info_headers (info_at sid r.0)
              ≡ info_headers (info_at sid infos) ++ headers_of sid ws)
          (read_packet lib ws t infos d)
  unfolding read_packet on_frame headers_of
  read_packet-adds [] t infos d = yields (λ sid. sym (append-nil _))
  read_packet-adds (w ∷ ws) t infos d =
      Yields->>= (on_frame lib w t (info_at w.header.stream_id infos) d) _
        (on_type-adds w.header.type w t (info_at w.header.stream_id infos) d)
        λ r e.
          Yields-mono (read_packet lib ws t (put w.header.stream_id r.0 infos) r.1)
            (read_packet-adds ws t (put w.header.stream_id r.0 infos) r.1)
            λ r' more sid. more sid ∙ one_more w ws infos r.0 sid e

  -- The frames of all packets, up to one that cannot be read.
  unfoldable pub all_frames : List PacketFrames → List WireFrame
  all_frames [] = []
  all_frames (p ∷ ps) =
      let rest = all_frames ps in
      elim (lib.read_frames (without_magic lib p.frames)) [ none ↦ [] | some ws ↦ ws ++ rest ]

  all_frames-some :
      (p : PacketFrames) (ps : List PacketFrames) (ws : List WireFrame)
      → lib.read_frames (without_magic lib p.frames) ≡ some ws
      → all_frames (p ∷ ps) ≡ ws ++ all_frames ps
  unfolding all_frames
  all_frames-some p ps ws e = rw (all_frames, e) refl

  pub read_packets-adds :
      (ps : List PacketFrames) (infos : StreamInfos) (d : D)
      → Yields
          (λ r.
            (sid : ℕ)
            → info_headers (info_at sid r.0)
              ≡ info_headers (info_at sid infos) ++ headers_of sid (all_frames ps))
          (read_packets lib ps infos d)
  unfolding read_packets headers_of all_frames
  read_packets-adds [] infos d = yields (λ sid. sym (append-nil _))
  read_packets-adds (p ∷ ps) infos d =
      Yields->>= (or_fatal (lib.read_frames (without_magic lib p.frames))) _ (Yields-or_fatal _)
        λ ws e.
          Yields->>= (read_packet lib ws p.capture_timestamp infos d) _
            (read_packet-adds ws _ infos d)
            λ r one.
              Yields-mono (read_packets lib ps r.0 r.1) (read_packets-adds ps r.0 r.1)
                λ r' more sid.
                  more sid
                  ∙ ap (λ hs. hs ++ headers_of sid (all_frames ps)) (one sid)
                  ∙ append_assoc (info_headers (info_at sid infos)) (headers_of sid ws)
                      (headers_of sid (all_frames ps))
                  ∙ ap (λ hs. info_headers (info_at sid infos) ++ hs)
                      (sym (headers_of-append sid ws (all_frames ps))
                        ∙ ap (headers_of sid) (sym (all_frames-some p ps ws e)))
