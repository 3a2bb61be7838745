-- ===== src/Tracing/Streams/Wires.antt =====
-- util/analysis/csi-tracing/http2.go: the headers of the frames of one stream.
use cnsbench.Prelude.{
  ℕ, zero, suc, Bool, true, false, Option, none, some, List, [], ◌∷◌, ◌++◌, append_assoc, map, put,
  get-put, get_elem?, set, ◌&&◌, ◌==◌, nat_eq, nat_beq_iff, ◌≡◌, refl, ap, ◌∙◌, Bool-cases, inl,
  inr, if◌then◌else◌, arith,
}
use cnsbench.Exec.Results.{Yields, yields, faults, Yields->>=, Yields-then}
use cnsbench.Api.{Time}
use cnsbench.Tracing.Types.{
  FrameType, data_type, headers_type, push_promise_type, FrameHeader, Frame, or_fatal,
}
use cnsbench.Tracing.Streams.{
  WireFrame, StreamInfo, StreamInfos, info_at, append_frame, headers_frame,
}

-- The frames that belong to a stream, by their type.
abbrev pub is_stored : FrameType → Bool
is_stored data_type = true
is_stored headers_type = true
is_stored push_promise_type = true
is_stored _ = false

-- The headers of the frames of stream `sid`, out of all frames on the wire.
unfoldable pub headers_of : ℕ → List WireFrame → List FrameHeader
headers_of sid [] = []
headers_of sid (w ∷ ws) =
    let rest = headers_of sid ws in
    if w.header.stream_id == sid && is_stored w.header.type then w.header ∷ rest else rest

pub headers_of-append :
    (sid : ℕ) (ws vs : List WireFrame)
    → headers_of sid (ws ++ vs) ≡ headers_of sid ws ++ headers_of sid vs
unfolding headers_of
headers_of-append sid [] vs = refl
headers_of-append sid (w ∷ ws) vs =
    elim (Bool-cases (w.header.stream_id == sid && is_stored w.header.type)) [
      | inl e ↦ rw (e) (ap (λ hs. w.header ∷ hs) (headers_of-append sid ws vs))
      | inr e ↦ rw (e) (headers_of-append sid ws vs)
    ]

abbrev pub frame_headers : List Frame → List FrameHeader
frame_headers fs = map (λ f. f.header) fs

abbrev pub info_headers : StreamInfo → List FrameHeader
info_headers si = frame_headers si.stream.frames

pub frame_headers-append :
    (fs gs : List Frame) → frame_headers (fs ++ gs) ≡ frame_headers fs ++ frame_headers gs
frame_headers-append [] gs = refl
frame_headers-append (f ∷ fs) gs = ap (λ hs. f.header ∷ hs) (frame_headers-append fs gs)

pub frame_headers-set :
    (fs : List Frame) (i : ℕ) (f g : Frame)
    → get_elem? fs i ≡ some f
    → g.header ≡ f.header
    → frame_headers (set fs i g) ≡ frame_headers fs
frame_headers-set [] i f g e same = refl
frame_headers-set (x ∷ fs) zero f g e same = ap (λ h. h ∷ frame_headers fs) (same ∙ cc)
frame_headers-set (x ∷ fs) (suc i) f g e same =
    ap (λ hs. x.header ∷ hs) (frame_headers-set fs i f g e same)

pub Yields-or_fatal {ℓ} : {A : Type ℓ} (o : Option A) → Yields (λ a. o ≡ some a) (or_fatal o)
Yields-or_fatal none = faults
Yields-or_fatal (some a) = yields refl

pub headers_frame-found :
    (si : StreamInfo) → Yields (λ p. get_elem? si.stream.frames p.0 ≡ some p.1) (headers_frame si)
headers_frame-found si =
    Yields-then (or_fatal si.headers_index) _ λ i.
      Yields->>= (or_fatal (get_elem? si.stream.frames i)) _ (Yields-or_fatal _) λ f e. yields e

pub appended_headers :
    (w : WireFrame) (t : Time) (si : StreamInfo)
    → info_headers (append_frame w t si) ≡ info_headers si ++ w.header ∷ []
appended_headers w t si =
    frame_headers-append si.stream.frames
      (record { header = w.header; body = w.payload; header_fields = [] } ∷ [])

pub info_at-put :
    (id sid : ℕ) (si : StreamInfo) (infos : StreamInfos)
    → info_at sid (put id si infos) ≡ (if id == sid then si else info_at sid infos)
info_at-put id sid si infos = ground (arith, get-put id sid si infos)

-- The header of a frame, in front of those that follow in its stream.
in_front :
    (here stored : Bool) (h : FrameHeader) (hs : List FrameHeader)
    → here ≡ true
    → (if stored then h ∷ [] else []) ++ hs ≡ (if here && stored then h ∷ hs else hs)
in_front true true h hs e = refl
in_front true false h hs e = refl
in_front false stored h hs e = cc

elsewhere :
    (here stored : Bool) (h : FrameHeader) (hs : List FrameHeader)
    → here ≡ false
    → hs ≡ (if here && stored then h ∷ hs else hs)
elsewhere true stored h hs e = cc
elsewhere false stored h hs e = refl

pub info_headers-put :
    (id sid : ℕ) (si : StreamInfo) (infos : StreamInfos) (here : Bool)
    → (id == sid) ≡ here
    → info_headers (info_at sid (put id si infos))
      ≡ info_headers (if here then si else info_at sid infos)
info_headers-put id sid si infos here e =
    ap info_headers (info_at-put id sid si infos ∙ ap (λ b. if b then si else info_at sid infos) e)

-- One frame was put into its stream.
pub one_more :
    (w : WireFrame) (ws : List WireFrame) (infos : StreamInfos) (si : StreamInfo) (sid : ℕ)
    → info_headers si
      ≡ info_headers (info_at w.header.stream_id infos)
        ++ (if is_stored w.header.type then w.header ∷ [] else [])
    → info_headers (info_at sid (put w.header.stream_id si infos)) ++ headers_of sid ws
      ≡ info_headers (info_at sid infos) ++ headers_of sid (w ∷ ws)
unfolding headers_of
one_more w ws infos si sid e =
    let id = w.header.stream_id in
    let hs = headers_of sid ws in
    let new = if is_stored w.header.type then w.header ∷ [] else [] in
    elim (Bool-cases (id == sid)) [
      | inl same ↦
          ap (λ l. l ++ hs) (info_headers-put id sid si infos true same ∙ e)
          ∙ ap (λ k. (info_headers (info_at k infos) ++ new) ++ hs) ((nat_beq_iff id sid).0 same)
          ∙ append_assoc (info_headers (info_at sid infos)) new hs
          ∙ ap (λ l. info_headers (info_at sid infos) ++ l)
              (in_front (id == sid) (is_stored w.header.type) w.header hs same)
      | inr other ↦
          ap (λ l. l ++ hs) (info_headers-put id sid si infos false other)
          ∙ ap (λ l. info_headers (info_at sid infos) ++ l)
              (elsewhere (id == sid) (is_stored w.header.type) w.header hs other)
    ]
