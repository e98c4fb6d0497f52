-- ===== src/Server/WebTransport/Frames.antt =====
-- server_transport_webtransport.go: the packets of one write, read one by one from the stream.
use go_engine_io.Base.{
  ◌≤◌, ℕ, ◌^◌, ◌≡◌, refl, sym, ap, ◌∙◌, List, [], ◌∷◌, ◌++◌, append-nil, append_assoc, length,
  Bool-cases, ltb, inl, inr, if◌then◌else◌,
}
use go_engine_io.Base.Int.{ℤ}
use go_engine_io.Codec.Packet.{Packet, Bytes, IsValid}
use go_engine_io.Codec.Result.{ok}
use go_engine_io.Codec.Frame.{
  max_alloc, append_header, append_webtransport_frame, read_webtransport_packet, len16_marker,
  binary_flag,
}
use go_engine_io.Codec.Frame.RoundTrip.{WithinLimit, frame_payload, read-append_webtransport_frame}
use go_engine_io.Server.WebTransport.{append_frames, webtransport_server_read_limit}

append_header-dst :
    (dst : Bytes) (size flag : ℕ) → append_header dst size flag ≡ dst ++ append_header [] size flag
unfolding append_header
append_header-dst dst size flag = elim (Bool-cases (ltb size len16_marker)) [
  | inl s ↦ rw s refl
  | inr s ↦ elim (Bool-cases (ltb size (2 ^ 16))) [
    | inl m ↦ rw (s, m) (append_assoc dst _ _)
    | inr m ↦ rw (s, m) (append_assoc dst _ _)
  ]
]

append_webtransport_frame-dst :
    (dst : Bytes) (p : Packet)
    → append_webtransport_frame dst p ≡ dst ++ append_webtransport_frame [] p
unfolding append_webtransport_frame
append_webtransport_frame-dst dst p =
    let flag = if p.is_binary then binary_flag else 0 in
    rw (append_header-dst dst (length (frame_payload p)) flag)
      (append_assoc dst (append_header [] (length (frame_payload p)) flag) (frame_payload p))

append_frames-buffer :
    (buffer : Bytes) (ps : List Packet) → append_frames buffer ps ≡ buffer ++ append_frames [] ps
unfolding append_frames
append_frames-buffer buffer [] = sym (append-nil buffer)
append_frames-buffer buffer (p ∷ ps) =
    let frame = append_webtransport_frame [] p in
    append_frames-buffer (append_webtransport_frame buffer p) ps
    ∙ ap (λ b. b ++ append_frames [] ps) (append_webtransport_frame-dst buffer p)
    ∙ append_assoc buffer frame (append_frames [] ps)
    ∙ ap (λ b. buffer ++ b) (sym (append_frames-buffer frame ps))

-- A valid packet that the reader's limit, and a Go int, lets pass.
pub record IsReadable (max_payload : ℤ) (p : Packet) : Type 0 where
  pub valid_packet : IsValid p
  pub within : WithinLimit (webtransport_server_read_limit max_payload) (length (frame_payload p))
  pub fits : length (frame_payload p) ≤ max_alloc

-- The first of several packets in one buffer is read, and the rest of the buffer is left.
pub read-append_frames :
    (max_payload : ℤ) (p : Packet) (ps : List Packet)
    → IsReadable max_payload p
    → read_webtransport_packet
        (webtransport_server_read_limit max_payload)
        (append_frames [] (p ∷ ps))
      ≡ ok (p, append_frames [] ps)
unfolding append_frames
read-append_frames max_payload p ps r =
    rw (append_frames-buffer (append_webtransport_frame [] p) ps) (
      read-append_webtransport_frame (webtransport_server_read_limit max_payload) p
        (append_frames [] ps) r.valid_packet r.within r.fits)
