-- ===== src/Codec/Payload/Framed/Frames.antt =====
-- The v3 binary framing against a description of its frames, and its panic.
use go_engine_io.Base.{
  ℕ, zero, suc, ◌+◌, ◌*◌, ◌≤◌, ◌<◌, ◌^◌, ◌≡◌, ◌⊎◌, not, ◌||◌, ap, ◌∙◌, arith, false, List, [], ◌∷◌,
  ◌++◌, append-nil, append_assoc, length, length-append, All, ◌==◌,
}
use go_engine_io.Codec.Packet.{Bytes, Packet}
use go_engine_io.Codec.Result.{ok, err, slice_panic}
use go_engine_io.Codec.Payload.Slice.{wrap, slice_frame-append, slice_frame_negative}
use go_engine_io.Codec.Payload.Legacy.{
  binary_string_marker, binary_binary_marker, binary_length_terminator, decode_binary_framed_packet,
}
use go_engine_io.Codec.Payload.Framed.{
  read_length, read_frame, decode_frames, decode_binary_framed_payload,
}

-- The number that decimal digits stand for, after the digits of `acc`.
abbrev pub digits_value : ℕ → Bytes → ℕ
digits_value acc [] = acc
digits_value acc (d ∷ ds) = digits_value (acc * 10 + d) ds

abbrev pub AreDigits : Bytes → Type 0
AreDigits = All (λ d. d ≤ 9)

-- The length loop reads digits modulo 2 ^ 64, whatever they stand for.
read_length-digits :
    (ds : Bytes) (acc cursor : ℕ) (rest : Bytes)
    → AreDigits ds
    → read_length (wrap acc) cursor (ds ++ (binary_length_terminator ∷ rest))
      ≡ ok (wrap (digits_value acc ds), suc (cursor + length ds), rest)
unfolding read_length
read_length-digits [] acc cursor rest h = ground arith
read_length-digits (d ∷ ds) acc cursor rest h =
    let w : wrap (wrap acc * 10 + d) ≡ wrap (acc * 10 + d) = omega arith in
    ground (arith, read_length-digits ds (acc * 10 + d) (suc cursor) rest h.1)

-- A frame: a marker, the length in decimal, and the body.
pub record Frame : Type 0 where
  pub marker : ℕ
  pub digits : Bytes
  pub body : Bytes

abbrev pub frame_bytes : Frame → Bytes → Bytes
frame_bytes f rest = f.marker ∷ (f.digits ++ (binary_length_terminator ∷ (f.body ++ rest)))

abbrev pub frames_bytes : List Frame → Bytes
frames_bytes [] = []
frames_bytes (f ∷ fs) = frame_bytes f (frames_bytes fs)

pub record IsFrame (f : Frame) (p : Packet) : Type 0 where
  pub marker_known : (f.marker ≡ binary_string_marker) ⊎ (f.marker ≡ binary_binary_marker)
  pub digits_are : AreDigits f.digits
  pub length_is : digits_value 0 f.digits ≡ length f.body
  pub decodes : decode_binary_framed_packet f.marker f.body ≡ ok p

abbrev pub Frames : List Frame → List Packet → Type 0
Frames [] [] = Unit {0}
Frames (f ∷ fs) (p ∷ ps) = IsFrame f p × Frames fs ps
Frames _ _ = ⊥

read_frame-frame :
    (f : Frame) (p : Packet) (len cursor : ℕ) (rest : Bytes)
    → IsFrame f p
    → cursor + length (f.digits ++ (binary_length_terminator ∷ (f.body ++ rest))) ≤ len
    → len < 2 ^ 63
    → read_frame len cursor (f.digits ++ (binary_length_terminator ∷ (f.body ++ rest)))
      ≡ ok (f.body, suc (cursor + length f.digits) + length f.body, rest)
unfolding read_frame
read_frame-frame f p len cursor rest v h hl =
    let n = length-append f.digits (binary_length_terminator ∷ (f.body ++ rest)) in
    let m = length-append f.body rest in
    let w : wrap (length f.body) ≡ length f.body = omega arith in
    rw (read_length-digits f.digits 0 cursor (f.body ++ rest) v.digits_are, v.length_is, w)
      (slice_frame-append len (suc (cursor + length f.digits)) f.body rest (omega arith) hl)

marker_test :
    (m : ℕ)
    → (m ≡ binary_string_marker) ⊎ (m ≡ binary_binary_marker)
    → not (m == binary_string_marker || m == binary_binary_marker) ≡ false
marker_test m h = ground arith

decode_frames-Frames :
    (fs : List Frame) (ps : List Packet) (fuel len cursor : ℕ) (done : List Packet)
    → Frames fs ps
    → length fs ≤ fuel
    → cursor + length (frames_bytes fs) ≤ len
    → len < 2 ^ 63
    → decode_frames fuel len cursor (frames_bytes fs) done ≡ ok (done ++ ps)
unfolding decode_frames
decode_frames-Frames [] [] fuel len cursor done h hf hc hl = rw append-nil
decode_frames-Frames [] (p ∷ ps) fuel len cursor done h hf hc hl = absurd h
decode_frames-Frames (f ∷ fs) [] fuel len cursor done h hf hc hl = absurd h
decode_frames-Frames (f ∷ fs) (p ∷ ps) zero len cursor done h hf hc hl = absurd (omega arith)
decode_frames-Frames (f ∷ fs) (p ∷ ps) (suc fuel) len cursor done (v, h) hf hc hl =
    let n = length-append f.digits (binary_length_terminator ∷ (f.body ++ frames_bytes fs)) in
    let m = length-append f.body (frames_bytes fs) in
    rw
      (
        marker_test f.marker v.marker_known,
        read_frame-frame f p len (suc cursor) (frames_bytes fs) v (omega arith) hl,
        v.decodes,
      )
      (decode_frames-Frames fs ps fuel len _ (done ++ (p ∷ [])) h (omega arith) (omega arith) hl
        ∙ ap ok (append_assoc done (p ∷ []) ps))

length-frames_bytes : (fs : List Frame) → length fs ≤ length (frames_bytes fs)
length-frames_bytes [] = omega arith
length-frames_bytes (f ∷ fs) = omega (
  arith,
  length-append f.digits (binary_length_terminator ∷ (f.body ++ frames_bytes fs)),
  length-append f.body (frames_bytes fs),
  length-frames_bytes fs,
)

-- Any sequence of v3 binary frames, each with its body's length in decimal digits and a body that
-- decodes to a packet, decodes to those packets in order, if the input is shorter than 2 ^ 63 bytes.
pub decode_binary_framed_payload-Frames :
    (fs : List Frame) (ps : List Packet)
    → Frames fs ps
    → length (frames_bytes fs) < 2 ^ 63
    → decode_binary_framed_payload (frames_bytes fs) ≡ ok ps
unfolding decode_binary_framed_payload
decode_binary_framed_payload-Frames fs ps h hl =
    decode_frames-Frames fs ps _ _ 0 [] h (length-frames_bytes fs) (omega arith) hl

-- Where a frame's decimal length, taken modulo 2 ^ 64, is 2 ^ 63 or more, the `int` that holds it
-- is negative, and the decoder panics at the slice expression, whatever follows the frame's header.
pub decode_binary_framed_payload_panics :
    (marker : ℕ) (digits rest : Bytes)
    → (marker ≡ binary_string_marker) ⊎ (marker ≡ binary_binary_marker)
    → AreDigits digits
    → 2 ^ 63 ≤ wrap (digits_value 0 digits)
    → length (marker ∷ (digits ++ (binary_length_terminator ∷ rest))) < 2 ^ 63
    → decode_binary_framed_payload (marker ∷ (digits ++ (binary_length_terminator ∷ rest)))
      ≡ err slice_panic
unfolding decode_binary_framed_payload decode_frames read_frame
decode_binary_framed_payload_panics marker digits rest m d big hl =
    let n = length-append digits (binary_length_terminator ∷ rest) in
    rw (
      marker_test marker m,
      read_length-digits digits 0 1 rest d,
      slice_frame_negative (length (marker ∷ (digits ++ (binary_length_terminator ∷ rest))))
          (suc (1 + length digits)) (wrap (digits_value 0 digits)) rest (omega arith) hl big
          (omega arith),
    )
