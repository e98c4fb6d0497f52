-- ===== src/Codec/Payload/Strings/Payload.antt =====
-- DecodePayload's string framing on whole inputs.
use go_engine_io.Base.{
  ℕ, zero, suc, ◌+◌, ◌≤◌, ◌<◌, ◌^◌, ◌≡◌, ◌≢◌, refl, ap, ◌∙◌, arith, List, [], ◌∷◌, ◌++◌, append-nil,
  append_assoc, length, length-append, All, All-append, All-mono,
}
use go_engine_io.Codec.Packet.{Bytes, Packet}
use go_engine_io.Codec.Result.{ok, err, slice_panic}
use go_engine_io.Codec.Runes.{IsAscii, decode_runes, decode_runes-ascii}
use go_engine_io.Codec.Payload.Slice.{slice_frame_overflow}
use go_engine_io.Codec.Payload.Strings.{decode_string_frames, decode_string_framed_payload}
use go_engine_io.Codec.Payload.Strings.Frames.{
  AreDecimal, decimal, Frame, frames_runes, Frames, round-cons, read_string_frame-decimal,
  decode_string_frames_step,
}

decode_string_frames-Frames :
    (fs : List Frame) (ps : List Packet) (fuel len cursor : ℕ) (done : List Packet)
    → Frames fs ps
    → length fs ≤ fuel
    → cursor + length (frames_runes fs) ≤ len
    → len < 2 ^ 63
    → decode_string_frames fuel len cursor (frames_runes fs) done ≡ ok (done ++ ps)
decode_string_frames-Frames [] [] fuel len cursor done h hf hc hl =
    rw append-nil (unfold decode_string_frames in refl)
decode_string_frames-Frames [] (p ∷ ps) fuel len cursor done h hf hc hl = absurd h
decode_string_frames-Frames (f ∷ fs) [] fuel len cursor done h hf hc hl = absurd h
decode_string_frames-Frames (f ∷ fs) (p ∷ ps) zero len cursor done h hf hc hl = absurd (omega arith)
decode_string_frames-Frames (f ∷ fs) (p ∷ ps) (suc fuel) len cursor done (v, h) hf hc hl =
    let n = length-append f.digits (b':' ∷ (f.body ++ frames_runes fs)) in
    let m = length-append f.body (frames_runes fs) in
    decode_string_frames_step f p fuel len cursor (frames_runes fs) done v hc hl
    ∙ decode_string_frames-Frames fs ps fuel len _ (done ++ (p ∷ [])) h (omega arith) (omega arith)
        hl
    ∙ ap ok (append_assoc done (p ∷ []) ps)

length-frames_runes : (fs : List Frame) → length fs ≤ length (frames_runes fs)
length-frames_runes [] = omega arith
length-frames_runes (f ∷ fs) = omega (
  arith,
  length-append f.digits (b':' ∷ (f.body ++ frames_runes fs)),
  length-append f.body (frames_runes fs),
  length-frames_runes fs,
)

-- Any input whose runes are a sequence of frames "<length>:<packet>", each with its packet's length
-- in runes in decimal digits and a packet that decodes, decodes to those packets in order, if it
-- has fewer than 2 ^ 63 runes.
pub decode_string_framed_payload-Frames :
    (input : Bytes) (fs : List Frame) (ps : List Packet)
    → decode_runes input ≡ frames_runes fs
    → Frames fs ps
    → length (frames_runes fs) < 2 ^ 63
    → decode_string_framed_payload input ≡ ok ps
unfolding decode_string_framed_payload
decode_string_framed_payload-Frames input fs ps e h hl =
    rw e (decode_string_frames-Frames fs ps _ _ 0 [] h (length-frames_runes fs) (omega arith) hl)

-- Where the decimal length at the start of an ASCII input fits an `int` but takes the end of the
-- packet past the largest one, the sum is negative and passes the check, and the decoder panics at
-- the slice expression.
pub decode_string_framed_payload_panics :
    (digits rest : Bytes) (n : ℕ)
    → digits ≢ []
    → AreDecimal digits
    → All IsAscii rest
    → decimal 0 digits ≡ n
    → n < 2 ^ 63
    → 2 ^ 63 ≤ suc (length digits) + n
    → length (digits ++ (b':' ∷ rest)) < 2 ^ 63
    → decode_string_framed_payload (digits ++ (b':' ∷ rest)) ≡ err slice_panic
unfolding decode_string_framed_payload
decode_string_framed_payload_panics digits rest n ne d a e lt big hl =
    rw (decode_runes-ascii (digits ++ (b':' ∷ rest)) ascii)
      (fuel-suc (length (digits ++ (b':' ∷ rest))) refl)
  where
    ascii : All IsAscii (digits ++ (b':' ∷ rest))
    ascii =
        All-append IsAscii digits (b':' ∷ rest) (All-mono _ _ (λ c h. omega arith) digits d)
          (omega arith, a)

    len : length (digits ++ (b':' ∷ rest)) ≡ length digits + suc (length rest)
    len = length-append digits (b':' ∷ rest)

    nonempty : digits ++ (b':' ∷ rest) ≢ []
    nonempty p = absurd (omega (arith, len, ap length p))

    fuel-suc :
        (k : ℕ)
        → length (digits ++ (b':' ∷ rest)) ≡ k
        → decode_string_frames k k 0 (digits ++ (b':' ∷ rest)) [] ≡ err slice_panic
    fuel-suc zero p = absurd (omega (arith, len))
    fuel-suc (suc k) p =
        round-cons k (suc k) 0 [] _ nonempty
        ∙ rw (
          read_string_frame-decimal digits n (suc k) 0 rest ne d e lt,
          slice_frame_overflow (suc k) (suc (length digits + 0)) n rest (omega (arith, len))
              (omega (arith, len)) lt (omega arith),
        )
