-- ===== src/Codec/Frame/Limits.antt =====
-- Truncated frames, frames over the limit, and how far the reader looks.
use go_engine_io.Base.{
  ℕ, zero, suc, ◌%◌, ◌≤◌, ◌<◌, ◌≡◌, ◌≢◌, inl, inr, refl, arith, Bool, true, false, [], ◌∷◌, ◌++◌,
  append-nil, length, length-append,
}
use go_engine_io.Base.Int.{ℤ, is_positive, pos_part}
use go_engine_io.Codec.Packet.{Bytes, Packet, IsValid}
use go_engine_io.Codec.Result.{Result, Result-cases, ok, err, eof, ◌>>=◌}
use go_engine_io.Codec.Encoding.{decode_packet}
use go_engine_io.Base.Bits.{low_bits}
use go_engine_io.Codec.Encoding.Length.{length-decode_packet}
use go_engine_io.Codec.Frame.{
  max_alloc, append_webtransport_frame, read_full, read_extended, read_frame_length, read_payload,
  decode_frame_payload, read_webtransport_packet,
}
use go_engine_io.Codec.Frame.RoundTrip.{WithinLimit, frame_payload, read-append_webtransport_frame}

-- A read that succeeds takes the front of the stream, and more input joins what is left.
read_full_local :
    (n : ℕ) (stream more got rest : Bytes)
    → read_full n stream ≡ ok (got, rest)
    → read_full n (stream ++ more) ≡ ok (got, rest ++ more)
unfolding read_full
read_full_local zero stream more got rest e = ground arith
read_full_local (suc n) [] more got rest e = cc
read_full_local (suc n) (c ∷ stream) more got rest e = elim (Result-cases (read_full n stream)) [
  | inl ((g, r), f) ↦ ground (arith, read_full_local n stream more g r f)
  | inr (x, f) ↦ ground arith
]

length-read_full :
    (n : ℕ) (stream got rest : Bytes) → read_full n stream ≡ ok (got, rest) → length got ≡ n
unfolding read_full
length-read_full zero stream got rest e = ground arith
length-read_full (suc n) [] got rest e = cc
length-read_full (suc n) (c ∷ stream) got rest e = elim (Result-cases (read_full n stream)) [
  | inl ((g, r), f) ↦ ground (arith, length-read_full n stream g r f)
  | inr (x, f) ↦ ground arith
]

read_extended_local :
    (w : ℕ) (stream more : Bytes) (size : ℕ) (rest : Bytes)
    → read_extended w stream ≡ ok (size, rest)
    → read_extended w (stream ++ more) ≡ ok (size, rest ++ more)
unfolding read_extended
read_extended_local w stream more size rest e = elim (Result-cases (read_full w stream)) [
  | inl ((g, r), f) ↦ ground (arith, read_full_local w stream more g r f)
  | inr (x, f) ↦ ground arith
]

read_frame_length_local :
    (header : ℕ) (stream more : Bytes) (size : ℕ) (rest : Bytes)
    → read_frame_length header stream ≡ ok (size, rest)
    → read_frame_length header (stream ++ more) ≡ ok (size, rest ++ more)
unfolding read_frame_length
read_frame_length_local header stream more size rest e = ground (
  arith,
  read_extended_local 2 stream more size rest,
  read_extended_local 8 stream more size rest,
)

read_payload_local :
    (m : ℤ) (size : ℕ) (stream more got rest : Bytes)
    → read_payload m size stream ≡ ok (got, rest)
    → read_payload m size (stream ++ more) ≡ ok (got, rest ++ more)
unfolding read_payload
read_payload_local m size stream more got rest e =
    ground (arith, read_full_local size stream more got rest)

decode_local :
    (d : Result Packet) (r : Bytes) (p : Packet) (rest more : Bytes)
    → ◌>>=◌ {Next = Packet × Bytes} d (λ packet. ok (packet, r)) ≡ ok (p, rest)
    → ◌>>=◌ {Next = Packet × Bytes} d (λ packet. ok (packet, r ++ more)) ≡ ok (p, rest ++ more)
decode_local (ok q) r p rest more e = ground arith
decode_local (err x) r p rest more e = cc

-- The reader looks no further than its frame: if it reads a packet, it reads the same packet with
-- any bytes added behind, and those join what is left on the stream.
pub read_webtransport_packet_local :
    (m : ℤ) (stream more : Bytes) (p : Packet) (rest : Bytes)
    → read_webtransport_packet m stream ≡ ok (p, rest)
    → read_webtransport_packet m (stream ++ more) ≡ ok (p, rest ++ more)
unfolding read_webtransport_packet
read_webtransport_packet_local m [] more p rest e = cc
read_webtransport_packet_local m (header ∷ stream) more p rest e =
    elim (Result-cases (read_frame_length header stream)) [
      | inr (x, f) ↦ absurd (let e' = rw f at e in cc)
      | inl ((size, after), f) ↦ elim (Result-cases (read_payload m size after)) [
        | inr (x, g) ↦ absurd (let e' = rw (f, g) at e in cc)
        | inl ((payload, r), g) ↦
            rw
              (
                read_frame_length_local header stream more size after f,
                read_payload_local m size after more payload r g,
              )
              (decode_local (decode_frame_payload _ payload) r p rest more (rw (f, g) at e))
      ]
    ]

-- A frame that is cut anywhere is never read as a packet, whatever the limit.
pub read_webtransport_packet_cut :
    (m : ℤ) (p q : Packet) (front back rest : Bytes) (x : ℕ)
    → IsValid p
    → length (frame_payload p) ≤ max_alloc
    → WithinLimit m (length (frame_payload p))
    → append_webtransport_frame [] p ≡ front ++ (x ∷ back)
    → read_webtransport_packet m front ≢ ok (q, rest)
read_webtransport_packet_cut m p q front back rest x v h w e r = ground (
  arith,
  whole,
  read_webtransport_packet_local m front (x ∷ back) q rest r,
  length-append rest (x ∷ back),
)
  where
    whole : read_webtransport_packet m (front ++ (x ∷ back)) ≡ ok (p, [])
    whole = rw (append-nil, e) at (read-append_webtransport_frame m p [] v w h)

read_full-nil : (n : ℕ) → 0 < n → read_full n [] ≡ err eof
unfolding read_full
read_full-nil zero h = absurd (omega arith)
read_full-nil (suc n) h = refl

-- A stream that ends right behind a header of a frame with a payload ends in the middle of that
-- frame, and the reader answers io.EOF, the error of a stream that ends between two frames.
pub read_webtransport_packet_header_only :
    (m : ℤ) (header : ℕ)
    → header < 256
    → header % 128 ≢ 0
    → WithinLimit m (header % 128)
    → read_webtransport_packet m (header ∷ []) ≡ err eof
unfolding read_webtransport_packet read_frame_length read_extended read_payload
read_webtransport_packet_header_only m header h n w =
    rw (low_bits header h)
      (ground (arith, read_full-nil (header % 128), read_full-nil 2, read_full-nil 8))

read_payload-limit :
    (m : ℤ) (size : ℕ) (stream got rest : Bytes)
    → is_positive m ≡ true
    → read_payload m size stream ≡ ok (got, rest)
    → length got ≤ pos_part m
unfolding read_payload
read_payload-limit m size stream got rest pm e =
    ground (arith, length-read_full size stream got rest)

length-decode_frame_payload :
    (b : Bool) (payload r : Bytes) (p : Packet) (rest : Bytes)
    → ◌>>=◌ {Next = Packet × Bytes} (decode_frame_payload b payload) (λ packet. ok (packet, r))
      ≡ ok (p, rest)
    → length p.body ≤ length payload
unfolding decode_frame_payload
length-decode_frame_payload true payload r p rest e = ground arith
length-decode_frame_payload false payload r p rest e = elim (Result-cases (decode_packet payload)) [
  | inl (q, d) ↦ ground (arith, length-decode_packet payload q d)
  | inr (x, d) ↦ ground arith
]

-- Under a positive limit no packet with more data than the limit is read from any stream.
pub read_webtransport_packet_limit :
    (m : ℤ) (stream : Bytes) (p : Packet) (rest : Bytes)
    → is_positive m ≡ true
    → read_webtransport_packet m stream ≡ ok (p, rest)
    → length p.body ≤ pos_part m
unfolding read_webtransport_packet
read_webtransport_packet_limit m [] p rest pm e = cc
read_webtransport_packet_limit m (header ∷ stream) p rest pm e =
    elim (Result-cases (read_frame_length header stream)) [
      | inr (x, f) ↦ absurd (let e' = rw f at e in cc)
      | inl ((size, after), f) ↦ elim (Result-cases (read_payload m size after)) [
        | inr (x, g) ↦ absurd (let e' = rw (f, g) at e in cc)
        | inl ((payload, r), g) ↦ omega (
          arith,
          read_payload-limit m size after payload r pm g,
          length-decode_frame_payload _ payload r p rest (rw (f, g) at e),
        )
      ]
    ]
