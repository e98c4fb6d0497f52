-- ===== src/Codec/Frame/RoundTrip.antt =====
-- Reading a frame back that was appended.
use Prim.Native.Nat.{bit_and, bit_or}
use go_engine_io.Base.{
  ℕ, ◌+◌, ◌%◌, ◌^◌, ◌≤◌, ◌<◌, ◌≡◌, ◌⊎◌, inl, inr, refl, ap, ◌∙◌, arith, true, false, not, [], ◌∷◌,
  ◌++◌, append_assoc, length, ltb, ltb→lt, ◌==◌, if◌then◌else◌, Bool-cases,
}
use go_engine_io.Base.Bits.{low_bits, top_bit, set_top_bit, bit_or-zero}
use go_engine_io.Base.Int.{ℤ, is_positive, pos_part}
use go_engine_io.Codec.Packet.{Bytes, Packet, IsValid}
use go_engine_io.Codec.Result.{ok, ◌>>=◌}
use go_engine_io.Codec.Encoding.{encode_packet}
use go_engine_io.Codec.Encoding.RoundTrip.{decode_packet-encode_packet}
use go_engine_io.Codec.Frame.{
  max_alloc, len16_marker, len64_marker, append_uint16, append_uint64, binary_flag, append_header,
  append_webtransport_frame, read_full, big_endian, read_extended, read_frame_length, read_payload,
  decode_frame_payload, read_webtransport_packet,
}

pub read_full-append : (xs rest : Bytes) → read_full (length xs) (xs ++ rest) ≡ ok (xs, rest)
unfolding read_full
read_full-append [] rest = refl
read_full-append (x ∷ xs) rest = rw (read_full-append xs rest)

-- The flag of a header: nothing, or the top bit.
abbrev IsFlag : ℕ → Type 0
IsFlag flag = (flag ≡ 0) ⊎ (flag ≡ binary_flag)

header_byte :
    (m flag : ℕ)
    → m < 128
    → IsFlag flag
    → (bit_and (bit_or m flag) 127 ≡ m) × (bit_and (bit_or m flag) 128 ≡ flag)
header_byte m flag h f = elim f [
  | inl e ↦ rw (e, bit_or-zero m (omega arith)) (omega (arith, low_bits m, top_bit m))
  | inr e ↦ rw (e, set_top_bit m h) (omega (arith, low_bits (m + 128), top_bit (m + 128)))
]

uint16_bytes : (v : ℕ) → v < 2 ^ 16 → big_endian 0 (append_uint16 [] (v % 2 ^ 16)) ≡ v
uint16_bytes v h = omega arith

uint64_bytes : (v : ℕ) → v < 2 ^ 64 → big_endian 0 (append_uint64 [] (v % 2 ^ 64)) ≡ v
uint64_bytes v h = omega arith

-- What a header for `size` must be: its first byte carries the flag, and the length is read back.
abbrev Header : ℕ → ℕ → Bytes → Type 0
Header size flag bytes =
    (b : ℕ) × (extended : Bytes) × (bytes ≡ b ∷ extended)
    × (bit_and b binary_flag ≡ flag)
    × ((rest : Bytes) → read_frame_length b (extended ++ rest) ≡ ok (size, rest))

module _ (size flag : ℕ) (f : IsFlag flag) where
  Header-short : size < len16_marker → Header size flag (bit_or (size % 256) flag ∷ [])
  unfolding read_frame_length
  Header-short h =
      let e : size % 256 ≡ size = omega arith in
      let (low, top) = header_byte (size % 256) flag (omega arith) f in
      (bit_or (size % 256) flag, [], refl, top, λ rest. rw (low, e) (ground arith))

  Header-uint16 :
      size < 2 ^ 16
      → Header size flag (append_uint16 (bit_or len16_marker flag ∷ []) (size % 2 ^ 16))
  unfolding read_frame_length read_extended
  Header-uint16 h =
      let (low, top) = header_byte len16_marker flag (omega arith) f in
      (
        bit_or len16_marker flag,
        append_uint16 [] (size % 2 ^ 16),
        refl,
        top,
        λ rest.
            rw (low, read_full-append (append_uint16 [] (size % 2 ^ 16)) rest)
              (ap (λ n. ok (n, rest)) (uint16_bytes size h)),
      )

  Header-uint64 :
      size < 2 ^ 64
      → Header size flag (append_uint64 (bit_or len64_marker flag ∷ []) (size % 2 ^ 64))
  unfolding read_frame_length read_extended
  Header-uint64 h =
      let (low, top) = header_byte len64_marker flag (omega arith) f in
      (
        bit_or len64_marker flag,
        append_uint64 [] (size % 2 ^ 64),
        refl,
        top,
        λ rest.
            rw (low, read_full-append (append_uint64 [] (size % 2 ^ 64)) rest)
              (ap (λ n. ok (n, rest)) (uint64_bytes size h)),
      )

  pub append_header-Header : size < 2 ^ 63 → Header size flag (append_header [] size flag)
  unfolding append_header
  append_header-Header h = elim (Bool-cases (ltb size len16_marker)) [
    | inl s ↦ rw s (Header-short (ltb→lt _ _ s))
    | inr s ↦ elim (Bool-cases (ltb size (2 ^ 16))) [
      | inl m ↦ rw (s, m) (Header-uint16 (ltb→lt _ _ m))
      | inr m ↦ rw (s, m) (Header-uint64 (omega arith))
    ]
  ]

-- The limit of `max_payload` bytes lets `size` bytes pass; a limit that is not positive is none.
abbrev pub WithinLimit : ℤ → ℕ → Type 0
WithinLimit max_payload size = is_positive max_payload ≡ true → size ≤ pos_part max_payload

read_payload-append :
    (max_payload : ℤ) (payload rest : Bytes)
    → WithinLimit max_payload (length payload)
    → length payload ≤ max_alloc
    → read_payload max_payload (length payload) (payload ++ rest) ≡ ok (payload, rest)
unfolding read_payload
read_payload-append max_payload payload rest w h = ground (arith, read_full-append payload rest)

-- The bytes that a frame carries for a packet.
abbrev pub frame_payload : Packet → Bytes
frame_payload p = if p.is_binary then p.body else encode_packet p

-- Reading a header and its payload leaves the decoding of the payload.
pub read_webtransport_packet-Header :
    (max_payload : ℤ) (flag : ℕ) (header payload rest : Bytes)
    → Header (length payload) flag header
    → WithinLimit max_payload (length payload)
    → length payload ≤ max_alloc
    → read_webtransport_packet max_payload ((header ++ payload) ++ rest)
      ≡ (decode_frame_payload (not (flag == 0)) payload >>= λ packet. ok (packet, rest))
unfolding read_webtransport_packet
read_webtransport_packet-Header max_payload flag header payload rest (b, ext, e, top, len) w h =
    rw (
      e,
      append_assoc ext payload rest,
      top,
      len (payload ++ rest),
      read_payload-append max_payload payload rest w h,
    )

-- A frame is read back as its packet, and what follows the frame is left on the stream, for every
-- valid packet whose payload fits the limit and is one that `make` can allocate.
pub read-append_webtransport_frame :
    (max_payload : ℤ) (p : Packet) (rest : Bytes)
    → IsValid p
    → WithinLimit max_payload (length (frame_payload p))
    → length (frame_payload p) ≤ max_alloc
    → read_webtransport_packet max_payload (append_webtransport_frame [] p ++ rest) ≡ ok (p, rest)
unfolding append_webtransport_frame
read-append_webtransport_frame max_payload p rest v w h =
    read_webtransport_packet-Header max_payload flag _ (frame_payload p) rest
      (append_header-Header (length (frame_payload p)) flag is_flag (omega arith)) w h
    ∙ decoded (Bool-cases p.is_binary)
  where
    flag : ℕ
    flag = if p.is_binary then binary_flag else 0

    is_flag : IsFlag flag
    is_flag = ground arith

    decoded :
        (p.is_binary ≡ true) ⊎ (p.is_binary ≡ false)
        → ◌>>=◌ {Next = Packet × Bytes}
            (decode_frame_payload (not (flag == 0)) (frame_payload p))
            (λ packet. ok (packet, rest))
          ≡ ok (p, rest)
    decoded (inl b) = unfold decode_frame_payload in ground (arith, v.binary_message b)
    decoded (inr t) = unfold decode_frame_payload in ground (arith, decode_packet-encode_packet p v)
