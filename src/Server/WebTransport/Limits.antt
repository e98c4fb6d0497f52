-- ===== src/Server/WebTransport/Limits.antt =====
-- server_transport_webtransport.go: what bounds a read, and how far the read loop goes.
use go_engine_io.Base.{
  ℕ, zero, suc, ◌<◌, ◌≤◌, ◌≡◌, ◌≢◌, refl, arith, true, [], ◌∷◌, length, inl, inr, Bool, false,
  Option-cases,
}
use go_engine_io.Base.Int.{ℤ, pos, negsuc, is_positive, pos_part}
use go_engine_io.Codec.Packet.{Packet, Bytes}
use go_engine_io.Codec.Result.{Result, Result-cases, ok, err, makeslice_panic, ◌>>=◌}
use go_engine_io.Codec.Encoding.{decode_packet}
use go_engine_io.Codec.Base64.{decode_string}
use go_engine_io.Codec.Frame.{
  max_alloc, read_full, read_extended, read_frame_length, read_payload, decode_frame_payload,
  read_webtransport_packet,
}
use go_engine_io.Codec.Frame.Limits.{read_webtransport_packet_limit}
use go_engine_io.Server.Connection.{Setting, Link, meanwhile}
use go_engine_io.Server.WebTransport.{
  webtransport_server_read_limit, Stream, webtransport_on_packet, webtransport_read_loop,
}

length-read_full_rest :
    (n : ℕ) (stream got rest : Bytes)
    → read_full n stream ≡ ok (got, rest)
    → length rest ≤ length stream
unfolding read_full
length-read_full_rest zero stream got rest e = ground arith
length-read_full_rest (suc n) [] got rest e = cc
length-read_full_rest (suc n) (c ∷ stream) got rest e = elim (Result-cases (read_full n stream)) [
  | inl ((g, r), f) ↦ ground (arith, length-read_full_rest n stream g r f)
  | inr (x, f) ↦ ground arith
]

length-read_extended :
    (w : ℕ) (stream : Bytes) (size : ℕ) (rest : Bytes)
    → read_extended w stream ≡ ok (size, rest)
    → length rest ≤ length stream
unfolding read_extended
length-read_extended w stream size rest e = elim (Result-cases (read_full w stream)) [
  | inl ((g, r), f) ↦ ground (arith, length-read_full_rest w stream g r f)
  | inr (x, f) ↦ ground arith
]

length-read_frame_length :
    (header : ℕ) (stream : Bytes) (size : ℕ) (rest : Bytes)
    → read_frame_length header stream ≡ ok (size, rest)
    → length rest ≤ length stream
unfolding read_frame_length
length-read_frame_length header stream size rest e =
    ground (arith, length-read_extended 2 stream size rest, length-read_extended 8 stream size rest)

length-read_payload :
    (m : ℤ) (size : ℕ) (stream got rest : Bytes)
    → read_payload m size stream ≡ ok (got, rest)
    → length rest ≤ length stream
unfolding read_payload
length-read_payload m size stream got rest e =
    ground (arith, length-read_full_rest size stream got rest)

decoded_rest :
    (d : Result Packet) (r : Bytes) (p : Packet) (rest : Bytes)
    → ◌>>=◌ {Next = Packet × Bytes} d (λ packet. ok (packet, r)) ≡ ok (p, rest)
    → r ≡ rest
decoded_rest (ok q) r p rest e = ground arith
decoded_rest (err x) r p rest e = cc

-- A read takes a byte at least.
pub length-read_webtransport_packet :
    (m : ℤ) (stream : Bytes) (p : Packet) (rest : Bytes)
    → read_webtransport_packet m stream ≡ ok (p, rest)
    → length rest < length stream
unfolding read_webtransport_packet
length-read_webtransport_packet m [] p rest e = cc
length-read_webtransport_packet m (header ∷ stream) p rest e =
    elim (Result-cases (read_frame_length header stream)) [
      | inr (x, f) ↦ absurd (let e' = rw f at e in cc)
      | inl ((size, after), f) ↦ elim (Result-cases (read_payload m size after)) [
        | inr (x, g) ↦ absurd (let e' = rw (f, g) at e in cc)
        | inl ((payload, r), g) ↦ ground (
          arith,
          length-read_frame_length header stream size after f,
          length-read_payload m size after payload r g,
          decoded_rest (decode_frame_payload _ payload) r p rest (rw (f, g) at e),
        )
      ]
    ]

-- The server's read loop on a stream ends: any two numbers of rounds that are more than the bytes
-- of the stream give the same result, whatever the packets do to the session.
pub webtransport_read_loop_ends :
    (setting : Setting) (stream : Stream) (max_payload : ℤ) (fuel fuel' n : ℕ) (input : Bytes)
    (l : Link)
    → length input < fuel
    → length input < fuel'
    → webtransport_read_loop setting stream max_payload fuel n input l
      ≡ webtransport_read_loop setting stream max_payload fuel' n input l
unfolding webtransport_read_loop
webtransport_read_loop_ends setting stream max_payload zero fuel' n input l h h' =
    absurd (omega arith)
webtransport_read_loop_ends setting stream max_payload (suc fuel) zero n input l h h' =
    absurd (omega arith)
webtransport_read_loop_ends setting stream max_payload (suc fuel) (suc fuel') n input l h h' =
    let limit = webtransport_server_read_limit max_payload in
    elim (Result-cases (read_webtransport_packet limit input)) [
      | inr (x, e) ↦ rw (e, webtransport_read_loop) refl
      | inl ((p, rest), e) ↦
          let shorter = length-read_webtransport_packet limit input p rest e in
          rw (e, webtransport_read_loop)
            (webtransport_read_loop_ends setting stream max_payload fuel fuel' (suc n) rest
              (webtransport_on_packet setting stream n p (meanwhile setting n l))
              (omega (arith, shorter)) (omega (arith, shorter)))
    ]

limit_positive : (max_payload : ℤ) → is_positive (webtransport_server_read_limit max_payload) ≡ true
unfolding webtransport_server_read_limit
limit_positive (pos zero) = refl
limit_positive (pos (suc n)) = refl
limit_positive (negsuc n) = refl

limit_fits :
    (max_payload : ℤ)
    → pos_part max_payload ≤ max_alloc
    → pos_part (webtransport_server_read_limit max_payload) ≤ max_alloc
unfolding webtransport_server_read_limit
limit_fits (pos zero) h = omega arith
limit_fits (pos (suc n)) h = h
limit_fits (negsuc n) h = omega arith

read_full_no_panic : (n : ℕ) (stream : Bytes) → read_full n stream ≢ err makeslice_panic
unfolding read_full
read_full_no_panic zero stream e = cc
read_full_no_panic (suc n) [] e = cc
read_full_no_panic (suc n) (c ∷ stream) e = elim (Result-cases (read_full n stream)) [
  | inl ((g, r), f) ↦ absurd (let e' = rw f at e in cc)
  | inr (x, f) ↦ absurd (let e' = rw f at e in cc)
]

read_extended_no_panic : (w : ℕ) (stream : Bytes) → read_extended w stream ≢ err makeslice_panic
unfolding read_extended
read_extended_no_panic w stream e = elim (Result-cases (read_full w stream)) [
  | inl ((g, r), f) ↦ absurd (let e' = rw f at e in cc)
  | inr (x, f) ↦ (let e' = rw f at e in read_full_no_panic w stream (cc))
]

read_frame_length_no_panic :
    (header : ℕ) (stream : Bytes) → read_frame_length header stream ≢ err makeslice_panic
unfolding read_frame_length
read_frame_length_no_panic header stream e =
    ground (arith, read_extended_no_panic 2 stream, read_extended_no_panic 8 stream)

read_payload_no_panic :
    (m : ℤ) (size : ℕ) (stream : Bytes)
    → is_positive m ≡ true
    → pos_part m ≤ max_alloc
    → read_payload m size stream ≢ err makeslice_panic
unfolding read_payload
read_payload_no_panic m size stream pm h e = ground (arith, read_full_no_panic size stream)

decode_packet_no_panic : (input : Bytes) → decode_packet input ≢ err makeslice_panic
unfolding decode_packet
decode_packet_no_panic [] e = cc
decode_packet_no_panic (c ∷ rest) e = elim (Option-cases (decode_string rest)) [
  | inl n ↦ ground (arith, n)
  | inr (body, s) ↦ ground (arith, s)
]

decoded_no_panic :
    (d : Result Packet) (r : Bytes)
    → d ≢ err makeslice_panic
    → ◌>>=◌ {Next = Packet × Bytes} d (λ packet. ok (packet, r)) ≢ err makeslice_panic
decoded_no_panic (ok q) r k e = cc
decoded_no_panic (err x) r k e = k (cc)

decode_frame_payload_no_panic :
    (b : Bool) (payload : Bytes) → decode_frame_payload b payload ≢ err makeslice_panic
unfolding decode_frame_payload
decode_frame_payload_no_panic true payload e = cc
decode_frame_payload_no_panic false payload e = decode_packet_no_panic payload e

read_webtransport_packet_no_panic :
    (m : ℤ) (stream : Bytes)
    → is_positive m ≡ true
    → pos_part m ≤ max_alloc
    → read_webtransport_packet m stream ≢ err makeslice_panic
unfolding read_webtransport_packet
read_webtransport_packet_no_panic m [] pm h e = cc
read_webtransport_packet_no_panic m (header ∷ stream) pm h e =
    elim (Result-cases (read_frame_length header stream)) [
      | inr (x, f) ↦ (let e' = rw f at e in read_frame_length_no_panic header stream (cc))
      | inl ((size, after), f) ↦ elim (Result-cases (read_payload m size after)) [
        | inr (x, g) ↦ (let e' = rw (f, g) at e in read_payload_no_panic m size after pm h (cc))
        | inl ((payload, r), g) ↦
            decoded_no_panic (decode_frame_payload _ payload) r
              (decode_frame_payload_no_panic _ payload) (rw (f, g) at e)
      ]
    ]

-- The server bounds every read whatever WithMaxPayload was given, 0 and negative values included:
-- no packet with more data than the limit is read, and no declared length makes the read panic.
pub server_reads_bounded :
    (max_payload : ℤ) (stream : Bytes)
    → pos_part max_payload ≤ max_alloc
    → (read_webtransport_packet (webtransport_server_read_limit max_payload) stream
        ≢ err makeslice_panic)
      × ((p : Packet) (rest : Bytes)
          → read_webtransport_packet (webtransport_server_read_limit max_payload) stream
            ≡ ok (p, rest)
          → length p.body ≤ pos_part (webtransport_server_read_limit max_payload))
server_reads_bounded max_payload stream h =
    let limit = webtransport_server_read_limit max_payload in
    (
      read_webtransport_packet_no_panic limit stream (limit_positive max_payload)
          (limit_fits max_payload h),
      λ p rest. read_webtransport_packet_limit limit stream p rest (limit_positive max_payload),
    )
