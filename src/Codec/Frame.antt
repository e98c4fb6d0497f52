-- ===== src/Codec/Frame.antt =====
-- encoding_webtransport.go: one packet per length-prefixed frame on a byte stream.
pub mod RoundTrip
pub mod Limits
use Prim.Native.Nat.{bit_and, bit_or}
use go_engine_io.Base.{
  ℕ, zero, suc, ◌+◌, ◌-◌, ◌*◌, ◌/◌, ◌%◌, ◌^◌, Bool, true, false, not, ◌&&◌, List, [], ◌∷◌, ◌++◌,
  length, ltb, leb, ◌==◌, if◌then◌else◌,
}
use go_engine_io.Base.Int.{ℤ, is_positive, pos_part}
use go_engine_io.Codec.Packet.{Bytes, Packet, packet_message}
use go_engine_io.Codec.Result.{
  Result, ok, err, eof, unexpected_eof, frame_too_large, makeslice_panic, ◌>>=◌,
}
use go_engine_io.Codec.Encoding.{encode_packet, decode_packet}

abbrev pub len16_marker : ℕ
len16_marker = 126

abbrev pub len64_marker : ℕ
len64_marker = 127

abbrev pub binary_flag : ℕ
binary_flag = 0x80

-- binary.BigEndian.AppendUint16 and AppendUint64.
abbrev pub append_uint16 : Bytes → ℕ → Bytes
append_uint16 dst v = dst ++ (v / 2 ^ 8 % 256 ∷ v % 256 ∷ [])

abbrev pub append_uint64 : Bytes → ℕ → Bytes
append_uint64 dst v =
    dst
    ++ (v / 2 ^ 56 % 256
        ∷ v / 2 ^ 48 % 256
        ∷ v / 2 ^ 40 % 256
        ∷ v / 2 ^ 32 % 256
        ∷ v / 2 ^ 24 % 256
        ∷ v / 2 ^ 16 % 256
        ∷ v / 2 ^ 8 % 256
        ∷ v % 256
        ∷ [])

-- The header for a payload of `size` bytes.
unfoldable pub append_header : Bytes → ℕ → ℕ → Bytes
append_header dst size flag =
    if ltb size len16_marker
    then dst ++ (bit_or (size % 256) flag ∷ [])
    else if ltb size (2 ^ 16)
    then append_uint16 (dst ++ (bit_or len16_marker flag ∷ [])) (size % 2 ^ 16)
    else append_uint64 (dst ++ (bit_or len64_marker flag ∷ [])) (size % 2 ^ 64)

unfoldable pub append_webtransport_frame : Bytes → Packet → Bytes
append_webtransport_frame dst packet =
    let payload = if packet.is_binary then packet.body else encode_packet packet in
    let flag = if packet.is_binary then binary_flag else 0 in
    append_header dst (length payload) flag ++ payload

-- io.ReadFull of `n` bytes from a stream that will deliver `stream` and then end.
unfoldable pub read_full : ℕ → Bytes → Result (Bytes × Bytes)
read_full zero stream = ok ([], stream)
read_full (suc n) [] = err eof
read_full (suc n) (c ∷ stream) = elim (read_full n stream) [
  | ok (got, rest) ↦ ok (c ∷ got, rest)
  | err e ↦ err unexpected_eof
]

-- The big-endian number of some bytes.
abbrev pub big_endian : ℕ → Bytes → ℕ
big_endian acc [] = acc
big_endian acc (b ∷ bs) = big_endian (acc * 256 + b) bs

-- An extended length of `width` bytes.
unfoldable pub read_extended : ℕ → Bytes → Result (ℕ × Bytes)
read_extended width stream =
    read_full width stream >>= λ (bytes, rest). ok (big_endian 0 bytes, rest)

-- `header[0] &^ webTransportBinaryFlag` clears the flag.
unfoldable pub read_frame_length : ℕ → Bytes → Result (ℕ × Bytes)
read_frame_length header stream =
    let marker = bit_and header (255 - binary_flag) in
    if ltb marker len16_marker
    then ok (marker, stream)
    else if marker == len16_marker
    then read_extended 2 stream
    else read_extended 8 stream

-- The largest allocation of Go's runtime on a 64-bit machine; `make` panics above it. That there may
-- be less memory than this is left out.
abbrev pub max_alloc : ℕ
max_alloc = 2 ^ 48

-- The limit, the allocation and the payload.
unfoldable pub read_payload : ℤ → ℕ → Bytes → Result (Bytes × Bytes)
read_payload max_payload size stream =
    if is_positive max_payload && ltb (pos_part max_payload) size
    then err frame_too_large
    else if ltb max_alloc size
    then err makeslice_panic
    else read_full size stream

unfoldable pub decode_frame_payload : Bool → Bytes → Result Packet
decode_frame_payload true payload =
    ok (record { type = packet_message; body = payload; is_binary = true })
decode_frame_payload false payload = decode_packet payload

-- The packet, and what of the stream is left.
unfoldable pub read_webtransport_packet : ℤ → Bytes → Result (Packet × Bytes)
read_webtransport_packet max_payload [] = err eof
read_webtransport_packet max_payload (header ∷ stream) =
    let is_binary = not (bit_and header binary_flag == 0) in
    read_frame_length header stream >>= λ (size, after_length).
    read_payload max_payload size after_length >>= λ (payload, rest).
    decode_frame_payload is_binary payload >>= λ packet. ok (packet, rest)
