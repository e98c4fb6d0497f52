-- ===== src/Codec/Payload/Legacy.antt =====
-- payload.go: one packet of the v2 and v3 framings.
use go_engine_io.Base.{arith, ◌≢◌, ℕ, true, false, none, some, [], ◌∷◌, ◌==◌, if◌then◌else◌}
use go_engine_io.Codec.Packet.{Bytes, Packet, packet_type_from_byte, valid}
use go_engine_io.Codec.Result.{
  Result, ok, err, out_of_fuel, empty_packet, invalid_packet_type, corrupt_base64,
  malformed_payload,
}
use go_engine_io.Codec.Base64.{decode_string}
use go_engine_io.Codec.Encoding.{binary_marker}

-- After the marker comes the type digit, and then the base64 text.
decode_marked : Bytes → Result Packet
decode_marked [] = err malformed_payload
decode_marked (digit ∷ encoded) =
    let packet_type = packet_type_from_byte digit in
    if valid packet_type
    then elim (decode_string encoded) [
      | none ↦ err corrupt_base64
      | some body ↦ ok (record { type = packet_type; body = body; is_binary = true })
    ]
    else err invalid_packet_type

unfoldable pub decode_string_framed_packet : Bytes → Result Packet
unfolding decode_marked
decode_string_framed_packet [] = err empty_packet
decode_string_framed_packet (first ∷ rest) =
    let packet_type = packet_type_from_byte first in
    if first == binary_marker
    then decode_marked rest
    else if valid packet_type
    then ok (record { type = packet_type; body = rest; is_binary = false })
    else err invalid_packet_type

abbrev pub binary_string_marker : ℕ
binary_string_marker = 0x00

abbrev pub binary_binary_marker : ℕ
binary_binary_marker = 0x01

abbrev pub binary_length_terminator : ℕ
binary_length_terminator = 0xff

-- A raw type byte, and the raw data.
decode_raw : Bytes → Result Packet
decode_raw [] = err malformed_payload
decode_raw (type_byte ∷ rest) =
    if valid type_byte
    then ok (record { type = type_byte; body = rest; is_binary = true })
    else err invalid_packet_type

unfoldable pub decode_binary_framed_packet : ℕ → Bytes → Result Packet
unfolding decode_raw decode_string_framed_packet
decode_binary_framed_packet marker body =
    if marker == binary_string_marker then decode_string_framed_packet body else decode_raw body

pub decode_string_framed_packet-ne : (s : Bytes) → decode_string_framed_packet s ≢ err out_of_fuel
unfolding decode_string_framed_packet
decode_string_framed_packet-ne [] e = cc
decode_string_framed_packet-ne (c ∷ []) e = ground arith
decode_string_framed_packet-ne (c ∷ d ∷ rest) e = ground arith

pub decode_binary_framed_packet-ne :
    (marker : ℕ) (s : Bytes) → decode_binary_framed_packet marker s ≢ err out_of_fuel
unfolding decode_binary_framed_packet
decode_binary_framed_packet-ne marker [] e = ground arith
decode_binary_framed_packet-ne marker (c ∷ []) e = ground arith
decode_binary_framed_packet-ne marker (c ∷ d ∷ rest) e = ground arith
