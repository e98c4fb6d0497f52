-- ===== src/Codec/Encoding.antt =====
-- encoding.go: one packet in its text wire form.
pub mod RoundTrip
pub mod Errors
pub mod Length
use go_engine_io.Base.{ℕ, true, false, none, some, [], ◌∷◌, ◌++◌, ◌==◌, if◌then◌else◌}
use go_engine_io.Codec.Packet.{Bytes, Packet, to_byte, packet_type_from_byte, valid, packet_message}
use go_engine_io.Codec.Result.{Result, ok, err, empty_packet, invalid_packet_type, corrupt_base64}
use go_engine_io.Codec.Base64.{encode, decode_string}

abbrev pub binary_marker : ℕ
binary_marker = b'b'

unfoldable pub append_packet : Bytes → Packet → Bytes
append_packet dst packet =
    if packet.is_binary
    then (dst ++ (binary_marker ∷ [])) ++ encode packet.body
    else (dst ++ (to_byte packet.type ∷ [])) ++ packet.body

unfoldable pub encode_packet : Packet → Bytes
unfolding append_packet
encode_packet packet = append_packet [] packet

-- The branch of a leading binary marker.
decode_binary : Bytes → Result Packet
decode_binary rest = elim (decode_string rest) [
  | none ↦ err corrupt_base64
  | some body ↦ ok (record { type = packet_message; body = body; is_binary = true })
]

decode_text : ℕ → Bytes → Result Packet
decode_text first rest =
    let packet_type = packet_type_from_byte first in
    if valid packet_type
    then ok (record { type = packet_type; body = rest; is_binary = false })
    else err invalid_packet_type

unfoldable pub decode_packet : Bytes → Result Packet
unfolding decode_binary decode_text
decode_packet [] = err empty_packet
decode_packet (first ∷ rest) =
    if first == binary_marker then decode_binary rest else decode_text first rest
