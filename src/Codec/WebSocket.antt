-- ===== src/Codec/WebSocket.antt =====
-- socket_transport_websocket.go and server_transport_websocket.go: one packet as one WebSocket
-- message, as both ends write and read it.
use go_engine_io.Base.{◌≡◌, arith, Bool, true, false, Bool-cases, if◌then◌else◌, inl, inr}
use go_engine_io.Codec.Packet.{Bytes, Packet, IsValid, packet_message}
use go_engine_io.Codec.Result.{Result, ok}
use go_engine_io.Codec.Encoding.{encode_packet, decode_packet}
use go_engine_io.Codec.Encoding.RoundTrip.{decode_packet-encode_packet}

-- websocket.MessageType.
pub data MessageType : Type 0 where
  message_text message_binary : MessageType

abbrev pub is_binary_message : MessageType → Bool
is_binary_message message_text = false
is_binary_message message_binary = true

-- The message that carries a packet: its kind and its bytes.
unfoldable pub websocket_message : Packet → MessageType × Bytes
websocket_message packet =
    if packet.is_binary then (message_binary, packet.body) else (message_text, encode_packet packet)

unfoldable pub decode_websocket_frame : MessageType → Bytes → Result Packet
decode_websocket_frame message_type frame =
    if is_binary_message message_type
    then ok (record { type = packet_message; body = frame; is_binary = true })
    else decode_packet frame

-- The message of a valid packet is decoded to that packet.
pub decode_websocket_frame-message :
    (p : Packet)
    → IsValid p
    → decode_websocket_frame (websocket_message p).0 (websocket_message p).1 ≡ ok p
unfolding decode_websocket_frame websocket_message
decode_websocket_frame-message p v = elim (Bool-cases p.is_binary) [
  | inl b ↦ ground (arith, v.binary_message b)
  | inr t ↦ ground (arith, decode_packet-encode_packet p v)
]
