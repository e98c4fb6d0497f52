-- ===== src/Server/Takeover.antt =====
-- server_transport_websocket.go and server_socket.go: an upgrade, from the probe ping to the takeover.
use go_engine_io.Base.{false}
use go_engine_io.Codec.Packet.{Packet, packet_ping}
use go_engine_io.Codec.WebSocket.{websocket_message}
use go_engine_io.Server.Connection.{Connection, probe_data}
use go_engine_io.Server.WebSocket.{Read, read_message}

-- The messages of a client that upgrades.
abbrev pub ping_packet : Packet
ping_packet = record { type = packet_ping; body = probe_data; is_binary = false }

abbrev pub message_read : Packet → Read
message_read p = read_message (websocket_message p).0 (websocket_message p).1
