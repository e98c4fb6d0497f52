-- ===== src/Server/WebSocket.antt =====
-- server_transport_websocket.go: the server's websocket transport.
pub mod Sending
use go_engine_io.Base.{
  ℕ, zero, suc, Bool, true, false, ◌&&◌, Option, none, some, List, [], ◌∷◌, ◌++◌, ◌==◌,
  if◌then◌else◌,
}
use go_engine_io.Codec.Packet.{Packet, Bytes, packet_ping, packet_upgrade}
use go_engine_io.Codec.Result.{Error, Result, ok, err}
use go_engine_io.Codec.WebSocket.{MessageType, websocket_message, decode_websocket_frame}
use go_engine_io.Session.Socket.{Channel, reason_transport_close, reason_parse_error}
use go_engine_io.Session.Operations.{
  Effect, Cause, SendResult, sent, held_back, failed, close_with_reason, handle_packet, on_probe,
  complete_upgrade, abort_upgrade,
}
use go_engine_io.Server.Request.{same_bytes}
use go_engine_io.Server.Connection.{
  Connection, Setting, Link, connection, on_world, meanwhile, probe_data, probe_pong, Writes,
}

-- What the connection has to say of a write, and the messages that were written.
abbrev pub Sent : Type 0
Sent = SendResult × List (MessageType × Bytes)

-- The loop of send, after `done` was written.
unfoldable pub write_messages :
    Writes (MessageType × Bytes) → List Effect → ℕ → List (MessageType × Bytes) → List Packet → Sent
write_messages write effects n done [] = (sent, done)
write_messages write effects n done (packet ∷ packets) =
    let rest =
      write_messages write effects (suc n) (done ++ websocket_message packet ∷ []) packets in
    elim (write effects n (websocket_message packet)) [
      | none ↦ rest
      | some cause ↦ (failed cause, done)
    ]

unfoldable pub websocket_send :
    Writes (MessageType × Bytes) → List Effect → Connection → List Packet → Sent
websocket_send write effects c packets =
    if c.closed then (held_back, []) else write_messages write effects zero [] packets

-- What `ws.Read` returns.
pub data Read : Type 0 where
  read_failed : Cause → Read
  read_message : MessageType → Bytes → Read

module _ (setting : Setting) (write : Writes (MessageType × Bytes)) where
  -- readLoop after a failed read.
  unfoldable pub websocket_read_error : Cause → Link → Link
  websocket_read_error cause l =
      if (connection setting l).closed
      then l
      else if (connection setting l).probing
      then on_world (abort_upgrade setting.me) l
      else on_world (close_with_reason reason_transport_close (some cause)) l

  -- readLoop after a frame that does not decode.
  unfoldable pub websocket_decode_error : Error → Link → Link
  websocket_decode_error e l =
      if (connection setting l).probing
      then on_world (abort_upgrade setting.me) l
      else on_world (close_with_reason reason_parse_error (some (setting.cause_of e))) l

  unfoldable pub websocket_probe_packet : ℕ → Packet → Link → Link
  websocket_probe_packet n packet l =
      if (packet.type == packet_ping) && same_bytes packet.body probe_data
      then elim (write l.world.effects l.pongs (websocket_message probe_pong)) [
        | some cause ↦ on_world (abort_upgrade setting.me) l
        | none ↦ on_world (on_probe (setting.channels n)) (record l { pongs = suc l.pongs })
      ]
      else if packet.type == packet_upgrade
      then on_world (complete_upgrade setting.transports setting.me) l
      else l

  -- The rest of the loop's body, for a frame that decodes.
  unfoldable pub websocket_on_packet : ℕ → Packet → Link → Link
  websocket_on_packet n packet l =
      if (connection setting l).probing
      then websocket_probe_packet n packet l
      else on_world (handle_packet packet) l

  -- One round of the loop once the read has returned: whether the loop goes on.
  unfoldable pub websocket_on_read : ℕ → Read → Link → Bool × Link
  websocket_on_read n (read_failed cause) l = (false, websocket_read_error cause l)
  websocket_on_read n (read_message kind frame) l = elim (decode_websocket_frame kind frame) [
    | err e ↦ (false, websocket_decode_error e l)
    | ok packet ↦ (true, websocket_on_packet n packet l)
  ]

  -- The loop over what the reads return, from the n-th on.
  unfoldable pub websocket_read_loop : ℕ → List Read → Link → Link
  websocket_read_loop n [] l = l
  websocket_read_loop n (read ∷ reads) l =
      let (goes_on, next) = websocket_on_read n read (meanwhile setting n l) in
      let rest = websocket_read_loop (suc n) reads next in if goes_on then rest else next
