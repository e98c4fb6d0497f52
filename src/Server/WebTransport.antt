-- ===== src/Server/WebTransport.antt =====
-- server_transport_webtransport.go: the server's webtransport transport.
pub mod Frames
pub mod Limits
use go_engine_io.Base.{
  ℕ, zero, suc, ◌*◌, ◌^◌, Bool, true, false, not, ◌&&◌, Option, none, some, List, [], ◌∷◌, ◌==◌,
  if◌then◌else◌,
}
use go_engine_io.Base.Int.{ℤ, pos, is_positive}
use go_engine_io.Codec.Packet.{Packet, Bytes, packet_ping, packet_upgrade}
use go_engine_io.Codec.Result.{
  Error, empty_packet, invalid_packet_type, corrupt_base64, malformed_payload,
  unsupported_protocol_version, frame_too_large, eof, unexpected_eof, slice_panic, makeslice_panic,
  out_of_fuel, Result, ok, err,
}
use go_engine_io.Codec.Frame.{append_webtransport_frame, read_webtransport_packet}
use go_engine_io.Session.Socket.{reason_transport_close, reason_parse_error}
use go_engine_io.Session.Operations.{
  Effect, Cause, SendResult, sent, held_back, failed, close_with_reason, handle_packet, on_probe,
  complete_upgrade, abort_upgrade,
}
use go_engine_io.Server.Request.{same_bytes}
use go_engine_io.Server.Connection.{
  Connection, Setting, Link, connection, on_world, meanwhile, probe_data, probe_pong, Writes,
}

-- The buffer that writeFrames makes of its packets.
unfoldable pub append_frames : Bytes → List Packet → Bytes
append_frames buffer [] = buffer
append_frames buffer (packet ∷ packets) =
    append_frames (append_webtransport_frame buffer packet) packets

-- The two calls of the stream by which a write can fail.
pub record Stream : Type 0 where
  pub set_write_deadline : List Effect → ℕ → Option Cause
  pub write : Writes Bytes

unfoldable pub write_frames : Stream → List Effect → ℕ → List Packet → Option Cause
write_frames stream effects n packets = elim (stream.set_write_deadline effects n) [
  | some cause ↦ some cause
  | none ↦ stream.write effects n (append_frames [] packets)
]

-- The result of send, and what the stream was given when the write did not fail.
unfoldable pub webtransport_send :
    Stream → List Effect → Connection → List Packet → SendResult × Bytes
webtransport_send stream effects c packets =
    if c.closed then (held_back, []) else elim (write_frames stream effects zero packets) [
      | some cause ↦ (failed cause, [])
      | none ↦ (sent, append_frames [] packets)
    ]

-- `16 << 20`
abbrev pub webtransport_read_limit : ℕ
webtransport_read_limit = 16 * 2 ^ 20

unfoldable pub webtransport_server_read_limit : ℤ → ℤ
webtransport_server_read_limit max_payload =
    if not (is_positive max_payload) then pos webtransport_read_limit else max_payload

unfoldable pub is_webtransport_parse_error : Error → Bool
is_webtransport_parse_error empty_packet = true
is_webtransport_parse_error invalid_packet_type = true
is_webtransport_parse_error frame_too_large = true
is_webtransport_parse_error corrupt_base64 = false
is_webtransport_parse_error malformed_payload = false
is_webtransport_parse_error unsupported_protocol_version = false
is_webtransport_parse_error eof = false
is_webtransport_parse_error unexpected_eof = false
is_webtransport_parse_error slice_panic = false
is_webtransport_parse_error makeslice_panic = false
is_webtransport_parse_error out_of_fuel = false

module _ (setting : Setting) (stream : Stream) where
  -- readLoop after a failed read.
  unfoldable pub webtransport_read_error : Error → Link → Link
  webtransport_read_error e l =
      if (connection setting l).closed
      then l
      else if (connection setting l).probing
      then on_world (abort_upgrade setting.me) l
      else if is_webtransport_parse_error e
      then on_world (close_with_reason reason_parse_error (some (setting.cause_of e))) l
      else on_world (close_with_reason reason_transport_close (some (setting.cause_of e))) l

  unfoldable pub webtransport_probe_packet : ℕ → Packet → Link → Link
  webtransport_probe_packet n packet l =
      if (packet.type == packet_ping) && same_bytes packet.body probe_data
      then elim (write_frames stream l.world.effects l.pongs (probe_pong ∷ [])) [
        | some cause ↦ on_world (abort_upgrade setting.me) l
        | none ↦ on_world (on_probe (setting.channels n)) (record l { pongs = suc l.pongs })
      ]
      else if packet.type == packet_upgrade
      then on_world (complete_upgrade setting.transports setting.me) l
      else l

  -- The rest of the loop's body, for a packet that was read.
  unfoldable pub webtransport_on_packet : ℕ → Packet → Link → Link
  webtransport_on_packet n packet l =
      if (connection setting l).probing
      then webtransport_probe_packet n packet l
      else on_world (handle_packet packet) l

  -- The loop over a stream that delivers `input` and then ends, from the n-th packet on, with fuel.
  unfoldable pub webtransport_read_loop : ℤ → ℕ → ℕ → Bytes → Link → Link
  webtransport_read_loop max_payload zero n input l = l
  webtransport_read_loop max_payload (suc fuel) n input l =
      let now = meanwhile setting n l in
      elim (read_webtransport_packet (webtransport_server_read_limit max_payload) input) [
        | err e ↦ webtransport_read_error e now
        | ok (packet, rest) ↦
            webtransport_read_loop max_payload fuel (suc n) rest
              (webtransport_on_packet n packet now)
      ]
