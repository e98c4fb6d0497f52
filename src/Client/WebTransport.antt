-- ===== src/Client/WebTransport.antt =====
-- socket_transport_webtransport.go: the client's webtransport transport.
use go_engine_io.Base.{
  ℕ, zero, suc, Bool, true, false, not, Option, none, some, List, [], ◌==◌, if◌then◌else◌,
}
use go_engine_io.Base.Int.{pos}
use go_engine_io.Codec.Packet.{Packet, Bytes, bare, packet_open, packet_close}
use go_engine_io.Codec.Result.{Error, ok, err}
use go_engine_io.Codec.Frame.{read_webtransport_packet}
use go_engine_io.Session.Socket.{Channel}
use go_engine_io.Session.Operations.{Cause}
use go_engine_io.Server.Request.{same_bytes}
use go_engine_io.Server.WebTransport.{append_frames, webtransport_read_limit}
use go_engine_io.Client.Transport.{
  transport_closed, is_transport_open, dial_error, stream_error, open_packet_error, read_error,
}
use go_engine_io.Client.Connected.{
  ConnectedClient, connected_on_open, connected_on_close, connected_on_packet, connected_on_error,
  Closings, has_connection, is_over, is_deliberate,
}

-- The two calls of the stream by which a write can fail.
pub record ClientStream : Type 0 where
  pub set_deadline : Option Cause
  pub write_buffer : Bytes → Option Cause

unfoldable pub client_write_frames :
    ClientStream → List Packet → ConnectedClient → Option Cause × Bytes
client_write_frames stream packets t =
    if not (has_connection t.connection) then (none, []) else elim stream.set_deadline [
      | some cause ↦ (some cause, [])
      | none ↦ elim (stream.write_buffer (append_frames [] packets)) [
        | some cause ↦ (some cause, [])
        | none ↦ (none, append_frames [] packets)
      ]
    ]

unfoldable pub webtransport_client_send :
    ClientStream → List Packet → ConnectedClient → Option Cause × Bytes
webtransport_client_send stream packets t =
    if not (is_transport_open t.state) then (none, []) else client_write_frames stream packets t

-- The packet of writeOpen: empty, or with the JSON text that `marshal` makes of the session's id.
unfoldable pub opening_packet : (Bytes → Bytes) → Bytes → Packet
opening_packet marshal sid =
    if same_bytes sid [] then bare packet_open else record (bare packet_open) { body = marshal sid }

-- What the dial and the opening of the stream return.
pub data StreamDial : Type 0 where
  session_failed stream_failed : Cause → StreamDial
  stream_opened : Channel → StreamDial

-- Open after its dial, with the error of writeOpen.
unfoldable pub webtransport_finish_open :
    Closings → Option Cause → StreamDial → ConnectedClient → ConnectedClient
webtransport_finish_open closings write_open (session_failed cause) t =
    connected_on_error (dial_error cause) (record t { state = transport_closed })
webtransport_finish_open closings write_open (stream_failed cause) t =
    connected_on_error (stream_error cause) (record t { state = transport_closed })
webtransport_finish_open closings write_open (stream_opened made) t =
    let held = record t { connection = some made } in
    elim write_open [
      | some cause ↦ connected_on_close closings (connected_on_error (open_packet_error cause) held)
      | none ↦ connected_on_open held
    ]

-- What readLoop does with a packet: whether it goes on.
unfoldable pub webtransport_client_packet :
    Closings → Packet → ConnectedClient → Bool × ConnectedClient
webtransport_client_packet closings packet t =
    if packet.type == packet_close
    then (false, connected_on_close closings (connected_on_packet packet t))
    else (true, connected_on_packet packet t)

unfoldable pub webtransport_client_error : Closings → Cause → ConnectedClient → ConnectedClient
webtransport_client_error closings cause t =
    connected_on_close closings
      (if not (is_deliberate t) then connected_on_error (read_error cause) t else t)

-- readLoop over a stream that delivers `input` and then ends, from the n-th packet on, with fuel.
-- `meanwhile n` says whether a Close tore the session down while the n-th read waited.
unfoldable pub webtransport_client_loop :
    Closings → (Error → Cause) → (ℕ → Bool) → ℕ → ℕ → Bytes → ConnectedClient → ConnectedClient
webtransport_client_loop closings cause_of meanwhile zero n input t = t
webtransport_client_loop closings cause_of meanwhile (suc fuel) n input t =
    let now = if meanwhile n then connected_on_close closings t else t in
    if is_over t then t else elim (read_webtransport_packet (pos webtransport_read_limit) input) [
      | err e ↦ webtransport_client_error closings (cause_of e) now
      | ok (packet, rest) ↦
          let (goes_on, next) = webtransport_client_packet closings packet now in
          let further =
            webtransport_client_loop closings cause_of meanwhile fuel (suc n) rest next in
          if goes_on then further else next
    ]
