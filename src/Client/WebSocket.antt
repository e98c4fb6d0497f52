-- ===== src/Client/WebSocket.antt =====
-- socket_transport_websocket.go: the client's websocket transport.
use go_engine_io.Base.{
  ℕ, zero, suc, Bool, true, false, not, ◌||◌, Option, none, some, List, [], ◌∷◌, ◌++◌, ◌==◌,
  if◌then◌else◌,
}
use go_engine_io.Codec.Packet.{Packet, Bytes, packet_close}
use go_engine_io.Codec.Result.{ok, err}
use go_engine_io.Codec.WebSocket.{MessageType, websocket_message, decode_websocket_frame}
use go_engine_io.Session.Socket.{Channel}
use go_engine_io.Session.Operations.{Cause}
use go_engine_io.Server.WebSocket.{Read, read_failed, read_message}
use go_engine_io.Client.Transport.{
  transport_closed, is_transport_open, dial_error, read_error, frame_error,
}
use go_engine_io.Client.Connected.{
  ConnectedClient, connected_on_open, connected_on_close, connected_on_packet, connected_on_error,
  Closings, has_connection, is_over, is_deliberate,
}

-- What `websocket.Dial` returns.
pub data Dial : Type 0 where
  dial_failed : Cause → Dial
  dialed : Channel → Dial

-- Open after its dial.
unfoldable pub websocket_finish_open : Dial → ConnectedClient → ConnectedClient
websocket_finish_open (dial_failed cause) t =
    connected_on_error (dial_error cause) (record t { state = transport_closed })
websocket_finish_open (dialed made) t = connected_on_open (record t { connection = some made })

-- How the connection answers the n-th write of a Send.
abbrev pub Answers : Type 0 → Type 0
Answers Written = ℕ → Written → Option Cause

-- The loop of Send, after `done` was written: its error, and what was written.
unfoldable pub send_messages :
    Answers (MessageType × Bytes)
    → ℕ
    → List (MessageType × Bytes)
    → List Packet
    → Option Cause × List (MessageType × Bytes)
send_messages write n done [] = (none, done)
send_messages write n done (packet ∷ packets) =
    let rest = send_messages write (suc n) (done ++ websocket_message packet ∷ []) packets in
    elim (write n (websocket_message packet)) [ none ↦ rest | some cause ↦ (some cause, done) ]

unfoldable pub websocket_client_send :
    Answers (MessageType × Bytes)
    → List Packet
    → ConnectedClient
    → Option Cause × List (MessageType × Bytes)
websocket_client_send write packets t =
    if not (is_transport_open t.state) || not (has_connection t.connection)
    then (none, [])
    else send_messages write zero [] packets

-- What readLoop does with a packet: whether it goes on.
unfoldable pub websocket_client_packet :
    Closings → Packet → ConnectedClient → Bool × ConnectedClient
websocket_client_packet closings packet t =
    if packet.type == packet_close
    then (false, connected_on_close closings (connected_on_packet packet t))
    else (true, connected_on_packet packet t)

-- readLoop once a read has returned: whether it goes on.
unfoldable pub websocket_client_read : Closings → Read → ConnectedClient → Bool × ConnectedClient
websocket_client_read closings (read_failed cause) t =
    let told = if not (is_deliberate t) then connected_on_error (read_error cause) t else t in
    (false, connected_on_close closings told)
websocket_client_read closings (read_message kind frame) t =
    elim (decode_websocket_frame kind frame) [
      | err e ↦ (true, connected_on_error (frame_error e) t)
      | ok packet ↦ websocket_client_packet closings packet t
    ]

-- readLoop over what the reads return, from the n-th on. `meanwhile n` says whether a Close tore
-- the connection down while the n-th read waited.
unfoldable pub websocket_client_loop :
    Closings → (ℕ → Bool) → ℕ → List Read → ConnectedClient → ConnectedClient
websocket_client_loop closings meanwhile n [] t = t
websocket_client_loop closings meanwhile n (read ∷ reads) t =
    let now = if meanwhile n then connected_on_close closings t else t in
    let (goes_on, next) = websocket_client_read closings read now in
    let rest = websocket_client_loop closings meanwhile (suc n) reads next in
    if is_over t then t else if goes_on then rest else next
