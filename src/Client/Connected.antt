-- ===== src/Client/Connected.antt =====
-- socket_transport_websocket.go and socket_transport_webtransport.go: what the two transports on a
-- connection share, which the two files write out alike. The connection stands for `ws`, and for
-- `session`, `stream` and `reader`, which are set and cleared together.
use go_engine_io.Base.{
  Bool, true, false, not, ◌&&◌, ◌||◌, Option, none, some, List, [], ◌∷◌, ◌++◌, if◌then◌else◌,
}
use go_engine_io.Codec.Packet.{Packet}
use go_engine_io.Session.Socket.{Channel}
use go_engine_io.Session.Operations.{Cause}
use go_engine_io.Client.Transport.{
  TransportState, transport_opening, transport_open, transport_closed, is_transport_opening,
  is_transport_open, is_transport_closing, is_transport_closed, Handlers, TransportError,
  close_packet_error, close_error, TransportEvent, calls_on_open, calls_on_close, calls_on_packet,
  calls_on_error, closes_connection, notify,
}

pub record ConnectedClient : Type 0 where
  pub handlers : Handlers
  pub state : TransportState
  pub connection : Option Channel
  pub events : List TransportEvent

unfoldable pub new_connected_client : ConnectedClient
new_connected_client = record {
  handlers = record {
    on_open_handler = none;
    on_close_handler = none;
    on_packet_handler = none;
    on_error_handler = none;
  };
  state = transport_closed;
  connection = none;
  events = [];
}

-- beginOpen, after which Open dials.
unfoldable pub connected_begin_open : ConnectedClient → Option ConnectedClient
connected_begin_open t =
    if not (is_transport_closed t.state)
    then none
    else some (record t { state = transport_opening })

unfoldable pub connected_on_open : ConnectedClient → ConnectedClient
connected_on_open t = record t {
  state = transport_open;
  events = notify t.handlers.on_open_handler calls_on_open t.events;
}

unfoldable pub connected_on_packet : Packet → ConnectedClient → ConnectedClient
connected_on_packet packet t = record t {
  events = notify t.handlers.on_packet_handler (λ h. calls_on_packet h packet) t.events;
}

unfoldable pub connected_on_error : TransportError → ConnectedClient → ConnectedClient
connected_on_error e t = record t {
  events = notify t.handlers.on_error_handler (λ h. calls_on_error h e) t.events;
}

-- The error of closing a connection, if there is one. The connections are not of this repository.
abbrev pub Closings : Type 0
Closings = Channel → Option Cause

abbrev pub close_held : Closings → Option Channel → ConnectedClient → ConnectedClient
close_held closings none t = t
close_held closings (some held) t =
    let closed = record t { events = t.events ++ closes_connection held ∷ [] } in
    elim (closings held) [
      | none ↦ closed
      | some cause ↦ connected_on_error (close_error cause) closed
    ]

unfoldable pub connected_on_close : Closings → ConnectedClient → ConnectedClient
connected_on_close closings t =
    if is_transport_closed t.state
    then t
    else let gone = record t { state = transport_closed; connection = none } in
      let torn = close_held closings t.connection gone in
      record torn { events = notify t.handlers.on_close_handler calls_on_close torn.events }

-- Close, with the error that Send returns for the close packet.
unfoldable pub connected_close :
    Closings → (ConnectedClient → Option Cause) → ConnectedClient → ConnectedClient
connected_close closings send_close t =
    if not (is_transport_opening t.state) && not (is_transport_open t.state)
    then t
    else elim (send_close t) [
      | none ↦ connected_on_close closings t
      | some cause ↦ connected_on_close closings (connected_on_error (close_packet_error cause) t)
    ]

-- `ws == nil || state == TransportStateClosing || state == TransportStateClosed`.
abbrev pub has_connection : Option Channel → Bool
has_connection none = false
has_connection (some held) = true

abbrev pub is_over : ConnectedClient → Bool
is_over t =
    not (has_connection t.connection) || is_transport_closing t.state || is_transport_closed t.state

-- Whether the transport was closed on purpose while the loop read.
abbrev pub is_deliberate : ConnectedClient → Bool
is_deliberate t = is_transport_closing t.state || is_transport_closed t.state
