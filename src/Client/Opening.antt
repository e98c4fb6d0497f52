-- ===== src/Client/Opening.antt =====
-- socket_transport_*.go: a Close of a client transport that is still opening.
use go_engine_io.Base.{◌≡◌, refl, arith, false, none, some, [], ◌∷◌}
use go_engine_io.Codec.Packet.{Bytes, bare, packet_close}
use go_engine_io.Codec.WebSocket.{MessageType}
use go_engine_io.Session.Socket.{Channel}
use go_engine_io.Client.Transport.{transport_opening, transport_open, transport_closed}
use go_engine_io.Client.Polling.{
  PollingClient, polling_client_close, polling_begin_close, polling_on_close, Response,
  poll_response, may_poll,
}
use go_engine_io.Client.Polling.Quiet.{poll_response-IsQuiet}
use go_engine_io.Client.Connected.{
  ConnectedClient, connected_on_open, connected_on_close, connected_close, Closings,
}
use go_engine_io.Client.TornDown.{close_held-state}
use go_engine_io.Client.WebSocket.{Answers, dialed, websocket_client_send, websocket_finish_open}
use go_engine_io.Client.WebTransport.{
  ClientStream, webtransport_client_send, stream_opened, webtransport_finish_open,
}

-- Close of either transport, with its own Send.
abbrev pub websocket_close :
    Closings → Answers (MessageType × Bytes) → ConnectedClient → ConnectedClient
websocket_close closings write =
    connected_close closings (λ t. (websocket_client_send write (bare packet_close ∷ []) t).0)

abbrev pub webtransport_close : Closings → ClientStream → ConnectedClient → ConnectedClient
webtransport_close closings stream =
    connected_close closings (λ t. (webtransport_client_send stream (bare packet_close ∷ []) t).0)

polling_client_close-opening :
    (response : Response) (t : PollingClient)
    → t.state ≡ transport_opening
    → may_poll (polling_client_close response t) ≡ false
unfolding polling_client_close polling_begin_close polling_on_close may_poll
polling_client_close-opening response t e = ground (arith, e)

connected_on_close-closes :
    (closings : Closings) (t : ConnectedClient)
    → t.state ≡ transport_opening
    → (connected_on_close closings t).state ≡ transport_closed
unfolding connected_on_close
connected_on_close-closes closings t e =
    rw e
      (close_held-state closings t.connection
        (record t { state = transport_closed; connection = none })).0

websocket_close-closes :
    (closings : Closings) (write : Answers (MessageType × Bytes)) (t : ConnectedClient)
    → t.state ≡ transport_opening
    → (websocket_close closings write t).state ≡ transport_closed
unfolding connected_close websocket_client_send
websocket_close-closes closings write t e = rw e (connected_on_close-closes closings t e)

webtransport_close-closes :
    (closings : Closings) (stream : ClientStream) (t : ConnectedClient)
    → t.state ≡ transport_opening
    → (webtransport_close closings stream t).state ≡ transport_closed
unfolding connected_close webtransport_client_send
webtransport_close-closes closings stream t e = rw e (connected_on_close-closes closings t e)

-- What becomes of a closed transport whose dial succeeds: it is open on the new connection.
abbrev pub Reopens : Channel → ConnectedClient → ConnectedClient → Type 0
Reopens made closed next =
    (closed.state ≡ transport_closed)
    × (next.state ≡ transport_open)
    × (next.connection ≡ some made)

-- Close of a transport that is opening. The polling transport stays shut whatever its poll is
-- answered with afterwards. The websocket and the webtransport transport are closed by it, but when
-- the dial that was under way then succeeds, they are open again, on the new connection.
pub close_while_opening :
    (polling : PollingClient) (close_response response : Response) (t : ConnectedClient)
    (closings : Closings) (write : Answers (MessageType × Bytes)) (stream : ClientStream)
    (made : Channel)
    → polling.state ≡ transport_opening
    → t.state ≡ transport_opening
    → (may_poll (poll_response response (polling_client_close close_response polling)).1 ≡ false)
      × Reopens made
          (websocket_close closings write t)
          (websocket_finish_open (dialed made) (websocket_close closings write t))
      × Reopens made (webtransport_close closings stream t) (
          webtransport_finish_open closings none
            (stream_opened made)
            (webtransport_close closings stream t))
unfolding websocket_finish_open webtransport_finish_open connected_on_open
close_while_opening polling close_response response t closings write stream made p e = (
  poll_response-IsQuiet response (polling_client_close close_response polling)
      (polling_client_close-opening close_response polling p),
  (websocket_close-closes closings write t e, refl, refl),
  (webtransport_close-closes closings stream t e, refl, refl),
)
