-- ===== src/Client/TransportTests.antt =====
-- socket_transport_*.go: the theorems at concrete transports.
use go_engine_io.Base.{zero, ◌≡◌, ◌⊎◌, refl, arith, true, false, none, some, [], ◌∷◌, ◌++◌}
use go_engine_io.Base.Int.{pos}
use go_engine_io.Codec.Packet.{Packet, bare, IsValid, packet_open, packet_close, packet_message}
use go_engine_io.Codec.Result.{Error}
use go_engine_io.Codec.Encoding.{encode_packet, append_packet}
use go_engine_io.Codec.Payload.Separated.{encode_payload, append_payload, append_payload_from}
use go_engine_io.Codec.Payload.Separated.RoundTrip.{Fits}
use go_engine_io.Session.Socket.{polling}
use go_engine_io.Session.Operations.{World, Cause}
use go_engine_io.Session.Program.{new_world}
use go_engine_io.Server.Request.{method_post}
use go_engine_io.Server.Post.{status_ok, handle_packets, handle_send}
use go_engine_io.Server.WebSocket.{read_failed}
use go_engine_io.Server.WebTransport.{append_frames, webtransport_server_read_limit}
use go_engine_io.Server.Agreement.{reads_of}
use go_engine_io.Client.Transport.{
  Handlers, transport_opening, transport_open, is_transport_open, delivered,
}
use go_engine_io.Client.Polling.{
  PollingClient, may_poll, responded, poll_response, poll_loop, HttpRequest, polling_client_send,
  polling_client_close,
}
use go_engine_io.Client.Polling.Delivery.{IsDelivered, IsStopped, poll_response-IsDelivered}
use go_engine_io.Client.Polling.Life.{responses_of, concat, IsPayload, polls_deliver}
use go_engine_io.Client.Polling.Posts.{polling_client_send-handle_send}
use go_engine_io.Client.Connected.{ConnectedClient}
use go_engine_io.Client.WebSocket.{dialed, websocket_client_loop, websocket_finish_open}
use go_engine_io.Client.WebTransport.{
  ClientStream, stream_opened, webtransport_client_loop, webtransport_finish_open,
}
use go_engine_io.Client.Loops.{IsReceivable, client_loops_agree}
use go_engine_io.Client.Received.{until_close, IsFinished, client_loop-IsFinished}
use go_engine_io.Client.Opening.{websocket_close, webtransport_close, Reopens, close_while_opening}

abbrev handlers : Handlers
handlers = record {
  on_open_handler = some 1;
  on_close_handler = some 2;
  on_packet_handler = some 3;
  on_error_handler = none;
}

abbrev opening_poll : PollingClient
opening_poll = record { handlers = handlers; state = transport_opening; events = [] }

abbrev open_poll : PollingClient
open_poll = record { handlers = handlers; state = transport_open; events = [] }

abbrev hello : Packet
hello = record { type = packet_message; body = b'h' ∷ b'i' ∷ []; is_binary = false }

hello-Fits : Fits hello
hello-Fits = ground arith

open-Fits : Fits (bare packet_open)
open-Fits = ground arith

hello-IsPayload : IsPayload (hello ∷ [])
hello-IsPayload = ((λ e. omega (arith, e)), (hello-Fits, tt), ((λ e. omega (arith, e)), tt))

opens-IsPayload : IsPayload (bare packet_open ∷ hello ∷ [])
opens-IsPayload = (
  (λ e. omega (arith, e)),
  (open-Fits, (hello-Fits, tt)),
  ((λ e. omega (arith, e)), ((λ e. omega (arith, e)), tt)),
)

polls_deliver_example :
    (delivered
        (poll_loop
          (responses_of ((bare packet_open ∷ hello ∷ []) ∷ (hello ∷ []) ∷ []))
          opening_poll).events
      ≡ delivered opening_poll.events
        ++ concat ((bare packet_open ∷ hello ∷ []) ∷ (hello ∷ []) ∷ []))
    × (is_transport_open
          (poll_loop
            (responses_of ((bare packet_open ∷ hello ∷ []) ∷ (hello ∷ []) ∷ []))
            opening_poll).state
        ≡ true)
polls_deliver_example =
    polls_deliver 3 (bare packet_open) (hello ∷ []) ((hello ∷ []) ∷ []) opening_poll refl refl refl
      opens-IsPayload (hello-IsPayload, tt)

poll_response-IsDelivered_example :
    IsDelivered open_poll
      (responded 200 none (b'4' ∷ b'x' ∷ []))
      (poll_response (responded 200 none (b'4' ∷ b'x' ∷ [])) open_poll)
    ⊎ IsStopped open_poll
        (responded 200 none (b'4' ∷ b'x' ∷ []))
        (poll_response (responded 200 none (b'4' ∷ b'x' ∷ [])) open_poll)
poll_response-IsDelivered_example =
    poll_response-IsDelivered 3 (responded 200 none (b'4' ∷ b'x' ∷ [])) open_poll refl

abbrev session : World
session =
    new_world (b'7' ∷ [])
      (record { ping_interval = 25000; ping_timeout = 20000; upgrade_timeout = 10000 })
      (record { identity = 1; transport_type = polling })

abbrev no_cause : Error → Cause
no_cause e = 0

polling_client_send-handle_send_example :
    (sends : HttpRequest) × (polling_client_send (b'/' ∷ []) (b'0' ∷ []) (hello ∷ []) open_poll
      ≡ some sends)
    × (sends.request_method ≡ method_post)
    × (sends.target ≡ b'/' ∷ [])
    × (handle_send no_cause
          (pos 100)
          (record { is_octet_stream = false; content = sends.request_body; failure = none })
          session
        ≡ (status_ok, handle_packets (hello ∷ []) session))
unfolding encode_payload append_payload append_payload_from append_packet
polling_client_send-handle_send_example =
    polling_client_send-handle_send no_cause 100 (b'/' ∷ []) (b'0' ∷ []) hello [] open_poll session
      refl (hello-Fits, tt) (omega arith) (omega arith)

abbrev client : ConnectedClient
client = record { handlers = handlers; state = transport_open; connection = some 5; events = [] }

abbrev dialing : ConnectedClient
dialing = record { handlers = handlers; state = transport_opening; connection = none; events = [] }

hello-IsValid : IsValid hello
hello-IsValid = ground arith

close-IsValid : IsValid (bare packet_close)
close-IsValid = ground arith

hello-IsReceivable : IsReceivable hello
unfolding encode_packet append_packet webtransport_server_read_limit
hello-IsReceivable = record {
  valid_packet = hello-IsValid;
  within = λ e. omega arith;
  fits = omega arith;
}

client_loops_agree_example :
    websocket_client_loop
      (λ c. none)
      (λ n. false)
      zero
      (reads_of (hello ∷ []) (read_failed 0))
      client
    ≡ webtransport_client_loop
        (λ c. none)
        no_cause
        (λ n. false)
        2
        zero
        (append_frames [] (hello ∷ []))
        client
client_loops_agree_example =
    client_loops_agree (λ c. none) (λ n. false) no_cause (hello ∷ []) 2 zero client
      (hello-IsReceivable, tt) (omega arith)

client_loop-IsFinished_example :
    IsFinished (until_close (hello ∷ bare packet_close ∷ hello ∷ [])) client (
      websocket_client_loop
        (λ c. none)
        (λ m. false)
        zero
        (reads_of (hello ∷ bare packet_close ∷ hello ∷ []) (read_failed 9))
        client)
client_loop-IsFinished_example =
    client_loop-IsFinished (λ c. none) 3 2 9 zero (hello ∷ bare packet_close ∷ hello ∷ []) client
      (record { packet_handler = refl; close_handler = refl; not_over = refl })
      (hello-IsValid, (close-IsValid, (hello-IsValid, tt)))

abbrev stream : ClientStream
stream = record { set_deadline = none; write_buffer = λ buffer. none }

close_while_opening_example :
    (may_poll
        (poll_response
          (responded 200 none (b'0' ∷ []))
          (polling_client_close (responded 200 none []) opening_poll)).1
      ≡ false)
    × Reopens 8
        (websocket_close (λ c. none) (λ n message. none) dialing)
        (websocket_finish_open (dialed 8) (websocket_close (λ c. none) (λ n message. none) dialing))
    × Reopens 8 (webtransport_close (λ c. none) stream dialing) (
        webtransport_finish_open
          (λ c. none)
          none
          (stream_opened 8)
          (webtransport_close (λ c. none) stream dialing))
close_while_opening_example =
    close_while_opening opening_poll (responded 200 none []) (responded 200 none (b'0' ∷ []))
      dialing (λ c. none) (λ n message. none) stream 8 refl refl
