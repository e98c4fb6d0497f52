-- ===== src/Client/Polling.antt =====
-- socket_transport_polling.go: the client's long-polling transport.
pub mod Delivery
pub mod Life
pub mod Quiet
pub mod Posts
use go_engine_io.Base.{
  ℕ, Bool, true, false, not, ◌&&◌, ◌||◌, Option, none, some, List, [], ◌∷◌, ◌++◌, length, ◌==◌,
  if◌then◌else◌,
}
use go_engine_io.Codec.Packet.{Packet, Bytes, bare, packet_open, packet_close}
use go_engine_io.Codec.Result.{ok, err}
use go_engine_io.Codec.Payload.{decode_payload}
use go_engine_io.Codec.Payload.Separated.{encode_payload}
use go_engine_io.Session.Operations.{Cause}
use go_engine_io.Server.Request.{HttpMethod, method_get, method_post}
use go_engine_io.Client.Transport.{
  TransportState, transport_opening, transport_open, transport_closing, transport_closed,
  transport_pausing, transport_paused, is_transport_opening, is_transport_open, is_transport_closed,
  Handlers, TransportError, poll_error, body_error, close_packet_error, unexpected_status,
  decode_error, TransportEvent, calls_on_open, calls_on_close, calls_on_packet, calls_on_error,
  notify,
}

pub record PollingClient : Type 0 where
  pub handlers : Handlers
  pub state : TransportState
  pub events : List TransportEvent

-- Handlers are registered after the transport is made.
unfoldable pub new_polling_client : PollingClient
new_polling_client = record {
  handlers = record {
    on_open_handler = none;
    on_close_handler = none;
    on_packet_handler = none;
    on_error_handler = none;
  };
  state = transport_closed;
  events = [];
}

unfoldable pub polling_on_open : PollingClient → PollingClient
polling_on_open t = record t {
  state = transport_open;
  events = notify t.handlers.on_open_handler calls_on_open t.events;
}

unfoldable pub polling_on_close : PollingClient → PollingClient
polling_on_close t = if is_transport_closed t.state then t else record t {
  state = transport_closed;
  events = notify t.handlers.on_close_handler calls_on_close t.events;
}

unfoldable pub polling_on_packet : Packet → PollingClient → PollingClient
polling_on_packet packet t = record t {
  events = notify t.handlers.on_packet_handler (λ h. calls_on_packet h packet) t.events;
}

unfoldable pub polling_on_error : TransportError → PollingClient → PollingClient
polling_on_error e t = record t {
  events = notify t.handlers.on_error_handler (λ h. calls_on_error h e) t.events;
}

-- beginOpen: a poll follows.
unfoldable pub polling_begin_open : PollingClient → Option PollingClient
polling_begin_open t =
    if not (is_transport_closed t.state)
    then none
    else some (record t { state = transport_opening })

-- Whether `poll`, once it has the lock of the polls, makes its request.
unfoldable pub may_poll : PollingClient → Bool
may_poll t = is_transport_opening t.state || is_transport_open t.state

unfoldable pub begin_pause : PollingClient → Option PollingClient
begin_pause t =
    if is_transport_opening t.state || is_transport_open t.state
    then some (record t { state = transport_pausing })
    else none

-- Pause once it has the lock of the polls.
unfoldable pub commit_pause : PollingClient → PollingClient
commit_pause t = record t { state = transport_paused }

unfoldable pub polling_begin_close : PollingClient → Option PollingClient
polling_begin_close t =
    if is_transport_closed t.state then none else some (record t { state = transport_closing })

-- What request hands to the HTTP client. `stamp` is the escaped value of the timestamp generator.
pub record HttpRequest : Type 0 where
  pub request_method : HttpMethod
  pub target : Bytes
  pub sets_content_type : Bool
  pub request_body : Bytes

unfoldable pub request : Bytes → Bytes → Bytes → HttpRequest
request url stamp content =
    if not (length content == 0)
    then record {
      request_method = method_post;
      target = url;
      sets_content_type = true;
      request_body = content;
    }
    else record {
      request_method = method_get;
      target = url ++ ((b'&' ∷ b't' ∷ b'=' ∷ []) ++ stamp);
      sets_content_type = false;
      request_body = [];
    }

-- Send up to the request that it makes, if it makes one.
unfoldable pub polling_client_send :
    Bytes → Bytes → List Packet → PollingClient → Option HttpRequest
polling_client_send url stamp packets t =
    if not (is_transport_open t.state)
    then none
    else some (request url stamp (encode_payload packets))

-- How the HTTP client answers: an error, or a status and a body, whose reading can fail.
pub data Response : Type 0 where
  no_response : Cause → Response
  responded : ℕ → Option Cause → Bytes → Response

-- `write` after its request: the error that it returns.
unfoldable pub write_result : Response → Option TransportError
write_result (no_response cause) = some (poll_error cause)
write_result (responded status failure body) =
    if not (status == 200) then some (unexpected_status status) else none

-- The loop of onData.
unfoldable pub dispatch_packets : List Packet → PollingClient → PollingClient
dispatch_packets [] t = t
dispatch_packets (packet ∷ packets) t = dispatch_packets packets (
    polling_on_packet packet (
      if (packet.type == packet_open) && is_transport_opening t.state
      then polling_on_open t
      else if (packet.type == packet_close) && not (is_transport_closed t.state)
      then polling_on_close t
      else t))

-- onData, with whether the next poll is scheduled.
unfoldable pub on_data : Bytes → PollingClient → Bool × PollingClient
on_data content t = elim (decode_payload 4 content) [
  | err e ↦ (false, polling_on_error (decode_error e) t)
  | ok packets ↦ let next = dispatch_packets packets t in (is_transport_open next.state, next)
]

-- poll once its request is answered, with whether the next poll is scheduled.
unfoldable pub poll_response : Response → PollingClient → Bool × PollingClient
poll_response (no_response cause) t = (false, polling_on_error (poll_error cause) t)
poll_response (responded status failure body) t =
    if not (status == 200)
    then (false, polling_on_error (unexpected_status status) t)
    else elim failure [
      | some cause ↦ (false, polling_on_error (body_error cause) t)
      | none ↦ if not (length body == 0) then on_data body t else (false, t)
    ]

-- The polls one after the other, for the responses that the HTTP client gives to them.
unfoldable pub poll_loop : List Response → PollingClient → PollingClient
poll_loop [] t = t
poll_loop (response ∷ responses) t =
    let (again, next) = poll_response response t in
    let rest = poll_loop responses next in if may_poll t then (if again then rest else next) else t

-- Close, when the request of its close packet is answered by `response`.
unfoldable pub polling_client_close : Response → PollingClient → PollingClient
polling_client_close response t =
    if not (may_poll t)
    then t
    else let told =
        if is_transport_open t.state
        then elim (write_result response) [ some e ↦ polling_on_error e t | none ↦ t ]
        else t in
      elim (polling_begin_close told) [ none ↦ told | some closing ↦ polling_on_close closing ]
