-- ===== src/Client/Transport.antt =====
-- transport.go: what the client's transports have in common.
use go_engine_io.Base.{ℕ, Bool, true, false, Option, none, some, List, [], ◌∷◌, ◌++◌}
use go_engine_io.Codec.Packet.{Packet}
use go_engine_io.Codec.Result.{Error}
use go_engine_io.Session.Socket.{Channel, Handler}
use go_engine_io.Session.Operations.{Cause}

pub data TransportState : Type 0 where
  transport_opening transport_open transport_closing : TransportState
  transport_closed transport_pausing transport_paused : TransportState

abbrev pub is_transport_opening : TransportState → Bool
is_transport_opening transport_opening = true
is_transport_opening transport_open = false
is_transport_opening transport_closing = false
is_transport_opening transport_closed = false
is_transport_opening transport_pausing = false
is_transport_opening transport_paused = false

abbrev pub is_transport_open : TransportState → Bool
is_transport_open transport_opening = false
is_transport_open transport_open = true
is_transport_open transport_closing = false
is_transport_open transport_closed = false
is_transport_open transport_pausing = false
is_transport_open transport_paused = false

abbrev pub is_transport_closing : TransportState → Bool
is_transport_closing transport_opening = false
is_transport_closing transport_open = false
is_transport_closing transport_closing = true
is_transport_closing transport_closed = false
is_transport_closing transport_pausing = false
is_transport_closing transport_paused = false

abbrev pub is_transport_closed : TransportState → Bool
is_transport_closed transport_opening = false
is_transport_closed transport_open = false
is_transport_closed transport_closing = false
is_transport_closed transport_closed = true
is_transport_closed transport_pausing = false
is_transport_closed transport_paused = false

-- The handlers that a socket registers.
pub record Handlers : Type 0 where
  pub on_open_handler : Option Handler
  pub on_close_handler : Option Handler
  pub on_packet_handler : Option Handler
  pub on_error_handler : Option Handler

-- The errors that a transport reports, without their texts.
pub data TransportError : Type 0 where
  dial_error stream_error open_packet_error read_error : Cause → TransportError
  close_packet_error close_error poll_error body_error : Cause → TransportError
  unexpected_status : ℕ → TransportError
  decode_error frame_error : Error → TransportError

-- What a transport does, in the order in which it does it.
pub data TransportEvent : Type 0 where
  calls_on_open calls_on_close : Handler → TransportEvent
  calls_on_packet : Handler → Packet → TransportEvent
  calls_on_error : Handler → TransportError → TransportEvent
  closes_connection : Channel → TransportEvent

-- `if handler != nil { handler(...) }`.
abbrev pub notify :
    Option Handler → (Handler → TransportEvent) → List TransportEvent → List TransportEvent
notify none event events = events
notify (some handler) event events = events ++ event handler ∷ []

-- The packets that the packet handler was called with.
abbrev pub delivered : List TransportEvent → List Packet
delivered [] = []
delivered (calls_on_open handler ∷ events) = delivered events
delivered (calls_on_close handler ∷ events) = delivered events
delivered (calls_on_packet handler packet ∷ events) = packet ∷ delivered events
delivered (calls_on_error handler e ∷ events) = delivered events
delivered (closes_connection connection ∷ events) = delivered events

abbrev pub count_if : Bool → ℕ
count_if true = 1
count_if false = 0
