-- ===== src/Session/Socket.antt =====
-- server_socket.go: the state of a session. A pointer, a channel or a handler is the number that
-- tells it from the others.
use go_engine_io.Base.{ℕ, Bool, true, false, Option, none, some, List, [], ◌==◌}
use go_engine_io.Codec.Packet.{Packet, Bytes}

pub data SessionState : Type 0 where
  session_opening session_open session_closing session_closed : SessionState

abbrev pub is_opening : SessionState → Bool
is_opening session_opening = true
is_opening session_open = false
is_opening session_closing = false
is_opening session_closed = false

abbrev pub is_open : SessionState → Bool
is_open session_opening = false
is_open session_open = true
is_open session_closing = false
is_open session_closed = false

abbrev pub is_closing : SessionState → Bool
is_closing session_opening = false
is_closing session_open = false
is_closing session_closing = true
is_closing session_closed = false

abbrev pub is_closed : SessionState → Bool
is_closed session_opening = false
is_closed session_open = false
is_closed session_closing = false
is_closed session_closed = true

pub data TransportType : Type 0 where
  polling websocket webtransport : TransportType

abbrev pub is_polling : TransportType → Bool
is_polling polling = true
is_polling websocket = false
is_polling webtransport = false

-- A serverTransport: which one it is, and its kind.
pub record Transport : Type 0 where
  pub identity : ℕ
  pub transport_type : TransportType

-- `held == transport`, the comparison of two interface values.
abbrev pub holds : Option Transport → Transport → Bool
holds none transport = false
holds (some held) transport = held.identity == transport.identity

-- The reasons that the server closes a session with.
pub data Reason : Type 0 where
  reason_transport_error reason_transport_close reason_ping_timeout reason_forced_close
        reason_parse_error :
      Reason

-- What a time.AfterFunc timer calls.
pub data Callback : Type 0 where
  send_ping_callback : Callback
  close_callback : Reason → Callback
  abort_upgrade_callback : Transport → Callback

pub record Timer : Type 0 where
  pub after : ℕ
  pub callback : Callback

-- The durations of serverConfig that a session uses.
pub record ServerConfig : Type 0 where
  pub ping_interval : ℕ
  pub ping_timeout : ℕ
  pub upgrade_timeout : ℕ

abbrev pub Channel : Type 0
Channel = ℕ

abbrev pub Handler : Type 0
Handler = ℕ

pub record ServerSocket : Type 0 where
  pub id : Bytes
  pub options : ServerConfig
  pub state : SessionState
  pub transport : Option Transport
  pub upgrade_transport : Option Transport
  pub upgrading : Bool
  pub write_buffer : List Packet
  pub ping_timer : Option Timer
  pub pong_timer : Option Timer
  pub upgrade_timer : Option Timer
  pub close_timer : Option Timer
  pub probe_noop_stop : Option Channel
  pub on_message_handler : Option Handler
  pub on_close_handler : Option Handler

unfoldable pub new_server_socket : Bytes → ServerConfig → Transport → ServerSocket
new_server_socket name config first = record {
  id = name;
  options = config;
  state = session_opening;
  transport = some first;
  upgrade_transport = none;
  upgrading = false;
  write_buffer = [];
  ping_timer = none;
  pong_timer = none;
  upgrade_timer = none;
  close_timer = none;
  probe_noop_stop = none;
  on_message_handler = none;
  on_close_handler = none;
}
