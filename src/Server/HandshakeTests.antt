-- ===== src/Server/HandshakeTests.antt =====
-- server.go: the theorems on handshakes and headers at concrete requests.
use go_engine_io.Base.{◌≡◌, ◌⊎◌, refl, true, false, not, ◌&&◌, ◌||◌, none, some, [], ◌∷◌, ◌++◌}
use go_engine_io.Codec.Packet.{Bytes}
use go_engine_io.Session.Socket.{Transport, polling, websocket, new_server_socket}
use go_engine_io.Session.Sections.{open_session}
use go_engine_io.Session.Operations.{sent}
use go_engine_io.Server.Request.{
  Request, method_get, same_bytes, contains, polling_name, websocket_name,
}
use go_engine_io.Server.Handshake.{
  HandshakeConfig, Server, handle_handshake, websocket_handshake, webtransport_handshake,
  websocket_upgrade, webtransport_upgrade,
}
use go_engine_io.Server.Handshake.Tails.{Ends}
use go_engine_io.Server.Handshake.Established.{handshakes_establish}
use go_engine_io.Server.Handshake.Upgrades.{Upgrades, upgrade_requests_guarded}
use go_engine_io.Session.Socket.{session_open}
use go_engine_io.Codec.Packet.{Packet, packet_message}
use go_engine_io.Session.Operations.{World, Transports, sends_packets}
use go_engine_io.Session.Polling.{PollingTransport, hold}
use go_engine_io.Server.Poll.{delivery_written, handle_poll, handle_poll_delivers}
use go_engine_io.Server.Cors.{
  CorsOptions, any_origin, allows_all_origins, apply_cors, apply_cors-allowed, allow_origin,
}

abbrev id : Bytes
id = b'7' ∷ []

abbrev config : HandshakeConfig
config = record {
  route = record {
    transports = polling_name ∷ websocket_name ∷ [];
    allow_upgrades = true;
    has_webtransport_upgrade = false;
  };
  server_config = record { ping_interval = 25000; ping_timeout = 20000; upgrade_timeout = 10000 };
  allow_request = some (λ r. none);
  generate_id = λ r. id;
  has_cookie = true;
  marshal = λ sid upgrades. some sid;
  parse_session_id = λ content. some content;
  on_connection = some 1;
  on_connection_error = none;
}

abbrev first : Transport
first = record { identity = 1; transport_type = polling }

abbrev upgrading : Transport
upgrading = record { identity = 2; transport_type = websocket }

abbrev handshake : Request
handshake = record {
  http_method = method_get;
  proto = [];
  eio = b'4' ∷ [];
  transport_name = polling_name;
  sid = [];
}

abbrev no_sessions : Server
no_sessions = record { sessions = []; events = [] }

handshakes_establish_example :
    Ends config id first no_sessions (handle_handshake config none first handshake no_sessions)
    × ((sid : Bytes)
        → Ends config sid first no_sessions (websocket_handshake config sent first sid no_sessions))
    × Ends config id first no_sessions
        (webtransport_handshake config sent first handshake no_sessions)
handshakes_establish_example = handshakes_establish config none sent first handshake no_sessions

abbrev one_session : Server
one_session = record {
  sessions = (id, open_session (new_server_socket id config.server_config first)) ∷ [];
  events = [];
}

upgrade_requests_guarded_example :
    Upgrades id upgrading one_session (websocket_upgrade config upgrading id one_session)
    × Upgrades id upgrading one_session (webtransport_upgrade config upgrading id one_session)
upgrade_requests_guarded_example = upgrade_requests_guarded config upgrading id one_session

abbrev cors : CorsOptions
cors = record { allow_credentials = true; allowed_origins = []; allowed_headers = [] }

abbrev origin : Bytes
origin = b'o' ∷ []

apply_cors-allowed_example :
    ((origin ≡ any_origin)
      × (allows_all_origins cors ≡ true)
      × (cors.allow_credentials && not (same_bytes origin []) ≡ false))
    ⊎ ((origin ≡ origin)
        × (same_bytes origin [] ≡ false)
        × (allows_all_origins cors || contains cors.allowed_origins origin ≡ true))
unfolding allow_origin apply_cors allows_all_origins same_bytes contains
apply_cors-allowed_example = apply_cors-allowed cors method_get origin origin refl

abbrev hello : Packet
hello = record { type = packet_message; body = b'h' ∷ b'i' ∷ []; is_binary = false }

-- An open session with a packet in its buffer.
abbrev waiting : World
waiting = record {
  socket = record (new_server_socket id config.server_config first) {
    state = session_open;
    write_buffer = hello ∷ [];
  };
  effects = [];
}

abbrev never : Transports
never effects t packets = sent

abbrev idle_poll : PollingTransport
idle_poll = record { closed = false; data_ch = none }

abbrev held_poll : PollingTransport
held_poll = record { closed = false; data_ch = some 4 }

handle_poll_delivers_example :
    handle_poll first never 4 (delivery_written none) idle_poll waiting ≡ record {
      answer = none;
      claimed = some (4, hello ∷ []);
      polling = record held_poll { data_ch = none };
      world = record {
        socket = record waiting.socket { write_buffer = [] };
        effects = waiting.effects ++ sends_packets first (hello ∷ []) ∷ [];
      };
    }
unfolding hold new_server_socket
handle_poll_delivers_example =
    handle_poll_delivers first never 4 idle_poll held_poll waiting hello [] refl refl refl refl
