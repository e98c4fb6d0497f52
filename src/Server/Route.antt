-- ===== src/Server/Route.antt =====
-- server.go and server_handshake.go: where a request goes, and what the open packet advertises.
pub mod Admission
pub mod Upgrades
use go_engine_io.Base.{
  Bool, true, false, not, ◌&&◌, ◌||◌, Option, none, some, List, [], ◌∷◌, ◌++◌, if◌then◌else◌,
}
use go_engine_io.Codec.Packet.{Bytes}
use go_engine_io.Server.Request.{
  HttpMethod, method_get, method_post, method_options, method_connect, other_method, Request,
  ConnectionErrorCode, unknown_transport, unknown_session_id, bad_handshake_method, bad_request,
  unsupported_protocol_version_code, same_bytes, contains, polling_name, websocket_name,
  webtransport_name,
}

-- The options that routing reads.
pub record RouteConfig : Type 0 where
  pub transports : List Bytes
  pub allow_upgrades : Bool
  pub has_webtransport_upgrade : Bool

-- The sessions that routing looks up: whether one is stored under an id, and whether its active
-- transport is polling.
abbrev pub Sessions : Type 0
Sessions = Bytes → Option Bool

-- What happens with a request. A rejection also calls the connection-error handler; an error
-- answer, of a request that names a session, does not.
pub data Action : Type 0 where
  answer_preflight serve_webtransport begin_handshake : Action
  reject_connection write_server_error : ConnectionErrorCode → Action
  hold_poll receive_post handle_web_socket : Bytes → Action

abbrev pub is_method_get : HttpMethod → Bool
is_method_get method_get = true
is_method_get method_post = false
is_method_get method_options = false
is_method_get method_connect = false
is_method_get other_method = false

abbrev pub is_method_options : HttpMethod → Bool
is_method_options method_get = false
is_method_options method_post = false
is_method_options method_options = true
is_method_options method_connect = false
is_method_options other_method = false

abbrev pub is_method_connect : HttpMethod → Bool
is_method_connect method_get = false
is_method_connect method_post = false
is_method_connect method_options = false
is_method_connect method_connect = true
is_method_connect other_method = false

-- The switch on the method of a request for a stored session.
abbrev pub session_request : HttpMethod → Bytes → Bool → Action
session_request method_get sid polls =
    if polls then hold_poll sid else write_server_error bad_request
session_request method_post sid polls = receive_post sid
session_request method_options sid polls = write_server_error bad_request
session_request method_connect sid polls = write_server_error bad_request
session_request other_method sid polls = write_server_error bad_request

unfoldable pub handle_polling : Sessions → Request → Action
handle_polling sessions r =
    if same_bytes r.sid []
    then if not (is_method_get r.http_method)
      then reject_connection bad_handshake_method
      else begin_handshake
    else elim (sessions r.sid) [
      | none ↦ reject_connection unknown_session_id
      | some polls ↦ session_request r.http_method r.sid polls
    ]

-- ServeHTTP. applyCORS answers every OPTIONS request, after it has set its headers.
unfoldable pub serve_http : RouteConfig → Sessions → Request → Action
serve_http config sessions r =
    if is_method_options r.http_method
    then answer_preflight
    else if is_method_connect r.http_method && same_bytes r.proto webtransport_name
    then if not config.has_webtransport_upgrade
        || not (contains config.transports webtransport_name)
      then reject_connection unknown_transport
      else serve_webtransport
    else if not (same_bytes r.eio (b'4' ∷ []))
    then reject_connection unsupported_protocol_version_code
    else if not (contains config.transports r.transport_name)
    then reject_connection unknown_transport
    else if same_bytes r.transport_name websocket_name
    then handle_web_socket r.sid
    else if same_bytes r.transport_name polling_name
    then handle_polling sessions r
    else reject_connection unknown_transport

-- The loop of buildOpenPacket over the configured transports.
unfoldable pub upgrades_of : Bool → List Bytes → List Bytes
upgrades_of has_upgrader [] = []
upgrades_of has_upgrader (name ∷ names) =
    let rest = upgrades_of has_upgrader names in
    if same_bytes name websocket_name
    then name ∷ rest
    else if same_bytes name webtransport_name && has_upgrader
    then name ∷ rest
    else rest

unfoldable pub open_upgrades : RouteConfig → Bool → List Bytes
open_upgrades config offer_upgrades =
    if offer_upgrades && config.allow_upgrades
    then upgrades_of config.has_webtransport_upgrade config.transports
    else []
