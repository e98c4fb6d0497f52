-- ===== src/Server/Handshake.antt =====
-- server.go, server_handshake.go and server_transport_webtransport.go: how a session is made, over
-- each transport, and how a connection becomes the probe of one.
pub mod Outcome
pub mod Tails
pub mod Established
pub mod Upgrades
use go_engine_io.Base.{
  Bool, true, false, not, ◌&&◌, Option, none, some, List, [], ◌∷◌, ◌++◌, ◌==◌, if◌then◌else◌,
}
use go_engine_io.Codec.Packet.{Packet, Bytes, bare, packet_open}
use go_engine_io.Codec.Result.{Result, ok, err}
use go_engine_io.Codec.Payload.Separated.{encode_payload}
use go_engine_io.Session.Socket.{ServerSocket, ServerConfig, Transport, Handler, new_server_socket}
use go_engine_io.Session.Sections.{open_session, start_upgrade}
use go_engine_io.Session.Operations.{Cause, SendResult, sent, held_back, failed}
use go_engine_io.Server.Request.{Request, ConnectionErrorCode, bad_request, forbidden, same_bytes}
use go_engine_io.Server.Route.{RouteConfig, open_upgrades}
use go_engine_io.Server.Store.{get, delete, put_session}

-- The options and handlers that handshakes read. `allow_request` gives the text of its error,
-- `marshal` is json.Marshal of the open packet's fields, and `parse_session_id` json.Unmarshal of
-- an opening packet.
pub record HandshakeConfig : Type 0 where
  pub route : RouteConfig
  pub server_config : ServerConfig
  pub allow_request : Option (Request → Option Bytes)
  pub generate_id : Request → Bytes
  pub has_cookie : Bool
  pub marshal : Bytes → List Bytes → Option Bytes
  pub parse_session_id : Bytes → Option Bytes
  pub on_connection : Option Handler
  pub on_connection_error : Option Handler

-- What a handshake does besides changing the sessions.
pub data HandshakeEvent : Type 0 where
  writes_error : ConnectionErrorCode → HandshakeEvent
  calls_connection_error : Handler → ConnectionErrorCode → Bytes → HandshakeEvent
  sets_session_cookie writes_poll_body : Bytes → HandshakeEvent
  sends_open : Transport → Packet → HandshakeEvent
  calls_connection : Handler → Bytes → HandshakeEvent
  starts_read_loop abandons_connection : Transport → HandshakeEvent

pub record Server : Type 0 where
  pub sessions : List (Bytes × ServerSocket)
  pub events : List HandshakeEvent

abbrev pub record_event : HandshakeEvent → Server → Server
record_event event s = record s { events = s.events ++ event ∷ [] }

abbrev pub notify_error : Option Handler → ConnectionErrorCode → Bytes → Server → Server
notify_error none code reason s = s
notify_error (some handler) code reason s =
    record_event (calls_connection_error handler code reason) s

abbrev pub notify_connection : Option Handler → Bytes → Server → Server
notify_connection none id s = s
notify_connection (some handler) id s = record_event (calls_connection handler id) s

abbrev pub gate : Option (Request → Option Bytes) → Request → Option Bytes
gate none r = none
gate (some allow) r = allow r

unfoldable pub build_open_packet : HandshakeConfig → Bytes → Bool → Option Packet
build_open_packet config id offer_upgrades =
    elim (config.marshal id (open_upgrades config.route offer_upgrades)) [
      | none ↦ none
      | some body ↦ some (record (bare packet_open) { body = body })
    ]

module _ (config : HandshakeConfig) where
  unfoldable pub reject_handshake : ConnectionErrorCode → Bytes → Server → Server
  reject_handshake code reason s =
      notify_error config.on_connection_error code reason (record_event (writes_error code) s)

  unfoldable pub allow_handshake : Request → Server → Bool × Server
  allow_handshake r s = elim (gate config.allow_request r) [
    | none ↦ (true, s)
    | some reason ↦ (false, reject_handshake forbidden reason s)
  ]

  unfoldable pub set_session_cookie : Bytes → Server → Server
  set_session_cookie id s = if config.has_cookie then record_event (sets_session_cookie id) s else s

  abbrev pub new_session : Bytes → Transport → ServerSocket
  new_session id first = new_server_socket id config.server_config first

  abbrev pub store : Bytes → ServerSocket → Server → Server
  store id socket s = record s { sessions = put_session id socket s.sessions }

  -- `socket.open()` on the socket that the store holds, and the connection handler.
  abbrev pub announce : Bytes → ServerSocket → Server → Server
  announce id socket s =
      notify_connection config.on_connection id (store id (open_session socket) s)

  abbrev pub forget : Bytes → Server → Server
  forget id s = record s { sessions = delete id s.sessions }

  -- handleHandshake, with the error of writing the response.
  unfoldable pub handle_handshake : Option Cause → Transport → Request → Server → Server
  handle_handshake failure first r s =
      let (allowed, gated) = allow_handshake r s in
      let id = config.generate_id r in
      let cookied = set_session_cookie id gated in
      let socket = new_session id first in
      if not allowed then gated else elim (build_open_packet config id true) [
        | none ↦ record_event (writes_error bad_request) cookied
        | some open_packet ↦
            let written =
              record_event (writes_poll_body (encode_payload (open_packet ∷ [])))
                (store id socket cookied) in
            elim failure [ some cause ↦ forget id written | none ↦ announce id socket written ]
      ]

  -- handleWebSocketHandshake, with the result of sending the open packet.
  unfoldable pub websocket_handshake : SendResult → Transport → Bytes → Server → Server
  websocket_handshake result first id s =
      let socket = new_session id first in
      elim (build_open_packet config id false) [
        | none ↦ record_event (abandons_connection first) s
        | some open_packet ↦
            let told = record_event (sends_open first open_packet) (store id socket s) in
            let live = record_event (starts_read_loop first) (announce id socket told) in
            elim result [
              | failed cause ↦ record_event (abandons_connection first) (forget id told)
              | sent ↦ live
              | held_back ↦ live
            ]
      ]

  unfoldable pub websocket_upgrade : Transport → Bytes → Server → Server
  websocket_upgrade probe sid s = elim (get s.sessions sid) [
    | none ↦ record_event (abandons_connection probe) s
    | some socket ↦ elim (start_upgrade probe socket) [
      | none ↦ record_event (abandons_connection probe) s
      | some probing ↦ record_event (starts_read_loop probe) (store sid probing s)
    ]
  ]

  -- handleWebSocket, with whether websocket.Accept accepts the connection.
  unfoldable pub handle_web_socket_request :
      Bool → SendResult → Transport → Request → Server → Server
  handle_web_socket_request accepts result connection r s =
      let (allowed, gated) = allow_handshake r s in
      let id = config.generate_id r in
      if same_bytes r.sid []
      then if not allowed
        then gated
        else if not accepts
        then set_session_cookie id gated
        else websocket_handshake result connection id (set_session_cookie id gated)
      else if not accepts
      then s
      else websocket_upgrade connection r.sid s

  unfoldable pub webtransport_handshake : SendResult → Transport → Request → Server → Server
  webtransport_handshake result first r s =
      let id = config.generate_id r in
      let socket = new_session id first in
      elim (gate config.allow_request r) [
        | some reason ↦
            record_event (abandons_connection first)
              (notify_error config.on_connection_error forbidden reason s)
        | none ↦ elim (build_open_packet config id false) [
          | none ↦ record_event (abandons_connection first) s
          | some open_packet ↦
              let told = record_event (sends_open first open_packet) (store id socket s) in
              let live = record_event (starts_read_loop first) (announce id socket told) in
              elim result [
                | failed cause ↦ record_event (abandons_connection first) (forget id told)
                | sent ↦ live
                | held_back ↦ live
              ]
        ]
      ]

  unfoldable pub webtransport_upgrade : Transport → Bytes → Server → Server
  webtransport_upgrade probe sid s = elim (get s.sessions sid) [
    | none ↦ record_event (abandons_connection probe) s
    | some socket ↦ elim (start_upgrade probe socket) [
      | none ↦ record_event (abandons_connection probe) s
      | some probing ↦ record_event (starts_read_loop probe) (store sid probing s)
    ]
  ]

  abbrev pub is_empty_data : Bytes → Bool
  is_empty_data [] = true
  is_empty_data (x ∷ xs) = false

  unfoldable pub parse_webtransport_session_id : Bytes → Option Bytes
  parse_webtransport_session_id content = elim (config.parse_session_id content) [
    | none ↦ none
    | some sid ↦ if same_bytes sid [] then none else some sid
  ]

  -- serveWebTransport once the session is upgraded: what the stream's first packet was, or that
  -- accepting the stream, its deadlines or the read failed.
  unfoldable pub serve_web_transport :
      Option Packet → SendResult → Transport → Request → Server → Server
  serve_web_transport none result connection r s = record_event (abandons_connection connection) s
  serve_web_transport (some first) result connection r s =
      if not (first.type == packet_open)
      then record_event (abandons_connection connection) s
      else if is_empty_data first.body
      then webtransport_handshake result connection r s
      else elim (parse_webtransport_session_id first.body) [
        | none ↦ record_event (abandons_connection connection) s
        | some sid ↦ webtransport_upgrade connection sid s
      ]
