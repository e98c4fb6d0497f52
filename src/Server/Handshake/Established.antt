-- ===== src/Server/Handshake/Established.antt =====
-- server.go and server_transport_webtransport.go: how each handshake ends.
use go_engine_io.Base.{
  ◌≡◌, inl, inr, refl, ap, true, false, Option, [], ◌∷◌, Bool-cases, Option-cases,
}
use go_engine_io.Codec.Packet.{Packet, Bytes}
use go_engine_io.Codec.Payload.Separated.{encode_payload}
use go_engine_io.Session.Socket.{Transport}
use go_engine_io.Session.Operations.{Cause, SendResult, sent, held_back, failed}
use go_engine_io.Server.Request.{Request, bad_request, forbidden}
use go_engine_io.Server.Store.{put_session}
use go_engine_io.Server.Handshake.{
  HandshakeConfig, writes_error, writes_poll_body, sends_open, starts_read_loop,
  abandons_connection, Server, record_event, notify_error, gate, build_open_packet, allow_handshake,
  set_session_cookie, new_session, store, announce, forget, handle_handshake, websocket_handshake,
  webtransport_handshake,
}
use go_engine_io.Server.Handshake.Outcome.{
  IsEstablished, IsUnannounced-event, IsUnannounced-same, IsUnannounced-notify_error,
  IsUnannounced-refused,
}
use go_engine_io.Server.Handshake.Tails.{
  Ends, set_session_cookie-IsUnannounced, allow_handshake-IsUnannounced, announce-IsEstablished,
  forget-IsRefusedHandshake, IsEstablished-event, IsRefusedHandshake-event, stored-announced,
}

module _ (config : HandshakeConfig) where
  handle_handshake-Ends :
      (failure : Option Cause) (first : Transport) (r : Request) (s : Server)
      → Ends config (config.generate_id r) first s (handle_handshake config failure first r s)
  unfolding handle_handshake
  handle_handshake-Ends failure first r s =
      let id = config.generate_id r in
      let gated = (allow_handshake config r s).1 in
      let cookied = set_session_cookie config id gated in
      let socket = new_session config id first in
      let u = allow_handshake-IsUnannounced config r s in
      let v = set_session_cookie-IsUnannounced config id s gated u in
      elim (Bool-cases (allow_handshake config r s).0) [
        | inr a ↦ rw a (inr (IsUnannounced-refused id s gated u))
        | inl a ↦ elim (Option-cases (build_open_packet config id true)) [
          | inl b ↦
              rw (a, b)
                (inr (
                  IsUnannounced-refused id s (record_event (writes_error bad_request) cookied)
                    (IsUnannounced-event (writes_error bad_request) s cookied refl v)))
          | inr (packet, b) ↦
              let event = writes_poll_body (encode_payload (packet ∷ [])) in
              let told = record_event event (store config id socket cookied) in
              let same = stored-announced config event s cookied refl v in
              let sessions : told.sessions ≡ put_session id socket s.sessions =
                ap (put_session id socket) v.same_sessions in
              elim (Option-cases failure) [
                | inl f ↦
                    rw (a, b, f) (inl (announce-IsEstablished config id first s told sessions same))
                | inr (cause, f) ↦
                    rw (a, b, f)
                      (inr (forget-IsRefusedHandshake config id first s told sessions same))
              ]
        ]
      ]

  told_of : Packet → Bytes → Transport → Server → Server
  told_of packet id first s =
      record_event (sends_open first packet) (store config id (new_session config id first) s)

  -- A connection whose open packet was sent.
  connected-IsEstablished :
      (packet : Packet) (id : Bytes) (first : Transport) (s : Server)
      → IsEstablished config.on_connection id (new_session config id first) s (
          record_event
            (starts_read_loop first)
            (announce config id (new_session config id first) (told_of packet id first s)))
  unfolding told_of
  connected-IsEstablished packet id first s =
      let told = told_of packet id first s in
      let same =
        stored-announced config (sends_open first packet) s s refl (IsUnannounced-same s) in
      let socket = new_session config id first in
      IsEstablished-event config (starts_read_loop first) id socket s
        (announce config id socket told) refl
        (announce-IsEstablished config id first s told refl same)

  -- The common tail of the two handshakes on a connection.
  connected-Ends :
      (result : SendResult) (packet : Packet) (id : Bytes) (first : Transport) (s : Server)
      → (let told = told_of packet id first s in
          let socket = new_session config id first in
          let live = record_event (starts_read_loop first) (announce config id socket told) in
          Ends config id first s (elim result [
            | failed cause ↦ record_event (abandons_connection first) (forget config id told)
            | sent ↦ live
            | held_back ↦ live
          ]))
  unfolding told_of
  connected-Ends sent packet id first s = inl (connected-IsEstablished packet id first s)
  connected-Ends held_back packet id first s = inl (connected-IsEstablished packet id first s)
  connected-Ends (failed cause) packet id first s =
      let told = told_of packet id first s in
      let same =
        stored-announced config (sends_open first packet) s s refl (IsUnannounced-same s) in
      inr (
        IsRefusedHandshake-event config (abandons_connection first) id s (forget config id told)
          refl (forget-IsRefusedHandshake config id first s told refl same))

  websocket_handshake-Ends :
      (result : SendResult) (first : Transport) (id : Bytes) (s : Server)
      → Ends config id first s (websocket_handshake config result first id s)
  unfolding websocket_handshake told_of
  websocket_handshake-Ends result first id s =
      elim (Option-cases (build_open_packet config id false)) [
        | inl b ↦
            rw (b, websocket_handshake)
              (inr (
                IsUnannounced-refused id s (record_event (abandons_connection first) s) (
                  IsUnannounced-event (abandons_connection first) s s refl (IsUnannounced-same s))))
        | inr (packet, b) ↦ rw (b, websocket_handshake) (connected-Ends result packet id first s)
      ]

  webtransport_handshake-Ends :
      (result : SendResult) (first : Transport) (r : Request) (s : Server)
      → Ends config (config.generate_id r) first s (webtransport_handshake config result first r s)
  unfolding webtransport_handshake told_of
  webtransport_handshake-Ends result first r s =
      let id = config.generate_id r in
      let left = record_event (abandons_connection first) in
      elim (Option-cases (gate config.allow_request r)) [
        | inr (reason, a) ↦
            let told = notify_error config.on_connection_error forbidden reason s in
            rw (a, webtransport_handshake)
              (inr (
                IsUnannounced-refused id s (left told) (
                  IsUnannounced-event (abandons_connection first) s told refl (
                    IsUnannounced-notify_error config.on_connection_error forbidden reason s s
                      (IsUnannounced-same s)))))
        | inl a ↦ elim (Option-cases (build_open_packet config id false)) [
          | inl b ↦
              rw (a, b, webtransport_handshake)
                (inr (
                  IsUnannounced-refused id s (left s) (
                    IsUnannounced-event (abandons_connection first) s s refl
                      (IsUnannounced-same s))))
          | inr (packet, b) ↦
              rw (a, b, webtransport_handshake) (connected-Ends result packet id first s)
        ]
      ]

  -- Every handshake, over polling, websocket and webtransport, whatever the gate, the encoding of the
  -- open packet and its write come to, either stores one open session under its new id and calls the
  -- connection handler with it once, or calls it for nothing and leaves no session of that id that it
  -- stored; in both cases no other session is touched.
  pub handshakes_establish :
      (failure : Option Cause) (result : SendResult) (first : Transport) (r : Request) (s : Server)
      → Ends config (config.generate_id r) first s (handle_handshake config failure first r s)
        × ((id : Bytes) → Ends config id first s (websocket_handshake config result first id s))
        × Ends config
            (config.generate_id r)
            first
            s
            (webtransport_handshake config result first r s)
  handshakes_establish failure result first r s = (
    handle_handshake-Ends failure first r s,
    λ id. websocket_handshake-Ends result first id s,
    webtransport_handshake-Ends result first r s,
  )
