-- ===== src/Server/ParseErrors.antt =====
-- server_transport_websocket.go and server_transport_webtransport.go: the reason of a close after a
-- packet that does not decode.
use go_engine_io.Base.{◌≤◌, arith, ℕ, suc, ◌≡◌, refl, inl, false, none, some, [], ◌∷◌, ◌++◌, length}
use go_engine_io.Base.Int.{ℤ}
use go_engine_io.Codec.Packet.{Bytes}
use go_engine_io.Codec.Result.{err, corrupt_base64}
use go_engine_io.Codec.Base64.{decode_string}
use go_engine_io.Codec.Encoding.{binary_marker}
use go_engine_io.Codec.Encoding.RoundTrip.{decode_packet_corrupt}
use go_engine_io.Codec.WebSocket.{MessageType, message_text, decode_websocket_frame}
use go_engine_io.Codec.Frame.{
  max_alloc, append_header, decode_frame_payload, read_webtransport_packet,
}
use go_engine_io.Codec.Frame.RoundTrip.{
  WithinLimit, append_header-Header, read_webtransport_packet-Header,
}
use go_engine_io.Session.Socket.{reason_transport_close, reason_parse_error}
use go_engine_io.Session.Operations.{close_with_reason}
use go_engine_io.Server.Connection.{Setting, Link, connection, on_world, meanwhile, Writes}
use go_engine_io.Server.WebSocket.{read_message, websocket_decode_error, websocket_on_read}
use go_engine_io.Server.WebTransport.{
  Stream, is_webtransport_parse_error, webtransport_server_read_limit, webtransport_read_error,
  webtransport_read_loop,
}

-- The frame of a text.
abbrev pub text_frame : Bytes → Bytes
text_frame text = append_header [] (length text) 0 ++ text

read-text_frame_corrupt :
    (limit : ℤ) (body rest : Bytes)
    → decode_string body ≡ none
    → WithinLimit limit (suc (length body))
    → suc (length body) ≤ max_alloc
    → read_webtransport_packet limit (text_frame (binary_marker ∷ body) ++ rest)
      ≡ err corrupt_base64
unfolding decode_frame_payload
read-text_frame_corrupt limit body rest e w h =
    let text = binary_marker ∷ body in
    let read =
      read_webtransport_packet-Header limit 0 (append_header [] (length text) 0) text rest
        (append_header-Header (length text) 0 (inl refl) (omega arith)) w h in
    rw (read, decode_packet_corrupt body e) refl

-- A promoted, open connection that delivers a binary marker before text which base64 does not
-- decode: the websocket transport closes the session with "parse error", the webtransport
-- transport closes it with "transport close", because its list of parse errors leaves out that of
-- base64.
pub corrupt_base64_reasons :
    (setting : Setting) (write : Writes (MessageType × Bytes)) (stream : Stream) (max_payload : ℤ)
    (fuel n : ℕ) (body more : Bytes) (l : Link)
    → decode_string body ≡ none
    → WithinLimit (webtransport_server_read_limit max_payload) (suc (length body))
    → suc (length body) ≤ max_alloc
    → (connection setting (meanwhile setting n l)).closed ≡ false
    → (connection setting (meanwhile setting n l)).probing ≡ false
    → (websocket_on_read setting write n
          (read_message message_text (binary_marker ∷ body))
          (meanwhile setting n l)
        ≡ (
          false,
          on_world
              (close_with_reason reason_parse_error (some (setting.cause_of corrupt_base64)))
              (meanwhile setting n l),
        ))
      × (webtransport_read_loop setting stream max_payload
            (suc fuel)
            n
            (text_frame (binary_marker ∷ body) ++ more)
            l
          ≡ on_world
              (close_with_reason reason_transport_close (some (setting.cause_of corrupt_base64)))
              (meanwhile setting n l))
unfolding websocket_on_read websocket_decode_error decode_websocket_frame webtransport_read_loop
    webtransport_read_error is_webtransport_parse_error
corrupt_base64_reasons setting write stream max_payload fuel n body more l e w h open_ promoted = (
  rw (decode_packet_corrupt body e, websocket_on_read, decode_websocket_frame, promoted) refl,
  rw
      (
        read-text_frame_corrupt (webtransport_server_read_limit max_payload) body more e w h,
        webtransport_read_loop,
        open_,
        promoted,
      )
      refl,
)
