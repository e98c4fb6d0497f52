-- ===== src/Server/LoopTests.antt =====
-- server_transport_websocket.go and server_transport_webtransport.go: the theorems at concrete
-- connections.
use go_engine_io.Base.{
  ℕ, zero, ◌≡◌, ◌≢◌, ◌≤◌, ◌<◌, refl, sym, ◌∙◌, drop, arith, true, false, none, some, [], ◌∷◌, ◌++◌,
  length, take,
}
use go_engine_io.Base.Int.{pos, pos_part}
use go_engine_io.Codec.Packet.{
  Packet, Bytes, IsValid, packet_message, packet_ping, packet_type_from_byte, valid,
}
use go_engine_io.Codec.Result.{ok, err, makeslice_panic}
use go_engine_io.Codec.Base64.{decode_string, decode_quanta, strip_newlines}
use go_engine_io.Codec.Encoding.{binary_marker, encode_packet, append_packet, decode_packet}
use go_engine_io.Codec.Frame.{read_webtransport_packet}
use go_engine_io.Codec.WebSocket.{MessageType, message_text, decode_websocket_frame}
use go_engine_io.Session.Socket.{websocket, reason_transport_close, reason_parse_error}
use go_engine_io.Session.Operations.{Cause, sent, held_back, failed, close_with_reason}
use go_engine_io.Session.Program.{perform_all}
use go_engine_io.Server.Connection.{
  Connection, Setting, Link, on_world, meanwhile, Writes, after_effects,
}
use go_engine_io.Server.WebSocket.{
  Read, read_failed, read_message, websocket_on_read, websocket_read_loop, websocket_send,
}
use go_engine_io.Server.WebSocket.Sending.{decoded, oks, websocket_send_delivers}
use go_engine_io.Server.WebTransport.{
  Stream, write_frames, append_frames, webtransport_server_read_limit, webtransport_read_loop,
}
use go_engine_io.Server.WebTransport.Frames.{IsReadable}
use go_engine_io.Server.WebTransport.Limits.{server_reads_bounded, webtransport_read_loop_ends}
use go_engine_io.Server.Agreement.{reads_of, read_loops_agree}
use go_engine_io.Session.Program.{new_world}
use go_engine_io.Server.Probing.{Aside, is_probe_ping, NoUpgrade, websocket_on_read-IsUndisturbed}
use go_engine_io.Session.Socket.{Transport, polling, session_open}
use go_engine_io.Server.ParseErrors.{text_frame, corrupt_base64_reasons}

abbrev setting_of : Connection → Setting
setting_of began = record {
  me = record { identity = 1; transport_type = websocket };
  began = began;
  transports = λ effects t packets. sent;
  others = λ n. [];
  channels = λ n. n;
  cause_of = λ e. 0;
}

abbrev probing_setting : Setting
probing_setting = setting_of (record { closed = false; probing = true })

abbrev promoted_setting : Setting
promoted_setting = setting_of (record { closed = false; probing = false })

abbrev writes : Writes (MessageType × Bytes)
writes = λ effects n message. none

abbrev stream : Stream
stream = record { set_write_deadline = λ effects n. none; write = λ effects n buffer. none }

abbrev link : Link
link = record {
  world =
      new_world (b'7' ∷ [])
        (record { ping_interval = 25000; ping_timeout = 20000; upgrade_timeout = 10000 })
        (record { identity = 1; transport_type = websocket });
  pongs = zero;
}

abbrev hello : Packet
hello = record { type = packet_message; body = b'h' ∷ b'i' ∷ []; is_binary = false }

hello-IsValid : IsValid hello
hello-IsValid = ground arith

hello-IsReadable : IsReadable (pos 100) hello
unfolding encode_packet append_packet webtransport_server_read_limit
hello-IsReadable = record {
  valid_packet = hello-IsValid;
  within = λ e. omega arith;
  fits = omega arith;
}

read_loops_agree_example :
    websocket_read_loop promoted_setting writes zero (reads_of (hello ∷ []) (read_failed 0)) link
    ≡ webtransport_read_loop promoted_setting stream
        (pos 100)
        2
        zero
        (append_frames [] (hello ∷ []))
        link
unfolding write_frames
read_loops_agree_example =
    read_loops_agree promoted_setting writes stream (λ effects n. refl) (pos 100) (hello ∷ []) 2
      zero link (hello-IsReadable, tt) (omega arith)

abbrev probe_ping : Read
probe_ping = read_message message_text (b'2' ∷ b'p' ∷ b'r' ∷ b'o' ∷ b'b' ∷ b'e' ∷ [])

abbrev probe_text : Bytes
probe_text = b'2' ∷ b'p' ∷ b'r' ∷ b'o' ∷ b'b' ∷ b'e' ∷ []

probe_text-decoded :
    decode_websocket_frame message_text probe_text
    ≡ ok (record { type = packet_ping; body = drop 1 probe_text; is_binary = false })
unfolding decode_websocket_frame decode_packet packet_type_from_byte valid
probe_text-decoded = refl

probe_ping-NoUpgrade : NoUpgrade probe_ping
probe_ping-NoUpgrade kind frame p e d u =
    let same : decode_websocket_frame message_text probe_text ≡ decode_websocket_frame kind frame =
      cc in
    let f = sym probe_text-decoded ∙ same ∙ d in ground (arith, f, u)

websocket_on_read-IsUndisturbed_example :
    Aside probing_setting writes link zero
      (is_probe_ping probe_ping)
      (websocket_on_read probing_setting writes zero probe_ping link).1
unfolding after_effects
websocket_on_read-IsUndisturbed_example =
    websocket_on_read-IsUndisturbed probing_setting writes link refl zero probe_ping
      probe_ping-NoUpgrade

abbrev live : Connection
live = record { closed = false; probing = false }

websocket_send_delivers_example :
    (live.closed ≡ true → websocket_send writes [] live (hello ∷ []) ≡ (held_back, []))
    × (live.closed ≡ false
        → (count : ℕ) × (count ≤ length (hello ∷ []))
          × (decoded (websocket_send writes [] live (hello ∷ [])).1 ≡ oks (take count (hello ∷ [])))
          × ((websocket_send writes [] live (hello ∷ [])).0 ≡ sent → count ≡ length (hello ∷ []))
          × ((cause : Cause)
              → (websocket_send writes [] live (hello ∷ [])).0 ≡ failed cause
              → count < length (hello ∷ []))
          × ((websocket_send writes [] live (hello ∷ [])).0 ≢ held_back))
websocket_send_delivers_example =
    websocket_send_delivers writes [] live (hello ∷ []) (hello-IsValid, tt)

server_reads_bounded_example :
    (read_webtransport_packet (webtransport_server_read_limit (pos 0)) (2 ∷ b'4' ∷ b'x' ∷ [])
      ≢ err makeslice_panic)
    × ((p : Packet) (rest : Bytes)
        → read_webtransport_packet (webtransport_server_read_limit (pos 0)) (2 ∷ b'4' ∷ b'x' ∷ [])
          ≡ ok (p, rest)
        → length p.body ≤ pos_part (webtransport_server_read_limit (pos 0)))
server_reads_bounded_example = server_reads_bounded (pos 0) (2 ∷ b'4' ∷ b'x' ∷ []) (omega arith)

abbrev corrupt : Bytes
corrupt = b'!' ∷ []

corrupt_base64_reasons_example :
    (websocket_on_read promoted_setting writes zero
        (read_message message_text (binary_marker ∷ corrupt))
        (meanwhile promoted_setting zero link)
      ≡ (
        false,
        on_world
            (close_with_reason reason_parse_error (some 0))
            (meanwhile promoted_setting zero link),
      ))
    × (webtransport_read_loop promoted_setting stream
          (pos 100)
          1
          zero
          (text_frame (binary_marker ∷ corrupt) ++ [])
          link
        ≡ on_world
            (close_with_reason reason_transport_close (some 0))
            (meanwhile promoted_setting zero link))
unfolding decode_string decode_quanta strip_newlines webtransport_server_read_limit after_effects
    perform_all
corrupt_base64_reasons_example =
    corrupt_base64_reasons promoted_setting writes stream (pos 100) zero zero corrupt [] link refl
      (λ e. omega arith) (omega arith) refl refl

-- A binary frame of one byte, and a frame that is cut off.
webtransport_read_loop_ends_example :
    webtransport_read_loop promoted_setting stream (pos 100) 9 zero (129 ∷ 7 ∷ 130 ∷ 8 ∷ []) link
    ≡ webtransport_read_loop promoted_setting stream (pos 100) 5 zero (129 ∷ 7 ∷ 130 ∷ 8 ∷ []) link
webtransport_read_loop_ends_example =
    webtransport_read_loop_ends promoted_setting stream (pos 100) 9 5 zero (129 ∷ 7 ∷ 130 ∷ 8 ∷ [])
      link (omega arith) (omega arith)

abbrev poll : Transport
poll = record { identity = 2; transport_type = polling }

-- An upgrade from polling is in flight, and a packet waits.
abbrev upgrading_link : Link
upgrading_link = record link {
  world = record link.world {
    socket = record link.world.socket {
      state = session_open;
      transport = some poll;
      upgrading = true;
      upgrade_transport = some probing_setting.me;
      write_buffer = hello ∷ [];
    };
  };
}
