-- ===== src/Client/Heartbeat.antt =====
-- server_socket.go and socket.go: the heartbeat, from the server's ping to the client's pong.
use go_engine_io.Base.{
  ◌≡◌, refl, ap, sym, ◌∙◌, arith, Bool, true, Option, none, some, List, [], ◌∷◌, ◌++◌,
}
use go_engine_io.Codec.Packet.{Packet, Bytes, bare, packet_ping, packet_pong}
use go_engine_io.Session.Socket.{
  ServerSocket, Transport, Timer, is_open, send_ping_callback, close_callback, reason_ping_timeout,
}
use go_engine_io.Session.Sections.{begin_ping, on_pong, arm_ping, queue}
use go_engine_io.Session.Operations.{
  World, sends_packets, put, Transports, sent, send_ping, handle_packet,
}
use go_engine_io.Session.Promotion.{flush-open}
use go_engine_io.Client.Socket.{ClientSocket, state_open, queue_packets}
use go_engine_io.Client.Socket.Receive.{
  OpenPacket, restarts_heartbeat, flushes, calls_on_packet, receive, on_packet,
}

-- The timer that closes a session whose ping is not answered, and the one that pings next.
abbrev pub pong_deadline : ServerSocket → Timer
pong_deadline s = record {
  after = s.options.ping_timeout;
  callback = close_callback reason_ping_timeout;
}

abbrev pub next_ping : ServerSocket → Timer
next_ping s = record { after = s.options.ping_interval; callback = send_ping_callback }

-- A session that has written a ping with what it had buffered.
abbrev pub pinged : Transport → World → World
pinged active w = record {
  socket = record w.socket { write_buffer = []; pong_timer = some (pong_deadline w.socket) };
  effects = w.effects ++ sends_packets active (w.socket.write_buffer ++ bare packet_ping ∷ []) ∷ [];
}

begin_ping-open :
    (s : ServerSocket)
    → is_open s.state ≡ true
    → begin_ping s
      ≡ some (record (queue (bare packet_ping) s) { pong_timer = some (pong_deadline s) })
unfolding begin_ping
begin_ping-open s o = ground (arith, o)

snoc-nonempty :
    (xs : List Packet) (y : Packet)
    → (x : Packet) × (rest : List Packet) × (xs ++ y ∷ [] ≡ x ∷ rest)
snoc-nonempty [] y = (y, [], refl)
snoc-nonempty (x ∷ xs) y = (x, xs ++ y ∷ [], refl)

send_ping-pinged :
    (transports : Transports) (w : World) (active : Transport)
    → is_open w.socket.state ≡ true
    → w.socket.transport ≡ some active
    → ((packets : List Packet) → transports w.effects active packets ≡ sent)
    → send_ping transports w ≡ pinged active w
unfolding send_ping
send_ping-pinged transports w active o t writes =
    let s = record (queue (bare packet_ping) w.socket) {
      pong_timer = some (pong_deadline w.socket);
    } in
    let (x, rest, e) = snoc-nonempty w.socket.write_buffer (bare packet_ping) in
    rw (begin_ping-open w.socket o, send_ping)
      (flush-open transports (put s w) active x rest o t e (writes (x ∷ rest))
        ∙ ap
            (λ packets. record {
              socket = record w.socket {
                write_buffer = [];
                pong_timer = some (pong_deadline w.socket);
              };
              effects = w.effects ++ sends_packets active packets ∷ [];
            })
            (sym e))

-- One heartbeat, on an open session whose transport writes: the ping goes out behind what was
-- buffered and arms the deadline; the client's socket, when it gets the ping while it is open,
-- restarts its own timeout and queues a pong; and when the server handles that pong, the deadline is
-- off and the next ping is armed.
pub heartbeat_round :
    (transports : Transports) (w : World) (active : Transport) (resolves : Bool)
    (unmarshal : Bytes → Option OpenPacket) (s : ClientSocket)
    → is_open w.socket.state ≡ true
    → w.socket.transport ≡ some active
    → ((packets : List Packet) → transports w.effects active packets ≡ sent)
    → s.state ≡ state_open
    → (send_ping transports w ≡ pinged active w)
      × (on_packet resolves unmarshal (bare packet_ping) s ≡ (
        record s { write_buffer = s.write_buffer ++ bare packet_pong ∷ [] },
        restarts_heartbeat ∷ flushes ∷ calls_on_packet (bare packet_ping) ∷ [],
      ))
      × ((handle_packet (bare packet_pong) (pinged active w)).socket.pong_timer ≡ none)
      × ((handle_packet (bare packet_pong) (pinged active w)).socket.ping_timer
          ≡ some (next_ping w.socket))
unfolding on_packet receive queue_packets handle_packet on_pong arm_ping
heartbeat_round transports w active resolves unmarshal s o t writes so =
    (send_ping-pinged transports w active o t writes, rw so refl, rw o refl, rw o refl)
