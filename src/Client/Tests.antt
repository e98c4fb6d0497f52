-- ===== src/Client/Tests.antt =====
-- socket.go: the theorems on the client socket at concrete sockets and packets.
use go_engine_io.Base.{
  ℕ, ◌≢◌, arith, ◌≡◌, refl, true, false, none, some, [], ◌∷◌, ◌++◌, All, take, drop, List,
}
use go_engine_io.Base.Int.{ℤ, pos}
use go_engine_io.Codec.Packet.{Packet, packet_message}
use go_engine_io.Session.Socket.{Transport, polling, websocket}
use go_engine_io.Client.Socket.{
  ClientSocket, state_closed, state_opening, state_open, begin_open, set_transport, record_open,
  queue_packets, take_buffer, drop_sent, begin_upgrade, adopt_upgrade,
}
use go_engine_io.Client.Socket.Connection.{
  Connection, resting, sending, not_upgrading, committed, Connected, begins, goes_on, creates,
  opens, queues, takes, sends, returns, starts_upgrade, commits, IsRegular,
}
use go_engine_io.Client.Socket.Buffer.{takes_packets}
use go_engine_io.Client.Socket.Upgrade.{is_upgrading, upgrade_quiets_flush}
use go_engine_io.Client.Socket.Delivery.{sent_in_order}
use go_engine_io.Session.Socket.{new_server_socket, session_open}
use go_engine_io.Session.Operations.{World, sent, send_ping, handle_packet}
use go_engine_io.Codec.Packet.{bare, packet_ping, packet_pong}
use go_engine_io.Client.Socket.Receive.{restarts_heartbeat, flushes, calls_on_packet, on_packet}
use go_engine_io.Client.Heartbeat.{pinged, next_ping, heartbeat_round}
use go_engine_io.Client.Chunks.{Answers, chunk_packets, send_chunks}
use go_engine_io.Client.Chunks.Sizes.{concat, FitsLimit, chunk_packets-FitsLimit}
use go_engine_io.Client.Chunks.Progress.{send_chunks-Progress}

abbrev text : List Packet
text =
    record { type = packet_message; body = b'a' ∷ b'b' ∷ []; is_binary = false }
    ∷ record { type = packet_message; body = b'c' ∷ []; is_binary = false }
    ∷ record { type = packet_message; body = []; is_binary = true }
    ∷ []

-- The second chunk fails.
abbrev answers : Answers
answers [] chunk = none
answers (x ∷ done) chunk = some 7

chunk_packets-FitsLimit_example : All (FitsLimit 5) (chunk_packets text (pos 5))
chunk_packets-FitsLimit_example = chunk_packets-FitsLimit text (pos 5) refl

send_chunks-Progress_example :
    (take (send_chunks answers text (pos 5)).1 text ≡ concat (send_chunks answers text (pos 5)).0)
    × (concat (send_chunks answers text (pos 5)).0 ++ drop (send_chunks answers text (pos 5)).1 text
        ≡ text)
    × ((send_chunks answers text (pos 5)).2 ≡ none
        → concat (send_chunks answers text (pos 5)).0 ≡ text)
send_chunks-Progress_example = send_chunks-Progress answers text (pos 5)

abbrev closed : ClientSocket
closed = record {
  upgrade = true;
  try_all_transports = false;
  transports = polling ∷ websocket ∷ [];
  session_id = [];
  max_payload = pos 0;
  state = state_closed;
  transport = none;
  prior_upgrade = none;
  run_cancel = none;
  write_buffer = [];
  upgrading = false;
  flushing = false;
  on_close_handler = none;
}

abbrev opening : ClientSocket
opening = record closed { state = state_opening; run_cancel = some 1 }

abbrev poll : Transport
poll = record { identity = 1; transport_type = polling }

abbrev opened : ClientSocket
opened = record opening {
  transport = some poll;
  session_id = b'7' ∷ [];
  max_payload = pos 100;
  state = state_open;
}

-- The socket has opened, and flush has sent one of three packets.
abbrev flushing : Connection
flushing = record {
  socket = record opened { write_buffer = text; flushing = true };
  sender = sending text 1;
  phase = not_upgrading;
  accepted = text;
  handed_over = take 1 text;
}

flushing-IsRegular : (reach : Connected flushing) × IsRegular flushing reach
unfolding begin_open set_transport record_open queue_packets take_buffer
flushing-IsRegular = (
  goes_on _ _
      (goes_on _ _
        (goes_on _ _
          (goes_on _ _
            (goes_on _ _ (begins 1 closed opening resting not_upgrading refl) (creates poll))
            (opens (b'7' ∷ []) (pos 100)))
          (queues text (record opened { write_buffer = text }) refl))
        (takes text poll (pos 100) (record opened { write_buffer = text; flushing = true }) refl))
      (sends text 0 1 refl (omega arith)),
  ((((((refl, refl, refl), tt), refl), tt), tt), tt),
)

sent_in_order_example :
    (rest : List Packet) × (flushing.accepted ≡ flushing.handed_over ++ rest)
    × (takes_packets flushing.socket.state ≡ true
        → flushing.socket.flushing ≡ false
        → flushing.socket.write_buffer ≡ rest)
    × ((packets : List Packet) (sent : ℕ)
        → flushing.sender ≡ sending packets sent
        → drop_sent sent flushing.socket ≢ none)
sent_in_order_example = sent_in_order flushing flushing-IsRegular.0 flushing-IsRegular.1

abbrev ws : Transport
ws = record { identity = 2; transport_type = websocket }

-- flush has returned, and the upgrade packet was sent over a new transport.
abbrev upgrading : Connection
upgrading = record {
  socket = record opened { write_buffer = drop 1 text; upgrading = true };
  sender = resting;
  phase = committed ws;
  accepted = text;
  handed_over = take 1 text;
}

upgrading-IsRegular : (reach : Connected upgrading) × IsRegular upgrading reach
unfolding drop_sent begin_upgrade
upgrading-IsRegular = (
  goes_on _ _
      (goes_on _ _
        (goes_on _ _ flushing-IsRegular.0
          (returns text 1 (record opened { write_buffer = drop 1 text }) refl refl))
        (starts_upgrade ws (some poll) upgrading.socket refl refl))
      (commits ws refl refl),
  (((flushing-IsRegular.1, tt), tt), tt),
)

upgrade_quiets_flush_example :
    (is_upgrading upgrading.phase ≡ true → take_buffer upgrading.socket ≡ none)
    × (upgrading.phase ≡ committed ws → upgrading.sender ≡ resting)
    × ((next after : ClientSocket) (packets : List Packet) (active : Transport) (limit : ℤ)
        → adopt_upgrade ws upgrading.socket ≡ some next
        → take_buffer next ≡ some (packets, active, limit, after)
        → active ≡ ws)
upgrade_quiets_flush_example =
    upgrade_quiets_flush upgrading ws upgrading-IsRegular.0 upgrading-IsRegular.1

-- An open session.
abbrev session : World
session = record {
  socket =
      record (new_server_socket (b'7' ∷ [])
        (record { ping_interval = 25000; ping_timeout = 20000; upgrade_timeout = 10000 }) poll) {
          state = session_open;
        };
  effects = [];
}

heartbeat_round_example :
    (send_ping (λ effects t packets. sent) session ≡ pinged poll session)
    × (on_packet true (λ content. none) (bare packet_ping) opened ≡ (
      record opened { write_buffer = opened.write_buffer ++ bare packet_pong ∷ [] },
      restarts_heartbeat ∷ flushes ∷ calls_on_packet (bare packet_ping) ∷ [],
    ))
    × ((handle_packet (bare packet_pong) (pinged poll session)).socket.pong_timer ≡ none)
    × ((handle_packet (bare packet_pong) (pinged poll session)).socket.ping_timer
        ≡ some (next_ping session.socket))
unfolding new_server_socket
heartbeat_round_example =
    heartbeat_round (λ effects t packets. sent) session poll true (λ content. none) opened refl refl
      (λ packets. refl) refl
