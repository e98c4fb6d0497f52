-- ===== src/Session/Tests.antt =====
-- server_socket.go: the theorems on sessions at concrete sessions.
use go_engine_io.Base.{◌≡◌, refl, true, false, none, some, List, [], ◌∷◌, ◌++◌}
use go_engine_io.Codec.Packet.{Packet, bare, packet_close}
use go_engine_io.Session.Socket.{
  ServerSocket, ServerConfig, Transport, polling, websocket, new_server_socket, session_open,
  session_closing, is_closed, Timer, send_ping_callback, abort_upgrade_callback, Reason,
  new_server_socket,
}
use go_engine_io.Session.Sections.{
  open_session, arm_ping, begin_send, message, begin_close, stop_timers, flush_take, flush_drop,
  flush_next, finish_close, start_upgrade, end_upgrade, polls,
}
use go_engine_io.Session.WellFormed.{IsWellFormed}
use go_engine_io.Session.Run.{
  Run, start, idle, wrote, Reachable, starts, steps, quiet, opens, upgrades, begins_close, takes,
  writes, sends,
}
use go_engine_io.Session.Operations.{
  World, Transports, sent, held_back, close, fire, closes_transport, sends_packets, promotes,
  complete_upgrade,
}
use go_engine_io.Session.Delivery.{delivered_in_order}
use go_engine_io.Session.Closing.{closes_once, graceful_close_drains}
use go_engine_io.Session.Invariant.{Reachable-IsWellFormed}
use go_engine_io.Session.Bounded.{IsBounded, close_ends, stalled_probe_aborts, noops_stopped}
use go_engine_io.Session.Program.{
  call_open, call_close, call_send, perform_all, new_world, perform_all_refines,
}
use go_engine_io.Session.Refinement.{written}
use go_engine_io.Session.Promotion.{complete_upgrade_delivers}

abbrev config : ServerConfig
config = record { ping_interval = 25000; ping_timeout = 20000; upgrade_timeout = 10000 }

abbrev poll : Transport
poll = record { identity = 1; transport_type = polling }

abbrev socket_probe : Transport
socket_probe = record { identity = 2; transport_type = websocket }

abbrev opened : ServerSocket
opened = record (new_server_socket (b'7' ∷ []) config poll) {
  state = session_open;
  ping_timer = some (record { after = 25000; callback = send_ping_callback });
}

abbrev hello : Packet
hello = message (b'h' ∷ b'i' ∷ []) false

opened-Reachable : Reachable (start opened)
unfolding new_server_socket open_session arm_ping
opened-Reachable = steps _ _ (starts (b'7' ∷ []) config poll) (quiet opened opens)

-- The application has queued a message.
abbrev queued : Run
queued = record (start (record opened { write_buffer = hello ∷ [] })) { accepted = hello ∷ [] }

queued-Reachable : Reachable queued
unfolding begin_send new_server_socket
queued-Reachable =
    steps _ _ opened-Reachable
      (sends (b'h' ∷ b'i' ∷ []) false (record opened { write_buffer = hello ∷ [] }) refl)

delivered_in_order_example :
    (rest : List Packet) × (queued.accepted ≡ queued.handed_over ++ rest)
    × (is_closed queued.socket.state ≡ false
        → queued.flusher ≡ idle
        → queued.socket.write_buffer ≡ rest)
delivered_in_order_example = delivered_in_order queued queued-Reachable

closes_once_example :
    (is_closed queued.socket.state ≡ false → queued.closes ≡ [])
    × (is_closed queued.socket.state ≡ true → (reason : Reason) × (queued.closes ≡ reason ∷ []))
closes_once_example = closes_once queued queued-Reachable

Reachable-IsWellFormed_example : IsWellFormed queued.socket
Reachable-IsWellFormed_example = Reachable-IsWellFormed queued queued-Reachable

-- The application has closed the session, and flush has written the message and the close packet.
abbrev closing_socket : ServerSocket
closing_socket = record opened {
  state = session_closing;
  ping_timer = none;
  write_buffer = hello ∷ bare packet_close ∷ [];
}

abbrev drained : Run
drained = record {
  socket = closing_socket;
  flusher = wrote (hello ∷ bare packet_close ∷ []);
  accepted = hello ∷ bare packet_close ∷ [];
  handed_over = hello ∷ bare packet_close ∷ [];
  closes = [];
}

drained-Reachable : Reachable drained
unfolding begin_close stop_timers flush_take new_server_socket
drained-Reachable =
    steps _ _
      (steps _ _ (steps _ _ queued-Reachable (begins_close closing_socket refl))
        (takes (hello ∷ bare packet_close ∷ []) poll refl refl))
      (writes (hello ∷ bare packet_close ∷ []) poll refl)

drained-finish_close :
    flush_next (flush_drop (hello ∷ bare packet_close ∷ []) closing_socket) ≡ finish_close
unfolding flush_next flush_drop new_server_socket
drained-finish_close = refl

graceful_close_drains_example :
    (drained.handed_over ≡ drained.accepted)
    × (before : List Packet) × (drained.accepted ≡ before ++ bare packet_close ∷ [])
graceful_close_drains_example =
    graceful_close_drains drained (hello ∷ bare packet_close ∷ []) drained-Reachable refl
      drained-finish_close

-- Transports that write everything, and a session with no poll held.
abbrev eager : Transports
eager log t packets = sent

abbrev unpolled : Transports
unpolled log t packets = held_back

abbrev queued_world : World
queued_world = record { socket = queued.socket; effects = [] }

close_ends_example : IsBounded unpolled (close unpolled queued_world)
unfolding new_server_socket
close_ends_example = close_ends unpolled queued_world refl

perform_all_refines_example :
    (r : Run) × Reachable r
    × (r.flusher ≡ idle)
    × (r.socket
        ≡ (perform_all eager
            (call_open ∷ call_send (b'h' ∷ b'i' ∷ []) false ∷ call_close ∷ [])
            (new_world (b'7' ∷ []) config poll)).socket)
    × (r.handed_over
        ≡ written
            (perform_all eager
              (call_open ∷ call_send (b'h' ∷ b'i' ∷ []) false ∷ call_close ∷ [])
              (new_world (b'7' ∷ []) config poll)).effects)
perform_all_refines_example =
    perform_all_refines eager (call_open ∷ call_send (b'h' ∷ b'i' ∷ []) false ∷ call_close ∷ [])
      (b'7' ∷ []) config poll

-- A probe is under way.
abbrev probing_socket : ServerSocket
probing_socket = record opened {
  upgrading = true;
  upgrade_transport = some socket_probe;
  upgrade_timer = some (record { after = 10000; callback = abort_upgrade_callback socket_probe });
  write_buffer = hello ∷ [];
}

abbrev probing_world : World
probing_world = record { socket = probing_socket; effects = [] }

probing-IsWellFormed : IsWellFormed probing_socket
unfolding start_upgrade new_server_socket
probing-IsWellFormed =
    Reachable-IsWellFormed (record queued { socket = probing_socket })
      (steps _ _ queued-Reachable
        (quiet probing_socket (upgrades socket_probe probing_socket refl)))

stalled_probe_aborts_example :
    (probe : Transport) × (timer : Timer) × (probing_socket.upgrade_transport ≡ some probe)
    × (probing_socket.upgrade_timer ≡ some timer)
    × ((fire eager timer.callback probing_world).socket ≡ end_upgrade probing_socket)
    × (polls (fire eager timer.callback probing_world).socket.transport ≡ true)
    × ((fire eager timer.callback probing_world).effects
        ≡ [] ++ noops_stopped probing_socket.probe_noop_stop ++ closes_transport probe ∷ [])
stalled_probe_aborts_example =
    stalled_probe_aborts eager probing_world probing-IsWellFormed refl refl

complete_upgrade_delivers_example : complete_upgrade eager socket_probe probing_world ≡ record {
  socket = record (end_upgrade probing_socket) { transport = some socket_probe; write_buffer = [] };
  effects =
      []
      ++ promotes socket_probe ∷ noops_stopped probing_socket.probe_noop_stop
      ++ closes_transport poll ∷ sends_packets socket_probe (hello ∷ []) ∷ [];
}
unfolding new_server_socket
complete_upgrade_delivers_example =
    complete_upgrade_delivers eager probing_world socket_probe poll hello [] refl refl refl refl
      refl (λ log. refl)
