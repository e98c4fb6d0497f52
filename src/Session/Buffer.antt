-- ===== src/Session/Buffer.antt =====
-- server_socket.go: what the sections do to the buffer and to the state.
use go_engine_io.Base.{
  ◌≡◌, refl, ap, arith, Bool, true, false, none, some, List, [], ◌∷◌, ◌++◌, length, drop,
  length-append, drop-length-append,
}
use go_engine_io.Codec.Packet.{Packet, Bytes, bare, packet_ping, packet_close}
use go_engine_io.Session.Socket.{
  ServerSocket, SessionState, session_opening, session_open, session_closing, session_closed,
  is_closed, is_closing, Transport,
}
use go_engine_io.Session.Sections.{
  begin_send, message, begin_close, stop_timers, arm_close, arm_ping, open_session, on_pong,
  begin_ping, flush_take, flush_drop, flush_next, finish_close, Released, begin_teardown,
  start_upgrade, begin_probe, begin_complete_upgrade, begin_abort_upgrade,
}
use go_engine_io.Session.Run.{
  Quiet, opens, pongs, arms, listens, watches, upgrades, probes, completes, aborts,
}

-- The session goes on, and one packet joins the end of its buffer.
pub record Queues (packet : Packet) (s next : ServerSocket) : Type 0 where
  pub was_live : is_closed s.state ≡ false
  pub is_live : is_closed next.state ≡ false
  pub queued : next.write_buffer ≡ s.write_buffer ++ packet ∷ []

pub begin_send-Queues :
    (content : Bytes) (binary : Bool) (s next : ServerSocket)
    → begin_send content binary s ≡ some next
    → Queues (message content binary) s next × (next.state ≡ s.state)
unfolding begin_send
begin_send-Queues content binary s next e = ground arith

pub begin_ping-Queues :
    (s next : ServerSocket)
    → begin_ping s ≡ some next
    → Queues (bare packet_ping) s next × (next.state ≡ s.state)
unfolding begin_ping
begin_ping-Queues s next e = ground arith

pub begin_close-Queues :
    (s next : ServerSocket)
    → begin_close s ≡ some next
    → Queues (bare packet_close) s next × (next.state ≡ session_closing)
unfolding begin_close stop_timers
begin_close-Queues s next e = ground arith

-- A section that queues nothing leaves the buffer alone, and moves the state to open at most.
pub Quiet-keeps :
    (s next : ServerSocket)
    → Quiet s next
    → (next.write_buffer ≡ s.write_buffer)
      × (is_closed next.state ≡ is_closed s.state)
      × (is_closing next.state ≡ is_closing s.state)
unfolding open_session arm_ping on_pong arm_close start_upgrade begin_probe begin_complete_upgrade
    begin_abort_upgrade
Quiet-keeps s _ opens = ground arith
Quiet-keeps s _ pongs = ground arith
Quiet-keeps s _ arms = ground arith
Quiet-keeps s _ (listens h) = (refl, refl, refl)
Quiet-keeps s _ (watches h) = (refl, refl, refl)
Quiet-keeps s _ (upgrades probe next e) = ground arith
Quiet-keeps s _ (probes stop next e) = ground arith
Quiet-keeps s _ (completes probe old stop next e) = ground arith
Quiet-keeps s _ (aborts probe stop next e) = ground arith

pub flush_take-takes :
    (s : ServerSocket) (packets : List Packet) (active : Transport)
    → flush_take s ≡ some (packets, active)
    → (is_closed s.state ≡ false) × (s.write_buffer ≡ packets)
unfolding flush_take
flush_take-takes s packets active e = ground arith

pub flush_drop-state :
    (packets : List Packet) (s : ServerSocket) → (flush_drop packets s).state ≡ s.state
unfolding flush_drop
flush_drop-state packets s = ground arith

pub flush_drop-buffer :
    (packets rest : List Packet) (s : ServerSocket)
    → s.write_buffer ≡ packets ++ rest
    → (flush_drop packets s).write_buffer ≡ rest
unfolding flush_drop
flush_drop-buffer packets rest s e = ground (
  arith,
  ap length e,
  length-append packets rest,
  ap (drop (length packets)) e,
  drop-length-append packets rest,
)

pub flush_next-finish_close :
    (s : ServerSocket)
    → flush_next s ≡ finish_close
    → (s.write_buffer ≡ []) × (is_closing s.state ≡ true)
unfolding flush_next
flush_next-finish_close s e = ground arith

pub begin_teardown-closes :
    (s next : ServerSocket) (parts : Released)
    → begin_teardown s ≡ some (parts, next)
    → (is_closed s.state ≡ false) × (next.state ≡ session_closed) × (next.write_buffer ≡ [])
unfolding begin_teardown stop_timers
begin_teardown-closes s next parts e = ground arith

pub begin_teardown-none : (s : ServerSocket) → begin_teardown s ≡ none → is_closed s.state ≡ true
unfolding begin_teardown
begin_teardown-none s e = ground arith

pub not_closed_and_closing :
    (state : SessionState) → is_closing state ≡ true → is_closed state ≡ false
not_closed_and_closing session_opening h = cc
not_closed_and_closing session_open h = cc
not_closed_and_closing session_closing h = refl
not_closed_and_closing session_closed h = cc

-- A closing session takes no message and no ping, and a torn down one is not closing.
pub begin_send-not_closing :
    (content : Bytes) (binary : Bool) (s next : ServerSocket)
    → begin_send content binary s ≡ some next
    → is_closing next.state ≡ false
unfolding begin_send
begin_send-not_closing content binary s next e = ground arith

pub begin_ping-not_closing :
    (s next : ServerSocket) → begin_ping s ≡ some next → is_closing next.state ≡ false
unfolding begin_ping
begin_ping-not_closing s next e = ground arith

pub begin_teardown-not_closing :
    (s next : ServerSocket) (parts : Released)
    → begin_teardown s ≡ some (parts, next)
    → is_closing next.state ≡ false
unfolding begin_teardown stop_timers
begin_teardown-not_closing s next parts e = ground arith

pub torn_down :
    (s next : ServerSocket) (parts : Released)
    → begin_teardown s ≡ some (parts, next)
    → is_closed next.state ≡ true
torn_down s next parts e = ap is_closed (begin_teardown-closes s next parts e).1
