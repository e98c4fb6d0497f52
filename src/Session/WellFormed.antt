-- ===== src/Session/WellFormed.antt =====
-- server_socket.go: the invariant of a session, and that every section keeps it.
use go_engine_io.Base.{◌≡◌, arith, Bool, true, false, Option, none, some, List, []}
use go_engine_io.Codec.Packet.{Packet, Bytes}
use go_engine_io.Session.Socket.{
  ServerSocket, ServerConfig, is_opening, is_open, is_closing, is_closed, Transport,
  new_server_socket, send_ping_callback, abort_upgrade_callback, Channel,
}
use go_engine_io.Session.Sections.{
  begin_send, begin_close, stop_timers, arm_close, arm_ping, open_session, on_pong, begin_ping,
  flush_drop, Released, begin_teardown, start_upgrade, begin_probe, begin_complete_upgrade,
  begin_abort_upgrade, polls,
}

-- The invariant. A session has a transport until it is closed, and a closed one holds nothing.
-- The heartbeat and the deadline of an upgrade run in an open session only, the timer of a forced
-- close in a closing one only. While a probe runs it is the upgrade transport, polling is active,
-- and in an open session a timer aborts that very probe; else no part of an upgrade is left.
pub record IsWellFormed (s : ServerSocket) : Type 0 where
  pub active : is_closed s.state ≡ false → (t : Transport) × (s.transport ≡ some t)
  pub closed_transport : is_closed s.state ≡ true → s.transport ≡ none
  pub closed_buffer : is_closed s.state ≡ true → s.write_buffer ≡ []
  pub closed_upgrading : is_closed s.state ≡ true → s.upgrading ≡ false
  pub heartbeat :
      is_open s.state ≡ true
      → s.ping_timer
        ≡ some (record { after = s.options.ping_interval; callback = send_ping_callback })
  pub ping_open : is_open s.state ≡ false → s.ping_timer ≡ none
  pub pong_open : is_open s.state ≡ false → s.pong_timer ≡ none
  pub upgrade_open : is_open s.state ≡ false → s.upgrade_timer ≡ none
  pub close_closing : is_closing s.state ≡ false → s.close_timer ≡ none
  pub probe :
      s.upgrading ≡ true
      → (t : Transport) × (s.upgrade_transport ≡ some t)
        × (is_opening s.state ≡ false)
        × (polls s.transport ≡ true)
        × (is_open s.state ≡ true
            → s.upgrade_timer
              ≡ some (record {
                after = s.options.upgrade_timeout;
                callback = abort_upgrade_callback t;
              }))
  pub no_probe :
      s.upgrading ≡ false
      → (s.upgrade_transport ≡ none) × (s.upgrade_timer ≡ none) × (s.probe_noop_stop ≡ none)

pub new_server_socket-IsWellFormed :
    (name : Bytes) (config : ServerConfig) (first : Transport)
    → IsWellFormed (new_server_socket name config first)
unfolding new_server_socket
new_server_socket-IsWellFormed name config first = ground arith

pub begin_send-IsWellFormed :
    (content : Bytes) (binary : Bool) (s s' : ServerSocket)
    → begin_send content binary s ≡ some s'
    → IsWellFormed s
    → IsWellFormed s'
unfolding begin_send
begin_send-IsWellFormed content binary s s' e w = ground arith

pub begin_close-IsWellFormed :
    (s s' : ServerSocket) → begin_close s ≡ some s' → IsWellFormed s → IsWellFormed s'
unfolding begin_close stop_timers
begin_close-IsWellFormed s s' e w = ground arith

pub arm_close-IsWellFormed : (s : ServerSocket) → IsWellFormed s → IsWellFormed (arm_close s)
unfolding arm_close
arm_close-IsWellFormed s w = ground arith

pub open_session-IsWellFormed : (s : ServerSocket) → IsWellFormed s → IsWellFormed (open_session s)
unfolding open_session arm_ping
open_session-IsWellFormed s w = ground arith

pub on_pong-IsWellFormed : (s : ServerSocket) → IsWellFormed s → IsWellFormed (on_pong s)
unfolding on_pong arm_ping
on_pong-IsWellFormed s w = ground arith

pub begin_ping-IsWellFormed :
    (s s' : ServerSocket) → begin_ping s ≡ some s' → IsWellFormed s → IsWellFormed s'
unfolding begin_ping
begin_ping-IsWellFormed s s' e w = ground arith

pub flush_drop-IsWellFormed :
    (packets : List Packet) (s : ServerSocket)
    → IsWellFormed s
    → IsWellFormed (flush_drop packets s)
unfolding flush_drop
flush_drop-IsWellFormed packets s w = ground arith

pub begin_teardown-IsWellFormed :
    (s s' : ServerSocket) (r : Released)
    → begin_teardown s ≡ some (r, s')
    → IsWellFormed s
    → IsWellFormed s'
unfolding begin_teardown stop_timers
begin_teardown-IsWellFormed s s' r e w = ground arith

pub start_upgrade-IsWellFormed :
    (probe : Transport) (s s' : ServerSocket)
    → start_upgrade probe s ≡ some s'
    → IsWellFormed s
    → IsWellFormed s'
unfolding start_upgrade
start_upgrade-IsWellFormed probe s s' e w = record {
  active = ground (arith, w.active);
  closed_transport = ground arith;
  closed_buffer = ground arith;
  closed_upgrading = ground arith;
  heartbeat = ground arith;
  ping_open = ground arith;
  pong_open = ground arith;
  upgrade_open = ground arith;
  close_closing = ground arith;
  probe = λ h. (probe, ground arith, ground arith, ground arith, ground arith);
  no_probe = ground arith;
}

pub begin_probe-IsWellFormed :
    (stop : Channel) (s s' : ServerSocket)
    → begin_probe stop s ≡ some s'
    → IsWellFormed s
    → IsWellFormed s'
unfolding begin_probe
begin_probe-IsWellFormed stop s s' e w = ground arith

pub begin_complete_upgrade-IsWellFormed :
    (probe : Transport) (s s' : ServerSocket) (old : Option Transport) (stop : Option Channel)
    → begin_complete_upgrade probe s ≡ some (old, stop, s')
    → IsWellFormed s
    → IsWellFormed s'
unfolding begin_complete_upgrade
begin_complete_upgrade-IsWellFormed probe s s' old stop e w = record {
  active = λ h. (probe, ground arith);
  closed_transport = ground arith;
  closed_buffer = ground arith;
  closed_upgrading = ground arith;
  heartbeat = ground arith;
  ping_open = ground arith;
  pong_open = ground arith;
  upgrade_open = ground arith;
  close_closing = ground arith;
  probe = ground arith;
  no_probe = ground arith;
}

pub begin_abort_upgrade-IsWellFormed :
    (probe : Transport) (s s' : ServerSocket) (stop : Option Channel)
    → begin_abort_upgrade probe s ≡ some (stop, s')
    → IsWellFormed s
    → IsWellFormed s'
unfolding begin_abort_upgrade
begin_abort_upgrade-IsWellFormed probe s s' stop e w = ground arith
