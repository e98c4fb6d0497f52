-- ===== src/Session/Sections.antt =====
-- server_socket.go: what each operation does while it holds `mu`, as a function of the session.
-- An operation that returns early gives `none`.
use go_engine_io.Base.{
  Bool, true, false, not, ◌&&◌, ◌||◌, Option, none, some, List, [], ◌∷◌, ◌++◌, length, drop, leb,
  if◌then◌else◌,
}
use go_engine_io.Codec.Packet.{Packet, Bytes, bare, packet_ping, packet_close, packet_message}
use go_engine_io.Session.Socket.{
  ServerSocket, session_open, session_closing, session_closed, is_opening, is_open, is_closing,
  is_closed, Transport, is_polling, holds, send_ping_callback, close_callback,
  abort_upgrade_callback, reason_ping_timeout, reason_forced_close, Channel, Handler,
}

abbrev pub is_none {ℓ} : {A : Type ℓ} → Option A → Bool
is_none none = true
is_none (some a) = false

-- `append(s.writeBuffer, packet)`.
abbrev pub queue : Packet → ServerSocket → ServerSocket
queue packet s = record s { write_buffer = s.write_buffer ++ packet ∷ [] }

-- The packet that Send makes of its data.
abbrev pub message : Bytes → Bool → Packet
message content binary = record { type = packet_message; body = content; is_binary = binary }

unfoldable pub begin_send : Bytes → Bool → ServerSocket → Option ServerSocket
begin_send content binary s =
    if is_closed s.state || is_closing s.state
    then none
    else some (queue (message content binary) s)

unfoldable pub stop_timers : ServerSocket → ServerSocket
stop_timers s = record s {
  ping_timer = none;
  pong_timer = none;
  upgrade_timer = none;
  close_timer = none;
}

unfoldable pub begin_close : ServerSocket → Option ServerSocket
unfolding stop_timers
begin_close s =
    if not (is_opening s.state) && not (is_open s.state)
    then none
    else some (queue (bare packet_close) (stop_timers (record s { state = session_closing })))

-- The end of Close: the timer that forces a close which no poll completes.
unfoldable pub arm_close : ServerSocket → ServerSocket
arm_close s =
    if is_closing s.state && is_none s.close_timer
    then record s {
      close_timer = some (record {
        after = s.options.ping_timeout;
        callback = close_callback reason_forced_close;
      });
    }
    else s

unfoldable pub arm_ping : ServerSocket → ServerSocket
arm_ping s = record s {
  ping_timer = some (record { after = s.options.ping_interval; callback = send_ping_callback });
}

unfoldable pub open_session : ServerSocket → ServerSocket
open_session s =
    if not (is_opening s.state) then s else arm_ping (record s { state = session_open })

unfoldable pub on_pong : ServerSocket → ServerSocket
on_pong s = if not (is_open s.state) then s else arm_ping (record s { pong_timer = none })

-- sendPing before its flush.
unfoldable pub begin_ping : ServerSocket → Option ServerSocket
begin_ping s =
    if not (is_open s.state)
    then none
    else some (record (queue (bare packet_ping) s) {
      pong_timer = some (record {
        after = s.options.ping_timeout;
        callback = close_callback reason_ping_timeout;
      });
    })

-- The first section of a round of flush: the packets to write, and where to.
unfoldable pub flush_take : ServerSocket → Option (List Packet × Transport)
flush_take s = if is_closed s.state then none else elim s.transport [
  | none ↦ none
  | some active ↦ elim s.write_buffer [ [] ↦ none | packet ∷ rest ↦ some (packet ∷ rest, active) ]
]

-- `s.writeBuffer[count:]`, or nothing when a close has emptied the buffer.
unfoldable pub flush_drop : List Packet → ServerSocket → ServerSocket
flush_drop packets s =
    if leb (length packets) (length s.write_buffer)
    then record s { write_buffer = drop (length packets) s.write_buffer }
    else record s { write_buffer = [] }

-- What flush does after it has dropped the packets.
pub data FlushNext : Type 0 where
  finish_close done again : FlushNext

abbrev pub is_empty : List Packet → Bool
is_empty [] = true
is_empty (packet ∷ rest) = false

unfoldable pub flush_next : ServerSocket → FlushNext
flush_next s =
    if is_empty s.write_buffer && is_closing s.state
    then finish_close
    else if is_empty s.write_buffer || is_closed s.state
    then done
    else again

-- What beginTeardown takes out of the session.
pub record Released : Type 0 where
  pub active : Option Transport
  pub probing : Option Transport
  pub noop_stop : Option Channel
  pub close_handler : Option Handler

unfoldable pub begin_teardown : ServerSocket → Option (Released × ServerSocket)
unfolding stop_timers
begin_teardown s =
    if is_closed s.state
    then none
    else some (
      record {
        active = s.transport;
        probing = s.upgrade_transport;
        noop_stop = s.probe_noop_stop;
        close_handler = s.on_close_handler;
      },
      record (stop_timers s) {
        state = session_closed;
        transport = none;
        upgrade_transport = none;
        upgrading = false;
        probe_noop_stop = none;
        write_buffer = [];
      },
    )

-- `s.transport == nil || s.transport.transportType() != TransportTypePolling`, negated.
abbrev pub polls : Option Transport → Bool
polls none = false
polls (some active) = is_polling active.transport_type

unfoldable pub start_upgrade : Transport → ServerSocket → Option ServerSocket
start_upgrade probe s =
    if not (is_open s.state) || s.upgrading || not (polls s.transport)
    then none
    else some (record s {
      upgrading = true;
      upgrade_transport = some probe;
      upgrade_timer =
          some
            (record { after = s.options.upgrade_timeout; callback = abort_upgrade_callback probe });
    })

-- onProbe up to the goroutine that it starts, with the channel that `make` returns.
unfoldable pub begin_probe : Channel → ServerSocket → Option ServerSocket
begin_probe stop s =
    if not s.upgrading || not (is_none s.probe_noop_stop)
    then none
    else some (record s { probe_noop_stop = some stop })

-- `s.upgrading = false` to the end of beginCompleteUpgrade and of beginAbortUpgrade.
abbrev pub end_upgrade : ServerSocket → ServerSocket
end_upgrade s = record s {
  upgrading = false;
  upgrade_transport = none;
  upgrade_timer = none;
  probe_noop_stop = none;
}

unfoldable pub begin_complete_upgrade :
    Transport → ServerSocket → Option (Option Transport × Option Channel × ServerSocket)
begin_complete_upgrade probe s =
    if not s.upgrading || not (holds s.upgrade_transport probe)
    then none
    else some (s.transport, s.probe_noop_stop, record (end_upgrade s) { transport = some probe })

unfoldable pub begin_abort_upgrade :
    Transport → ServerSocket → Option (Option Channel × ServerSocket)
begin_abort_upgrade probe s =
    if not s.upgrading || not (holds s.upgrade_transport probe)
    then none
    else some (s.probe_noop_stop, end_upgrade s)
