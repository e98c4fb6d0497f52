-- ===== src/Session/Invariant.antt =====
-- server_socket.go: the invariant of every session that the operations can make.
use go_engine_io.Base.{arith}
use go_engine_io.Session.Socket.{ServerSocket}
use go_engine_io.Session.WellFormed.{
  IsWellFormed, new_server_socket-IsWellFormed, begin_send-IsWellFormed, begin_close-IsWellFormed,
  arm_close-IsWellFormed, open_session-IsWellFormed, on_pong-IsWellFormed, begin_ping-IsWellFormed,
  flush_drop-IsWellFormed, begin_teardown-IsWellFormed, start_upgrade-IsWellFormed,
  begin_probe-IsWellFormed, begin_complete_upgrade-IsWellFormed, begin_abort_upgrade-IsWellFormed,
}
use go_engine_io.Session.Run.{
  Run, Quiet, opens, pongs, arms, listens, watches, upgrades, probes, completes, aborts, Step,
  quiet, sends, pings, begins_close, closes_session, takes, refuses, fails, writes, drops,
  flush_closes, flush_closed, Reachable, starts, steps,
}

Quiet-IsWellFormed : (s next : ServerSocket) → Quiet s next → IsWellFormed s → IsWellFormed next
Quiet-IsWellFormed s _ opens w = open_session-IsWellFormed s w
Quiet-IsWellFormed s _ pongs w = on_pong-IsWellFormed s w
Quiet-IsWellFormed s _ arms w = arm_close-IsWellFormed s w
Quiet-IsWellFormed s _ (listens h) w = ground arith
Quiet-IsWellFormed s _ (watches h) w = ground arith
Quiet-IsWellFormed s _ (upgrades probe next e) w = start_upgrade-IsWellFormed probe s next e w
Quiet-IsWellFormed s _ (probes stop next e) w = begin_probe-IsWellFormed stop s next e w
Quiet-IsWellFormed s _ (completes probe old stop next e) w =
    begin_complete_upgrade-IsWellFormed probe s next old stop e w
Quiet-IsWellFormed s _ (aborts probe stop next e) w =
    begin_abort_upgrade-IsWellFormed probe s next stop e w

IsWellFormed-Step : (r r' : Run) → Step r r' → IsWellFormed r.socket → IsWellFormed r'.socket
IsWellFormed-Step r _ (quiet next q) w = Quiet-IsWellFormed r.socket next q w
IsWellFormed-Step r _ (sends content binary next e) w =
    begin_send-IsWellFormed content binary r.socket next e w
IsWellFormed-Step r _ (pings next e) w = begin_ping-IsWellFormed r.socket next e w
IsWellFormed-Step r _ (begins_close next e) w = begin_close-IsWellFormed r.socket next e w
IsWellFormed-Step r _ (closes_session reason parts next e) w =
    begin_teardown-IsWellFormed r.socket next parts e w
IsWellFormed-Step r _ (takes packets active e t) w = w
IsWellFormed-Step r _ (refuses packets active e) w = w
IsWellFormed-Step r _ (fails packets active count e) w = w
IsWellFormed-Step r _ (writes packets active e) w = w
IsWellFormed-Step r _ (drops packets e) w = flush_drop-IsWellFormed packets r.socket w
IsWellFormed-Step r _ (flush_closes reason parts next e t) w =
    begin_teardown-IsWellFormed r.socket next parts t w
IsWellFormed-Step r _ (flush_closed reason e t) w = w

-- Every reachable session is well formed: a closed one holds no transport, packet or timer, the
-- heartbeat and the upgrade deadline run in an open session only, and an open session that probes
-- an upgrade has polling for its active transport and a timer that aborts that very probe.
pub Reachable-IsWellFormed : (r : Run) → Reachable r → IsWellFormed r.socket
Reachable-IsWellFormed _ (starts name config first) =
    new_server_socket-IsWellFormed name config first
Reachable-IsWellFormed _ (steps r r' reach step) =
    IsWellFormed-Step r r' step (Reachable-IsWellFormed r reach)
