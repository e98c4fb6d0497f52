-- ===== src/Session/Closing.antt =====
-- server_socket.go: a session closes once, and a graceful close comes after everything queued.
use go_engine_io.Base.{
  ◌≡◌, refl, ap, sym, ◌∙◌, arith, Bool, true, false, some, List, [], ◌∷◌, ◌++◌, append-nil,
}
use go_engine_io.Codec.Packet.{Packet, bare, packet_close}
use go_engine_io.Session.Socket.{ServerSocket, is_closed, is_closing, Reason, new_server_socket}
use go_engine_io.Session.Sections.{flush_drop, flush_next, finish_close, begin_teardown, Released}
use go_engine_io.Session.Buffer.{
  torn_down, begin_send-not_closing, begin_ping-not_closing, begin_teardown-not_closing,
  begin_send-Queues, begin_ping-Queues, begin_close-Queues, Quiet-keeps, flush_drop-state,
  flush_next-finish_close, begin_teardown-closes, not_closed_and_closing,
}
use go_engine_io.Session.Accounting.{order_at, dropped_at}
use go_engine_io.Session.Delivery.{waiting}
use go_engine_io.Session.Run.{
  wrote, Run, Step, quiet, sends, pings, begins_close, closes_session, takes, refuses, fails,
  writes, drops, flush_closes, flush_closed, Reachable, starts, steps,
}

-- The reasons of the teardowns, by whether the session is closed.
abbrev IsClosedOnce : Bool → List Reason → Type 0
IsClosedOnce false closes = closes ≡ []
IsClosedOnce true closes = (reason : Reason) × (closes ≡ reason ∷ [])

none_yet :
    (closed : Bool) (closes : List Reason)
    → IsClosedOnce closed closes
    → closed ≡ false
    → closes ≡ []
none_yet false closes once e = once
none_yet true closes once e = cc

exactly_one :
    (closed : Bool) (closes : List Reason)
    → IsClosedOnce closed closes
    → closed ≡ true
    → (reason : Reason) × (closes ≡ reason ∷ [])
exactly_one false closes once e = cc
exactly_one true closes once e = once

IsClosedOnce-teardown :
    (s next : ServerSocket) (parts : Released) (closes : List Reason) (reason : Reason)
    → begin_teardown s ≡ some (parts, next)
    → IsClosedOnce (is_closed s.state) closes
    → IsClosedOnce (is_closed next.state) (closes ++ reason ∷ [])
IsClosedOnce-teardown s next parts closes reason e once = rw (torn_down s next parts e) (
  reason,
  ap (λ c. c ++ reason ∷ [])
      (none_yet (is_closed s.state) closes once (begin_teardown-closes s next parts e).0),
)

IsClosedOnce-Step :
    (r r' : Run)
    → Step r r'
    → IsClosedOnce (is_closed r.socket.state) r.closes
    → IsClosedOnce (is_closed r'.socket.state) r'.closes
IsClosedOnce-Step r _ (quiet next q) once = rw ((Quiet-keeps r.socket next q).1) once
IsClosedOnce-Step r _ (sends content binary next e) once =
    rw ((begin_send-Queues content binary r.socket next e).1) once
IsClosedOnce-Step r _ (pings next e) once = rw ((begin_ping-Queues r.socket next e).1) once
IsClosedOnce-Step r _ (begins_close next e) once =
    let (q, _) = begin_close-Queues r.socket next e in
    rw (q.is_live) (none_yet (is_closed r.socket.state) r.closes once q.was_live)
IsClosedOnce-Step r _ (closes_session reason parts next e) once =
    IsClosedOnce-teardown r.socket next parts r.closes reason e once
IsClosedOnce-Step r _ (takes packets active e t) once = once
IsClosedOnce-Step r _ (refuses packets active e) once = once
IsClosedOnce-Step r _ (fails packets active count e) once = once
IsClosedOnce-Step r _ (writes packets active e) once = once
IsClosedOnce-Step r _ (drops packets e) once = rw (flush_drop-state packets r.socket) once
IsClosedOnce-Step r _ (flush_closes reason parts next e t) once =
    IsClosedOnce-teardown r.socket next parts r.closes reason t once
IsClosedOnce-Step r _ (flush_closed reason e t) once = once

closed_once : (r : Run) → Reachable r → IsClosedOnce (is_closed r.socket.state) r.closes
unfolding new_server_socket
closed_once _ (starts name config first) = refl
closed_once _ (steps r r' reach step) = IsClosedOnce-Step r r' step (closed_once r reach)

-- However many calls of closeWithReason race, in a reachable session exactly one of them has torn
-- the session down if the session is closed, and none if it is not.
pub closes_once :
    (r : Run)
    → Reachable r
    → (is_closed r.socket.state ≡ false → r.closes ≡ [])
      × (is_closed r.socket.state ≡ true → (reason : Reason) × (r.closes ≡ reason ∷ []))
closes_once r reach = (
  none_yet (is_closed r.socket.state) r.closes (closed_once r reach),
  exactly_one (is_closed r.socket.state) r.closes (closed_once r reach),
)

-- A close packet is the last that was ever queued.
abbrev EndsWithClose : List Packet → Type 0
EndsWithClose accepted = (before : List Packet) × (accepted ≡ before ++ bare packet_close ∷ [])

closing_stays :
    (r r' : Run)
    → Step r r'
    → (is_closing r.socket.state ≡ true → EndsWithClose r.accepted)
    → is_closing r'.socket.state ≡ true
    → EndsWithClose r'.accepted
closing_stays r _ (quiet next q) h c = h (sym (Quiet-keeps r.socket next q).2 ∙ c)
closing_stays r _ (sends content binary next e) h c =
    ground (arith, begin_send-not_closing content binary r.socket next e, c)
closing_stays r _ (pings next e) h c = ground (arith, begin_ping-not_closing r.socket next e, c)
closing_stays r _ (begins_close next e) h c = (r.accepted, refl)
closing_stays r _ (closes_session reason parts next e) h c =
    ground (arith, begin_teardown-not_closing r.socket next parts e, c)
closing_stays r _ (takes packets active e t) h c = h c
closing_stays r _ (refuses packets active e) h c = h c
closing_stays r _ (fails packets active count e) h c = h c
closing_stays r _ (writes packets active e) h c = h c
closing_stays r _ (drops packets e) h c =
    h (sym (ap is_closing (flush_drop-state packets r.socket)) ∙ c)
closing_stays r _ (flush_closes reason parts next e t) h c =
    ground (arith, begin_teardown-not_closing r.socket next parts t, c)
closing_stays r _ (flush_closed reason e t) h c = h c

ending : (r : Run) → Reachable r → is_closing r.socket.state ≡ true → EndsWithClose r.accepted
unfolding new_server_socket
ending _ (starts name config first) c = cc
ending _ (steps r r' reach step) c = closing_stays r r' step (ending r reach) c

-- When flush is about to complete a graceful close, every packet ever queued has been written, and
-- the last of them is a close packet.
pub graceful_close_drains :
    (r : Run) (packets : List Packet)
    → Reachable r
    → r.flusher ≡ wrote packets
    → flush_next (flush_drop packets r.socket) ≡ finish_close
    → (r.handed_over ≡ r.accepted)
      × (before : List Packet) × (r.accepted ≡ before ++ bare packet_close ∷ [])
graceful_close_drains r packets reach e done_now =
    let (rest, a) = waiting r reach in
    let (drained, c) = flush_next-finish_close (flush_drop packets r.socket) done_now in
    let still_closing = sym (ap is_closing (flush_drop-state packets r.socket)) ∙ c in
    let (before, last) = ending r reach still_closing in
    let left =
      dropped_at r rest packets a e (not_closed_and_closing r.socket.state still_closing) in
    (
      sym (
          order_at r rest packets a (wrote packets) e
          ∙ ap (◌++◌ r.handed_over) (sym left ∙ drained)
          ∙ append-nil r.handed_over),
      before,
      last,
    )
