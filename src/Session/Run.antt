-- ===== src/Session/Run.antt =====
-- server_socket.go: a session as its goroutines drive it. A step is one section under `mu`, or one
-- call of the transport by flush. `flushMu` lets one goroutine at a time into flush, so the
-- progress of flush is one value, and any other section may come between two of its steps.
use go_engine_io.Base.{ℕ, ◌≡◌, Bool, Option, none, some, List, [], ◌∷◌, ◌++◌, take}
use go_engine_io.Codec.Packet.{Packet, Bytes, bare, packet_ping, packet_close}
use go_engine_io.Session.Socket.{
  ServerSocket, ServerConfig, Transport, Reason, reason_transport_error, reason_forced_close,
  new_server_socket, Channel, Handler,
}
use go_engine_io.Session.Sections.{
  begin_send, message, begin_close, arm_close, open_session, on_pong, begin_ping, flush_take,
  flush_drop, flush_next, FlushNext, finish_close, done, again, Released, begin_teardown,
  start_upgrade, begin_probe, begin_complete_upgrade, begin_abort_upgrade,
}

-- Where flush is: outside it, before `transport.send`, after a send that wrote everything, and
-- before its call of closeWithReason.
pub data Flusher : Type 0 where
  idle : Flusher
  writing : List Packet → Transport → Flusher
  wrote : List Packet → Flusher
  closing : Reason → Flusher

-- A session with the packets it has ever queued, those its transports have written, and the
-- reasons of the calls of closeWithReason that got past beginTeardown, oldest first.
pub record Run : Type 0 where
  pub socket : ServerSocket
  pub flusher : Flusher
  pub accepted : List Packet
  pub handed_over : List Packet
  pub closes : List Reason

abbrev pub start : ServerSocket → Run
start s = record { socket = s; flusher = idle; accepted = []; handed_over = []; closes = [] }

-- Where flush goes on after it has dropped the packets. A next round starts from `idle`.
abbrev pub flush_after : FlushNext → Flusher
flush_after finish_close = closing reason_forced_close
flush_after done = idle
flush_after again = idle

-- The sections that queue nothing and close nothing.
pub data Quiet (s : ServerSocket) : ServerSocket → Type 0 where
  opens : Quiet s (open_session s)
  pongs : Quiet s (on_pong s)
  arms : Quiet s (arm_close s)
  listens : (h : Option Handler) → Quiet s (record s { on_message_handler = h })
  watches : (h : Option Handler) → Quiet s (record s { on_close_handler = h })
  upgrades :
      (probe : Transport) (next : ServerSocket) → start_upgrade probe s ≡ some next → Quiet s next
  probes : (stop : Channel) (next : ServerSocket) → begin_probe stop s ≡ some next → Quiet s next
  completes :
      (probe : Transport) (old : Option Transport) (stop : Option Channel) (next : ServerSocket)
      → begin_complete_upgrade probe s ≡ some (old, stop, next)
      → Quiet s next
  aborts :
      (probe : Transport) (stop : Option Channel) (next : ServerSocket)
      → begin_abort_upgrade probe s ≡ some (stop, next)
      → Quiet s next

pub data Step (r : Run) : Run → Type 0 where
  quiet : (next : ServerSocket) → Quiet r.socket next → Step r (record r { socket = next })
  sends :
      (content : Bytes) (binary : Bool) (next : ServerSocket)
      → begin_send content binary r.socket ≡ some next
      → Step r (record r { socket = next; accepted = r.accepted ++ message content binary ∷ [] })
  pings :
      (next : ServerSocket)
      → begin_ping r.socket ≡ some next
      → Step r (record r { socket = next; accepted = r.accepted ++ bare packet_ping ∷ [] })
  begins_close :
      (next : ServerSocket)
      → begin_close r.socket ≡ some next
      → Step r (record r { socket = next; accepted = r.accepted ++ bare packet_close ∷ [] })
  closes_session :
      (reason : Reason) (parts : Released) (next : ServerSocket)
      → begin_teardown r.socket ≡ some (parts, next)
      → Step r (record r { socket = next; closes = r.closes ++ reason ∷ [] })
  takes :
      (packets : List Packet) (active : Transport)
      → r.flusher ≡ idle
      → flush_take r.socket ≡ some (packets, active)
      → Step r (record r { flusher = writing packets active })
  -- No poll is held, or the transport is closed.
  refuses :
      (packets : List Packet) (active : Transport)
      → r.flusher ≡ writing packets active
      → Step r (record r { flusher = idle })
  -- A frame could not be written: some packets before it may have been.
  fails :
      (packets : List Packet) (active : Transport) (count : ℕ)
      → r.flusher ≡ writing packets active
      → Step r (record r {
        flusher = closing reason_transport_error;
        handed_over = r.handed_over ++ take count packets;
      })
  writes :
      (packets : List Packet) (active : Transport)
      → r.flusher ≡ writing packets active
      → Step r (record r { flusher = wrote packets; handed_over = r.handed_over ++ packets })
  drops :
      (packets : List Packet)
      → r.flusher ≡ wrote packets
      → Step r (record r {
        socket = flush_drop packets r.socket;
        flusher = flush_after (flush_next (flush_drop packets r.socket));
      })
  flush_closes :
      (reason : Reason) (parts : Released) (next : ServerSocket)
      → r.flusher ≡ closing reason
      → begin_teardown r.socket ≡ some (parts, next)
      → Step r (record r { socket = next; flusher = idle; closes = r.closes ++ reason ∷ [] })
  flush_closed :
      (reason : Reason)
      → r.flusher ≡ closing reason
      → begin_teardown r.socket ≡ none
      → Step r (record r { flusher = idle })

-- What a session can become from the state that newServerSocket makes.
pub data Reachable : Run → Type 0 where
  starts :
      (name : Bytes) (config : ServerConfig) (first : Transport)
      → Reachable (start (new_server_socket name config first))
  steps : (r r' : Run) → Reachable r → Step r r' → Reachable r'
