-- ===== src/Client/Socket.antt =====
-- socket.go: what the client socket does while it holds `mu`. The heartbeat timer and the handlers
-- other than the close handler are left out.
pub mod Connection
pub mod Buffer
pub mod Accounts
pub mod Delivery
pub mod Upgrade
pub mod Receive
use go_engine_io.Base.{
  ℕ, ◌+◌, ◌≤◌, Bool, true, false, not, ◌&&◌, ◌||◌, Option, none, some, List, [], ◌∷◌, ◌++◌, length,
  drop, leb, ltb, if◌then◌else◌,
}
use go_engine_io.Base.Int.{ℤ}
use go_engine_io.Codec.Packet.{Packet, Bytes}
use go_engine_io.Session.Socket.{Transport, TransportType, is_polling, Channel, Handler}
use go_engine_io.Client.Chunks.{is_nil}

pub data SocketState : Type 0 where
  state_open state_opening state_closed state_closing : SocketState

abbrev pub is_open : SocketState → Bool
is_open state_open = true
is_open state_opening = false
is_open state_closed = false
is_open state_closing = false

abbrev pub is_opening : SocketState → Bool
is_opening state_open = false
is_opening state_opening = true
is_opening state_closed = false
is_opening state_closing = false

abbrev pub is_closed : SocketState → Bool
is_closed state_open = false
is_closed state_opening = false
is_closed state_closed = true
is_closed state_closing = false

pub record ClientSocket : Type 0 where
  pub upgrade : Bool
  pub try_all_transports : Bool
  pub transports : List TransportType
  pub session_id : Bytes
  pub max_payload : ℤ
  pub state : SocketState
  pub transport : Option Transport
  pub prior_upgrade : Option TransportType
  pub run_cancel : Option Channel
  pub write_buffer : List Packet
  pub upgrading : Bool
  pub flushing : Bool
  pub on_close_handler : Option Handler

-- With the cancel function that context.WithCancel returns.
unfoldable pub begin_open : Channel → ClientSocket → Option ClientSocket
begin_open cancel s =
    if not (is_closed s.state)
    then none
    else some (record s {
      state = state_opening;
      upgrading = false;
      write_buffer = [];
      run_cancel = some cancel;
    })

-- The sections of Open after createTransport has failed, and after it has not.
unfoldable pub open_failed : ClientSocket → ClientSocket
open_failed s = record s { state = state_closed }

unfoldable pub set_transport : Transport → ClientSocket → ClientSocket
set_transport created s = record s { transport = some created }

-- Whether the socket can be closed, and whether its buffer is to be flushed before.
unfoldable pub begin_close : ClientSocket → Bool × Bool
begin_close s =
    if not (is_open s.state) && not (is_opening s.state)
    then (false, false)
    else (true, is_open s.state && not s.upgrading && not (is_nil s.write_buffer))

unfoldable pub begin_close_transport : ClientSocket → Option (Option Transport × ClientSocket)
begin_close_transport s =
    if not (is_open s.state) && not (is_opening s.state)
    then none
    else some (s.transport, record s { state = state_closing })

-- Send before its flush.
unfoldable pub queue_packets : List Packet → ClientSocket → Option ClientSocket
queue_packets packets s =
    if not (is_open s.state) && not (is_opening s.state)
    then none
    else some (record s { write_buffer = s.write_buffer ++ packets })

-- The first section of a round of flush.
unfoldable pub take_buffer : ClientSocket → Option (List Packet × Transport × ℤ × ClientSocket)
take_buffer s = elim s.transport [
  | none ↦ none
  | some active ↦
      if not (is_open s.state) || s.upgrading || is_nil s.write_buffer || s.flushing
      then none
      else some (s.write_buffer, active, s.max_payload, record s { flushing = true })
]

-- The second section, after sendChunks has returned `sent`. The slice expression panics, here
-- `none`, when it is out of range.
unfoldable pub drop_sent : ℕ → ClientSocket → Option ClientSocket
drop_sent sent s =
    if not (is_open s.state)
    then some (record s { flushing = false })
    else if leb sent (length s.write_buffer)
    then some (record s { write_buffer = drop sent s.write_buffer; flushing = false })
    else none

-- What beginTeardown takes out of the socket.
pub record Detached : Type 0 where
  pub active : Option Transport
  pub cancel : Option Channel
  pub close_handler : Option Handler

unfoldable pub tear_down : ClientSocket → Option (Detached × ClientSocket)
tear_down s =
    if is_closed s.state
    then none
    else some (
      record { active = s.transport; cancel = s.run_cancel; close_handler = s.on_close_handler },
      record s {
        state = state_closed;
        transport = none;
        session_id = [];
        write_buffer = [];
        upgrading = false;
        run_cancel = none;
      },
    )

abbrev pub tail : List TransportType → List TransportType
tail [] = []
tail (first ∷ rest) = rest

-- beginRetry: whether Open is to be called again, with the next transport.
unfoldable pub begin_retry : ClientSocket → Bool × ClientSocket
begin_retry s =
    if s.try_all_transports && ltb 1 (length s.transports) && is_opening s.state
    then (
      true,
      record s {
        prior_upgrade = none;
        transports = tail s.transports;
        state = state_closed;
        transport = none;
        write_buffer = [];
      },
    )
    else (false, record s { prior_upgrade = none })

-- `transport != nil && transport.Type() != TransportTypePolling`.
abbrev pub upgraded_type : Option Transport → Option TransportType
upgraded_type none = none
upgraded_type (some active) =
    if is_polling active.transport_type then none else some active.transport_type

-- recordOpen, with the id and the limit of the open packet.
unfoldable pub record_open : Bytes → ℤ → ClientSocket → ClientSocket
record_open id limit s = record s {
  session_id = id;
  max_payload = limit;
  state = state_open;
  prior_upgrade = upgraded_type s.transport;
}

-- The section of the probe pong's handler that begins an upgrade, with the transport to replace.
unfoldable pub begin_upgrade : ClientSocket → Option (Option Transport × ClientSocket)
begin_upgrade s =
    if not (is_open s.state) then none else some (s.transport, record s { upgrading = true })

-- The section behind an upgrade packet that could not be sent.
unfoldable pub cancel_upgrade : ClientSocket → ClientSocket
cancel_upgrade s = record s { upgrading = false }

-- The section that adopts the new transport.
unfoldable pub adopt_upgrade : Transport → ClientSocket → Option ClientSocket
adopt_upgrade probe s =
    if not (is_open s.state)
    then none
    else some (record s {
      prior_upgrade = some probe.transport_type;
      transport = some probe;
      upgrading = false;
    })
