-- ===== src/Client/Socket/Connection.antt =====
-- socket.go: one connection of the client, as its goroutines drive it.
use go_engine_io.Base.{
  ℕ, ◌+◌, ◌≤◌, ◌≡◌, true, false, Option, none, some, List, [], ◌++◌, length, take, drop,
}
use go_engine_io.Base.Int.{ℤ}
use go_engine_io.Codec.Packet.{Packet, Bytes}
use go_engine_io.Session.Socket.{Transport, Channel}
use go_engine_io.Client.Socket.{
  ClientSocket, begin_open, set_transport, begin_close_transport, queue_packets, take_buffer,
  drop_sent, Detached, tear_down, record_open, is_opening, begin_upgrade, cancel_upgrade,
  adopt_upgrade,
}

-- Where flush is: outside it, or in sendChunks with the number of packets sent.
pub data Sender : Type 0 where
  resting : Sender
  sending : List Packet → ℕ → Sender

-- Where an upgrade is: not under way, before the upgrade packet, and behind it.
pub data Phase : Type 0 where
  not_upgrading : Phase
  draining committed : Transport → Phase

-- A socket with the packets that Send has ever queued, and those that transports have sent.
pub record Connection : Type 0 where
  pub socket : ClientSocket
  pub sender : Sender
  pub phase : Phase
  pub accepted : List Packet
  pub handed_over : List Packet

-- The sections from beginOpen to the next one, an open packet in whatever state the socket is by
-- then. Retries are not among the steps, and one probe at a time is.
pub data Event (r : Connection) : Connection → Type 0 where
  creates : (created : Transport) → Event r (record r { socket = set_transport created r.socket })
  opens : (id : Bytes) (limit : ℤ) → Event r (record r { socket = record_open id limit r.socket })
  queues :
      (packets : List Packet) (next : ClientSocket)
      → queue_packets packets r.socket ≡ some next
      → Event r (record r { socket = next; accepted = r.accepted ++ packets })
  takes :
      (packets : List Packet) (active : Transport) (limit : ℤ) (next : ClientSocket)
      → take_buffer r.socket ≡ some (packets, active, limit, next)
      → Event r (record r { socket = next; sender = sending packets 0 })
  -- The transport has sent the next packets, a chunk.
  sends :
      (packets : List Packet) (sent more : ℕ)
      → r.sender ≡ sending packets sent
      → sent + more ≤ length packets
      → Event r (record r {
        sender = sending packets (sent + more);
        handed_over = r.handed_over ++ take more (drop sent packets);
      })
  -- sendChunks has returned, with or without an error.
  returns :
      (packets : List Packet) (sent : ℕ) (next : ClientSocket)
      → r.sender ≡ sending packets sent
      → drop_sent sent r.socket ≡ some next
      → Event r (record r { socket = next; sender = resting })
  closes :
      (active : Option Transport) (next : ClientSocket)
      → begin_close_transport r.socket ≡ some (active, next)
      → Event r (record r { socket = next })
  -- A probe pong came.
  starts_upgrade :
      (probe : Transport) (old : Option Transport) (next : ClientSocket)
      → r.phase ≡ not_upgrading
      → begin_upgrade r.socket ≡ some (old, next)
      → Event r (record r { socket = next; phase = draining probe })
  -- No flush is under way any more, and the upgrade packet was sent, or was not.
  commits :
      (probe : Transport)
      → r.phase ≡ draining probe
      → r.sender ≡ resting
      → Event r (record r { phase = committed probe })
  cancels :
      (probe : Transport)
      → r.phase ≡ draining probe
      → r.sender ≡ resting
      → Event r (record r { socket = cancel_upgrade r.socket; phase = not_upgrading })
  -- The old transport is paused, and the socket is still open, or is not.
  adopts :
      (probe : Transport) (next : ClientSocket)
      → r.phase ≡ committed probe
      → adopt_upgrade probe r.socket ≡ some next
      → Event r (record r { socket = next; phase = not_upgrading })
  discards :
      (probe : Transport)
      → r.phase ≡ committed probe
      → adopt_upgrade probe r.socket ≡ none
      → Event r (record r { phase = not_upgrading })
  tears_down :
      (parts : Detached) (next : ClientSocket)
      → tear_down r.socket ≡ some (parts, next)
      → Event r (record r { socket = next })

-- A connection begins with whatever flush and upgrade of an earlier one are still under way.
pub data Connected : Connection → Type 0 where
  begins :
      (cancel : Channel) (s next : ClientSocket) (sender : Sender) (phase : Phase)
      → begin_open cancel s ≡ some next
      → Connected (record {
        socket = next;
        sender = sender;
        phase = phase;
        accepted = [];
        handed_over = [];
      })
  goes_on : (r r' : Connection) → Connected r → Event r r' → Connected r'

-- An open packet comes while the socket is opening.
abbrev pub IsTimely : (r r' : Connection) → Event r r' → Type 0
IsTimely r _ (opens id limit) = is_opening r.socket.state ≡ true
IsTimely r _ (creates created) = Unit {0}
IsTimely r _ (queues packets next e) = Unit {0}
IsTimely r _ (takes packets active limit next e) = Unit {0}
IsTimely r _ (sends packets sent more e h) = Unit {0}
IsTimely r _ (returns packets sent next e d) = Unit {0}
IsTimely r _ (closes active next e) = Unit {0}
IsTimely r _ (starts_upgrade probe old next p e) = Unit {0}
IsTimely r _ (commits probe p e) = Unit {0}
IsTimely r _ (cancels probe p e) = Unit {0}
IsTimely r _ (adopts probe next p e) = Unit {0}
IsTimely r _ (discards probe p e) = Unit {0}
IsTimely r _ (tears_down parts next e) = Unit {0}

-- No flush and no upgrade of an earlier connection are under way when it begins, and every open
-- packet comes while the socket is opening. The code ensures neither.
abbrev pub IsRegular : (r : Connection) → Connected r → Type 0
IsRegular _ (begins cancel s next sender phase e) =
    (s.flushing ≡ false) × (sender ≡ resting) × (phase ≡ not_upgrading)
IsRegular _ (goes_on r r' before event) = IsRegular r before × IsTimely r r' event
