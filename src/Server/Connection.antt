-- ===== src/Server/Connection.antt =====
-- server_transport_websocket.go and server_transport_webtransport.go: what the two transports on a
-- connection share. The session calls `promote` and `close` of its transports, so that `closed`
-- and `probing` follow from what the session did.
use go_engine_io.Base.{ℕ, Bool, true, false, Option, List, [], ◌∷◌, ◌==◌, if◌then◌else◌}
use go_engine_io.Codec.Packet.{Packet, Bytes, packet_pong}
use go_engine_io.Codec.Result.{Error}
use go_engine_io.Session.Socket.{Transport, Channel}
use go_engine_io.Session.Operations.{
  World, Effect, sends_packets, stops_noops, starts_noops, closes_transport, promotes,
  deletes_session, calls_close_handler, calls_message_handler, Transports, Cause,
}
use go_engine_io.Session.Program.{Operation, perform_all}

pub record Connection : Type 0 where
  pub closed : Bool
  pub probing : Bool

unfoldable pub new_connection : Bool → Connection
new_connection probing = record { closed = false; probing = probing }

unfoldable pub promote : Connection → Connection
promote c = record c { probing = false }

-- close up to its calls of the connection.
unfoldable pub close_connection : Connection → Connection
close_connection c = if c.closed then c else record c { closed = true }

abbrev pub after_effect : Transport → Effect → Connection → Connection
after_effect me (sends_packets t packets) c = c
after_effect me (stops_noops stop) c = c
after_effect me (starts_noops stop) c = c
after_effect me (closes_transport t) c = if t.identity == me.identity then close_connection c else c
after_effect me (promotes t) c = if t.identity == me.identity then promote c else c
after_effect me (deletes_session id) c = c
after_effect me (calls_close_handler handler reason cause) c = c
after_effect me (calls_message_handler handler content binary) c = c

unfoldable pub after_effects : Transport → List Effect → Connection → Connection
after_effects me [] c = c
after_effects me (effect ∷ effects) c = after_effects me effects (after_effect me effect c)

-- What surrounds a read loop: the transport that it belongs to and how that began, how the
-- transports of the session answer, what other goroutines did to the session before the loop had
-- its n-th packet, the channel that onProbe would make for it, and the value of an error.
pub record Setting : Type 0 where
  pub me : Transport
  pub began : Connection
  pub transports : Transports
  pub others : ℕ → List Operation
  pub channels : ℕ → Channel
  pub cause_of : Error → Cause

-- The session, and how many probe pongs the transport has written.
pub record Link : Type 0 where
  pub world : World
  pub pongs : ℕ

abbrev pub connection : Setting → Link → Connection
connection setting l = after_effects setting.me l.world.effects setting.began

abbrev pub on_world : (World → World) → Link → Link
on_world f l = record l { world = f l.world }

abbrev pub meanwhile : Setting → ℕ → Link → Link
meanwhile setting n l = on_world (λ w. perform_all setting.transports (setting.others n) w) l

-- `[]byte("probe")`.
abbrev pub probe_data : Bytes
probe_data = b'p' ∷ b'r' ∷ b'o' ∷ b'b' ∷ b'e' ∷ []

-- `Packet{Type: PacketPong, Data: []byte("probe")}`.
abbrev pub probe_pong : Packet
probe_pong = record { type = packet_pong; body = probe_data; is_binary = false }

-- How a connection answers a write: an error or none, by what the session did before and by the
-- number of the write. The connections are not of this repository.
abbrev pub Writes : Type 0 → Type 0
Writes Written = List Effect → ℕ → Written → Option Cause
