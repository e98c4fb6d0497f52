-- ===== src/Client/Socket/Buffer.antt =====
-- socket.go: what the sections of the client socket do to its buffer, its flag and its state.
use go_engine_io.Base.{
  ℕ, ◌+◌, ◌≤◌, ◌≡◌, ◌≢◌, ap, ◌∙◌, arith, Bool, true, false, ◌||◌, Option, none, some, List, [],
  ◌++◌, length, drop, length-append, drop-append_short,
}
use go_engine_io.Base.Int.{ℤ}
use go_engine_io.Codec.Packet.{Packet, Bytes}
use go_engine_io.Session.Socket.{Transport}
use go_engine_io.Client.Socket.{
  ClientSocket, SocketState, is_open, is_opening, begin_open, set_transport, begin_close_transport,
  queue_packets, take_buffer, drop_sent, Detached, tear_down, record_open, begin_upgrade,
  cancel_upgrade, adopt_upgrade,
}

abbrev pub takes_packets : SocketState → Bool
takes_packets s = is_open s || is_opening s

-- The section lets the buffer and the flag be, and takes no packets that were not taken before.
pub record IsCalm (s next : ClientSocket) : Type 0 where
  pub same_buffer : takes_packets next.state ≡ true → next.write_buffer ≡ s.write_buffer
  pub takes_before : takes_packets next.state ≡ true → takes_packets s.state ≡ true
  pub same_flag : next.flushing ≡ s.flushing
  pub opens_none : is_opening s.state ≡ false → is_opening next.state ≡ false

pub set_transport-IsCalm :
    (created : Transport) (s : ClientSocket) → IsCalm s (set_transport created s)
unfolding set_transport
set_transport-IsCalm created s = ground arith

pub record_open-IsCalm :
    (id : Bytes) (limit : ℤ) (s : ClientSocket)
    → is_opening s.state ≡ true
    → IsCalm s (record_open id limit s)
unfolding record_open
record_open-IsCalm id limit s h = ground arith

pub begin_close_transport-IsCalm :
    (s next : ClientSocket) (active : Option Transport)
    → begin_close_transport s ≡ some (active, next)
    → IsCalm s next
unfolding begin_close_transport
begin_close_transport-IsCalm s next active e = ground arith

pub tear_down-IsCalm :
    (s next : ClientSocket) (parts : Detached) → tear_down s ≡ some (parts, next) → IsCalm s next
unfolding tear_down
tear_down-IsCalm s next parts e = ground arith

pub begin_upgrade-IsCalm :
    (s next : ClientSocket) (old : Option Transport)
    → begin_upgrade s ≡ some (old, next)
    → IsCalm s next
unfolding begin_upgrade
begin_upgrade-IsCalm s next old e = ground arith

pub cancel_upgrade-IsCalm : (s : ClientSocket) → IsCalm s (cancel_upgrade s)
unfolding cancel_upgrade
cancel_upgrade-IsCalm s = ground arith

pub adopt_upgrade-IsCalm :
    (probe : Transport) (s next : ClientSocket) → adopt_upgrade probe s ≡ some next → IsCalm s next
unfolding adopt_upgrade
adopt_upgrade-IsCalm probe s next e = ground arith

pub queue_packets-appends :
    (packets : List Packet) (s next : ClientSocket)
    → queue_packets packets s ≡ some next
    → (next.write_buffer ≡ s.write_buffer ++ packets)
      × (next.state ≡ s.state)
      × (next.flushing ≡ s.flushing)
unfolding queue_packets
queue_packets-appends packets s next e = ground arith

pub take_buffer-takes :
    (s next : ClientSocket) (packets : List Packet) (active : Transport) (limit : ℤ)
    → take_buffer s ≡ some (packets, active, limit, next)
    → (s.write_buffer ≡ packets)
      × (is_open s.state ≡ true)
      × (s.flushing ≡ false)
      × (next ≡ record s { flushing = true })
unfolding take_buffer
take_buffer-takes s next packets active limit e = ground arith

pub drop_sent-open :
    (sent : ℕ) (packets rest : List Packet) (s next : ClientSocket)
    → drop_sent sent s ≡ some next
    → sent ≤ length packets
    → s.write_buffer ≡ packets ++ rest
    → is_open s.state ≡ true
    → next.write_buffer ≡ drop sent packets ++ rest
unfolding drop_sent
drop_sent-open sent packets rest s next e h b o =
    ground (arith, e, o, ap (drop sent) b, drop-append_short sent packets rest h)

pub drop_sent-keeps :
    (sent : ℕ) (s next : ClientSocket)
    → drop_sent sent s ≡ some next
    → (next.state ≡ s.state) × (next.flushing ≡ false)
unfolding drop_sent
drop_sent-keeps sent s next e = ground arith

pub drop_sent-in_range :
    (sent : ℕ) (packets rest : List Packet) (s : ClientSocket)
    → sent ≤ length packets
    → (is_open s.state ≡ true → s.write_buffer ≡ packets ++ rest)
    → drop_sent sent s ≢ none
unfolding drop_sent
drop_sent-in_range sent packets rest s h b e =
    let size : is_open s.state ≡ true → length s.write_buffer ≡ length packets + length rest =
      λ o. ap length (b o) ∙ length-append packets rest in
    ground (arith, e, h, size)

pub open_takes : (s : SocketState) → is_open s ≡ true → takes_packets s ≡ true
open_takes s h = ground arith

pub takes_open :
    (s : SocketState) → is_opening s ≡ false → takes_packets s ≡ true → is_open s ≡ true
takes_open s o h = ground arith

pub open_not_opening : (s : SocketState) → is_open s ≡ true → is_opening s ≡ false
open_not_opening s h = ground arith

pub begin_open-starts :
    (cancel : ℕ) (s next : ClientSocket)
    → begin_open cancel s ≡ some next
    → s.flushing ≡ false
    → (next.write_buffer ≡ []) × (next.flushing ≡ false)
unfolding begin_open
begin_open-starts cancel s next e f = ground arith
