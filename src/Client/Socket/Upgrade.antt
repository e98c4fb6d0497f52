-- ===== src/Client/Socket/Upgrade.antt =====
-- socket.go: an upgrade keeps flush away from the old transport.
use go_engine_io.Base.{ℕ, ◌≡◌, refl, ap, ◌∙◌, arith, Bool, true, false, Option, none, some, List}
use go_engine_io.Base.Int.{ℤ}
use go_engine_io.Codec.Packet.{Packet}
use go_engine_io.Session.Socket.{Transport}
use go_engine_io.Client.Socket.{
  ClientSocket, is_open, is_opening, set_transport, begin_close_transport, queue_packets,
  take_buffer, drop_sent, Detached, tear_down, record_open, begin_upgrade, cancel_upgrade,
  adopt_upgrade,
}
use go_engine_io.Client.Socket.Connection.{
  resting, sending, Connection, Event, creates, opens, queues, takes, sends, returns, closes,
  tears_down, Phase, not_upgrading, draining, committed, starts_upgrade, commits, cancels, adopts,
  discards, Connected, begins, goes_on, IsTimely, IsRegular,
}

abbrev pub is_upgrading : Phase → Bool
is_upgrading not_upgrading = false
is_upgrading (draining probe) = true
is_upgrading (committed probe) = true

abbrev pub is_committed : Phase → Bool
is_committed not_upgrading = false
is_committed (draining probe) = false
is_committed (committed probe) = true

-- While an upgrade is under way an open socket says so, and behind the upgrade packet no flush is
-- under way.
pub record IsHushed (r : Connection) : Type 0 where
  pub flagged :
      is_upgrading r.phase ≡ true → is_open r.socket.state ≡ true → r.socket.upgrading ≡ true
  pub opened : is_upgrading r.phase ≡ true → is_opening r.socket.state ≡ false
  pub rested : is_committed r.phase ≡ true → r.sender ≡ resting

-- A section that does not touch the flag of an open socket, and opens none.
record IsDiscreet (s next : ClientSocket) : Type 0 where
  pub was_open : is_open next.state ≡ true → is_open s.state ≡ true
  pub same_flag : is_open next.state ≡ true → next.upgrading ≡ s.upgrading
  pub opens_none : is_opening s.state ≡ false → is_opening next.state ≡ false

IsHushed-IsDiscreet :
    (r : Connection) (next : ClientSocket)
    → IsDiscreet r.socket next
    → IsHushed r
    → IsHushed (record r { socket = next })
IsHushed-IsDiscreet r next d h = record {
  flagged = λ u o. d.same_flag o ∙ h.flagged u (d.was_open o);
  opened = λ u. d.opens_none (h.opened u);
  rested = h.rested;
}

set_transport-IsDiscreet :
    (created : Transport) (s : ClientSocket) → IsDiscreet s (set_transport created s)
unfolding set_transport
set_transport-IsDiscreet created s = ground arith

queue_packets-IsDiscreet :
    (packets : List Packet) (s next : ClientSocket)
    → queue_packets packets s ≡ some next
    → IsDiscreet s next
unfolding queue_packets
queue_packets-IsDiscreet packets s next e = ground arith

drop_sent-IsDiscreet :
    (sent : ℕ) (s next : ClientSocket) → drop_sent sent s ≡ some next → IsDiscreet s next
unfolding drop_sent
drop_sent-IsDiscreet sent s next e = ground arith

begin_close_transport-IsDiscreet :
    (s next : ClientSocket) (active : Option Transport)
    → begin_close_transport s ≡ some (active, next)
    → IsDiscreet s next
unfolding begin_close_transport
begin_close_transport-IsDiscreet s next active e = ground arith

tear_down-IsDiscreet :
    (s next : ClientSocket) (parts : Detached)
    → tear_down s ≡ some (parts, next)
    → IsDiscreet s next
unfolding tear_down
tear_down-IsDiscreet s next parts e = ground arith

begin_upgrade-flags :
    (s next : ClientSocket) (old : Option Transport)
    → begin_upgrade s ≡ some (old, next)
    → (next.upgrading ≡ true) × (is_opening next.state ≡ false)
unfolding begin_upgrade
begin_upgrade-flags s next old e = ground arith

-- flush takes nothing from an open socket that says it upgrades.
take_buffer-upgrading :
    (s : ClientSocket) → (is_open s.state ≡ true → s.upgrading ≡ true) → take_buffer s ≡ none
unfolding take_buffer
take_buffer-upgrading s h = ground (arith, h)

-- No phase is under way when flush takes packets.
takes-idle :
    (r : Connection) (packets : List Packet) (active : Transport) (limit : ℤ) (next : ClientSocket)
    → take_buffer r.socket ≡ some (packets, active, limit, next)
    → IsHushed r
    → is_upgrading r.phase ≡ false
takes-idle r packets active limit next e h =
    let quiet = take_buffer-upgrading r.socket in ground (arith, e, h.flagged, quiet)

-- A connection without an upgrade.
IsHushed-idle : (r : Connection) → is_upgrading r.phase ≡ false → IsHushed r
IsHushed-idle r h = record {
  flagged = λ u o. absurd (ground (arith, h, u));
  opened = λ u. absurd (ground (arith, h, u));
  rested = λ u. absurd (ground (arith, h, u));
}

opens-idle :
    (r : Connection) → is_opening r.socket.state ≡ true → IsHushed r → is_upgrading r.phase ≡ false
opens-idle r o h = ground (arith, o, h.opened)

IsHushed-Event :
    (r r' : Connection) (event : Event r r') → IsTimely r r' event → IsHushed r → IsHushed r'
IsHushed-Event r _ (creates created) timely h =
    IsHushed-IsDiscreet r _ (set_transport-IsDiscreet created r.socket) h
IsHushed-Event r _ (opens id limit) o h =
    IsHushed-idle (record r { socket = record_open id limit r.socket }) (opens-idle r o h)
IsHushed-Event r _ (queues packets next e) timely h =
    let k = IsHushed-IsDiscreet r next (queue_packets-IsDiscreet packets r.socket next e) h in
    record { flagged = k.flagged; opened = k.opened; rested = k.rested }
IsHushed-Event r _ (takes packets active limit next e) timely h =
    IsHushed-idle (record r { socket = next; sender = sending packets 0 })
      (takes-idle r packets active limit next e h)
IsHushed-Event r _ (sends packets sent more e k) timely h = record {
  flagged = h.flagged;
  opened = h.opened;
  rested = λ u. absurd (let rests = h.rested u in cc);
}
IsHushed-Event r _ (returns packets sent next e d) timely h =
    let k = IsHushed-IsDiscreet r next (drop_sent-IsDiscreet sent r.socket next d) h in
    record { flagged = k.flagged; opened = k.opened; rested = λ u. refl }
IsHushed-Event r _ (closes active next e) timely h =
    IsHushed-IsDiscreet r next (begin_close_transport-IsDiscreet r.socket next active e) h
IsHushed-Event r _ (tears_down parts next e) timely h =
    IsHushed-IsDiscreet r next (tear_down-IsDiscreet r.socket next parts e) h
IsHushed-Event r _ (starts_upgrade probe old next p e) timely h =
    let (flag, unopened) = begin_upgrade-flags r.socket next old e in
    record { flagged = λ u o. flag; opened = λ u. unopened; rested = λ u. cc }
IsHushed-Event r _ (commits probe p e) timely h =
    let under_way : is_upgrading r.phase ≡ true = ap is_upgrading p in
    record {
      flagged = λ u o. h.flagged under_way o;
      opened = λ u. h.opened under_way;
      rested = λ u. e;
    }
IsHushed-Event r _ (cancels probe p e) timely h =
    IsHushed-idle (record r { socket = cancel_upgrade r.socket; phase = not_upgrading }) refl
IsHushed-Event r _ (adopts probe next p e) timely h =
    IsHushed-idle (record r { socket = next; phase = not_upgrading }) refl
IsHushed-Event r _ (discards probe p e) timely h =
    IsHushed-idle (record r { phase = not_upgrading }) refl

Connected-IsHushed : (r : Connection) (reach : Connected r) → IsRegular r reach → IsHushed r
Connected-IsHushed _ (begins cancel s next sender phase e) (f, rests, idle) =
    IsHushed-idle _ (ap is_upgrading idle)
Connected-IsHushed _ (goes_on r r' before event) (regular, timely) =
    IsHushed-Event r r' event timely (Connected-IsHushed r before regular)

adopted-takes :
    (probe active : Transport) (s next after : ClientSocket) (packets : List Packet) (limit : ℤ)
    → adopt_upgrade probe s ≡ some next
    → take_buffer next ≡ some (packets, active, limit, after)
    → active ≡ probe
unfolding adopt_upgrade take_buffer
adopted-takes probe active s next after packets limit e t = ground (arith, e, t)

-- In a connection that begins when no flush and no upgrade of an earlier one is under way, and whose
-- open packets come while the socket is opening: while an upgrade is under way flush takes no packets, and from the upgrade
-- packet on no flush is under way either, so that nothing is sent over the old transport behind that
-- packet; once the new transport is adopted, what flush takes goes to it.
pub upgrade_quiets_flush :
    (r : Connection) (probe : Transport) (reach : Connected r)
    → IsRegular r reach
    → (is_upgrading r.phase ≡ true → take_buffer r.socket ≡ none)
      × (r.phase ≡ committed probe → r.sender ≡ resting)
      × ((next after : ClientSocket) (packets : List Packet) (active : Transport) (limit : ℤ)
          → adopt_upgrade probe r.socket ≡ some next
          → take_buffer next ≡ some (packets, active, limit, after)
          → active ≡ probe)
upgrade_quiets_flush r probe reach regular =
    let h = Connected-IsHushed r reach regular in
    (
      λ u. take_buffer-upgrading r.socket (h.flagged u),
      λ p. h.rested (ap is_committed p),
      λ next after packets active limit.
          adopted-takes probe active r.socket next after packets limit,
    )
