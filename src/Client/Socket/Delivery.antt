-- ===== src/Client/Socket/Delivery.antt =====
-- socket.go: within a connection no packet is lost, doubled or overtaken between Send and a
-- transport, and flush never slices out of range.
use go_engine_io.Base.{ℕ, ◌≡◌, ◌≢◌, refl, ap, sym, ◌∙◌, true, false, none, List, [], ◌++◌, drop}
use go_engine_io.Codec.Packet.{Packet}
use go_engine_io.Client.Socket.{drop_sent, cancel_upgrade}
use go_engine_io.Client.Socket.Connection.{
  sending, Connection, Event, creates, opens, queues, takes, sends, returns, closes, tears_down,
  not_upgrading, draining, committed, starts_upgrade, commits, cancels, adopts, discards, Connected,
  begins, goes_on, IsTimely, IsRegular,
}
use go_engine_io.Client.Socket.Buffer.{
  takes_packets, set_transport-IsCalm, record_open-IsCalm, begin_close_transport-IsCalm,
  tear_down-IsCalm, begin_upgrade-IsCalm, cancel_upgrade-IsCalm, adopt_upgrade-IsCalm,
  drop_sent-in_range, open_takes, begin_open-starts,
}
use go_engine_io.Client.Socket.Accounts.{
  ahead, IsAccounted, IsAccounted-IsCalm, IsAccounted-phase, IsAccounted-queues, not_sending,
  IsAccounted-takes, within_at, buffered_at, IsAccounted-sends, IsAccounted-returns,
}

IsAccounted-Event :
    (r r' : Connection) (rest : List Packet)
    → (event : Event r r') → IsTimely r r' event
    → IsAccounted r rest
    → (left : List Packet) × IsAccounted r' left
IsAccounted-Event r _ rest (creates created) h' a =
    (rest, IsAccounted-IsCalm r rest _ (set_transport-IsCalm created r.socket) a)
IsAccounted-Event r _ rest (opens id limit) h a =
    (rest, IsAccounted-IsCalm r rest _ (record_open-IsCalm id limit r.socket h) a)
IsAccounted-Event r _ rest (queues packets next e) h' a =
    (rest ++ packets, IsAccounted-queues r rest packets next e a)
IsAccounted-Event r _ rest (takes packets active limit next e) h' a =
    ([], IsAccounted-takes r rest a packets active limit next e)
IsAccounted-Event r _ rest (sends packets sent more e h) h' a =
    (rest, IsAccounted-sends r rest a packets sent e more h)
IsAccounted-Event r _ rest (returns packets sent next e d) h' a =
    (drop sent packets ++ rest, IsAccounted-returns r rest a packets sent e next d)
IsAccounted-Event r _ rest (closes active next e) h' a =
    (rest, IsAccounted-IsCalm r rest next (begin_close_transport-IsCalm r.socket next active e) a)
IsAccounted-Event r _ rest (starts_upgrade probe old next p e) h' a = (
  rest,
  IsAccounted-phase (record r { socket = next }) rest (draining probe)
      (IsAccounted-IsCalm r rest next (begin_upgrade-IsCalm r.socket next old e) a),
)
IsAccounted-Event r _ rest (commits probe p e) h' a =
    (rest, IsAccounted-phase r rest (committed probe) a)
IsAccounted-Event r _ rest (cancels probe p e) h' a =
    let next = cancel_upgrade r.socket in
    (
      rest,
      IsAccounted-phase (record r { socket = next }) rest not_upgrading
          (IsAccounted-IsCalm r rest next (cancel_upgrade-IsCalm r.socket) a),
    )
IsAccounted-Event r _ rest (adopts probe next p e) h' a = (
  rest,
  IsAccounted-phase (record r { socket = next }) rest not_upgrading
      (IsAccounted-IsCalm r rest next (adopt_upgrade-IsCalm probe r.socket next e) a),
)
IsAccounted-Event r _ rest (discards probe p e) h' a =
    (rest, IsAccounted-phase r rest not_upgrading a)
IsAccounted-Event r _ rest (tears_down parts next e) h' a =
    (rest, IsAccounted-IsCalm r rest next (tear_down-IsCalm r.socket next parts e) a)

-- The packets that wait in a connection.
waiting :
    (r : Connection) (reach : Connected r)
    → IsRegular r reach
    → (rest : List Packet) × IsAccounted r rest
waiting _ (begins cancel s next sender phase e) (f, rests, idle) =
    let (b, f') = begin_open-starts cancel s next e f in
    rw (rests, idle)
      ([], record { order = refl; buffered = λ h. b; within = tt; flag = f'; opened = λ h. cc })
waiting _ (goes_on r r' before event) (regular, timely) =
    let (rest, a) = waiting r before regular in IsAccounted-Event r r' rest event timely a

-- In a connection that begins when no flush and no upgrade of an earlier one is under way, and whose
-- open packets come while the socket is opening, the packets that transports have sent are, in order and without a gap or a repetition, the first of those that Send has queued; a
-- socket that takes packets and is not flushing buffers exactly the others; and when sendChunks
-- returns, dropping what it has sent from the buffer is in range.
pub sent_in_order :
    (r : Connection) (reach : Connected r)
    → IsRegular r reach
    → (rest : List Packet) × (r.accepted ≡ r.handed_over ++ rest)
      × (takes_packets r.socket.state ≡ true
          → r.socket.flushing ≡ false
          → r.socket.write_buffer ≡ rest)
      × ((packets : List Packet) (sent : ℕ)
          → r.sender ≡ sending packets sent
          → drop_sent sent r.socket ≢ none)
sent_in_order r reach regular =
    let (rest, a) = waiting r reach regular in
    (
      ahead r.sender ++ rest,
      a.order,
      λ live unflagged.
          let (no_ahead, no_taken) = not_sending r.sender (sym a.flag ∙ unflagged) in
          a.buffered live ∙ ap (λ xs. xs ++ rest) (no_taken ∙ sym no_ahead),
      λ packets sent e.
          drop_sent-in_range sent packets rest r.socket (within_at r rest a packets sent e)
            (λ o. buffered_at r rest a packets sent e (open_takes r.socket.state o)),
    )
