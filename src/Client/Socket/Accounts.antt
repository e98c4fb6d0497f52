-- ===== src/Client/Socket/Accounts.antt =====
-- socket.go: where every packet of a connection is.
use go_engine_io.Base.{
  ℕ, ◌+◌, ◌≤◌, ◌≡◌, refl, ap, sym, ◌∙◌, arith, Bool, true, false, some, List, [], ◌++◌, length,
  take, drop, append-nil, append_assoc, take-append-drop, drop-drop,
}
use mathlib.Core.Path.{subst}
use go_engine_io.Base.Int.{ℤ}
use go_engine_io.Codec.Packet.{Packet}
use go_engine_io.Session.Socket.{Transport}
use go_engine_io.Client.Socket.{ClientSocket, is_opening, queue_packets, take_buffer, drop_sent}
use go_engine_io.Client.Socket.Connection.{Sender, resting, sending, Connection, Phase}
use go_engine_io.Client.Socket.Buffer.{
  takes_packets, IsCalm, queue_packets-appends, take_buffer-takes, drop_sent-open, drop_sent-keeps,
  open_takes, takes_open, open_not_opening,
}

-- The packets that flush has taken and not sent.
abbrev pub ahead : Sender → List Packet
ahead resting = []
ahead (sending packets sent) = drop sent packets

-- What flush has taken of the buffer.
abbrev pub taken : Sender → List Packet
taken resting = []
taken (sending packets sent) = packets

abbrev pub IsWithin : Sender → Type 0
IsWithin resting = Unit {0}
IsWithin (sending packets sent) = sent ≤ length packets

abbrev pub is_sending : Sender → Bool
is_sending resting = false
is_sending (sending packets sent) = true

-- Every packet accepted is sent, taken or waits; a socket that takes packets still buffers what is
-- taken and what waits.
pub record IsAccounted (r : Connection) (rest : List Packet) : Type 0 where
  pub order : r.accepted ≡ r.handed_over ++ (ahead r.sender ++ rest)
  pub buffered :
      takes_packets r.socket.state ≡ true → r.socket.write_buffer ≡ taken r.sender ++ rest
  pub within : IsWithin r.sender
  pub flag : r.socket.flushing ≡ is_sending r.sender
  pub opened : is_sending r.sender ≡ true → is_opening r.socket.state ≡ false

pub IsAccounted-IsCalm :
    (r : Connection) (rest : List Packet) (next : ClientSocket)
    → IsCalm r.socket next
    → IsAccounted r rest
    → IsAccounted (record r { socket = next }) rest
IsAccounted-IsCalm r rest next c a = record {
  order = a.order;
  buffered = λ h. c.same_buffer h ∙ a.buffered (c.takes_before h);
  within = a.within;
  flag = c.same_flag ∙ a.flag;
  opened = λ h. c.opens_none (a.opened h);
}

-- The phase of an upgrade counts no packets.
pub IsAccounted-phase :
    (r : Connection) (rest : List Packet) (phase : Phase)
    → IsAccounted r rest
    → IsAccounted (record r { phase = phase }) rest
IsAccounted-phase r rest phase a = record {
  order = a.order;
  buffered = a.buffered;
  within = a.within;
  flag = a.flag;
  opened = a.opened;
}

pub IsAccounted-queues :
    (r : Connection) (rest packets : List Packet) (next : ClientSocket)
    → queue_packets packets r.socket ≡ some next
    → IsAccounted r rest
    → IsAccounted (record r { socket = next; accepted = r.accepted ++ packets }) (rest ++ packets)
IsAccounted-queues r rest packets next e a =
    let (b, s, f) = queue_packets-appends packets r.socket next e in
    record {
      order =
          ap (λ xs. xs ++ packets) a.order
          ∙ append_assoc r.handed_over (ahead r.sender ++ rest) packets
          ∙ ap (◌++◌ r.handed_over) (append_assoc (ahead r.sender) rest packets);
      buffered = λ h.
          b
          ∙ ap (λ xs. xs ++ packets) (a.buffered (sym (ap takes_packets s) ∙ h))
          ∙ append_assoc (taken r.sender) rest packets;
      within = a.within;
      flag = f ∙ a.flag;
      opened = λ h. ap is_opening s ∙ a.opened h;
    }

pub not_sending : (f : Sender) → is_sending f ≡ false → (ahead f ≡ []) × (taken f ≡ [])
not_sending resting h = (refl, refl)
not_sending (sending packets sent) h = cc

module _ (r : Connection) (rest : List Packet) (a : IsAccounted r rest) where
  pub IsAccounted-takes :
      (packets : List Packet) (active : Transport) (limit : ℤ) (next : ClientSocket)
      → take_buffer r.socket ≡ some (packets, active, limit, next)
      → IsAccounted (record r { socket = next; sender = sending packets 0 }) []
  IsAccounted-takes packets active limit next e =
      let (b, open_now, unflagged, same) = take_buffer-takes r.socket next packets active limit e in
      let (no_ahead, no_taken) = not_sending r.sender (sym a.flag ∙ unflagged) in
      let buffer : packets ≡ rest =
        sym b ∙ a.buffered (open_takes r.socket.state open_now) ∙ ap (λ xs. xs ++ rest) no_taken in
      record {
        order =
            a.order
            ∙ ap (λ xs. r.handed_over ++ (xs ++ rest)) no_ahead
            ∙ ap (◌++◌ r.handed_over) (sym buffer ∙ sym (append-nil packets));
        buffered = λ h. ap (λ s. s.write_buffer) same ∙ b ∙ sym (append-nil packets);
        within = omega arith;
        flag = ap (λ s. s.flushing) same;
        opened = λ h. ap (λ s. is_opening s.state) same ∙ open_not_opening r.socket.state open_now;
      }

  module _ (packets : List Packet) (sent : ℕ) (e : r.sender ≡ sending packets sent) where
    pub within_at : sent ≤ length packets
    within_at = subst IsWithin e a.within

    order_at : r.accepted ≡ r.handed_over ++ (drop sent packets ++ rest)
    order_at = a.order ∙ ap (λ s. r.handed_over ++ (ahead s ++ rest)) e

    pub buffered_at : takes_packets r.socket.state ≡ true → r.socket.write_buffer ≡ packets ++ rest
    buffered_at h = a.buffered h ∙ ap (λ s. taken s ++ rest) e

    not_opening_at : is_opening r.socket.state ≡ false
    not_opening_at = a.opened (ap is_sending e)

    pub IsAccounted-sends :
        (more : ℕ)
        → sent + more ≤ length packets
        → IsAccounted
            (record r {
              sender = sending packets (sent + more);
              handed_over = r.handed_over ++ take more (drop sent packets);
            })
            rest
    IsAccounted-sends more h = record {
      order =
          order_at
          ∙ ap (λ xs. r.handed_over ++ (xs ++ rest))
              (sym (take-append-drop more (drop sent packets)))
          ∙ ap (◌++◌ r.handed_over)
              (append_assoc (take more (drop sent packets)) (drop more (drop sent packets)) rest)
          ∙ sym (
              append_assoc r.handed_over (take more (drop sent packets))
                (drop more (drop sent packets) ++ rest))
          ∙ ap (λ xs. r.handed_over ++ take more (drop sent packets) ++ (xs ++ rest))
              (drop-drop sent more packets);
      buffered = buffered_at;
      within = h;
      flag = a.flag ∙ ap is_sending e;
      opened = λ h. not_opening_at;
    }

    pub IsAccounted-returns :
        (next : ClientSocket)
        → drop_sent sent r.socket ≡ some next
        → IsAccounted (record r { socket = next; sender = resting }) (drop sent packets ++ rest)
    IsAccounted-returns next d =
        let (state, flag) = drop_sent-keeps sent r.socket next d in
        record {
          order = order_at;
          buffered = λ h.
              let live = sym (ap takes_packets state) ∙ h in
              drop_sent-open sent packets rest r.socket next d within_at (buffered_at live)
                (takes_open r.socket.state not_opening_at live);
          within = tt;
          flag = flag;
          opened = λ h. cc;
        }
