-- ===== src/Session/Delivery.antt =====
-- server_socket.go: no packet is lost, doubled or overtaken between the buffer and a transport,
-- whatever runs between the steps of flush.
use go_engine_io.Base.{◌≡◌, refl, ap, sym, ◌∙◌, false, List, [], ◌∷◌, ◌++◌, drop}
use go_engine_io.Codec.Packet.{Packet, bare, packet_ping, packet_close}
use go_engine_io.Session.Socket.{is_closed, new_server_socket}
use go_engine_io.Session.Sections.{message, flush_drop, flush_next}
use go_engine_io.Session.Buffer.{
  torn_down, begin_send-Queues, begin_ping-Queues, begin_close-Queues, Quiet-keeps,
  flush_take-takes, begin_teardown-none,
}
use go_engine_io.Session.Run.{
  idle, Run, Step, quiet, sends, pings, begins_close, closes_session, takes, refuses, fails, writes,
  drops, flush_closes, flush_closed, Reachable, starts, steps,
}
use go_engine_io.Session.Accounting.{
  IsAccounted, ahead, pending_at, IsAccounted-closed, IsAccounted-drops, IsAccounted-ends,
  IsAccounted-fails, IsAccounted-queue, IsAccounted-quiet, IsAccounted-refuses, IsAccounted-takes,
  IsAccounted-writes,
}

IsAccounted-Step :
    (r r' : Run) (rest : List Packet)
    → Step r r'
    → IsAccounted r rest
    → (left : List Packet) × IsAccounted r' left
IsAccounted-Step r _ rest (quiet next q) a =
    let (b, c, d) = Quiet-keeps r.socket next q in (rest, IsAccounted-quiet r rest next b c a)
IsAccounted-Step r _ rest (sends content binary next e) a = (
  rest ++ message content binary ∷ [],
  IsAccounted-queue r rest next (message content binary)
      (begin_send-Queues content binary r.socket next e).0 a,
)
IsAccounted-Step r _ rest (pings next e) a = (
  rest ++ bare packet_ping ∷ [],
  IsAccounted-queue r rest next (bare packet_ping) (begin_ping-Queues r.socket next e).0 a,
)
IsAccounted-Step r _ rest (begins_close next e) a = (
  rest ++ bare packet_close ∷ [],
  IsAccounted-queue r rest next (bare packet_close) (begin_close-Queues r.socket next e).0 a,
)
IsAccounted-Step r _ rest (closes_session reason parts next e) a =
    (rest, IsAccounted-closed r rest next _ (torn_down r.socket next parts e) a)
IsAccounted-Step r _ rest (takes packets active e t) a =
    let (live, b) = flush_take-takes r.socket packets active t in
    ([], IsAccounted-takes r rest packets a active e live b)
IsAccounted-Step r _ rest (refuses packets active e) a =
    (packets ++ rest, IsAccounted-refuses r rest packets a active e)
IsAccounted-Step r _ rest (fails packets active count e) a =
    (drop count packets ++ rest, IsAccounted-fails r rest packets a active count _ e)
IsAccounted-Step r _ rest (writes packets active e) a =
    (rest, IsAccounted-writes r rest packets a active e)
IsAccounted-Step r _ rest (drops packets e) a =
    (rest, IsAccounted-drops r rest packets a (flush_next (flush_drop packets r.socket)) e)
IsAccounted-Step r _ rest (flush_closes reason parts next e t) a =
    (rest, IsAccounted-ends r rest reason next _ e (torn_down r.socket next parts t) a)
IsAccounted-Step r _ rest (flush_closed reason e t) a =
    (rest, IsAccounted-ends r rest reason r.socket r.closes e (begin_teardown-none r.socket t) a)

-- The packets that wait in a reachable session.
pub waiting : (r : Run) → Reachable r → (rest : List Packet) × IsAccounted r rest
unfolding new_server_socket
waiting _ (starts name config first) = ([], record { order = refl; buffered = λ h. refl })
waiting _ (steps r r' reach step) =
    let (rest, a) = waiting r reach in IsAccounted-Step r r' rest step a

-- In every reachable session the packets that transports have written are, in order and without a
-- gap or a repetition, the first of the packets ever queued; and while the session is not closed
-- and no flush is under way, its buffer holds exactly the others.
pub delivered_in_order :
    (r : Run)
    → Reachable r
    → (rest : List Packet) × (r.accepted ≡ r.handed_over ++ rest)
      × (is_closed r.socket.state ≡ false → r.flusher ≡ idle → r.socket.write_buffer ≡ rest)
delivered_in_order r reach =
    let (rest, a) = waiting r reach in
    (
      ahead r.flusher ++ rest,
      a.order,
      λ live e. pending_at r rest [] a idle e live ∙ ap (λ f. ahead f ++ rest) (sym e),
    )
