-- ===== src/Session/Accounting.antt =====
-- server_socket.go: where the packets of a session are, before and after each step.
use go_engine_io.Base.{
  ℕ, ◌≡◌, ap, sym, ◌∙◌, arith, true, false, List, [], ◌∷◌, ◌++◌, take, drop, append-nil,
  append_assoc, take-append-drop,
}
use go_engine_io.Codec.Packet.{Packet}
use go_engine_io.Session.Socket.{ServerSocket, is_closed, Transport, Reason}
use go_engine_io.Session.Sections.{flush_drop, FlushNext, finish_close, done, again}
use go_engine_io.Session.Buffer.{Queues, flush_drop-state, flush_drop-buffer}
use go_engine_io.Session.Run.{Flusher, idle, writing, wrote, closing, Run, flush_after}

-- The packets that flush is about to hand over.
abbrev pub ahead : Flusher → List Packet
ahead idle = []
ahead (writing packets active) = packets
ahead (wrote packets) = []
ahead (closing reason) = []

-- The buffer of a live session, when `rest` waits behind flush.
abbrev pub Buffered : Flusher → List Packet → List Packet → Type 0
Buffered idle rest buffer = buffer ≡ rest
Buffered (writing packets active) rest buffer = buffer ≡ packets ++ rest
Buffered (wrote packets) rest buffer = buffer ≡ packets ++ rest
Buffered (closing reason) rest buffer = Unit {0}

-- Every packet accepted is handed over, about to be, or waits; a live session still buffers what
-- waits.
pub record IsAccounted (r : Run) (rest : List Packet) : Type 0 where
  pub order : r.accepted ≡ r.handed_over ++ (ahead r.flusher ++ rest)
  pub buffered : is_closed r.socket.state ≡ false → Buffered r.flusher rest r.socket.write_buffer

Buffered-queue :
    (f : Flusher) (rest buffer next : List Packet) (packet : Packet)
    → next ≡ buffer ++ packet ∷ []
    → Buffered f rest buffer
    → Buffered f (rest ++ packet ∷ []) next
Buffered-queue idle rest buffer next packet e h = e ∙ ap (λ b. b ++ packet ∷ []) h
Buffered-queue (writing packets active) rest buffer next packet e h =
    e ∙ ap (λ b. b ++ packet ∷ []) h ∙ append_assoc packets rest (packet ∷ [])
Buffered-queue (wrote packets) rest buffer next packet e h =
    e ∙ ap (λ b. b ++ packet ∷ []) h ∙ append_assoc packets rest (packet ∷ [])
Buffered-queue (closing reason) rest buffer next packet e h = tt

pub IsAccounted-queue :
    (r : Run) (rest : List Packet) (next : ServerSocket) (packet : Packet)
    → Queues packet r.socket next
    → IsAccounted r rest
    → IsAccounted
        (record r { socket = next; accepted = r.accepted ++ packet ∷ [] })
        (rest ++ packet ∷ [])
IsAccounted-queue r rest next packet q a = record {
  order =
      ap (λ b. b ++ packet ∷ []) a.order
      ∙ append_assoc r.handed_over (ahead r.flusher ++ rest) (packet ∷ [])
      ∙ ap (◌++◌ r.handed_over) (append_assoc (ahead r.flusher) rest (packet ∷ []));
  buffered = λ h.
      Buffered-queue r.flusher rest r.socket.write_buffer next.write_buffer packet q.queued
        (a.buffered q.was_live);
}

pub IsAccounted-quiet :
    (r : Run) (rest : List Packet) (next : ServerSocket)
    → next.write_buffer ≡ r.socket.write_buffer
    → is_closed next.state ≡ is_closed r.socket.state
    → IsAccounted r rest
    → IsAccounted (record r { socket = next }) rest
IsAccounted-quiet r rest next same_buffer same_state a = record {
  order = a.order;
  buffered = λ h. rw same_buffer (a.buffered (sym same_state ∙ h));
}

-- A closed session promises nothing of its buffer.
pub IsAccounted-closed :
    (r : Run) (rest : List Packet) (next : ServerSocket) (reasons : List Reason)
    → is_closed next.state ≡ true
    → IsAccounted r rest
    → IsAccounted (record r { socket = next; closes = reasons }) rest
IsAccounted-closed r rest next reasons h a = record {
  order = a.order;
  buffered = ground (arith, h);
}

module _ (r : Run) (rest packets : List Packet) (a : IsAccounted r rest) where
  pub order_at : (f : Flusher) → r.flusher ≡ f → r.accepted ≡ r.handed_over ++ (ahead f ++ rest)
  order_at f e = a.order ∙ ap (λ g. r.handed_over ++ (ahead g ++ rest)) e

  pub pending_at :
      (f : Flusher)
      → r.flusher ≡ f
      → is_closed r.socket.state ≡ false
      → Buffered f rest r.socket.write_buffer
  pending_at f e live = rw (sym e) (a.buffered live)

  pub IsAccounted-takes :
      (active : Transport)
      → r.flusher ≡ idle
      → is_closed r.socket.state ≡ false
      → r.socket.write_buffer ≡ packets
      → IsAccounted (record r { flusher = writing packets active }) []
  IsAccounted-takes active e live b = record {
    order =
        order_at idle e
        ∙ ap (◌++◌ r.handed_over) (sym (pending_at idle e live) ∙ b ∙ sym (append-nil packets));
    buffered = λ h. b ∙ sym (append-nil packets);
  }

  pub IsAccounted-refuses :
      (active : Transport)
      → r.flusher ≡ writing packets active
      → IsAccounted (record r { flusher = idle }) (packets ++ rest)
  IsAccounted-refuses active e = record {
    order = order_at (writing packets active) e;
    buffered = pending_at (writing packets active) e;
  }

  pub IsAccounted-fails :
      (active : Transport) (count : ℕ) (reason : Reason)
      → r.flusher ≡ writing packets active
      → IsAccounted
          (record r { flusher = closing reason; handed_over = r.handed_over ++ take count packets })
          (drop count packets ++ rest)
  IsAccounted-fails active count reason e = record {
    order =
        order_at (writing packets active) e
        ∙ ap (λ p. r.handed_over ++ (p ++ rest)) (sym (take-append-drop count packets))
        ∙ ap (◌++◌ r.handed_over) (append_assoc (take count packets) (drop count packets) rest)
        ∙ sym (append_assoc r.handed_over (take count packets) (drop count packets ++ rest));
    buffered = λ h. tt;
  }

  pub IsAccounted-writes :
      (active : Transport)
      → r.flusher ≡ writing packets active
      → IsAccounted
          (record r { flusher = wrote packets; handed_over = r.handed_over ++ packets })
          rest
  IsAccounted-writes active e = record {
    order = order_at (writing packets active) e ∙ sym (append_assoc r.handed_over packets rest);
    buffered = pending_at (writing packets active) e;
  }

  pub dropped_at :
      r.flusher ≡ wrote packets
      → is_closed r.socket.state ≡ false
      → (flush_drop packets r.socket).write_buffer ≡ rest
  dropped_at e live = flush_drop-buffer packets rest r.socket (pending_at (wrote packets) e live)

  pub IsAccounted-drops :
      (after : FlushNext)
      → r.flusher ≡ wrote packets
      → IsAccounted
          (record r { socket = flush_drop packets r.socket; flusher = flush_after after })
          rest
  IsAccounted-drops finish_close e = record {
    order = order_at (wrote packets) e;
    buffered = λ h. tt;
  }
  IsAccounted-drops done e = record {
    order = order_at (wrote packets) e;
    buffered = λ h. dropped_at e (sym (ap is_closed (flush_drop-state packets r.socket)) ∙ h);
  }
  IsAccounted-drops again e = record {
    order = order_at (wrote packets) e;
    buffered = λ h. dropped_at e (sym (ap is_closed (flush_drop-state packets r.socket)) ∙ h);
  }

pub IsAccounted-ends :
    (r : Run) (rest : List Packet) (reason : Reason) (next : ServerSocket) (reasons : List Reason)
    → r.flusher ≡ closing reason
    → is_closed next.state ≡ true
    → IsAccounted r rest
    → IsAccounted (record r { socket = next; flusher = idle; closes = reasons }) rest
IsAccounted-ends r rest reason next reasons e h a = record {
  order = order_at r rest [] a (closing reason) e;
  buffered = ground (arith, h);
}
