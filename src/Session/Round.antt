-- ===== src/Session/Round.antt =====
-- server_socket.go: the ways that a round of flush can end.
use go_engine_io.Base.{
  ◌≡◌, refl, sym, ◌∙◌, arith, none, some, List, [], append-nil, Option-cases, ◌⊎◌, inl, inr, ◌≢◌,
}
use go_engine_io.Codec.Packet.{Packet}
use go_engine_io.Session.Socket.{
  ServerSocket, Transport, reason_transport_error, reason_forced_close,
}
use go_engine_io.Session.Sections.{
  flush_take, flush_drop, flush_next, FlushNext, finish_close, done, again,
}
use go_engine_io.Session.Buffer.{flush_take-takes, flush_drop-buffer}
use go_engine_io.Session.Operations.{
  World, sends_packets, emit, put, Transports, SendResult, sent, held_back, failed, Cause,
  close_with_reason, flush,
}

-- A session whose transport has written the packets.
abbrev pub handed : List Packet → Transport → World → World
handed packets active w = emit (sends_packets active packets) (put (flush_drop packets w.socket) w)

pub data Flushed (transports : Transports) (w : World) : World → Type 0 where
  nothing : flush_take w.socket ≡ none → Flushed transports w w
  keeps :
      (packets : List Packet) (active : Transport)
      → flush_take w.socket ≡ some (packets, active)
      → transports w.effects active packets ≡ held_back
      → Flushed transports w w
  breaks :
      (packets : List Packet) (active : Transport) (cause : Cause)
      → flush_take w.socket ≡ some (packets, active)
      → transports w.effects active packets ≡ failed cause
      → Flushed transports w (close_with_reason reason_transport_error (some cause) w)
  drains :
      (packets : List Packet) (active : Transport)
      → flush_take w.socket ≡ some (packets, active)
      → transports w.effects active packets ≡ sent
      → flush_next (flush_drop packets w.socket) ≡ finish_close
      → Flushed transports w (close_with_reason reason_forced_close none (handed packets active w))
  delivers :
      (packets : List Packet) (active : Transport)
      → flush_take w.socket ≡ some (packets, active)
      → transports w.effects active packets ≡ sent
      → flush_next (flush_drop packets w.socket) ≡ done
      → Flushed transports w (handed packets active w)

SendResult-cases :
    (r : SendResult) → (r ≡ sent) ⊎ ((r ≡ held_back) ⊎ ((cause : Cause) × (r ≡ failed cause)))
SendResult-cases sent = inl refl
SendResult-cases held_back = inr (inl refl)
SendResult-cases (failed cause) = inr (inr (cause, refl))

FlushNext-cases : (n : FlushNext) → n ≢ again → (n ≡ finish_close) ⊎ (n ≡ done)
FlushNext-cases finish_close h = inl refl
FlushNext-cases done h = inr refl
FlushNext-cases again h = absurd (h refl)

-- A buffer that was written whole is empty, so no further round follows.
pub not_again :
    (s : ServerSocket) (packets : List Packet) (active : Transport)
    → flush_take s ≡ some (packets, active)
    → flush_next (flush_drop packets s) ≢ again
unfolding flush_next
not_again s packets active t e = ground (
  arith,
  flush_drop-buffer packets [] s
      ((flush_take-takes s packets active t).1 ∙ sym (append-nil packets)),
  e,
)

module _ (transports : Transports) (w : World) where
  module _ (packets : List Packet) (active : Transport)
      (t : flush_take w.socket ≡ some (packets, active)) where
    flush-held : transports w.effects active packets ≡ held_back → flush transports 1 w ≡ w
    unfolding flush
    flush-held e = ground arith

    flush-failed :
        (cause : Cause)
        → transports w.effects active packets ≡ failed cause
        → flush transports 1 w ≡ close_with_reason reason_transport_error (some cause) w
    unfolding flush
    flush-failed cause e = ground arith

    flush-drained :
        transports w.effects active packets ≡ sent
        → flush_next (flush_drop packets w.socket) ≡ finish_close
        → flush transports 1 w
          ≡ close_with_reason reason_forced_close none (handed packets active w)
    unfolding flush
    flush-drained e n = ground arith

    pub flush-sent :
        transports w.effects active packets ≡ sent
        → flush_next (flush_drop packets w.socket) ≡ done
        → flush transports 1 w ≡ handed packets active w
    unfolding flush
    flush-sent e n = ground arith

    Flushed-taken : Flushed transports w (flush transports 1 w)
    Flushed-taken = elim (SendResult-cases (transports w.effects active packets)) [
      | inl e ↦
          elim (FlushNext-cases (flush_next (flush_drop packets w.socket))
            (not_again w.socket packets active t)) [
              | inl n ↦ rw (flush-drained e n) (drains packets active t e n)
              | inr n ↦ rw (flush-sent e n) (delivers packets active t e n)
            ]
      | inr (inl e) ↦ rw (flush-held e) (keeps packets active t e)
      | inr (inr (cause, e)) ↦ rw (flush-failed cause e) (breaks packets active cause t e)
    ]

  flush-none : flush_take w.socket ≡ none → flush transports 1 w ≡ w
  unfolding flush
  flush-none e = ground arith

  pub flush-Flushed : Flushed transports w (flush transports 1 w)
  flush-Flushed = elim (Option-cases (flush_take w.socket)) [
    | inl e ↦ rw (flush-none e) (nothing e)
    | inr ((packets, active), e) ↦ Flushed-taken packets active e
  ]
