-- ===== src/Session/Bounded.antt =====
-- server_socket.go: Close and a probe wait no longer than a timer that ends them.
use go_engine_io.Base.{
  ◌≡◌, refl, ap, ◌∙◌, arith, true, false, ◌⊎◌, inl, inr, Option, none, some, List, [], ◌∷◌, ◌++◌,
  append-nil, Option-cases,
}
use go_engine_io.Codec.Packet.{Packet}
use go_engine_io.Session.Socket.{
  ServerSocket, Transport, Reason, reason_transport_error, reason_forced_close, Timer,
  close_callback, abort_upgrade_callback, is_closed, is_closing, is_open, Channel, session_closing,
}
use go_engine_io.Session.Sections.{
  begin_close, stop_timers, arm_close, flush_drop, end_upgrade, begin_abort_upgrade, polls,
}
use go_engine_io.Session.WellFormed.{IsWellFormed}
use go_engine_io.Session.Operations.{
  World, Effect, put, Transports, flush, close, fire, abort_upgrade, closes_transport, stops_noops,
}
use go_engine_io.Session.Round.{
  Flushed, nothing, keeps, breaks, drains, delivers, handed, flush-Flushed,
}
use go_engine_io.Session.Ends.{close_with_reason-is_closed}

-- A round of flush closes the session or leaves its state and its close timer alone.
record Leaves (s next : ServerSocket) : Type 0 where
  same_state : next.state ≡ s.state
  same_timer : next.close_timer ≡ s.close_timer
  same_options : next.options ≡ s.options

flush_drop-Leaves : (packets : List Packet) (s : ServerSocket) → Leaves s (flush_drop packets s)
unfolding flush_drop
flush_drop-Leaves packets s = ground arith

Flushed-Leaves :
    (transports : Transports) (w w' : World)
    → Flushed transports w w'
    → (is_closed w'.socket.state ≡ true) ⊎ Leaves w.socket w'.socket
Flushed-Leaves transports w _ (nothing e) =
    inr (record { same_state = refl; same_timer = refl; same_options = refl })
Flushed-Leaves transports w _ (keeps packets active t e) =
    inr (record { same_state = refl; same_timer = refl; same_options = refl })
Flushed-Leaves transports w _ (breaks packets active cause t e) =
    inl (close_with_reason-is_closed reason_transport_error (some cause) w)
Flushed-Leaves transports w _ (drains packets active t e n) =
    inl (close_with_reason-is_closed reason_forced_close none (handed packets active w))
Flushed-Leaves transports w _ (delivers packets active t e n) =
    inr (flush_drop-Leaves packets w.socket)

-- The session is closed, or it is closing with a timer armed whose callback closes it.
abbrev pub IsBounded : Transports → World → Type 0
IsBounded transports w =
    (is_closed w.socket.state ≡ true)
    ⊎ ((is_closing w.socket.state ≡ true)
        × (timer : Timer) × (w.socket.close_timer ≡ some timer)
        × (is_closed (fire transports timer.callback w).socket.state ≡ true))

begin_close-timer :
    (s next : ServerSocket)
    → begin_close s ≡ some next
    → (next.close_timer ≡ none) × (next.state ≡ session_closing)
unfolding begin_close stop_timers
begin_close-timer s next e = ground arith

arm_close-armed :
    (s : ServerSocket)
    → s.close_timer ≡ none
    → s.state ≡ session_closing
    → ((arm_close s).close_timer
        ≡ some (record {
          after = s.options.ping_timeout;
          callback = close_callback reason_forced_close;
        }))
      × (is_closing (arm_close s).state ≡ true)
unfolding arm_close
arm_close-armed s n c = ground arith

fire_close :
    (transports : Transports) (reason : Reason) (w : World)
    → is_closed (fire transports (close_callback reason) w).socket.state ≡ true
unfolding fire
fire_close transports reason w = close_with_reason-is_closed reason none w

arm_close-closed : (s : ServerSocket) → is_closed s.state ≡ true → arm_close s ≡ s
unfolding arm_close
arm_close-closed s h = ground arith

IsBounded-arm_close :
    (transports : Transports) (s : ServerSocket) (w : World)
    → s.close_timer ≡ none
    → s.state ≡ session_closing
    → (is_closed w.socket.state ≡ true) ⊎ Leaves s w.socket
    → IsBounded transports (put (arm_close w.socket) w)
IsBounded-arm_close transports s w n c (inl closed) =
    inl (ap (λ x. is_closed x.state) (arm_close-closed w.socket closed) ∙ closed)
IsBounded-arm_close transports s w n c (inr left) =
    let (timer, still) = arm_close-armed w.socket (left.same_timer ∙ n) (left.same_state ∙ c) in
    inr (
      still,
      record {
        after = w.socket.options.ping_timeout;
        callback = close_callback reason_forced_close;
      },
      timer,
      fire_close transports reason_forced_close (put (arm_close w.socket) w),
    )

close-none :
    (transports : Transports) (w : World)
    → begin_close w.socket ≡ none
    → is_closing w.socket.state ≡ false
    → is_closed (close transports w).socket.state ≡ true
unfolding close begin_close
close-none transports w e h = ground arith

close-some :
    (transports : Transports) (w : World) (s : ServerSocket)
    → begin_close w.socket ≡ some s
    → close transports w
      ≡ put (arm_close (flush transports 1 (put s w)).socket) (flush transports 1 (put s w))
unfolding close
close-some transports w s e = ground arith

-- After Close on a session that is not closing yet, whatever its transports answer, the session is
-- closed, or it is closing with a timer armed whose callback closes it.
pub close_ends :
    (transports : Transports) (w : World)
    → is_closing w.socket.state ≡ false
    → IsBounded transports (close transports w)
close_ends transports w h = elim (Option-cases (begin_close w.socket)) [
  | inl e ↦ inl (close-none transports w e h)
  | inr (s, e) ↦
      let (n, c) = begin_close-timer w.socket s e in
      rw (close-some transports w s e) (
        IsBounded-arm_close transports s (flush transports 1 (put s w)) n c (
          Flushed-Leaves transports (put s w) (flush transports 1 (put s w))
            (flush-Flushed transports (put s w))))
]

-- The end of the noops of a probe, when there are any.
abbrev pub noops_stopped : Option Channel → List Effect
noops_stopped none = []
noops_stopped (some stop) = stops_noops stop ∷ []

fire_abort :
    (transports : Transports) (probe : Transport) (w : World)
    → w.socket.upgrading ≡ true
    → w.socket.upgrade_transport ≡ some probe
    → ((fire transports (abort_upgrade_callback probe) w).socket ≡ end_upgrade w.socket)
      × ((fire transports (abort_upgrade_callback probe) w).effects
          ≡ w.effects ++ noops_stopped w.socket.probe_noop_stop ++ closes_transport probe ∷ [])
unfolding fire abort_upgrade begin_abort_upgrade
fire_abort transports probe w u h = elim (Option-cases w.socket.probe_noop_stop) [
  | inl e ↦ (ground arith, ground (arith, append-nil w.effects))
  | inr (stop, e) ↦ (ground arith, ground arith)
]

-- The timer of a probe that stalls in an open, well formed session abandons the probe only: the
-- session stays open on polling with its buffer untouched, no effect but the end of the probe's noops and the close of the
-- probing transport.
pub stalled_probe_aborts :
    (transports : Transports) (w : World)
    → IsWellFormed w.socket
    → is_open w.socket.state ≡ true
    → w.socket.upgrading ≡ true
    → (probe : Transport) × (timer : Timer) × (w.socket.upgrade_transport ≡ some probe)
      × (w.socket.upgrade_timer ≡ some timer)
      × ((fire transports timer.callback w).socket ≡ end_upgrade w.socket)
      × (polls (fire transports timer.callback w).socket.transport ≡ true)
      × ((fire transports timer.callback w).effects
          ≡ w.effects ++ noops_stopped w.socket.probe_noop_stop ++ closes_transport probe ∷ [])
stalled_probe_aborts transports w wf o u =
    let (probe, held, _, on_polling, timer) = wf.probe u in
    let (ended, effects) = fire_abort transports probe w u held in
    (
      probe,
      record { after = w.socket.options.upgrade_timeout; callback = abort_upgrade_callback probe },
      held,
      timer o,
      ended,
      ap (λ s. polls s.transport) ended ∙ on_polling,
      effects,
    )
