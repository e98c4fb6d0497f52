-- ===== src/Session/Refinement.antt =====
-- server_socket.go: every operation, whole, is a run of the steps that goroutines interleave.
use go_engine_io.Base.{
  ◌≡◌, refl, ap, sym, ◌∙◌, arith, inl, inr, Option, none, some, List, [], ◌∷◌, ◌++◌, append-nil,
  append_assoc, Option-cases,
}
use go_engine_io.Codec.Packet.{Packet}
use go_engine_io.Session.Socket.{
  ServerSocket, Transport, Reason, reason_transport_error, reason_forced_close,
}
use go_engine_io.Session.Sections.{
  flush_take, flush_drop, flush_next, finish_close, done, Released, begin_teardown,
}
use go_engine_io.Session.Run.{
  Run, idle, wrote, closing, flush_after, Quiet, quiet, closes_session, takes, fails, writes, drops,
  flush_closes, flush_closed, Reachable, steps,
}
use go_engine_io.Session.Operations.{
  World, Effect, sends_packets, stops_noops, starts_noops, closes_transport, promotes,
  deletes_session, calls_close_handler, calls_message_handler, emit, put, when_some, Transports,
  Cause, release, close_with_reason, flush,
}
use go_engine_io.Session.Round.{
  Flushed, nothing, keeps, breaks, drains, delivers, handed, flush-Flushed,
}

-- The packets that transports have written.
abbrev pub written_by : Effect → List Packet
written_by (sends_packets active packets) = packets
written_by (stops_noops stop) = []
written_by (starts_noops stop) = []
written_by (closes_transport t) = []
written_by (promotes t) = []
written_by (deletes_session id) = []
written_by (calls_close_handler handler reason cause) = []
written_by (calls_message_handler handler content binary) = []

abbrev pub written : List Effect → List Packet
written [] = []
written (effect ∷ effects) = written_by effect ++ written effects

written-append : (xs ys : List Effect) → written (xs ++ ys) ≡ written xs ++ written ys
written-append [] ys = refl
written-append (x ∷ xs) ys =
    ap (◌++◌ (written_by x)) (written-append xs ys)
    ∙ sym (append_assoc (written_by x) (written xs) (written ys))

written-emit :
    (effects : List Effect) (effect : Effect)
    → written (effects ++ effect ∷ []) ≡ written effects ++ written_by effect
written-emit effects effect =
    written-append effects (effect ∷ [])
    ∙ ap (◌++◌ (written effects)) (append-nil (written_by effect))

-- A run that stands where the world stands, outside flush.
abbrev pub run_of : World → List Packet → List Reason → Run
run_of w accepted closes = record {
  socket = w.socket;
  flusher = idle;
  accepted = accepted;
  handed_over = written w.effects;
  closes = closes;
}

abbrev pub IsSimulated : World → Type 0
IsSimulated w =
    (accepted : List Packet) × (closes : List Reason) × Reachable (run_of w accepted closes)

IsSimulated-same :
    (w w' : World)
    → w'.socket ≡ w.socket
    → written w'.effects ≡ written w.effects
    → IsSimulated w
    → IsSimulated w'
IsSimulated-same w w' s e (accepted, closes, reach) = (accepted, closes, rw (s, e) reach)

pub IsSimulated-Quiet :
    (w : World) (next : ServerSocket)
    → Quiet w.socket next
    → IsSimulated w
    → IsSimulated (put next w)
IsSimulated-Quiet w next q (accepted, closes, reach) =
    (accepted, closes, steps (run_of w accepted closes) _ reach (quiet next q))

pub IsSimulated-emit :
    (w : World) (effect : Effect)
    → written_by effect ≡ []
    → IsSimulated w
    → IsSimulated (emit effect w)
IsSimulated-emit w effect none_written = IsSimulated-same w (emit effect w) refl (
    written-emit w.effects effect
    ∙ ap (◌++◌ (written w.effects)) none_written
    ∙ append-nil (written w.effects))

pub IsSimulated-when_some :
    {A : Type 0} (o : Option A) (effect : A → Effect) (w : World)
    → ((a : A) → written_by (effect a) ≡ [])
    → IsSimulated w
    → IsSimulated (when_some o (λ a. emit (effect a)) w)
IsSimulated-when_some none effect w none_written sim = sim
IsSimulated-when_some (some a) effect w none_written sim =
    IsSimulated-emit w (effect a) (none_written a) sim

IsSimulated-release :
    (reason : Reason) (cause : Option Cause) (parts : Released) (w : World)
    → IsSimulated w
    → IsSimulated (release reason cause parts w)
unfolding release
IsSimulated-release reason cause parts w sim =
    let w₁ = when_some parts.noop_stop (λ stop. emit (stops_noops stop)) w in
    let w₂ = when_some parts.active (λ t. emit (closes_transport t)) w₁ in
    let w₃ = when_some parts.probing (λ t. emit (closes_transport t)) w₂ in
    let w₄ = emit (deletes_session w.socket.id) w₃ in
    IsSimulated-when_some parts.close_handler (λ handler. calls_close_handler handler reason cause)
      w₄ (λ _. refl)
      (IsSimulated-emit w₃ (deletes_session w.socket.id) refl (
        IsSimulated-when_some parts.probing closes_transport w₂ (λ _. refl)
          (IsSimulated-when_some parts.active closes_transport w₁ (λ _. refl)
            (IsSimulated-when_some parts.noop_stop stops_noops w (λ _. refl) sim))))

close_with_reason-none :
    (reason : Reason) (cause : Option Cause) (w : World)
    → begin_teardown w.socket ≡ none
    → close_with_reason reason cause w ≡ w
unfolding close_with_reason
close_with_reason-none reason cause w e = ground arith

close_with_reason-some :
    (reason : Reason) (cause : Option Cause) (w : World) (parts : Released) (next : ServerSocket)
    → begin_teardown w.socket ≡ some (parts, next)
    → close_with_reason reason cause w ≡ release reason cause parts (put next w)
unfolding close_with_reason
close_with_reason-some reason cause w parts next e = ground arith

-- A run that is about to call closeWithReason, from flush or from elsewhere.
IsSimulated-closing :
    (reason : Reason) (cause : Option Cause) (w : World) (accepted : List Packet)
    (closes : List Reason)
    → Reachable (record (run_of w accepted closes) { flusher = closing reason })
    → IsSimulated (close_with_reason reason cause w)
IsSimulated-closing reason cause w accepted closes reach =
    elim (Option-cases (begin_teardown w.socket)) [
      | inl e ↦
          rw (close_with_reason-none reason cause w e)
            (accepted, closes, steps _ _ reach (flush_closed reason refl e))
      | inr ((parts, next), e) ↦ rw (close_with_reason-some reason cause w parts next e) (
          IsSimulated-release reason cause parts (put next w) (
            accepted,
            closes ++ reason ∷ [],
            steps _ _ reach (flush_closes reason parts next refl e),
          ))
    ]

pub IsSimulated-close_with_reason :
    (reason : Reason) (cause : Option Cause) (w : World)
    → IsSimulated w
    → IsSimulated (close_with_reason reason cause w)
IsSimulated-close_with_reason reason cause w (accepted, closes, reach) =
    elim (Option-cases (begin_teardown w.socket)) [
      | inl e ↦ rw (close_with_reason-none reason cause w e) (accepted, closes, reach)
      | inr ((parts, next), e) ↦ rw (close_with_reason-some reason cause w parts next e) (
          IsSimulated-release reason cause parts (put next w)
            (accepted, closes ++ reason ∷ [], steps _ _ reach (closes_session reason parts next e)))
    ]

module _ (w : World) (accepted : List Packet) (closes : List Reason) where
  -- flush has taken the packets and written all of them.
  Reachable-wrote :
      (packets : List Packet) (active : Transport)
      → flush_take w.socket ≡ some (packets, active)
      → Reachable (run_of w accepted closes)
      → Reachable (record (run_of w accepted closes) {
        flusher = wrote packets;
        handed_over = written w.effects ++ packets;
      })
  Reachable-wrote packets active t reach =
      steps _ _ (steps _ _ reach (takes packets active refl t)) (writes packets active refl)

  IsSimulated-handed :
      (packets : List Packet) (active : Transport)
      → flush_take w.socket ≡ some (packets, active)
      → flush_next (flush_drop packets w.socket) ≡ done
      → Reachable (run_of w accepted closes)
      → IsSimulated (handed packets active w)
  IsSimulated-handed packets active t n reach = (
    accepted,
    closes,
    rw (written-emit w.effects (sends_packets active packets)) (
        rw (sym (ap flush_after n))
          (steps _ _ (Reachable-wrote packets active t reach) (drops packets refl))),
  )

  IsSimulated-drained :
      (packets : List Packet) (active : Transport)
      → flush_take w.socket ≡ some (packets, active)
      → flush_next (flush_drop packets w.socket) ≡ finish_close
      → Reachable (run_of w accepted closes)
      → IsSimulated (close_with_reason reason_forced_close none (handed packets active w))
  IsSimulated-drained packets active t n reach =
      IsSimulated-closing reason_forced_close none (handed packets active w) accepted closes (
        rw (written-emit w.effects (sends_packets active packets)) (
          rw (sym (ap flush_after n))
            (steps _ _ (Reachable-wrote packets active t reach) (drops packets refl))))

  IsSimulated-broken :
      (packets : List Packet) (active : Transport) (cause : Cause)
      → flush_take w.socket ≡ some (packets, active)
      → Reachable (run_of w accepted closes)
      → IsSimulated (close_with_reason reason_transport_error (some cause) w)
  IsSimulated-broken packets active cause t reach =
      IsSimulated-closing reason_transport_error (some cause) w accepted closes (
        rw (sym (append-nil (written w.effects)))
          (steps _ _ (steps _ _ reach (takes packets active refl t)) (fails packets active 0 refl)))

IsSimulated-Flushed :
    (transports : Transports) (w w' : World)
    → Flushed transports w w'
    → IsSimulated w
    → IsSimulated w'
IsSimulated-Flushed transports w _ (nothing e) sim = sim
IsSimulated-Flushed transports w _ (keeps packets active t e) sim = sim
IsSimulated-Flushed transports w _ (breaks packets active cause t e) (accepted, closes, reach) =
    IsSimulated-broken w accepted closes packets active cause t reach
IsSimulated-Flushed transports w _ (drains packets active t e n) (accepted, closes, reach) =
    IsSimulated-drained w accepted closes packets active t n reach
IsSimulated-Flushed transports w _ (delivers packets active t e n) (accepted, closes, reach) =
    IsSimulated-handed w accepted closes packets active t n reach

pub IsSimulated-flush :
    (transports : Transports) (w : World) → IsSimulated w → IsSimulated (flush transports 1 w)
IsSimulated-flush transports w =
    IsSimulated-Flushed transports w (flush transports 1 w) (flush-Flushed transports w)
