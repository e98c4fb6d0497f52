-- ===== src/Session/Upgrade.antt =====
-- server_socket.go: an upgrade ends once, and what waited goes out on the new transport.
use go_engine_io.Base.{
  ◌≡◌, refl, ap, ◌∙◌, arith, true, false, not, ◌||◌, Option, none, some, List, Option-cases, inl,
  inr,
}
use go_engine_io.Codec.Packet.{Packet}
use go_engine_io.Session.Socket.{
  ServerSocket, Transport, Reason, reason_transport_error, reason_forced_close, Channel, holds,
}
use go_engine_io.Session.Sections.{
  flush_drop, begin_teardown, Released, begin_complete_upgrade, begin_abort_upgrade,
}
use go_engine_io.Session.Operations.{
  World, Effect, emit, put, when_some, Transports, Cause, close_with_reason, flush,
  complete_upgrade, abort_upgrade, closes_transport, stops_noops, promotes,
}
use go_engine_io.Session.Round.{
  Flushed, nothing, keeps, breaks, drains, delivers, handed, flush-Flushed,
}
use go_engine_io.Session.Ends.{release-socket}

flush_drop-upgrading :
    (packets : List Packet) (s : ServerSocket) → (flush_drop packets s).upgrading ≡ s.upgrading
unfolding flush_drop
flush_drop-upgrading packets s = ground arith

begin_teardown-upgrading :
    (s next : ServerSocket) (parts : Released)
    → begin_teardown s ≡ some (parts, next)
    → next.upgrading ≡ false
unfolding begin_teardown
begin_teardown-upgrading s next parts e = ground arith

close_with_reason-upgrading :
    (reason : Reason) (cause : Option Cause) (w : World)
    → w.socket.upgrading ≡ false
    → (close_with_reason reason cause w).socket.upgrading ≡ false
unfolding close_with_reason
close_with_reason-upgrading reason cause w h = elim (Option-cases (begin_teardown w.socket)) [
  | inl e ↦ rw (e, close_with_reason) h
  | inr ((parts, next), e) ↦
      rw (e, close_with_reason)
        (ap (λ s. s.upgrading) (release-socket reason cause parts (put next w))
          ∙ begin_teardown-upgrading w.socket next parts e)
]

Flushed-upgrading :
    (transports : Transports) (w w' : World)
    → Flushed transports w w'
    → w.socket.upgrading ≡ false
    → w'.socket.upgrading ≡ false
Flushed-upgrading transports w _ (nothing e) h = h
Flushed-upgrading transports w _ (keeps packets active t e) h = h
Flushed-upgrading transports w _ (breaks packets active cause t e) h =
    close_with_reason-upgrading reason_transport_error (some cause) w h
Flushed-upgrading transports w _ (drains packets active t e n) h =
    close_with_reason-upgrading reason_forced_close none (handed packets active w)
      (flush_drop-upgrading packets w.socket ∙ h)
Flushed-upgrading transports w _ (delivers packets active t e n) h =
    flush_drop-upgrading packets w.socket ∙ h

-- The probe is not the upgrade in flight.
abbrev IsOver : Transport → ServerSocket → Type 0
IsOver probe s = not s.upgrading || not (holds s.upgrade_transport probe) ≡ true

IsOver-abort : (probe : Transport) (w : World) → IsOver probe w.socket → abort_upgrade probe w ≡ w
unfolding abort_upgrade begin_abort_upgrade
IsOver-abort probe w h = ground arith

IsOver-complete :
    (transports : Transports) (probe : Transport) (w : World)
    → IsOver probe w.socket
    → complete_upgrade transports probe w ≡ w
unfolding complete_upgrade begin_complete_upgrade
IsOver-complete transports probe w h = ground arith

begin_abort_upgrade-IsOver :
    (probe : Transport) (s : ServerSocket) → begin_abort_upgrade probe s ≡ none → IsOver probe s
unfolding begin_abort_upgrade
begin_abort_upgrade-IsOver probe s e = ground arith

begin_complete_upgrade-IsOver :
    (probe : Transport) (s : ServerSocket) → begin_complete_upgrade probe s ≡ none → IsOver probe s
unfolding begin_complete_upgrade
begin_complete_upgrade-IsOver probe s e = ground arith

begin_abort_upgrade-ends :
    (probe : Transport) (s next : ServerSocket) (stop : Option Channel)
    → begin_abort_upgrade probe s ≡ some (stop, next)
    → next.upgrading ≡ false
unfolding begin_abort_upgrade
begin_abort_upgrade-ends probe s next stop e = ground arith

begin_complete_upgrade-ends :
    (probe : Transport) (s next : ServerSocket) (old : Option Transport) (stop : Option Channel)
    → begin_complete_upgrade probe s ≡ some (old, stop, next)
    → next.upgrading ≡ false
unfolding begin_complete_upgrade
begin_complete_upgrade-ends probe s next old stop e = ground arith

when_some-socket :
    {A : Type 0} (o : Option A) (effect : A → Effect) (w : World)
    → (when_some o (λ a. emit (effect a)) w).socket ≡ w.socket
when_some-socket none effect w = refl
when_some-socket (some a) effect w = refl

IsOver-idle : (probe : Transport) (s : ServerSocket) → s.upgrading ≡ false → IsOver probe s
IsOver-idle probe s h = ground arith

IsOver-after_abort : (probe : Transport) (w : World) → IsOver probe (abort_upgrade probe w).socket
unfolding abort_upgrade
IsOver-after_abort probe w = elim (Option-cases (begin_abort_upgrade probe w.socket)) [
  | inl e ↦ rw (e, abort_upgrade) (begin_abort_upgrade-IsOver probe w.socket e)
  | inr ((stop, s), e) ↦
      rw (e, abort_upgrade)
        (IsOver-idle probe (when_some stop (λ c. emit (stops_noops c)) (put s w)).socket (
          ap (λ x. x.upgrading) (when_some-socket stop stops_noops (put s w))
          ∙ begin_abort_upgrade-ends probe w.socket s stop e))
]

IsOver-after_complete :
    (transports : Transports) (probe : Transport) (w : World)
    → IsOver probe (complete_upgrade transports probe w).socket
unfolding complete_upgrade
IsOver-after_complete transports probe w =
    elim (Option-cases (begin_complete_upgrade probe w.socket)) [
      | inl e ↦ rw (e, complete_upgrade) (begin_complete_upgrade-IsOver probe w.socket e)
      | inr ((old, stop, s), e) ↦
          let w₁ = emit (promotes probe) (put s w) in
          let w₂ = when_some stop (λ c. emit (stops_noops c)) w₁ in
          let w₃ = when_some old (λ t. emit (closes_transport t)) w₂ in
          rw (e, complete_upgrade)
            (IsOver-idle probe (flush transports 1 w₃).socket (
              Flushed-upgrading transports w₃ (flush transports 1 w₃) (flush-Flushed transports w₃)
                (ap (λ x. x.upgrading)
                    (when_some-socket old closes_transport w₂
                      ∙ when_some-socket stop stops_noops w₁)
                  ∙ begin_complete_upgrade-ends probe w.socket s old stop e)))
    ]

-- A probe is completed or aborted once: after either, both have no effect for that probe.
pub upgrade_resolves_once :
    (transports : Transports) (probe : Transport) (w : World)
    → (abort_upgrade probe (complete_upgrade transports probe w)
        ≡ complete_upgrade transports probe w)
      × (complete_upgrade transports probe (complete_upgrade transports probe w)
          ≡ complete_upgrade transports probe w)
      × (complete_upgrade transports probe (abort_upgrade probe w) ≡ abort_upgrade probe w)
      × (abort_upgrade probe (abort_upgrade probe w) ≡ abort_upgrade probe w)
upgrade_resolves_once transports probe w =
    let after = complete_upgrade transports probe w in
    let over = IsOver-after_complete transports probe w in
    let aborted = IsOver-after_abort probe w in
    (
      IsOver-abort probe after over,
      IsOver-complete transports probe after over,
      IsOver-complete transports probe (abort_upgrade probe w) aborted,
      IsOver-abort probe (abort_upgrade probe w) aborted,
    )
