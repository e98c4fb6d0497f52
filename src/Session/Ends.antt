-- ===== src/Session/Ends.antt =====
-- server_socket.go: flush ends in one round, teardown happens once, and every way to wait is
-- bounded by a timer.
use go_engine_io.Base.{ℕ, suc, ◌≡◌, arith, true, inl, inr, Option, Option-cases}
use go_engine_io.Session.Socket.{Reason, is_closed}
use go_engine_io.Session.Sections.{flush_take, Released, begin_teardown}
use go_engine_io.Session.Buffer.{begin_teardown-none, torn_down}
use go_engine_io.Session.Round.{not_again}
use go_engine_io.Session.Operations.{
  World, put, Transports, Cause, release, close_with_reason, flush,
}

-- With no other goroutine between its sections, flush needs one round, whatever the transports
-- answer: any fuel but none gives the same result.
pub flush_ends :
    (transports : Transports) (fuel : ℕ) (w : World)
    → flush transports (suc fuel) w ≡ flush transports 1 w
unfolding flush
flush_ends transports fuel w = elim (Option-cases (flush_take w.socket)) [
  | inl e ↦ ground (arith, e)
  | inr ((packets, active), e) ↦ ground (arith, e, not_again w.socket packets active e)
]

pub release-socket :
    (reason : Reason) (cause : Option Cause) (parts : Released) (w : World)
    → (release reason cause parts w).socket ≡ w.socket
unfolding release
release-socket reason cause parts w = ground arith

pub close_with_reason-is_closed :
    (reason : Reason) (cause : Option Cause) (w : World)
    → is_closed (close_with_reason reason cause w).socket.state ≡ true
unfolding close_with_reason
close_with_reason-is_closed reason cause w = elim (Option-cases (begin_teardown w.socket)) [
  | inl e ↦ ground (arith, e, begin_teardown-none w.socket e)
  | inr ((parts, next), e) ↦
      ground
        (arith, e, release-socket reason cause parts (put next w), torn_down w.socket next parts e)
]

closed_already :
    (reason : Reason) (cause : Option Cause) (w : World)
    → is_closed w.socket.state ≡ true
    → close_with_reason reason cause w ≡ w
unfolding close_with_reason begin_teardown
closed_already reason cause w h = ground arith

-- Only the first of several calls of closeWithReason has an effect.
pub close_with_reason_idempotent :
    (first second : Reason) (cause cause' : Option Cause) (w : World)
    → close_with_reason second cause' (close_with_reason first cause w)
      ≡ close_with_reason first cause w
close_with_reason_idempotent first second cause cause' w =
    closed_already second cause' (close_with_reason first cause w)
      (close_with_reason-is_closed first cause w)
