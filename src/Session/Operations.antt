-- ===== src/Session/Operations.antt =====
-- server_socket.go: the operations of a session as sequences of sections and of calls, when no
-- other goroutine runs between them.
use go_engine_io.Base.{
  ℕ, zero, suc, Bool, true, false, Option, none, some, List, [], ◌∷◌, ◌++◌, ◌==◌, if◌then◌else◌,
}
use go_engine_io.Codec.Packet.{Packet, Bytes, packet_pong, packet_message, packet_close}
use go_engine_io.Session.Socket.{
  ServerSocket, Transport, Reason, reason_transport_error, reason_transport_close,
  reason_forced_close, Callback, send_ping_callback, close_callback, abort_upgrade_callback,
  Channel, Handler,
}
use go_engine_io.Session.Sections.{
  begin_send, begin_close, arm_close, on_pong, begin_ping, flush_take, flush_drop, flush_next,
  finish_close, done, again, Released, begin_teardown, begin_probe, begin_complete_upgrade,
  begin_abort_upgrade,
}

-- An error value of the transport.
abbrev pub Cause : Type 0
Cause = ℕ

-- What `transport.send` returns: true and no error, false and no error, or an error.
pub data SendResult : Type 0 where
  sent held_back : SendResult
  failed : Cause → SendResult

-- What a session does to the rest of the program, in the order in which it does it.
pub data Effect : Type 0 where
  sends_packets : Transport → List Packet → Effect
  stops_noops : Channel → Effect
  starts_noops : Channel → Effect
  closes_transport : Transport → Effect
  promotes : Transport → Effect
  deletes_session : Bytes → Effect
  calls_close_handler : Handler → Reason → Option Cause → Effect
  calls_message_handler : Handler → Bytes → Bool → Effect

pub record World : Type 0 where
  pub socket : ServerSocket
  pub effects : List Effect

-- How transports answer a send, by all that went before. Transports are not of this file.
abbrev pub Transports : Type 0
Transports = List Effect → Transport → List Packet → SendResult

abbrev pub emit : Effect → World → World
emit effect w = record w { effects = w.effects ++ effect ∷ [] }

-- `if x != nil { ... }`.
abbrev pub when_some {ℓ} : {A : Type ℓ} → Option A → (A → World → World) → World → World
when_some none act w = w
when_some (some a) act w = act a w

abbrev pub put : ServerSocket → World → World
put s w = record w { socket = s }

-- closeWithReason once beginTeardown has returned true.
unfoldable pub release : Reason → Option Cause → Released → World → World
release reason cause parts w =
    when_some parts.close_handler (λ handler. emit (calls_close_handler handler reason cause))
      (emit (deletes_session w.socket.id) (
        when_some parts.probing (λ t. emit (closes_transport t))
          (when_some parts.active (λ t. emit (closes_transport t))
            (when_some parts.noop_stop (λ stop. emit (stops_noops stop)) w))))

unfoldable pub close_with_reason : Reason → Option Cause → World → World
close_with_reason reason cause w = elim (begin_teardown w.socket) [
  | none ↦ w
  | some (parts, s) ↦ release reason cause parts (put s w)
]

-- The loop of flush, with fuel; `flush_ends` shows that one round is all it takes.
unfoldable pub flush : Transports → ℕ → World → World
flush transports zero w = w
flush transports (suc fuel) w = elim (flush_take w.socket) [
  | none ↦ w
  | some (packets, active) ↦ elim (transports w.effects active packets) [
    | failed cause ↦ close_with_reason reason_transport_error (some cause) w
    | held_back ↦ w
    | sent ↦
        let w' = emit (sends_packets active packets) (put (flush_drop packets w.socket) w) in
        elim (flush_next w'.socket) [
          | finish_close ↦ close_with_reason reason_forced_close none w'
          | done ↦ w'
          | again ↦ flush transports fuel w'
        ]
  ]
]

-- Send, with false for ErrSocketClosed.
unfoldable pub send : Transports → Bytes → Bool → World → Bool × World
send transports content binary w = elim (begin_send content binary w.socket) [
  | none ↦ (false, w)
  | some s ↦ (true, flush transports 1 (put s w))
]

unfoldable pub close : Transports → World → World
close transports w = elim (begin_close w.socket) [
  | none ↦ w
  | some s ↦ let w' = flush transports 1 (put s w) in put (arm_close w'.socket) w'
]

unfoldable pub send_ping : Transports → World → World
send_ping transports w = elim (begin_ping w.socket) [
  | none ↦ w
  | some s ↦ flush transports 1 (put s w)
]

unfoldable pub deliver_message : Bytes → Bool → World → World
deliver_message content binary w =
    when_some w.socket.on_message_handler
      (λ handler. emit (calls_message_handler handler content binary)) w

unfoldable pub handle_packet : Packet → World → World
handle_packet p w =
    if p.type == packet_pong
    then put (on_pong w.socket) w
    else if p.type == packet_message
    then deliver_message p.body p.is_binary w
    else if p.type == packet_close
    then close_with_reason reason_transport_close none w
    else w

unfoldable pub on_probe : Channel → World → World
on_probe stop w = elim (begin_probe stop w.socket) [
  | none ↦ w
  | some s ↦ emit (starts_noops stop) (put s w)
]

unfoldable pub complete_upgrade : Transports → Transport → World → World
complete_upgrade transports probe w = elim (begin_complete_upgrade probe w.socket) [
  | none ↦ w
  | some (old, stop, s) ↦ flush transports 1 (
      when_some old (λ t. emit (closes_transport t))
        (when_some stop (λ c. emit (stops_noops c)) (emit (promotes probe) (put s w))))
]

unfoldable pub abort_upgrade : Transport → World → World
abort_upgrade probe w = elim (begin_abort_upgrade probe w.socket) [
  | none ↦ w
  | some (stop, s) ↦
      emit (closes_transport probe) (when_some stop (λ c. emit (stops_noops c)) (put s w))
]

-- What a timer does when it fires.
unfoldable pub fire : Transports → Callback → World → World
fire transports send_ping_callback w = send_ping transports w
fire transports (close_callback reason) w = close_with_reason reason none w
fire transports (abort_upgrade_callback probe) w = abort_upgrade probe w
