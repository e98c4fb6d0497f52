-- ===== src/Session/Program.antt =====
-- server_socket.go: any sequence of operations on a new session.
use go_engine_io.Base.{
  ◌≡◌, refl, Bool, inl, inr, Option, none, some, List, [], ◌∷◌, ◌++◌, Option-cases, if-both, ◌==◌,
}
use go_engine_io.Codec.Packet.{
  Packet, Bytes, bare, packet_ping, packet_pong, packet_message, packet_close,
}
use go_engine_io.Session.Socket.{
  ServerConfig, Transport, Reason, reason_transport_close, Callback, send_ping_callback,
  close_callback, abort_upgrade_callback, Channel, Handler, new_server_socket,
}
use go_engine_io.Session.Sections.{
  message, begin_send, begin_close, begin_ping, start_upgrade, open_session, on_pong, begin_probe,
  begin_complete_upgrade, begin_abort_upgrade,
}
use go_engine_io.Session.Run.{
  Run, idle, opens, pongs, arms, listens, watches, upgrades, probes, completes, aborts, sends,
  pings, begins_close, Reachable, starts, steps,
}
use go_engine_io.Session.Operations.{
  World, stops_noops, starts_noops, closes_transport, promotes, calls_message_handler, emit, put,
  when_some, Transports, Cause, close_with_reason, flush, send, close, send_ping, deliver_message,
  handle_packet, on_probe, complete_upgrade, abort_upgrade, fire,
}
use go_engine_io.Session.Refinement.{
  written, run_of, IsSimulated, IsSimulated-Quiet, IsSimulated-emit, IsSimulated-when_some,
  IsSimulated-close_with_reason, IsSimulated-flush,
}

-- The calls that the application, the transports, the server and the timers make of a session.
pub data Operation : Type 0 where
  call_open call_close : Operation
  call_send : Bytes → Bool → Operation
  call_handle_packet : Packet → Operation
  call_flush : Operation
  call_close_with_reason : Reason → Option Cause → Operation
  call_start_upgrade call_complete_upgrade call_abort_upgrade : Transport → Operation
  call_on_probe : Channel → Operation
  call_on_message call_on_close : Option Handler → Operation
  call_timer : Callback → Operation

abbrev pub start_probing : Transport → World → World
start_probing probe w = elim (start_upgrade probe w.socket) [ none ↦ w | some s ↦ put s w ]

unfoldable pub perform : Transports → Operation → World → World
perform transports call_open w = put (open_session w.socket) w
perform transports call_close w = close transports w
perform transports (call_send content binary) w = (send transports content binary w).1
perform transports (call_handle_packet p) w = handle_packet p w
perform transports call_flush w = flush transports 1 w
perform transports (call_close_with_reason reason cause) w = close_with_reason reason cause w
perform transports (call_start_upgrade probe) w = start_probing probe w
perform transports (call_complete_upgrade probe) w = complete_upgrade transports probe w
perform transports (call_abort_upgrade probe) w = abort_upgrade probe w
perform transports (call_on_probe stop) w = on_probe stop w
perform transports (call_on_message h) w = put (record w.socket { on_message_handler = h }) w
perform transports (call_on_close h) w = put (record w.socket { on_close_handler = h }) w
perform transports (call_timer callback) w = fire transports callback w

unfoldable pub perform_all : Transports → List Operation → World → World
perform_all transports [] w = w
perform_all transports (op ∷ ops) w = perform_all transports ops (perform transports op w)

abbrev pub new_world : Bytes → ServerConfig → Transport → World
new_world name config first = record { socket = new_server_socket name config first; effects = [] }

module _ (transports : Transports) (w : World) (accepted : List Packet) (closes : List Reason) where
  module _ (reach : Reachable (run_of w accepted closes)) where
    IsSimulated-send :
        (content : Bytes) (binary : Bool) → IsSimulated (send transports content binary w).1
    unfolding send
    IsSimulated-send content binary = elim (Option-cases (begin_send content binary w.socket)) [
      | inl e ↦ rw (e, send) (accepted, closes, reach)
      | inr (s, e) ↦
          rw (e, send)
            (IsSimulated-flush transports (put s w) (
              accepted ++ message content binary ∷ [],
              closes,
              steps _ _ reach (sends content binary s e),
            ))
    ]

    IsSimulated-send_ping : IsSimulated (send_ping transports w)
    unfolding send_ping
    IsSimulated-send_ping = elim (Option-cases (begin_ping w.socket)) [
      | inl e ↦ rw (e, send_ping) (accepted, closes, reach)
      | inr (s, e) ↦
          rw (e, send_ping)
            (IsSimulated-flush transports (put s w)
              (accepted ++ bare packet_ping ∷ [], closes, steps _ _ reach (pings s e)))
    ]

    IsSimulated-close : IsSimulated (close transports w)
    unfolding close
    IsSimulated-close = elim (Option-cases (begin_close w.socket)) [
      | inl e ↦ rw (e, close) (accepted, closes, reach)
      | inr (s, e) ↦
          rw (e, close)
            (IsSimulated-Quiet (flush transports 1 (put s w)) _ arms (
              IsSimulated-flush transports (put s w)
                (accepted ++ bare packet_close ∷ [], closes, steps _ _ reach (begins_close s e))))
    ]

    IsSimulated-start_probing : (probe : Transport) → IsSimulated (start_probing probe w)
    IsSimulated-start_probing probe = elim (Option-cases (start_upgrade probe w.socket)) [
      | inl e ↦ rw (e, start_probing) (accepted, closes, reach)
      | inr (s, e) ↦
          rw (e, start_probing)
            (IsSimulated-Quiet w s (upgrades probe s e) (accepted, closes, reach))
    ]

    IsSimulated-on_probe : (stop : Channel) → IsSimulated (on_probe stop w)
    unfolding on_probe
    IsSimulated-on_probe stop = elim (Option-cases (begin_probe stop w.socket)) [
      | inl e ↦ rw (e, on_probe) (accepted, closes, reach)
      | inr (s, e) ↦
          rw (e, on_probe)
            (IsSimulated-emit (put s w) (starts_noops stop) refl
              (IsSimulated-Quiet w s (probes stop s e) (accepted, closes, reach)))
    ]

    IsSimulated-complete_upgrade :
        (probe : Transport) → IsSimulated (complete_upgrade transports probe w)
    unfolding complete_upgrade
    IsSimulated-complete_upgrade probe =
        elim (Option-cases (begin_complete_upgrade probe w.socket)) [
          | inl e ↦ rw (e, complete_upgrade) (accepted, closes, reach)
          | inr ((old, stop, s), e) ↦
              let w₁ = emit (promotes probe) (put s w) in
              let w₂ = when_some stop (λ c. emit (stops_noops c)) w₁ in
              let w₃ = when_some old (λ t. emit (closes_transport t)) w₂ in
              rw (e, complete_upgrade)
                (IsSimulated-flush transports w₃ (
                  IsSimulated-when_some old closes_transport w₂ (λ _. refl)
                    (IsSimulated-when_some stop stops_noops w₁ (λ _. refl)
                      (IsSimulated-emit (put s w) (promotes probe) refl (
                        IsSimulated-Quiet w s (completes probe old stop s e)
                          (accepted, closes, reach))))))
        ]

    IsSimulated-abort_upgrade : (probe : Transport) → IsSimulated (abort_upgrade probe w)
    unfolding abort_upgrade
    IsSimulated-abort_upgrade probe = elim (Option-cases (begin_abort_upgrade probe w.socket)) [
      | inl e ↦ rw (e, abort_upgrade) (accepted, closes, reach)
      | inr ((stop, s), e) ↦
          let w₁ = when_some stop (λ c. emit (stops_noops c)) (put s w) in
          rw (e, abort_upgrade)
            (IsSimulated-emit w₁ (closes_transport probe) refl (
              IsSimulated-when_some stop stops_noops (put s w) (λ _. refl)
                (IsSimulated-Quiet w s (aborts probe stop s e) (accepted, closes, reach))))
    ]

    IsSimulated-handle_packet : (p : Packet) → IsSimulated (handle_packet p w)
    unfolding handle_packet deliver_message
    IsSimulated-handle_packet p =
        if-both IsSimulated (p.type == packet_pong) _ _
          (IsSimulated-Quiet w (on_pong w.socket) pongs (accepted, closes, reach))
          (if-both IsSimulated (p.type == packet_message) _ _
            (IsSimulated-when_some w.socket.on_message_handler
              (λ handler. calls_message_handler handler p.body p.is_binary) w (λ _. refl)
              (accepted, closes, reach))
            (if-both IsSimulated (p.type == packet_close) _ _
              (IsSimulated-close_with_reason reason_transport_close none w
                (accepted, closes, reach))
              (accepted, closes, reach)))

    IsSimulated-fire : (callback : Callback) → IsSimulated (fire transports callback w)
    unfolding fire
    IsSimulated-fire send_ping_callback = IsSimulated-send_ping
    IsSimulated-fire (close_callback reason) =
        IsSimulated-close_with_reason reason none w (accepted, closes, reach)
    IsSimulated-fire (abort_upgrade_callback probe) = IsSimulated-abort_upgrade probe

    IsSimulated-perform : (op : Operation) → IsSimulated (perform transports op w)
    unfolding perform
    IsSimulated-perform call_open =
        IsSimulated-Quiet w (open_session w.socket) opens (accepted, closes, reach)
    IsSimulated-perform call_close = IsSimulated-close
    IsSimulated-perform (call_send content binary) = IsSimulated-send content binary
    IsSimulated-perform (call_handle_packet p) = IsSimulated-handle_packet p
    IsSimulated-perform call_flush = IsSimulated-flush transports w (accepted, closes, reach)
    IsSimulated-perform (call_close_with_reason reason cause) =
        IsSimulated-close_with_reason reason cause w (accepted, closes, reach)
    IsSimulated-perform (call_start_upgrade probe) = IsSimulated-start_probing probe
    IsSimulated-perform (call_complete_upgrade probe) = IsSimulated-complete_upgrade probe
    IsSimulated-perform (call_abort_upgrade probe) = IsSimulated-abort_upgrade probe
    IsSimulated-perform (call_on_probe stop) = IsSimulated-on_probe stop
    IsSimulated-perform (call_on_message h) =
        IsSimulated-Quiet w _ (listens h) (accepted, closes, reach)
    IsSimulated-perform (call_on_close h) =
        IsSimulated-Quiet w _ (watches h) (accepted, closes, reach)
    IsSimulated-perform (call_timer callback) = IsSimulated-fire callback

IsSimulated-perform_all :
    (transports : Transports) (ops : List Operation) (w : World)
    → IsSimulated w
    → IsSimulated (perform_all transports ops w)
unfolding perform_all
IsSimulated-perform_all transports [] w sim = sim
IsSimulated-perform_all transports (op ∷ ops) w (accepted, closes, reach) =
    IsSimulated-perform_all transports ops (perform transports op w)
      (IsSimulated-perform transports w accepted closes reach op)

-- Whatever operations a new session performs and however its transports answer, it stands where
-- some interleaving of the goroutines' steps leaves it, with the same packets written in the same
-- order and no flush under way.
pub perform_all_refines :
    (transports : Transports) (ops : List Operation) (name : Bytes) (config : ServerConfig)
    (first : Transport)
    → (r : Run) × Reachable r
      × (r.flusher ≡ idle)
      × (r.socket ≡ (perform_all transports ops (new_world name config first)).socket)
      × (r.handed_over ≡ written (perform_all transports ops (new_world name config first)).effects)
perform_all_refines transports ops name config first =
    let w = perform_all transports ops (new_world name config first) in
    let (accepted, closes, reach) =
      IsSimulated-perform_all transports ops (new_world name config first)
        ([], [], starts name config first) in
    (run_of w accepted closes, reach, refl, refl, refl)
