-- ===== src/Server/WebSocket/Sending.antt =====
-- server_transport_websocket.go: what send writes, on every branch.
use go_engine_io.Base.{
  ℕ, zero, suc, ◌≤◌, ◌<◌, ◌≡◌, ◌≢◌, refl, ap, sym, ◌∙◌, arith, true, false, List, [], ◌∷◌, ◌++◌,
  append-nil, append_assoc, length, take, All, All-take, Option-cases, inl, inr,
}
use go_engine_io.Codec.Packet.{Packet, Bytes, IsValid}
use go_engine_io.Codec.Result.{Result, ok}
use go_engine_io.Codec.WebSocket.{
  MessageType, websocket_message, decode_websocket_frame, decode_websocket_frame-message,
}
use go_engine_io.Session.Operations.{Effect, Cause, sent, held_back, failed}
use go_engine_io.Server.Connection.{Connection, Writes}
use go_engine_io.Server.WebSocket.{Sent, write_messages, websocket_send}

abbrev pub messages : List Packet → List (MessageType × Bytes)
messages [] = []
messages (p ∷ ps) = websocket_message p ∷ messages ps

-- What the peer makes of the messages.
abbrev pub decoded : List (MessageType × Bytes) → List (Result Packet)
decoded [] = []
decoded ((kind, frame) ∷ rest) = decode_websocket_frame kind frame ∷ decoded rest

abbrev pub oks : List Packet → List (Result Packet)
oks [] = []
oks (p ∷ ps) = ok p ∷ oks ps

decoded-messages : (ps : List Packet) → All IsValid ps → decoded (messages ps) ≡ oks ps
decoded-messages [] v = refl
decoded-messages (p ∷ ps) (v, vs) =
    rw (decode_websocket_frame-message p v) (ap (◌∷◌ (ok p)) (decoded-messages ps vs))

-- What a send has written: the first `count` packets, all of them exactly if it reports success,
-- and the write that it stopped at otherwise.
pub record IsWritten (write : Writes (MessageType × Bytes)) (effects : List Effect) (n : ℕ)
    (done : List (MessageType × Bytes)) (ps : List Packet) (out : Sent) : Type 0 where
  pub count : ℕ
  pub in_range : count ≤ length ps
  pub written_first : out.1 ≡ done ++ messages (take count ps)
  pub success : out.0 ≡ sent → count ≡ length ps
  pub failure : (cause : Cause) → out.0 ≡ failed cause → count < length ps
  pub not_held : out.0 ≢ held_back

write_messages-IsWritten :
    (write : Writes (MessageType × Bytes)) (effects : List Effect) (n : ℕ)
    (done : List (MessageType × Bytes)) (ps : List Packet)
    → IsWritten write effects n done ps (write_messages write effects n done ps)
unfolding write_messages
write_messages-IsWritten write effects n done [] = record {
  count = zero;
  in_range = omega arith;
  written_first = sym (append-nil done);
  success = λ e. refl;
  failure = λ cause e. cc;
  not_held = λ e. cc;
}
write_messages-IsWritten write effects n done (p ∷ ps) =
    elim (Option-cases (write effects n (websocket_message p))) [
      | inr (cause, e) ↦
          rw (e, write_messages)
            (record {
              count = zero;
              in_range = omega arith;
              written_first = sym (append-nil done);
              success = λ e. cc;
              failure = λ cause e. omega arith;
              not_held = λ e. cc;
            })
      | inl e ↦
          let rest =
            write_messages-IsWritten write effects (suc n) (done ++ websocket_message p ∷ []) ps in
          rw (e, write_messages)
            (record {
              count = suc rest.count;
              in_range = omega (arith, rest.in_range);
              written_first =
                  rest.written_first
                  ∙ append_assoc done (websocket_message p ∷ []) (messages (take rest.count ps));
              success = λ e. ap suc (rest.success e);
              failure = λ cause e. omega (arith, rest.failure cause e);
              not_held = rest.not_held;
            })
    ]

-- On a closed transport send writes nothing and reports that it held the packets back. On an open
-- one the peer decodes exactly a front of the packets, in order: all of them when send reports
-- success, fewer when it reports an error, and it reports one of the two.
pub websocket_send_delivers :
    (write : Writes (MessageType × Bytes)) (effects : List Effect) (c : Connection)
    (ps : List Packet)
    → All IsValid ps
    → (c.closed ≡ true → websocket_send write effects c ps ≡ (held_back, []))
      × (c.closed ≡ false
          → (count : ℕ) × (count ≤ length ps)
            × (decoded (websocket_send write effects c ps).1 ≡ oks (take count ps))
            × ((websocket_send write effects c ps).0 ≡ sent → count ≡ length ps)
            × ((cause : Cause)
                → (websocket_send write effects c ps).0 ≡ failed cause
                → count < length ps)
            × ((websocket_send write effects c ps).0 ≢ held_back))
unfolding websocket_send
websocket_send_delivers write effects c ps v = (
  λ e. rw e refl,
  λ e.
      let w = write_messages-IsWritten write effects zero [] ps in
      rw e (
        w.count,
        w.in_range,
        ap decoded w.written_first
            ∙ decoded-messages (take w.count ps) (All-take IsValid w.count ps v),
        w.success,
        w.failure,
        w.not_held,
      ),
)
