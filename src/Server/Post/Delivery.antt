-- ===== src/Server/Post/Delivery.antt =====
-- server.go: what a client posts is what the session handles.
use go_engine_io.Base.{
  ℕ, zero, suc, ◌+◌, ◌≤◌, ◌≡◌, ◌≢◌, refl, ap, ◌∙◌, arith, true, false, none, some, List, [], ◌∷◌,
  length, take, ◌<◌, ◌^◌, ◌==◌, All, if-both, Option-cases, inl, inr, ◌⊎◌,
}
use go_engine_io.Base.Int.{ℤ, pos}
use go_engine_io.Codec.Packet.{Packet, Bytes}
use go_engine_io.Codec.Result.{Error, ok, Result-cases}
use go_engine_io.Codec.Encoding.{decode_packet}
use go_engine_io.Codec.Payload.{decode_payload}
use go_engine_io.Codec.Payload.Separated.{
  encode_payload, split, decode_segments, decode_record_separator_payload,
}
use go_engine_io.Codec.Payload.Separated.RoundTrip.{Fits}
use go_engine_io.Codec.Payload.Versions.{decode_payload-encode_payload}
use go_engine_io.Session.Socket.{is_closed, reason_transport_error, reason_parse_error}
use go_engine_io.Session.Operations.{World, Cause}
use go_engine_io.Session.Ends.{close_with_reason-is_closed}
use go_engine_io.Server.Post.{
  PostBody, PostStatus, status_ok, status_bad_request, handle_packets, post_limit, body_too_large,
  handle_send,
}

take-whole : (n : ℕ) (xs : Bytes) → length xs ≤ n → take n xs ≡ xs
take-whole zero [] h = refl
take-whole zero (x ∷ xs) h = absurd (omega (arith, h))
take-whole (suc n) [] h = refl
take-whole (suc n) (x ∷ xs) h = ap (◌∷◌ x) (take-whole n xs (omega (arith, h)))

post_limit-pos : (n : ℕ) → n + 1 < 2 ^ 63 → post_limit (pos n) ≡ n + 1
unfolding post_limit
post_limit-pos n h = ground arith

-- What decodes as a v4 payload is not empty.
pub decode_payload-nonempty :
    (xs : Bytes) (packets : List Packet) → decode_payload 4 xs ≡ ok packets → length xs ≢ 0
unfolding decode_payload decode_record_separator_payload split decode_segments decode_packet
decode_payload-nonempty [] packets e = cc
decode_payload-nonempty (x ∷ xs) packets e = omega arith

-- A POST of the payload that the client encodes for packets, within a limit below the largest
-- `int`, is acknowledged, and the session handles exactly those packets, in order.
pub handle_send-encode_payload :
    (cause_of : Error → Cause) (max_payload : ℕ) (p : Packet) (ps : List Packet) (w : World)
    → All Fits (p ∷ ps)
    → length (encode_payload (p ∷ ps)) ≤ max_payload
    → max_payload + 1 < 2 ^ 63
    → handle_send cause_of
        (pos max_payload)
        (record { is_octet_stream = false; content = encode_payload (p ∷ ps); failure = none })
        w
      ≡ (status_ok, handle_packets (p ∷ ps) w)
unfolding handle_send
handle_send-encode_payload cause_of max_payload p ps w fits h top =
    let limit = post_limit-pos max_payload top in
    let whole =
      ap (λ n. take n (encode_payload (p ∷ ps))) limit
      ∙ take-whole (max_payload + 1) (encode_payload (p ∷ ps)) (omega (arith, h)) in
    let decoded = decode_payload-encode_payload p ps fits in
    ground (
      arith,
      whole,
      h,
      ap (decode_payload 4) whole ∙ decoded,
      decode_payload-nonempty (encode_payload (p ∷ ps)) (p ∷ ps) decoded,
    )

-- Where a refused POST leaves the session.
abbrev pub IsRefused : World → PostStatus × World → Type 0
IsRefused w out =
    out.0 ≢ status_ok
    → (out.1 ≡ w) ⊎ ((is_closed out.1.socket.state ≡ true) × (out.0 ≡ status_bad_request))

-- However a POST fails, the session has handled none of its packets: a body over the limit or one
-- that cannot be read leaves the session as it was, and an octet-stream or a malformed payload
-- closes it and is a bad request.
pub handle_send-IsRefused :
    (cause_of : Error → Cause) (max_payload : ℤ) (post : PostBody) (w : World)
    → IsRefused w (handle_send cause_of max_payload post w)
unfolding handle_send
handle_send-IsRefused cause_of max_payload post w =
    let body = take (post_limit max_payload) post.content in
    if-both (IsRefused w) post.is_octet_stream _ _
      (λ refused. inr (close_with_reason-is_closed reason_transport_error none w, refl))
      (elim (Option-cases post.failure) [
        | inr (cause, e) ↦ rw e (λ refused. inl refl)
        | inl e ↦ rw e (
            if-both (IsRefused w) (body_too_large max_payload (length body)) _ _
              (λ refused. inl refl)
              (if-both (IsRefused w) (length body == 0) _ _ (λ refused. inl refl)
                (elim (Result-cases (decode_payload 4 body)) [
                  | inl (packets, d) ↦ rw d (λ refused. absurd (refused refl))
                  | inr (error, d) ↦ rw d (λ refused. inr (
                    close_with_reason-is_closed reason_parse_error (some (cause_of error)) w,
                    refl,
                  ))
                ])))
      ])
