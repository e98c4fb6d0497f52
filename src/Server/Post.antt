-- ===== src/Server/Post.antt =====
-- server.go: handleSend, the POST of a polling client.
pub mod Delivery
use go_engine_io.Base.{
  ℕ, ◌+◌, ◌%◌, ◌^◌, ◌≡◌, Bool, true, false, Option, none, some, List, [], ◌∷◌, ◌++◌, length, take,
  ltb, ◌==◌, if◌then◌else◌,
}
use go_engine_io.Base.Int.{ℤ, pos, negsuc}
use go_engine_io.Codec.Packet.{Packet, Bytes}
use go_engine_io.Codec.Result.{Error, Result, ok, err}
use go_engine_io.Codec.Payload.{decode_payload}
use go_engine_io.Session.Socket.{reason_transport_error, reason_parse_error}
use go_engine_io.Session.Operations.{World, Cause, close_with_reason, handle_packet}

-- A body, and the error of reading what LimitReader lets through when the connection fails before.
pub record PostBody : Type 0 where
  pub is_octet_stream : Bool
  pub content : Bytes
  pub failure : Option Cause

pub data PostStatus : Type 0 where
  status_ok status_bad_request status_too_large : PostStatus

unfoldable pub handle_packets : List Packet → World → World
handle_packets [] w = w
handle_packets (packet ∷ packets) w = handle_packets packets (handle_packet packet w)

-- How many bytes LimitReader lets through for `int64(maxPayload)+1`, a sum that wraps around; none
-- for a negative number.
unfoldable pub post_limit : ℤ → ℕ
post_limit (pos n) = let sum = (n + 1) % 2 ^ 64 in if ltb sum (2 ^ 63) then sum else 0
post_limit (negsuc n) = 0

-- `len(body) > maxPayload`
abbrev pub body_too_large : ℤ → ℕ → Bool
body_too_large (pos n) size = ltb n size
body_too_large (negsuc n) size = true

-- The value of a decoding error is `cause_of` it.
unfoldable pub handle_send : (Error → Cause) → ℤ → PostBody → World → PostStatus × World
handle_send cause_of max_payload post w =
    let body = take (post_limit max_payload) post.content in
    if post.is_octet_stream
    then (status_bad_request, close_with_reason reason_transport_error none w)
    else elim post.failure [
      | some cause ↦ (status_bad_request, w)
      | none ↦
          if body_too_large max_payload (length body)
          then (status_too_large, w)
          else if length body == 0
          then (status_ok, w)
          else elim (decode_payload 4 body) [
            | err e ↦
                (status_bad_request, close_with_reason reason_parse_error (some (cause_of e)) w)
            | ok packets ↦ (status_ok, handle_packets packets w)
          ]
    ]
