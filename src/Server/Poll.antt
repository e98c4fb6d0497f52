-- ===== src/Server/Poll.antt =====
-- server.go: handlePoll, the GET of a polling client.
use go_engine_io.Base.{
  ◌≡◌, refl, arith, true, Option, none, some, List, [], ◌∷◌, ◌++◌, ◌==◌, if◌then◌else◌,
}
use go_engine_io.Codec.Packet.{Packet}
use go_engine_io.Session.Socket.{
  Transport, Channel, is_open, reason_transport_error, reason_transport_close,
}
use go_engine_io.Session.Sections.{flush_take}
use go_engine_io.Session.Operations.{
  World, Effect, sends_packets, Transports, Cause, SendResult, sent, held_back, flush,
  close_with_reason,
}
use go_engine_io.Session.Promotion.{flush-open, flush_take-open}
use go_engine_io.Session.Polling.{
  PollingTransport, Claim, polling_send, HoldResult, poll_held, poll_overlap, poll_closed, hold,
  release_poll,
}
use go_engine_io.Server.Request.{ConnectionErrorCode, bad_request, unknown_session_id}

-- How the wait of a held poll ends: its delivery is written, with the error of the write, or the
-- client goes away.
pub data PollEnd : Type 0 where
  delivery_written : Option Cause → PollEnd
  cancelled : Cause → PollEnd

-- What a poll comes to: the error that it is answered with, the delivery that claimed it in its own
-- flush, and the transport and the session behind it.
pub record PollOutcome : Type 0 where
  pub answer : Option ConnectionErrorCode
  pub claimed : Option (Channel × List Packet)
  pub polling : PollingTransport
  pub world : World

abbrev pub sent_if : Option (Channel × List Packet) → SendResult
sent_if none = held_back
sent_if (some delivery) = sent

-- How the session's transports answer: this one by claiming the poll that it holds.
abbrev pub with_polling : Transport → PollingTransport → Transports → Transports
with_polling me t transports effects active packets =
    if active.identity == me.identity
    then sent_if (polling_send packets t).0
    else transports effects active packets

-- What the flush of a poll hands to the transport.
abbrev pub claim_of : Transport → PollingTransport → World → Claim
claim_of me t w = elim (flush_take w.socket) [
  | none ↦ (none, t)
  | some (packets, active) ↦
      if active.identity == me.identity then polling_send packets t else (none, t)
]

module _ (me : Transport) (transports : Transports) where
  -- handlePoll once the poll is held: its flush, and the end of its wait.
  unfoldable pub wait_poll : Channel → PollEnd → PollingTransport → World → PollOutcome
  wait_poll ch (delivery_written none) t w =
      let claim = claim_of me t w in
      record {
        answer = none;
        claimed = claim.0;
        polling = claim.1;
        world = flush (with_polling me t transports) 1 w;
      }
  wait_poll ch (delivery_written (some cause)) t w =
      let claim = claim_of me t w in
      let flushed = flush (with_polling me t transports) 1 w in
      record {
        answer = none;
        claimed = claim.0;
        polling = claim.1;
        world = close_with_reason reason_transport_error (some cause) flushed;
      }
  wait_poll ch (cancelled cause) t w =
      let claim = claim_of me t w in
      let flushed = flush (with_polling me t transports) 1 w in
      record {
        answer = none;
        claimed = claim.0;
        polling = (release_poll ch claim.1).1;
        world = close_with_reason reason_transport_close (some cause) flushed;
      }

  abbrev pub poll_after : HoldResult → Channel → PollEnd → PollingTransport → World → PollOutcome
  poll_after poll_held ch end t w = wait_poll ch end t w
  poll_after poll_overlap ch end t w = record {
    answer = some bad_request;
    claimed = none;
    polling = t;
    world = close_with_reason reason_transport_error none w;
  }
  poll_after poll_closed ch end t w = record {
    answer = some unknown_session_id;
    claimed = none;
    polling = t;
    world = w;
  }

  unfoldable pub handle_poll : Channel → PollEnd → PollingTransport → World → PollOutcome
  handle_poll ch end t w = poll_after (hold ch t).0 ch end (hold ch t).1 w

  hold-claims :
      (ch : Channel) (t held : PollingTransport) (packets : List Packet)
      → hold ch t ≡ (poll_held, held)
      → polling_send packets held ≡ (some (ch, packets), record held { data_ch = none })
  unfolding hold polling_send
  hold-claims ch t held packets e = ground (arith, e)

  same_transport : (me.identity == me.identity) ≡ true
  same_transport = ground arith

  claim_of-held :
      (ch : Channel) (t held : PollingTransport) (w : World) (packet : Packet) (rest : List Packet)
      → hold ch t ≡ (poll_held, held)
      → is_open w.socket.state ≡ true
      → w.socket.transport ≡ some me
      → w.socket.write_buffer ≡ packet ∷ rest
      → claim_of me held w ≡ (some (ch, packet ∷ rest), record held { data_ch = none })
  claim_of-held ch t held w packet rest e o a b =
      rw (flush_take-open w.socket me packet rest o a b, claim_of, same_transport)
        (hold-claims ch t held (packet ∷ rest) e)

  with_polling-held :
      (ch : Channel) (t held : PollingTransport) (effects : List Effect) (packets : List Packet)
      → hold ch t ≡ (poll_held, held)
      → with_polling me held transports effects me packets ≡ sent
  with_polling-held ch t held effects packets e =
      rw (same_transport, hold-claims ch t held packets e) refl

  -- A poll for which packets wait is answered with all of them, in order, at once: its own flush
  -- claims it, empties the buffer, and leaves the transport without a poll.
  pub handle_poll_delivers :
      (ch : Channel) (t held : PollingTransport) (w : World) (packet : Packet) (rest : List Packet)
      → hold ch t ≡ (poll_held, held)
      → is_open w.socket.state ≡ true
      → w.socket.transport ≡ some me
      → w.socket.write_buffer ≡ packet ∷ rest
      → handle_poll ch (delivery_written none) t w ≡ record {
        answer = none;
        claimed = some (ch, packet ∷ rest);
        polling = record held { data_ch = none };
        world = record {
          socket = record w.socket { write_buffer = [] };
          effects = w.effects ++ sends_packets me (packet ∷ rest) ∷ [];
        };
      }
  unfolding handle_poll wait_poll
  handle_poll_delivers ch t held w packet rest e o a b =
      rw
        (
          e,
          claim_of-held ch t held w packet rest e o a b,
          flush-open (with_polling me held transports) w me packet rest o a b
              (with_polling-held ch t held w.effects (packet ∷ rest) e),
        )
        refl
