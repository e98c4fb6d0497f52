-- ===== src/Session/Polling/Final.antt =====
-- server_transport_polling.go: a closed transport stays closed and holds no poll.
use go_engine_io.Base.{◌≡◌, refl, arith, true, false, none, some, List, Option}
use go_engine_io.Codec.Packet.{Packet}
use go_engine_io.Session.Socket.{Channel}
use go_engine_io.Session.Polling.{
  PollingTransport, new_polling_transport, polling_send, write_noop, polling_close, HoldResult,
  poll_held, poll_closed, hold, release_poll, Polls, Poll, holds_poll, refuses_poll, sends_claim,
  noop_claims, close_claims, close_claims_none, releases, Polled, unpolled, polls_on,
}

-- A closed transport holds no poll.
pub record HoldsNone (t : PollingTransport) : Type 0 where
  pub freed : t.closed ≡ true → t.data_ch ≡ none

hold-HoldsNone :
    (ch : Channel) (result : HoldResult) (t next : PollingTransport)
    → hold ch t ≡ (result, next)
    → HoldsNone t
    → HoldsNone next
unfolding hold
hold-HoldsNone ch result t next e h = ground arith

polling_send-HoldsNone :
    (packets : List Packet) (to : Option (Channel × List Packet)) (t next : PollingTransport)
    → polling_send packets t ≡ (to, next)
    → HoldsNone t
    → HoldsNone next
unfolding polling_send
polling_send-HoldsNone packets to t next e h = ground arith

write_noop-HoldsNone :
    (to : Option (Channel × List Packet)) (t next : PollingTransport)
    → write_noop t ≡ (to, next)
    → HoldsNone t
    → HoldsNone next
unfolding write_noop
write_noop-HoldsNone to t next e h = ground arith

polling_close-HoldsNone :
    (to : Option (Channel × List Packet)) (t next : PollingTransport)
    → polling_close t ≡ (to, next)
    → HoldsNone t
    → HoldsNone next
unfolding polling_close
polling_close-HoldsNone to t next e h = ground arith

release_poll-HoldsNone :
    (ch : Channel) (t next : PollingTransport)
    → release_poll ch t ≡ (true, next)
    → HoldsNone t
    → HoldsNone next
unfolding release_poll
release_poll-HoldsNone ch t next e h = ground arith

HoldsNone-Poll : (r r' : Polls) → Poll r r' → HoldsNone r.transport → HoldsNone r'.transport
HoldsNone-Poll r _ (holds_poll next e) h = hold-HoldsNone r.made poll_held r.transport next e h
HoldsNone-Poll r _ (refuses_poll reason next e why) h =
    hold-HoldsNone r.made reason r.transport next e h
HoldsNone-Poll r _ (sends_claim packets payload ch next e) h =
    polling_send-HoldsNone packets (some (ch, payload)) r.transport next e h
HoldsNone-Poll r _ (noop_claims payload ch next e) h =
    write_noop-HoldsNone (some (ch, payload)) r.transport next e h
HoldsNone-Poll r _ (close_claims payload ch next e) h =
    polling_close-HoldsNone (some (ch, payload)) r.transport next e h
HoldsNone-Poll r _ (close_claims_none next e) h = polling_close-HoldsNone none r.transport next e h
HoldsNone-Poll r _ (releases ch next e) h = release_poll-HoldsNone ch r.transport next e h

Polled-HoldsNone : (r : Polls) → Polled r → HoldsNone r.transport
unfolding new_polling_transport
Polled-HoldsNone _ unpolled = record { freed = λ e. refl }
Polled-HoldsNone _ (polls_on r r' before step) =
    HoldsNone-Poll r r' step (Polled-HoldsNone r before)

-- What a transport does once it is closed: it takes no packets and no poll, and changes no more.
pub record IsFinal (t : PollingTransport) : Type 0 where
  pub no_send : (packets : List Packet) → polling_send packets t ≡ (none, t)
  pub no_noop : write_noop t ≡ (none, t)
  pub no_close : polling_close t ≡ (none, t)
  pub no_hold : (ch : Channel) → hold ch t ≡ (poll_closed, t)
  pub no_release : (ch : Channel) → release_poll ch t ≡ (false, t)

-- After close, a reachable transport refuses every send, noop, poll, release and further close,
-- and none of them changes it.
pub polling_close-IsFinal : (r : Polls) → Polled r → IsFinal (polling_close r.transport).1
unfolding polling_send write_noop polling_close hold release_poll
polling_close-IsFinal r reach =
    let h = Polled-HoldsNone r reach in
    record {
      no_send = λ packets. ground (arith, h.freed);
      no_noop = ground (arith, h.freed);
      no_close = ground (arith, h.freed);
      no_hold = λ ch. ground (arith, h.freed);
      no_release = λ ch. ground (arith, h.freed);
    }
