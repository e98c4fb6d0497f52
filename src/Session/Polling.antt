-- ===== src/Session/Polling.antt =====
-- server_transport_polling.go: the server's long-polling transport. A channel is the number of the
-- poll that made it.
pub mod Once
pub mod Final
mod Tests
use go_engine_io.Base.{
  ℕ, ◌+◌, ◌≡◌, ◌⊎◌, Bool, true, false, Option, none, some, List, [], ◌∷◌, ◌++◌, ◌==◌, if◌then◌else◌,
}
use go_engine_io.Codec.Packet.{Packet, bare, packet_noop, packet_close}
use go_engine_io.Session.Socket.{Channel}

pub record PollingTransport : Type 0 where
  pub closed : Bool
  pub data_ch : Option Channel

unfoldable pub new_polling_transport : PollingTransport
new_polling_transport = record { closed = false; data_ch = none }

-- The packets that go to a poll, and the transport that no longer holds it.
abbrev pub Claim : Type 0
Claim = Option (Channel × List Packet) × PollingTransport

abbrev pub claim : List Packet → PollingTransport → Claim
claim packets t = elim t.data_ch [
  | none ↦ (none, t)
  | some ch ↦ (some (ch, packets), record t { data_ch = none })
]

-- send, which reports true exactly when it claims a poll.
unfoldable pub polling_send : List Packet → PollingTransport → Claim
polling_send packets t = if t.closed then (none, t) else claim packets t

unfoldable pub write_noop : PollingTransport → Claim
write_noop t = claim (bare packet_noop ∷ []) t

unfoldable pub polling_close : PollingTransport → Claim
polling_close t =
    if t.closed then (none, t) else claim (bare packet_close ∷ []) (record t { closed = true })

pub data HoldResult : Type 0 where
  poll_held poll_overlap poll_closed : HoldResult

unfoldable pub hold : Channel → PollingTransport → HoldResult × PollingTransport
hold ch t = if t.closed then (poll_closed, t) else elim t.data_ch [
  | some other ↦ (poll_overlap, t)
  | none ↦ (poll_held, record t { data_ch = some ch })
]

abbrev pub held_now : Option Channel → Channel → Bool
held_now none ch = false
held_now (some other) ch = other == ch

unfoldable pub release_poll : Channel → PollingTransport → Bool × PollingTransport
release_poll ch t =
    if held_now t.data_ch ch then (true, record t { data_ch = none }) else (false, t)

-- A transport with the number of channels made so far, the polls that were held, those that a
-- delivery has claimed, with its packets, and those that were given up.
pub record Polls : Type 0 where
  pub transport : PollingTransport
  pub made : ℕ
  pub held : List Channel
  pub claimed : List (Channel × List Packet)
  pub released : List Channel

abbrev pub no_polls : Polls
no_polls = record {
  transport = new_polling_transport;
  made = 0;
  held = [];
  claimed = [];
  released = [];
}

-- Each poll makes its own channel. A delivery follows its claim, at any time.
pub data Poll (r : Polls) : Polls → Type 0 where
  holds_poll :
      (next : PollingTransport)
      → hold r.made r.transport ≡ (poll_held, next)
      → Poll r (record r { transport = next; made = r.made + 1; held = r.held ++ r.made ∷ [] })
  refuses_poll :
      (reason : HoldResult) (next : PollingTransport)
      → hold r.made r.transport ≡ (reason, next)
      → (reason ≡ poll_overlap) ⊎ (reason ≡ poll_closed)
      → Poll r (record r { transport = next; made = r.made + 1 })
  sends_claim :
      (packets payload : List Packet) (ch : Channel) (next : PollingTransport)
      → polling_send packets r.transport ≡ (some (ch, payload), next)
      → Poll r (record r { transport = next; claimed = r.claimed ++ (ch, payload) ∷ [] })
  noop_claims :
      (payload : List Packet) (ch : Channel) (next : PollingTransport)
      → write_noop r.transport ≡ (some (ch, payload), next)
      → Poll r (record r { transport = next; claimed = r.claimed ++ (ch, payload) ∷ [] })
  close_claims :
      (payload : List Packet) (ch : Channel) (next : PollingTransport)
      → polling_close r.transport ≡ (some (ch, payload), next)
      → Poll r (record r { transport = next; claimed = r.claimed ++ (ch, payload) ∷ [] })
  close_claims_none :
      (next : PollingTransport)
      → polling_close r.transport ≡ (none, next)
      → Poll r (record r { transport = next })
  releases :
      (ch : Channel) (next : PollingTransport)
      → release_poll ch r.transport ≡ (true, next)
      → Poll r (record r { transport = next; released = r.released ++ ch ∷ [] })

pub data Polled : Polls → Type 0 where
  unpolled : Polled no_polls
  polls_on : (r r' : Polls) → Polled r → Poll r r' → Polled r'
