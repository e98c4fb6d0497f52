-- ===== src/Session/Polling/Once.antt =====
-- server_transport_polling.go: every poll is answered once, given up, or still held.
use go_engine_io.Base.{
  ℕ, ◌+◌, ◌≤◌, ◌≡◌, ◌⊎◌, inl, inr, refl, arith, Bool, true, false, none, some, List, [], ◌∷◌, ◌++◌,
  ◌==◌, Bool-cases,
}
use go_engine_io.Codec.Packet.{Packet}
use go_engine_io.Session.Socket.{Channel}
use go_engine_io.Session.Polling.{
  PollingTransport, new_polling_transport, polling_send, write_noop, polling_close, HoldResult,
  poll_held, poll_overlap, poll_closed, hold, held_now, release_poll, Polls, Poll, holds_poll,
  refuses_poll, sends_claim, noop_claims, close_claims, close_claims_none, releases, Polled,
  unpolled, polls_on,
}

abbrev pub one_if : Bool → ℕ
one_if true = 1
one_if false = 0

-- How often a channel was held or given up, and how often it was claimed.
abbrev pub times : Channel → List Channel → ℕ
times c [] = 0
times c (x ∷ xs) = one_if (x == c) + times c xs

abbrev pub claims : Channel → List (Channel × List Packet) → ℕ
claims c [] = 0
claims c ((x, packets) ∷ xs) = one_if (x == c) + claims c xs

times-snoc :
    (c x : Channel) (xs : List Channel) → times c (xs ++ x ∷ []) ≡ times c xs + one_if (x == c)
times-snoc c x [] = omega arith
times-snoc c x (y ∷ xs) = omega (arith, times-snoc c x xs)

claims-snoc :
    (c x : Channel) (packets : List Packet) (xs : List (Channel × List Packet))
    → claims c (xs ++ (x, packets) ∷ []) ≡ claims c xs + one_if (x == c)
claims-snoc c x packets [] = omega arith
claims-snoc c x packets ((y, p) ∷ xs) = omega (arith, claims-snoc c x packets xs)

-- The balance of a channel.
pub record IsBalanced (r : Polls) (c : Channel) : Type 0 where
  pub balance :
      claims c r.claimed + times c r.released + one_if (held_now r.transport.data_ch c)
      ≡ times c r.held
  pub once : times c r.held ≤ 1
  pub unmade : r.made ≤ c → times c r.held ≡ 0

-- What a claim does to the channel that the transport holds.
pub record IsClaim (ch : Channel) (t next : PollingTransport) : Type 0 where
  pub was_held : t.data_ch ≡ some ch
  pub is_free : next.data_ch ≡ none

polling_send-IsClaim :
    (packets payload : List Packet) (ch : Channel) (t next : PollingTransport)
    → polling_send packets t ≡ (some (ch, payload), next)
    → IsClaim ch t next
unfolding polling_send
polling_send-IsClaim packets payload ch t next e = ground arith

write_noop-IsClaim :
    (payload : List Packet) (ch : Channel) (t next : PollingTransport)
    → write_noop t ≡ (some (ch, payload), next)
    → IsClaim ch t next
unfolding write_noop
write_noop-IsClaim payload ch t next e = ground arith

polling_close-IsClaim :
    (payload : List Packet) (ch : Channel) (t next : PollingTransport)
    → polling_close t ≡ (some (ch, payload), next)
    → IsClaim ch t next
unfolding polling_close
polling_close-IsClaim payload ch t next e = ground arith

IsBalanced-claim :
    (r : Polls) (ch c : Channel) (payload : List Packet) (next : PollingTransport)
    → IsClaim ch r.transport next
    → IsBalanced r c
    → IsBalanced (record r { transport = next; claimed = r.claimed ++ (ch, payload) ∷ [] }) c
IsBalanced-claim r ch c payload next k b = record {
  balance = ground (arith, k.was_held, k.is_free, b.balance, claims-snoc c ch payload r.claimed);
  once = b.once;
  unmade = b.unmade;
}

hold-poll_held :
    (ch : Channel) (t next : PollingTransport)
    → hold ch t ≡ (poll_held, next)
    → (t.data_ch ≡ none) × (next.data_ch ≡ some ch)
unfolding hold
hold-poll_held ch t next e = ground arith

hold-refused :
    (ch : Channel) (t next : PollingTransport) (reason : HoldResult)
    → hold ch t ≡ (reason, next)
    → (reason ≡ poll_overlap) ⊎ (reason ≡ poll_closed)
    → next ≡ t
unfolding hold
hold-refused ch t next reason e why = ground arith

polling_close-none :
    (t next : PollingTransport) → polling_close t ≡ (none, next) → next.data_ch ≡ t.data_ch
unfolding polling_close
polling_close-none t next e = ground arith

release_poll-true :
    (ch : Channel) (t next : PollingTransport)
    → release_poll ch t ≡ (true, next)
    → (t.data_ch ≡ some ch) × (next.data_ch ≡ none)
unfolding release_poll
release_poll-true ch t next e = ground arith

IsBalanced-hold :
    (r : Polls) (c : Channel) (next : PollingTransport)
    → r.transport.data_ch ≡ none
    → next.data_ch ≡ some r.made
    → IsBalanced r c
    → IsBalanced (record r { transport = next; made = r.made + 1; held = r.held ++ r.made ∷ [] }) c
IsBalanced-hold r c next was now b = elim (Bool-cases (r.made == c)) [
  | inl e ↦ record {
    balance = ground (arith, was, now, e, b.balance, times-snoc c r.made r.held);
    once = ground (arith, e, b.unmade, times-snoc c r.made r.held);
    unmade = ground (arith, e);
  }
  | inr e ↦ record {
    balance = ground (arith, was, now, e, b.balance, times-snoc c r.made r.held);
    once = ground (arith, e, b.once, times-snoc c r.made r.held);
    unmade = ground (arith, e, b.unmade, times-snoc c r.made r.held);
  }
]

IsBalanced-transport :
    (r : Polls) (c : Channel) (next : PollingTransport)
    → next.data_ch ≡ r.transport.data_ch
    → IsBalanced r c
    → IsBalanced (record r { transport = next }) c
IsBalanced-transport r c next same b = record {
  balance = ground (arith, same, b.balance);
  once = b.once;
  unmade = b.unmade;
}

IsBalanced-Poll : (r r' : Polls) (c : Channel) → Poll r r' → IsBalanced r c → IsBalanced r' c
IsBalanced-Poll r _ c (holds_poll next e) b =
    let (was, now) = hold-poll_held r.made r.transport next e in IsBalanced-hold r c next was now b
IsBalanced-Poll r _ c (refuses_poll reason next e why) b =
    let same = hold-refused r.made r.transport next reason e why in
    record {
      balance = ground (arith, same, b.balance);
      once = b.once;
      unmade = λ h. b.unmade (omega (arith, h));
    }
IsBalanced-Poll r _ c (sends_claim packets payload ch next e) b =
    IsBalanced-claim r ch c payload next
      (polling_send-IsClaim packets payload ch r.transport next e) b
IsBalanced-Poll r _ c (noop_claims payload ch next e) b =
    IsBalanced-claim r ch c payload next (write_noop-IsClaim payload ch r.transport next e) b
IsBalanced-Poll r _ c (close_claims payload ch next e) b =
    IsBalanced-claim r ch c payload next (polling_close-IsClaim payload ch r.transport next e) b
IsBalanced-Poll r _ c (close_claims_none next e) b =
    IsBalanced-transport r c next (polling_close-none r.transport next e) b
IsBalanced-Poll r _ c (releases ch next e) b =
    let (was, now) = release_poll-true ch r.transport next e in
    record {
      balance = ground (arith, was, now, b.balance, times-snoc c ch r.released);
      once = b.once;
      unmade = b.unmade;
    }

Polled-IsBalanced : (r : Polls) (c : Channel) → Polled r → IsBalanced r c
unfolding new_polling_transport
Polled-IsBalanced _ c unpolled = record {
  balance = omega arith;
  once = omega arith;
  unmade = λ h. refl;
}
Polled-IsBalanced _ c (polls_on r r' before step) =
    IsBalanced-Poll r r' c step (Polled-IsBalanced r c before)

-- In every reachable transport no poll is claimed by two deliveries, so that a channel that holds
-- one payload never blocks its sender; and a poll that was held and was not given up before is
-- claimed by exactly one delivery when releasing it reports false, so that the wait for that
-- delivery ends.
pub poll_claimed_once :
    (r : Polls) (c : Channel)
    → Polled r
    → (claims c r.claimed ≤ 1)
      × (times c r.held ≡ 1
          → times c r.released ≡ 0
          → (release_poll c r.transport).0 ≡ false
          → claims c r.claimed ≡ 1)
unfolding release_poll
poll_claimed_once r c reach =
    let b = Polled-IsBalanced r c reach in
    (
      ground (arith, b.balance, b.once),
      λ held kept lost. ground (arith, held, kept, lost, b.balance),
    )
