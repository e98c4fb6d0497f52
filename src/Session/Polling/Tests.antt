-- ===== src/Session/Polling/Tests.antt =====
-- server_transport_polling.go: the theorems on a transport that holds a poll.
use go_engine_io.Base.{◌≡◌, ◌≤◌, refl, false, none, some, [], ◌∷◌}
use go_engine_io.Codec.Packet.{bare, packet_noop}
use go_engine_io.Session.Polling.{
  PollingTransport, new_polling_transport, write_noop, hold, release_poll, Polls, holds_poll,
  noop_claims, Polled, unpolled, polls_on,
}
use go_engine_io.Session.Polling.Once.{claims, times, poll_claimed_once}

abbrev holding : PollingTransport
holding = record { closed = false; data_ch = some 0 }

abbrev empty : PollingTransport
empty = record { closed = false; data_ch = none }

-- A poll was held and has been answered with a noop.
abbrev answered : Polls
answered = record {
  transport = empty;
  made = 1;
  held = 0 ∷ [];
  claimed = (0, bare packet_noop ∷ []) ∷ [];
  released = [];
}

answered-Polled : Polled answered
unfolding new_polling_transport hold write_noop
answered-Polled =
    polls_on _ _ (polls_on _ _ unpolled (holds_poll holding refl))
      (noop_claims (bare packet_noop ∷ []) 0 empty refl)

poll_claimed_once_example :
    (claims 0 answered.claimed ≤ 1)
    × (times 0 answered.held ≡ 1
        → times 0 answered.released ≡ 0
        → (release_poll 0 answered.transport).0 ≡ false
        → claims 0 answered.claimed ≡ 1)
poll_claimed_once_example = poll_claimed_once answered 0 answered-Polled
