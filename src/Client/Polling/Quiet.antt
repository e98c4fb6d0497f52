-- ===== src/Client/Polling/Quiet.antt =====
-- socket_transport_polling.go: a paused transport neither polls nor sends.
use go_engine_io.Base.{◌≡◌, refl, arith, false, Option, none, some, List, [], ◌∷◌, inl, inr}
use go_engine_io.Codec.Packet.{Packet, Bytes}
use go_engine_io.Codec.Result.{Result-cases}
use go_engine_io.Codec.Payload.{decode_payload}
use go_engine_io.Client.Polling.{
  PollingClient, polling_on_open, polling_on_close, polling_on_packet, may_poll, begin_pause,
  commit_pause, polling_on_error, on_data, no_response, responded, polling_begin_close,
  polling_client_send, Response, dispatch_packets, poll_response,
}
use go_engine_io.Client.Polling.Delivery.{switched}

-- What goroutines do to the transport other than opening it again: the sections of Pause and of
-- Close, and the dispatch of what a poll was answered with.
pub data Step : Type 0 where
  pauses commits_pause begins_close finishes_close : Step
  dispatches : Response → Step

abbrev pub or_same : Option PollingClient → PollingClient → PollingClient
or_same none t = t
or_same (some next) t = next

unfoldable pub take_step : Step → PollingClient → PollingClient
take_step pauses t = or_same (begin_pause t) t
take_step commits_pause t = commit_pause t
take_step begins_close t = or_same (polling_begin_close t) t
take_step finishes_close t = polling_on_close t
take_step (dispatches response) t = (poll_response response t).1

unfoldable pub take_steps : List Step → PollingClient → PollingClient
take_steps [] t = t
take_steps (step ∷ steps) t = take_steps steps (take_step step t)

abbrev IsQuiet : PollingClient → Type 0
IsQuiet t = may_poll t ≡ false

switched-IsQuiet : (p : Packet) (t : PollingClient) → IsQuiet t → IsQuiet (switched p t)
unfolding may_poll polling_on_open polling_on_close
switched-IsQuiet p t q = ground (arith, q)

dispatch_packets-IsQuiet :
    (ps : List Packet) (t : PollingClient) → IsQuiet t → IsQuiet (dispatch_packets ps t)
unfolding dispatch_packets polling_on_packet may_poll
dispatch_packets-IsQuiet [] t q = q
dispatch_packets-IsQuiet (p ∷ ps) t q =
    dispatch_packets-IsQuiet ps (polling_on_packet p (switched p t)) (switched-IsQuiet p t q)

on_data-IsQuiet : (content : Bytes) (t : PollingClient) → IsQuiet t → IsQuiet (on_data content t).1
unfolding on_data polling_on_error may_poll
on_data-IsQuiet content t q = elim (Result-cases (decode_payload 4 content)) [
  | inl (ps, d) ↦ rw (d, on_data) (dispatch_packets-IsQuiet ps t q)
  | inr (x, d) ↦ rw (d, on_data) q
]

pub poll_response-IsQuiet :
    (response : Response) (t : PollingClient) → IsQuiet t → IsQuiet (poll_response response t).1
unfolding poll_response polling_on_error may_poll
poll_response-IsQuiet (no_response cause) t q = q
poll_response-IsQuiet (responded status (some cause) body) t q = ground (arith, q)
poll_response-IsQuiet (responded status none body) t q = ground (arith, q, on_data-IsQuiet body t q)

take_step-IsQuiet : (step : Step) (t : PollingClient) → IsQuiet t → IsQuiet (take_step step t)
unfolding take_step begin_pause commit_pause polling_begin_close polling_on_close may_poll
take_step-IsQuiet pauses t q = ground (arith, q)
take_step-IsQuiet commits_pause t q = refl
take_step-IsQuiet begins_close t q = ground (arith, q)
take_step-IsQuiet finishes_close t q = ground (arith, q)
take_step-IsQuiet (dispatches response) t q = poll_response-IsQuiet response t q

take_steps-IsQuiet :
    (steps : List Step) (t : PollingClient) → IsQuiet t → IsQuiet (take_steps steps t)
unfolding take_steps
take_steps-IsQuiet [] t q = q
take_steps-IsQuiet (step ∷ steps) t q =
    take_steps-IsQuiet steps (take_step step t) (take_step-IsQuiet step t q)

quiet-sends_none :
    (url stamp : Bytes) (packets : List Packet) (t : PollingClient)
    → IsQuiet t
    → polling_client_send url stamp packets t ≡ none
unfolding polling_client_send may_poll
quiet-sends_none url stamp packets t q = ground (arith, q)

-- Once Pause has marked the transport paused, whatever Pause, Close and the answers of earlier polls
-- do after it, in any order, it makes no poll and sends nothing until it is opened again.
pub paused_sends_none :
    (steps : List Step) (url stamp : Bytes) (packets : List Packet) (t : PollingClient)
    → (may_poll (take_steps steps (commit_pause t)) ≡ false)
      × (polling_client_send url stamp packets (take_steps steps (commit_pause t)) ≡ none)
unfolding commit_pause may_poll
paused_sends_none steps url stamp packets t =
    let quiet = take_steps-IsQuiet steps (commit_pause t) refl in
    (quiet, quiet-sends_none url stamp packets (take_steps steps (commit_pause t)) quiet)
