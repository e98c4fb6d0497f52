-- ===== src/Client/Polling/Delivery.antt =====
-- socket_transport_polling.go: what the polls deliver, and what stops them.
use go_engine_io.Base.{
  ℕ, arith, true, ◌≡◌, ◌⊎◌, inl, inr, refl, ap, sym, ◌∙◌, Bool, false, not, ◌&&◌, none, some, List,
  [], ◌∷◌, ◌++◌, append-nil, append_assoc, length, Bool-cases, ◌==◌, ==_iff, if◌then◌else◌, if-both,
}
use go_engine_io.Codec.Packet.{Packet, Bytes, packet_open, packet_close}
use go_engine_io.Codec.Result.{Error, ok, err, Result-cases}
use go_engine_io.Codec.Payload.{decode_payload}
use go_engine_io.Session.Socket.{Handler}
use go_engine_io.Session.Operations.{Cause}
use go_engine_io.Server.Post.Delivery.{decode_payload-nonempty}
use go_engine_io.Client.Transport.{
  is_transport_opening, is_transport_open, is_transport_closed, TransportError, calls_on_open,
  calls_on_close, calls_on_error, delivered,
}
use go_engine_io.Client.Events.{notify-quiet, notify-packet}
use go_engine_io.Client.Polling.{
  PollingClient, polling_on_open, polling_on_close, polling_on_packet, polling_on_error, Response,
  no_response, responded, dispatch_packets, on_data, poll_response,
}

-- What a step of the transport keeps: its packet handler and what was delivered.
record IsQuietStep (t next : PollingClient) : Type 0 where
  pub same_handlers : next.handlers ≡ t.handlers
  pub same_delivered : delivered next.events ≡ delivered t.events

polling_on_open-IsQuietStep : (t : PollingClient) → IsQuietStep t (polling_on_open t)
unfolding polling_on_open
polling_on_open-IsQuietStep t = record {
  same_handlers = refl;
  same_delivered = notify-quiet t.handlers.on_open_handler calls_on_open t.events (λ h. refl);
}

polling_on_close-IsQuietStep : (t : PollingClient) → IsQuietStep t (polling_on_close t)
unfolding polling_on_close
polling_on_close-IsQuietStep t = elim (Bool-cases (is_transport_closed t.state)) [
  | inl c ↦ rw c (record { same_handlers = refl; same_delivered = refl })
  | inr c ↦ rw c (record {
    same_handlers = refl;
    same_delivered = notify-quiet t.handlers.on_close_handler calls_on_close t.events (λ h. refl);
  })
]

polling_on_error-IsQuietStep :
    (e : TransportError) (t : PollingClient) → IsQuietStep t (polling_on_error e t)
unfolding polling_on_error
polling_on_error-IsQuietStep e t = record {
  same_handlers = refl;
  same_delivered =
      notify-quiet t.handlers.on_error_handler (λ h. calls_on_error h e) t.events (λ h. refl);
}

-- The transport behind the switch of onData.
abbrev pub switched : Packet → PollingClient → PollingClient
switched packet t =
    if (packet.type == packet_open) && is_transport_opening t.state
    then polling_on_open t
    else if (packet.type == packet_close) && not (is_transport_closed t.state)
    then polling_on_close t
    else t

switched-IsQuietStep : (p : Packet) (t : PollingClient) → IsQuietStep t (switched p t)
switched-IsQuietStep p t =
    let P : PollingClient → Type 0 = IsQuietStep t in
    if-both P _ _ _ (polling_on_open-IsQuietStep t) (
      if-both P _ _ _ (polling_on_close-IsQuietStep t)
        (record { same_handlers = refl; same_delivered = refl }))

pub dispatch_packets-handlers :
    (ps : List Packet) (t : PollingClient) → (dispatch_packets ps t).handlers ≡ t.handlers
unfolding dispatch_packets polling_on_packet
dispatch_packets-handlers [] t = refl
dispatch_packets-handlers (p ∷ ps) t =
    dispatch_packets-handlers ps (polling_on_packet p (switched p t))
    ∙ (switched-IsQuietStep p t).same_handlers

pub delivered-dispatch_packets :
    (h : Handler) (ps : List Packet) (t : PollingClient)
    → t.handlers.on_packet_handler ≡ some h
    → delivered (dispatch_packets ps t).events ≡ delivered t.events ++ ps
unfolding dispatch_packets polling_on_packet
delivered-dispatch_packets h [] t e = sym (append-nil (delivered t.events))
delivered-dispatch_packets h (p ∷ ps) t e =
    let now = switched p t in
    let quiet = switched-IsQuietStep p t in
    let has_handler = ap (λ hs. hs.on_packet_handler) quiet.same_handlers ∙ e in
    delivered-dispatch_packets h ps (polling_on_packet p now) has_handler
    ∙ ap (λ xs. xs ++ ps) (notify-packet now.handlers.on_packet_handler h p now.events has_handler)
    ∙ append_assoc (delivered now.events) (p ∷ []) ps
    ∙ ap (λ xs. xs ++ p ∷ ps) quiet.same_delivered

-- A response with a body that comes whole, with status 200, and decodes.
abbrev pub Carries : Response → Bytes → List Packet → Type 0
Carries response content packets =
    (response ≡ responded 200 none content) × (decode_payload 4 content ≡ ok packets)

-- What a poll whose response carries no packets does: it delivers nothing, keeps the state, and
-- schedules no poll.
pub record IsStopped (t : PollingClient) (response : Response) (out : Bool × PollingClient)
    : Type 0 where
  pub carries_none : (content : Bytes) (packets : List Packet) → ¬ Carries response content packets
  pub stops : out.0 ≡ false
  pub keeps_state : out.1.state ≡ t.state
  pub delivers_none : delivered out.1.events ≡ delivered t.events

abbrev CarriesNone : Response → Type 0
CarriesNone response =
    (content : Bytes) (packets : List Packet) → ¬ Carries response content packets

IsStopped-error :
    (e : TransportError) (t : PollingClient) (response : Response)
    → CarriesNone response
    → IsStopped t response (false, polling_on_error e t)
unfolding polling_on_error
IsStopped-error e t response n = record {
  carries_none = n;
  stops = refl;
  keeps_state = refl;
  delivers_none = (polling_on_error-IsQuietStep e t).same_delivered;
}

-- What an answer with another body would have to be.
responded-injective :
    (status : ℕ) (body content : Bytes)
    → responded status none body ≡ responded 200 none content
    → (status ≡ 200) × (body ≡ content)
responded-injective status body content e = (cc, cc)

no_response-CarriesNone : (cause : Cause) → CarriesNone (no_response cause)
no_response-CarriesNone cause content packets c = let e = c.0 in cc

cut-CarriesNone :
    (status : ℕ) (cause : Cause) (body : Bytes) → CarriesNone (responded status (some cause) body)
cut-CarriesNone status cause body content packets c = let e = c.0 in cc

status-CarriesNone :
    (status : ℕ) (body : Bytes) → (status == 200) ≡ false → CarriesNone (responded status none body)
status-CarriesNone status body s content packets c =
    let (e, _) = responded-injective status body content c.0 in ground (arith, e, s)

empty-CarriesNone :
    (status : ℕ) (body : Bytes)
    → (length body == 0) ≡ true
    → CarriesNone (responded status none body)
empty-CarriesNone status body z content packets c =
    let (_, e) = responded-injective status body content c.0 in
    decode_payload-nonempty content packets c.1 (ap length (sym e) ∙ (==_iff (length body) 0).0 z)

malformed-CarriesNone :
    (body : Bytes) (x : Error)
    → decode_payload 4 body ≡ err x
    → CarriesNone (responded 200 none body)
malformed-CarriesNone body x d content packets c =
    let (_, e) = responded-injective 200 body content c.0 in
    let clash : err x ≡ ok packets = sym d ∙ ap (decode_payload 4) e ∙ c.1 in cc

-- What a poll that succeeds does: it delivers the packets of its body, in order, and schedules a
-- poll exactly when the transport is open behind them.
pub record IsDelivered (t : PollingClient) (response : Response) (out : Bool × PollingClient)
    : Type 0 where
  pub content : Bytes
  pub packets : List Packet
  pub carries : Carries response content packets
  pub delivers : delivered out.1.events ≡ delivered t.events ++ packets
  pub schedules : out.0 ≡ is_transport_open out.1.state

on_data-IsDelivered :
    (h : Handler) (content : Bytes) (t : PollingClient)
    → t.handlers.on_packet_handler ≡ some h
    → IsDelivered t (responded 200 none content) (on_data content t)
      ⊎ IsStopped t (responded 200 none content) (on_data content t)
unfolding on_data
on_data-IsDelivered h content t e = elim (Result-cases (decode_payload 4 content)) [
  | inr (x, d) ↦ inr (rw (d, on_data) (IsStopped-error _ t _ (malformed-CarriesNone content x d)))
  | inl (packets, d) ↦ inl (
      rw (d, on_data)
        (record {
          content = content;
          packets = packets;
          carries = (refl, d);
          delivers = delivered-dispatch_packets h packets t e;
          schedules = refl;
        }))
]

-- A response with status 200 whose body comes whole and decodes delivers the packets of that body, in
-- order, and then the next poll is scheduled exactly when the transport is open; every other
-- response, an empty body included, delivers nothing, keeps the state and schedules no poll.
pub poll_response-IsDelivered :
    (h : Handler) (response : Response) (t : PollingClient)
    → t.handlers.on_packet_handler ≡ some h
    → IsDelivered t response (poll_response response t)
      ⊎ IsStopped t response (poll_response response t)
unfolding poll_response
poll_response-IsDelivered h (no_response cause) t e =
    inr (IsStopped-error _ t _ (no_response-CarriesNone cause))
poll_response-IsDelivered h (responded status (some cause) body) t e =
    let none_carried = cut-CarriesNone status cause body in
    inr (elim (Bool-cases (status == 200)) [
      | inl s ↦ rw s (IsStopped-error _ t _ none_carried)
      | inr s ↦ rw s (IsStopped-error _ t _ none_carried)
    ])
poll_response-IsDelivered h (responded status none body) t e = elim (Bool-cases (status == 200)) [
  | inr s ↦ inr (rw (s, poll_response) (IsStopped-error _ t _ (status-CarriesNone status body s)))
  | inl s ↦ elim (Bool-cases (length body == 0)) [
    | inl z ↦ inr (
        rw (s, z)
          (record {
            carries_none = empty-CarriesNone status body z;
            stops = refl;
            keeps_state = refl;
            delivers_none = refl;
          }))
    | inr z ↦ rw ((==_iff status 200).0 s, z) (on_data-IsDelivered h body t e)
  ]
]
