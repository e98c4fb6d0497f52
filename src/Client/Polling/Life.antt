-- ===== src/Client/Polling/Life.antt =====
-- socket_transport_polling.go: a polling transport from its handshake on.
use go_engine_io.Base.{
  ◌≡◌, ◌≢◌, refl, ap, sym, ◌∙◌, arith, true, false, none, some, List, [], ◌∷◌, ◌++◌, append-nil,
  append_assoc, length, All, ◌==◌, ==_iff,
}
use go_engine_io.Codec.Packet.{Packet, packet_open, packet_close}
use go_engine_io.Codec.Result.{ok}
use go_engine_io.Codec.Payload.{decode_payload}
use go_engine_io.Codec.Payload.Separated.{encode_payload}
use go_engine_io.Codec.Payload.Separated.RoundTrip.{Fits}
use go_engine_io.Codec.Payload.Versions.{decode_payload-encode_payload}
use go_engine_io.Session.Socket.{Handler}
use go_engine_io.Server.Post.Delivery.{decode_payload-nonempty}
use go_engine_io.Client.Transport.{is_transport_opening, is_transport_open, delivered}
use go_engine_io.Client.Polling.{
  PollingClient, polling_on_open, polling_on_packet, may_poll, Response, responded,
  dispatch_packets, on_data, poll_response, poll_loop,
}
use go_engine_io.Client.Polling.Delivery.{
  switched, dispatch_packets-handlers, delivered-dispatch_packets,
}

-- The responses that carry these payloads.
abbrev pub responses_of : List (List Packet) → List Response
responses_of [] = []
responses_of (ps ∷ pss) = responded 200 none (encode_payload ps) ∷ responses_of pss

abbrev pub concat : List (List Packet) → List Packet
concat [] = []
concat (ps ∷ pss) = ps ++ concat pss

-- A payload that the server encodes and that closes nothing.
abbrev pub IsPayload : List Packet → Type 0
IsPayload ps = (length ps ≢ 0) × All Fits ps × All (λ p. p.type ≢ packet_close) ps

decode-IsPayload : (ps : List Packet) → IsPayload ps → decode_payload 4 (encode_payload ps) ≡ ok ps
decode-IsPayload [] (n, fits, c) = absurd (n refl)
decode-IsPayload (p ∷ ps) (n, fits, c) = decode_payload-encode_payload p ps fits

dispatch_packets-open :
    (ps : List Packet) (t : PollingClient)
    → is_transport_open t.state ≡ true
    → All (λ p. p.type ≢ packet_close) ps
    → is_transport_open (dispatch_packets ps t).state ≡ true
unfolding dispatch_packets polling_on_packet polling_on_open
dispatch_packets-open [] t o c = o
dispatch_packets-open (p ∷ ps) t o (c, cs) =
    dispatch_packets-open ps (polling_on_packet p (switched p t))
      (ground (arith, o, c, ==_iff p.type packet_close)) cs

poll_response-payload :
    (ps : List Packet) (t : PollingClient)
    → IsPayload ps
    → poll_response (responded 200 none (encode_payload ps)) t
      ≡ (is_transport_open (dispatch_packets ps t).state, dispatch_packets ps t)
unfolding poll_response on_data
poll_response-payload ps t k =
    let d = decode-IsPayload ps k in
    let n = decode_payload-nonempty (encode_payload ps) ps d in
    let z : (length (encode_payload ps) == 0) ≡ false = ground (arith, n) in rw (z, d, on_data) refl

open-may_poll : (t : PollingClient) → is_transport_open t.state ≡ true → may_poll t ≡ true
unfolding may_poll
open-may_poll t o = ground arith

-- One round of the loop whose poll delivers a payload and leaves the transport open.
poll_loop-payload :
    (ps : List Packet) (responses : List Response) (t : PollingClient)
    → IsPayload ps
    → may_poll t ≡ true
    → is_transport_open (dispatch_packets ps t).state ≡ true
    → poll_loop (responded 200 none (encode_payload ps) ∷ responses) t
      ≡ poll_loop responses (dispatch_packets ps t)
unfolding poll_loop
poll_loop-payload ps responses t k m o = rw (poll_response-payload ps t k, m, o) refl

-- What is delivered and where the transport stands.
abbrev pub Delivers : List Packet → PollingClient → PollingClient → Type 0
Delivers ps t next =
    (delivered next.events ≡ delivered t.events ++ ps) × (is_transport_open next.state ≡ true)

poll_loop-Delivers :
    (h : Handler) (pss : List (List Packet)) (t : PollingClient)
    → t.handlers.on_packet_handler ≡ some h
    → is_transport_open t.state ≡ true
    → All IsPayload pss
    → Delivers (concat pss) t (poll_loop (responses_of pss) t)
unfolding poll_loop
poll_loop-Delivers h [] t e o k = (sym (append-nil (delivered t.events)), o)
poll_loop-Delivers h (ps ∷ pss) t e o (k, ks) =
    let next = dispatch_packets ps t in
    let still = dispatch_packets-open ps t o (k.2) in
    let has_handler = ap (λ hs. hs.on_packet_handler) (dispatch_packets-handlers ps t) ∙ e in
    let (delivers, ends_open) = poll_loop-Delivers h pss next has_handler still ks in
    rw (poll_loop-payload ps (responses_of pss) t k (open-may_poll t o) still) (
      delivers
          ∙ ap (λ xs. xs ++ concat pss) (delivered-dispatch_packets h ps t e)
          ∙ append_assoc (delivered t.events) ps (concat pss),
      ends_open,
    )

opening-dispatch_packets :
    (p : Packet) (ps : List Packet) (t : PollingClient)
    → is_transport_opening t.state ≡ true
    → p.type ≡ packet_open
    → All (λ q. q.type ≢ packet_close) (p ∷ ps)
    → is_transport_open (dispatch_packets (p ∷ ps) t).state ≡ true
unfolding dispatch_packets polling_on_packet polling_on_open
opening-dispatch_packets p ps t o e (c, cs) =
    dispatch_packets-open ps (polling_on_packet p (switched p t))
      (ground (arith, o, e, ==_iff p.type packet_open)) cs

opening-may_poll : (t : PollingClient) → is_transport_opening t.state ≡ true → may_poll t ≡ true
unfolding may_poll
opening-may_poll t o = ground arith

-- The life of a polling transport from its handshake: when the server answers the first poll with a
-- payload that starts with the open packet, and every further poll with a payload, none of them with
-- a close packet, the transport is open behind them and its packet handler has had every packet of
-- every payload, in order, once.
pub polls_deliver :
    (h : Handler) (p : Packet) (ps : List Packet) (pss : List (List Packet)) (t : PollingClient)
    → t.handlers.on_packet_handler ≡ some h
    → is_transport_opening t.state ≡ true
    → p.type ≡ packet_open
    → IsPayload (p ∷ ps)
    → All IsPayload pss
    → (delivered (poll_loop (responses_of ((p ∷ ps) ∷ pss)) t).events
        ≡ delivered t.events ++ concat ((p ∷ ps) ∷ pss))
      × (is_transport_open (poll_loop (responses_of ((p ∷ ps) ∷ pss)) t).state ≡ true)
polls_deliver h p ps pss t e o is_open k ks =
    let next = dispatch_packets (p ∷ ps) t in
    let still = opening-dispatch_packets p ps t o is_open k.2 in
    let has_handler = ap (λ hs. hs.on_packet_handler) (dispatch_packets-handlers (p ∷ ps) t) ∙ e in
    let (delivers, ends_open) = poll_loop-Delivers h pss next has_handler still ks in
    rw (poll_loop-payload (p ∷ ps) (responses_of pss) t k (opening-may_poll t o) still) (
      delivers
          ∙ ap (λ xs. xs ++ concat pss) (delivered-dispatch_packets h (p ∷ ps) t e)
          ∙ append_assoc (delivered t.events) (p ∷ ps) (concat pss),
      ends_open,
    )
