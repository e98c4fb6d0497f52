-- ===== src/Client/Polling/Posts.antt =====
-- socket_transport_polling.go and server.go: what the client posts is what the session handles.
use go_engine_io.Base.{
  ℕ, ◌+◌, ◌<◌, ◌^◌, ◌≡◌, ◌≤◌, refl, arith, true, false, none, some, List, ◌∷◌, length, All, ◌==◌,
}
use go_engine_io.Base.Int.{pos}
use go_engine_io.Codec.Packet.{Packet, Bytes}
use go_engine_io.Codec.Result.{Error}
use go_engine_io.Codec.Payload.Separated.{encode_payload}
use go_engine_io.Codec.Payload.Separated.RoundTrip.{Fits}
use go_engine_io.Codec.Payload.Versions.{decode_payload-encode_payload}
use go_engine_io.Session.Operations.{World, Cause}
use go_engine_io.Server.Request.{method_post}
use go_engine_io.Server.Post.{status_ok, handle_packets, handle_send}
use go_engine_io.Server.Post.Delivery.{decode_payload-nonempty, handle_send-encode_payload}
use go_engine_io.Client.Transport.{is_transport_open}
use go_engine_io.Client.Polling.{PollingClient, HttpRequest, request, polling_client_send}

-- An open polling transport sends packets as one POST to its own URL; when they are valid, no text
-- among them has the record separator, and the body is within the server's limit, which is below the
-- largest `int`, the server acknowledges that body and has the session handle exactly those packets
-- in order.
pub polling_client_send-handle_send :
    (cause_of : Error → Cause) (max_payload : ℕ) (url stamp : Bytes) (p : Packet) (ps : List Packet)
    (t : PollingClient) (w : World)
    → is_transport_open t.state ≡ true
    → All Fits (p ∷ ps)
    → length (encode_payload (p ∷ ps)) ≤ max_payload
    → max_payload + 1 < 2 ^ 63
    → (sends : HttpRequest) × (polling_client_send url stamp (p ∷ ps) t ≡ some sends)
      × (sends.request_method ≡ method_post)
      × (sends.target ≡ url)
      × (handle_send cause_of
            (pos max_payload)
            (record { is_octet_stream = false; content = sends.request_body; failure = none })
            w
          ≡ (status_ok, handle_packets (p ∷ ps) w))
unfolding polling_client_send request
polling_client_send-handle_send cause_of max_payload url stamp p ps t w o fits h top =
    let n =
      decode_payload-nonempty (encode_payload (p ∷ ps)) (p ∷ ps)
        (decode_payload-encode_payload p ps fits) in
    let z : (length (encode_payload (p ∷ ps)) == 0) ≡ false = ground (arith, n) in
    rw (o, z)
      (_, refl, refl, refl, handle_send-encode_payload cause_of max_payload p ps w fits h top)
