-- ===== src/Client/Loops.antt =====
-- socket_transport_websocket.go and socket_transport_webtransport.go: the two read loops of the
-- client do the same, and deliver what the server sent.
use go_engine_io.Base.{
  ℕ, zero, suc, ◌<◌, ◌≡◌, refl, arith, Bool, List, [], ◌∷◌, All, length, if◌then◌else◌,
}
use go_engine_io.Base.Int.{pos}
use go_engine_io.Codec.Packet.{Packet, IsValid}
use go_engine_io.Codec.Result.{Error, eof, ok}
use go_engine_io.Codec.Frame.{read_webtransport_packet}
use go_engine_io.Codec.WebSocket.{websocket_message, decode_websocket_frame-message}
use go_engine_io.Session.Operations.{Cause}
use go_engine_io.Server.WebSocket.{Read, read_failed, read_message}
use go_engine_io.Server.WebTransport.{
  append_frames, webtransport_read_limit, webtransport_server_read_limit,
}
use go_engine_io.Server.WebTransport.Frames.{IsReadable, read-append_frames}
use go_engine_io.Server.Agreement.{reads_of}
use go_engine_io.Client.Connected.{ConnectedClient, connected_on_close, Closings, is_over}
use go_engine_io.Client.WebSocket.{
  websocket_client_packet, websocket_client_read, websocket_client_loop,
}
use go_engine_io.Client.WebTransport.{
  webtransport_client_packet, webtransport_client_error, webtransport_client_loop,
}

-- A packet that the client's limit lets pass: that of a server which was given no limit.
abbrev pub IsReceivable : Packet → Type 0
IsReceivable = IsReadable (pos 0)

read-received :
    (p : Packet) (ps : List Packet)
    → IsReceivable p
    → read_webtransport_packet (pos webtransport_read_limit) (append_frames [] (p ∷ ps))
      ≡ ok (p, append_frames [] ps)
unfolding webtransport_server_read_limit
read-received p ps r = read-append_frames (pos 0) p ps r

module _ (closings : Closings) (meanwhile : ℕ → Bool) where
  abbrev now : ℕ → ConnectedClient → ConnectedClient
  now n t = if meanwhile n then connected_on_close closings t else t

  pub websocket_client_loop-message :
      (n : ℕ) (p : Packet) (reads : List Read) (t : ConnectedClient)
      → IsValid p
      → websocket_client_loop closings meanwhile n
          (read_message (websocket_message p).0 (websocket_message p).1 ∷ reads)
          t
        ≡ (let (goes_on, next) = websocket_client_packet closings p (now n t) in
            let rest = websocket_client_loop closings meanwhile (suc n) reads next in
            if is_over t then t else if goes_on then rest else next)
  unfolding websocket_client_loop websocket_client_read
  websocket_client_loop-message n p reads t v =
      rw (decode_websocket_frame-message p v, websocket_client_loop, websocket_client_read) refl

  module _ (cause_of : Error → Cause) where
    loops_end_alike :
        (fuel n : ℕ) (t : ConnectedClient)
        → websocket_client_loop closings meanwhile n (read_failed (cause_of eof) ∷ []) t
          ≡ webtransport_client_loop closings cause_of meanwhile (suc fuel) n [] t
    unfolding websocket_client_loop websocket_client_read webtransport_client_loop
        webtransport_client_error read_webtransport_packet
    loops_end_alike fuel n t = refl

    webtransport_client_loop-frame :
        (fuel n : ℕ) (p : Packet) (ps : List Packet) (t : ConnectedClient)
        → IsReceivable p
        → webtransport_client_loop closings cause_of meanwhile
            (suc fuel)
            n
            (append_frames [] (p ∷ ps))
            t
          ≡ (let (goes_on, next) = webtransport_client_packet closings p (now n t) in
              let further =
                webtransport_client_loop closings cause_of meanwhile fuel
                  (suc n)
                  (append_frames [] ps)
                  next in
              if is_over t then t else if goes_on then further else next)
    unfolding webtransport_client_loop
    webtransport_client_loop-frame fuel n p ps t r =
        rw (read-received p ps r, webtransport_client_loop) refl

    packets_agree :
        (p : Packet) (t : ConnectedClient)
        → websocket_client_packet closings p t ≡ webtransport_client_packet closings p t
    unfolding websocket_client_packet webtransport_client_packet
    packets_agree p t = refl

    -- The client's websocket and webtransport read loops do the same: for the same packets that they
    -- can receive, then the end of the connection, and the same closes in between, the transport and
    -- its events are equal, with fuel for one round per packet and one for the end.
    pub client_loops_agree :
        (ps : List Packet) (fuel n : ℕ) (t : ConnectedClient)
        → All IsReceivable ps
        → length ps < fuel
        → websocket_client_loop closings meanwhile n (reads_of ps (read_failed (cause_of eof))) t
          ≡ webtransport_client_loop closings cause_of meanwhile fuel n (append_frames [] ps) t
    unfolding append_frames
    client_loops_agree ps zero n t r h = absurd (omega arith)
    client_loops_agree [] (suc fuel) n t r h = loops_end_alike fuel n t
    client_loops_agree (p ∷ ps) (suc fuel) n t (r, rs) h =
        let last = read_failed (cause_of eof) in
        let next = (webtransport_client_packet closings p (now n t)).1 in
        rw
          (
            websocket_client_loop-message n p (reads_of ps last) t r.valid_packet,
            webtransport_client_loop-frame fuel n p ps t r,
            packets_agree p (now n t),
            client_loops_agree ps fuel (suc n) next rs (omega arith),
          )
          refl
