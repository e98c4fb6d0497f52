-- ===== src/Client/Received.antt =====
-- socket_transport_websocket.go: what the server sent is what the client's packet handler gets.
use go_engine_io.Base.{
  ℕ, suc, ◌≡◌, refl, ap, sym, ◌∙◌, arith, true, false, none, some, List, [], ◌∷◌, ◌++◌, append-nil,
  append_assoc, All, Bool-cases, inl, inr, ◌==◌, if◌then◌else◌,
}
use go_engine_io.Codec.Packet.{Packet, IsValid, packet_close}
use go_engine_io.Session.Socket.{Handler}
use go_engine_io.Session.Operations.{Cause}
use go_engine_io.Server.WebSocket.{read_failed}
use go_engine_io.Server.Agreement.{reads_of}
use go_engine_io.Client.Transport.{
  transport_closed, is_transport_closed, read_error, calls_on_packet, delivered,
}
use go_engine_io.Client.Events.{notify-packet, close_calls, notify-no_close}
use go_engine_io.Client.Connected.{
  ConnectedClient, connected_on_packet, connected_on_error, Closings, is_over, is_deliberate,
}
use go_engine_io.Client.WebSocket.{
  websocket_client_packet, websocket_client_read, websocket_client_loop,
}
use go_engine_io.Client.Loops.{websocket_client_loop-message}
use go_engine_io.Client.TornDown.{connected_on_error-IsSilent, connected_on_close-IsTornDown}

-- The packets up to the first close packet, that one included.
abbrev pub until_close : List Packet → List Packet
until_close [] = []
until_close (p ∷ ps) =
    let rest = until_close ps in if p.type == packet_close then p ∷ [] else p ∷ rest

-- What a loop leaves behind: the packets delivered, a closed transport, and one close reported.
pub record IsFinished (ps : List Packet) (t next : ConnectedClient) : Type 0 where
  pub delivers : delivered next.events ≡ delivered t.events ++ ps
  pub closed : next.state ≡ transport_closed
  pub released : next.connection ≡ none
  pub one_close : close_calls next.events ≡ suc (close_calls t.events)

-- What a delivered packet does to the transport.
record IsPacketStep (p : Packet) (t next : ConnectedClient) : Type 0 where
  pub same_handlers : next.handlers ≡ t.handlers
  pub same_state : next.state ≡ t.state
  pub same_connection : next.connection ≡ t.connection
  pub one_more : delivered next.events ≡ delivered t.events ++ p ∷ []
  pub same_closes : close_calls next.events ≡ close_calls t.events

connected_on_packet-IsPacketStep :
    (h : Handler) (p : Packet) (t : ConnectedClient)
    → t.handlers.on_packet_handler ≡ some h
    → IsPacketStep p t (connected_on_packet p t)
unfolding connected_on_packet
connected_on_packet-IsPacketStep h p t e = record {
  same_handlers = refl;
  same_state = refl;
  same_connection = refl;
  one_more = notify-packet t.handlers.on_packet_handler h p t.events e;
  same_closes =
      notify-no_close t.handlers.on_packet_handler (λ g. calls_on_packet g p) t.events (λ g. refl);
}

-- A transport on which the read loop runs, with the two handlers.
pub record IsLive (h k : Handler) (t : ConnectedClient) : Type 0 where
  pub packet_handler : t.handlers.on_packet_handler ≡ some h
  pub close_handler : t.handlers.on_close_handler ≡ some k
  pub not_over : is_over t ≡ false

not_over-closed : (t : ConnectedClient) → is_over t ≡ false → is_transport_closed t.state ≡ false
not_over-closed t o = ground (arith, o)

not_over-deliberate : (t : ConnectedClient) → is_over t ≡ false → is_deliberate t ≡ false
not_over-deliberate t o = ground (arith, o)

IsLive-packet :
    (h k : Handler) (p : Packet) (t next : ConnectedClient)
    → IsPacketStep p t next
    → IsLive h k t
    → IsLive h k next
IsLive-packet h k p t next s live = record {
  packet_handler = ap (λ hs. hs.on_packet_handler) s.same_handlers ∙ live.packet_handler;
  close_handler = ap (λ hs. hs.on_close_handler) s.same_handlers ∙ live.close_handler;
  not_over = ground (arith, s.same_state, s.same_connection, live.not_over);
}

module _ (closings : Closings) (h k : Handler) (cause : Cause) where
  abbrev loop : ℕ → List Packet → ConnectedClient → ConnectedClient
  loop n ps t = websocket_client_loop closings (λ m. false) n (reads_of ps (read_failed cause)) t

  loop-end : (n : ℕ) (t : ConnectedClient) → IsLive h k t → IsFinished [] t (loop n [] t)
  unfolding websocket_client_loop websocket_client_read
  loop-end n t live =
      let told = connected_on_error (read_error cause) t in
      let silent = connected_on_error-IsSilent (read_error cause) t in
      let has_handler = ap (λ hs. hs.on_close_handler) silent.same_handlers ∙ live.close_handler in
      let torn =
        connected_on_close-IsTornDown closings k told has_handler
          (unfold connected_on_error in not_over-closed t live.not_over) in
      rw (live.not_over, not_over-deliberate t live.not_over)
        (record {
          delivers =
              torn.same_delivered ∙ silent.same_delivered ∙ sym (append-nil (delivered t.events));
          closed = torn.closed;
          released = torn.released;
          one_close = torn.one_close ∙ ap suc silent.same_closes;
        })

  loop-close :
      (n : ℕ) (p : Packet) (ps : List Packet) (t : ConnectedClient)
      → IsLive h k t
      → IsValid p
      → (p.type == packet_close) ≡ true
      → IsFinished (p ∷ []) t (loop n (p ∷ ps) t)
  unfolding websocket_client_packet
  loop-close n p ps t live v c =
      let handed = connected_on_packet p t in
      let step = connected_on_packet-IsPacketStep h p t live.packet_handler in
      let still = IsLive-packet h k p t handed step live in
      let torn =
        connected_on_close-IsTornDown closings k handed still.close_handler
          (not_over-closed handed still.not_over) in
      rw
        (
          websocket_client_loop-message closings (λ m. false) n p (reads_of ps (read_failed cause))
              t v,
          live.not_over,
          c,
        )
        (record {
          delivers = torn.same_delivered ∙ step.one_more;
          closed = torn.closed;
          released = torn.released;
          one_close = torn.one_close ∙ ap suc step.same_closes;
        })

  loop-other :
      (n : ℕ) (p : Packet) (ps : List Packet) (t : ConnectedClient)
      → IsLive h k t
      → IsValid p
      → (p.type == packet_close) ≡ false
      → loop n (p ∷ ps) t ≡ loop (suc n) ps (connected_on_packet p t)
  unfolding websocket_client_packet
  loop-other n p ps t live v c =
      rw
        (
          websocket_client_loop-message closings (λ m. false) n p (reads_of ps (read_failed cause))
              t v,
          live.not_over,
          c,
        )
        refl

  -- The client's websocket read loop on the messages that carry valid packets, until the connection
  -- ends, when nobody closes the transport meanwhile: the packet handler gets exactly the packets up
  -- to the first close packet, in order, and the transport ends closed and without a connection,
  -- with its close handler called once.
  pub client_loop-IsFinished :
      (n : ℕ) (ps : List Packet) (t : ConnectedClient)
      → IsLive h k t
      → All IsValid ps
      → IsFinished
          (until_close ps)
          t
          (websocket_client_loop closings (λ m. false) n (reads_of ps (read_failed cause)) t)
  client_loop-IsFinished n [] t live v = loop-end n t live
  client_loop-IsFinished n (p ∷ ps) t live (v, vs) = elim (Bool-cases (p.type == packet_close)) [
    | inl c ↦ rw c (loop-close n p ps t live v c)
    | inr c ↦
        let next = connected_on_packet p t in
        let step = connected_on_packet-IsPacketStep h p t live.packet_handler in
        let rest =
          client_loop-IsFinished (suc n) ps next (IsLive-packet h k p t next step live) vs in
        rw (c, loop-other n p ps t live v c)
          (record {
            delivers =
                rest.delivers
                ∙ ap (λ xs. xs ++ until_close ps) step.one_more
                ∙ append_assoc (delivered t.events) (p ∷ []) (until_close ps);
            closed = rest.closed;
            released = rest.released;
            one_close = rest.one_close ∙ ap suc step.same_closes;
          })
  ]
