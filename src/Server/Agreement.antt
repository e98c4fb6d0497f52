-- ===== src/Server/Agreement.antt =====
-- server_transport_websocket.go and server_transport_webtransport.go: the two read loops do the
-- same to a session.
use go_engine_io.Base.{
  ℕ, zero, suc, ◌<◌, ◌≡◌, refl, ap, sym, ◌∙◌, arith, List, [], ◌∷◌, All, length,
}
use go_engine_io.Base.Int.{ℤ}
use go_engine_io.Codec.Packet.{Packet, Bytes}
use go_engine_io.Codec.Result.{eof}
use go_engine_io.Codec.Frame.{read_webtransport_packet}
use go_engine_io.Codec.WebSocket.{MessageType, websocket_message, decode_websocket_frame-message}
use go_engine_io.Session.Operations.{Effect}
use go_engine_io.Server.Connection.{Setting, Link, meanwhile, probe_pong, Writes}
use go_engine_io.Server.WebSocket.{
  Read, read_failed, read_message, websocket_read_error, websocket_probe_packet,
  websocket_on_packet, websocket_on_read, websocket_read_loop,
}
use go_engine_io.Server.WebTransport.{
  Stream, write_frames, append_frames, is_webtransport_parse_error, webtransport_read_error,
  webtransport_probe_packet, webtransport_on_packet, webtransport_read_loop,
}
use go_engine_io.Server.WebTransport.Frames.{IsReadable, read-append_frames}

-- The two connections answer the writes of the probe pong alike.
abbrev pub PongsAgree : Writes (MessageType × Bytes) → Stream → Type 0
PongsAgree write stream =
    (effects : List Effect) (n : ℕ)
    → write effects n (websocket_message probe_pong)
      ≡ write_frames stream effects n (probe_pong ∷ [])

-- What a websocket reads when the packets were sent to it one by one and the connection then ends.
abbrev pub reads_of : List Packet → Read → List Read
reads_of [] last = last ∷ []
reads_of (p ∷ ps) last =
    read_message (websocket_message p).0 (websocket_message p).1 ∷ reads_of ps last

module _ (setting : Setting) (write : Writes (MessageType × Bytes)) (stream : Stream) where
  module _ (agree : PongsAgree write stream) where
    probe_packets_agree :
        (n : ℕ) (p : Packet) (l : Link)
        → websocket_probe_packet setting write n p l
          ≡ webtransport_probe_packet setting stream n p l
    unfolding websocket_probe_packet webtransport_probe_packet
    probe_packets_agree n p l = rw (agree l.world.effects l.pongs) refl

    on_packets_agree :
        (n : ℕ) (p : Packet) (l : Link)
        → websocket_on_packet setting write n p l ≡ webtransport_on_packet setting stream n p l
    unfolding websocket_on_packet webtransport_on_packet
    on_packets_agree n p l = rw (probe_packets_agree n p l) refl

    ends_agree :
        (l : Link)
        → websocket_read_error setting write (setting.cause_of eof) l
          ≡ webtransport_read_error setting stream eof l
    unfolding websocket_read_error webtransport_read_error is_webtransport_parse_error
    ends_agree l = refl

    -- One decoded message is one round of both loops.
    websocket_read_loop-message :
        (n : ℕ) (p : Packet) (reads : List Read) (l : Link) (max_payload : ℤ)
        → IsReadable max_payload p
        → websocket_read_loop setting write n
            (read_message (websocket_message p).0 (websocket_message p).1 ∷ reads)
            l
          ≡ websocket_read_loop setting write
              (suc n)
              reads
              (websocket_on_packet setting write n p (meanwhile setting n l))
    unfolding websocket_read_loop websocket_on_read
    websocket_read_loop-message n p reads l max_payload r =
        rw (decode_websocket_frame-message p r.valid_packet, websocket_read_loop, websocket_on_read)
          refl

    webtransport_read_loop-frame :
        (max_payload : ℤ) (fuel n : ℕ) (p : Packet) (ps : List Packet) (l : Link)
        → IsReadable max_payload p
        → webtransport_read_loop setting stream max_payload
            (suc fuel)
            n
            (append_frames [] (p ∷ ps))
            l
          ≡ webtransport_read_loop setting stream max_payload fuel
              (suc n)
              (append_frames [] ps)
              (webtransport_on_packet setting stream n p (meanwhile setting n l))
    unfolding webtransport_read_loop
    webtransport_read_loop-frame max_payload fuel n p ps l r =
        rw (read-append_frames max_payload p ps r, webtransport_read_loop) refl

    loops_end_alike :
        (max_payload : ℤ) (fuel n : ℕ) (l : Link)
        → websocket_read_loop setting write n (read_failed (setting.cause_of eof) ∷ []) l
          ≡ webtransport_read_loop setting stream max_payload (suc fuel) n [] l
    unfolding websocket_read_loop websocket_on_read webtransport_read_loop read_webtransport_packet
    loops_end_alike max_payload fuel n l = ends_agree (meanwhile setting n l)

    -- The websocket and the webtransport read loop do the same to a session: for the same readable
    -- packets, the same operations of others in between and probe pongs that are written or fail
    -- alike, the session, its effects and the number of pongs are equal once the connection has
    -- ended, with fuel for one round per packet and one for the end.
    pub read_loops_agree :
        (max_payload : ℤ) (ps : List Packet) (fuel n : ℕ) (l : Link)
        → All (IsReadable max_payload) ps
        → length ps < fuel
        → websocket_read_loop setting write n (reads_of ps (read_failed (setting.cause_of eof))) l
          ≡ webtransport_read_loop setting stream max_payload fuel n (append_frames [] ps) l
    unfolding append_frames
    read_loops_agree max_payload ps zero n l r h = absurd (omega arith)
    read_loops_agree max_payload [] (suc fuel) n l r h = loops_end_alike max_payload fuel n l
    read_loops_agree max_payload (p ∷ ps) (suc fuel) n l (r, rs) h =
        let last = read_failed (setting.cause_of eof) in
        let next = websocket_on_packet setting write n p (meanwhile setting n l) in
        websocket_read_loop-message n p (reads_of ps last) l max_payload r
        ∙ read_loops_agree max_payload ps fuel (suc n) next rs (omega arith)
        ∙ ap (webtransport_read_loop setting stream max_payload fuel (suc n) (append_frames [] ps))
            (on_packets_agree n p (meanwhile setting n l))
        ∙ sym (webtransport_read_loop-frame max_payload fuel n p ps l r)
