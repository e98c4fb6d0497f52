-- ===== src/Lib.antt =====
-- go-engine.io: a Go implementation of the Engine.IO protocol, client and server.
--
-- A client sends packets as payloads of POST requests, or one by one on a socket; the server keeps a
-- session per client, buffers what the application sends, and writes the buffer to the session's
-- active transport: on long-polling when a poll is held, on a socket at once. A session begins on
-- polling and may be upgraded to a socket by a probe. The parts and their files:
--
-- Base: numbers, Boolean tests, lists and bytes that all parts share.
-- Codec: packet.go (Packet, to_byte, packet_type_from_byte), encoding.go (encode_packet,
--   decode_packet), payload.go (encode_payload, decode_payload and the framings of the protocol
--   versions 2 and 3) and encoding_webtransport.go (append_webtransport_frame,
--   read_webtransport_packet). Bytes are numbers below 256, where a property needs it by hypothesis.
--   An int of 64 bits wraps at 2 ^ 64 where the code adds or multiplies one that it has read.
--   Errors are values of Result; two panics and the end of fuel are errors of the model. One of the
--   panics is that of `make` above 2 ^ 48 bytes, the largest allocation of Go's runtime on amd64.
-- Session: server_socket.go. Socket is the struct ServerSocket and new_server_socket; Sections has
--   one function for what each method does while it holds the mutex (begin_send, begin_close,
--   flush_take, flush_drop, begin_teardown, start_upgrade and so on); Operations composes them to
--   the methods (send, close, flush, close_with_reason, handle_packet, complete_upgrade and so on),
--   which record their calls of transports, handlers and timers as effects; Run is the relation of
--   the steps that concurrent goroutines interleave, where one goroutine at a time is in flush.
--   WellFormed, Buffer, Accounting, Delivery, Closing, Invariant, Round, Ends, Bounded, Refinement,
--   Program, Promotion and Upgrade prove.
-- Session.Polling: server_transport_polling.go, with the claims that deliveries make on polls.
-- Codec.WebSocket: a packet as one WebSocket message (websocket_message, decode_websocket_frame).
-- Server: server.go (serve_http, handle_polling, handle_send in Post, handle_poll in Poll, apply_cors
--   in Cors), server_handshake.go (open_upgrades, build_open_packet) and server_session_store.go
--   (Store), server_options.go (the options in Options, generate_session_id in SessionId). Handshake
--   has handleHandshake, handleWebSocketHandshake, webTransportHandshake and the two upgrades as
--   functions of the store of sessions.
-- Server.WebSocket, Server.WebTransport: server_transport_websocket.go and
--   server_transport_webtransport.go, the read loops and sends. Connection has what the two share:
--   whether they are closed or probe follows from the effects of the session, which calls their close
--   and promote. A read loop runs over what its reads return; before each, other goroutines perform
--   any operations on the session. Agreement, Probing, Takeover and ParseErrors prove.
-- Client: socket.go. Chunks is chunkPackets and sendChunks; Socket has the sections of Socket under
--   its mutex (begin_open, queue_packets, take_buffer, drop_sent, tear_down, begin_upgrade,
--   adopt_upgrade and so on); Connection interleaves them from one beginOpen to the next, with what
--   an earlier connection left under way; Receive has onPacket, onOpen, selectTransport and the loop
--   of probeUpgrades; Buffer, Delivery and Upgrade prove, and Heartbeat puts a server's ping and a
--   client's pong together.
-- Client.Polling, Client.WebSocket, Client.WebTransport: socket_transport_polling.go,
--   socket_transport_websocket.go and socket_transport_webtransport.go over Transport (transport.go).
--   Connected has what the two transports on a connection write out alike. Their events are the calls
--   of the handlers that the socket registers. Loops, Received and Opening prove.
-- Yeast: yeast.go (yeast_encode, next).
--
-- Loops are structural recursion, but for these: the frames of a v2 or v3 payload, with the length of
-- the input as fuel, since each frame takes at least one byte; yeast_encode, with the number plus
-- one, since a division by 64 makes a positive number smaller; and flush, with one round, since a
-- buffer that was written whole is empty when no other goroutine runs; and the read loops on a
-- webtransport stream, with more rounds than the stream has bytes or packets, since a frame takes at
-- least one byte.
--
-- How a transport answers a send is an argument, so that a property holds for every answer. Timers
-- are what they would call and after how long; a run may fire one at any time. The clock is an
-- argument. Handlers, channels and connections are numbers that tell them apart.
--
-- Not modelled: the timer of the client's heartbeat and the handlers of a probing transport before
-- its pong; a goroutine that runs between two sections of one read of a transport (the interleaving
-- of the sections of a session is Session.Run, that of the client's sections is
-- Client.Socket.Connection); gzip, logging, JSON, cookies but for their being set, URLs and the pool
-- of buffers, which do I/O, call libraries or reuse storage.
pub mod Base
pub mod Codec
pub mod Session
pub mod Yeast
pub mod Client
pub mod Server
