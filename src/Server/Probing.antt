-- ===== src/Server/Probing.antt =====
-- server_transport_websocket.go and server_transport_webtransport.go: a connection that probes
-- leaves the session alone.
use go_engine_io.Base.{
  ℕ, suc, ◌≡◌, ◌≢◌, refl, sym, ap, ◌∙◌, ◌⊎◌, All, All-append, append_assoc, arith, Bool, true,
  false, ◌&&◌, Option, none, some, List, [], ◌∷◌, ◌++◌, append-nil, Option-cases, Bool-cases, inl,
  inr, ◌==◌, ==_iff,
}
use go_engine_io.Codec.Packet.{Packet, Bytes, packet_ping, packet_upgrade}
use go_engine_io.Codec.Result.{ok, err, Result-cases}
use go_engine_io.Codec.WebSocket.{MessageType, websocket_message, decode_websocket_frame}
use go_engine_io.Session.Socket.{ServerSocket, Transport, Channel}
use go_engine_io.Session.Sections.{begin_probe, begin_abort_upgrade}
use go_engine_io.Session.Operations.{
  World, Effect, stops_noops, starts_noops, closes_transport, emit, put, when_some, on_probe,
  abort_upgrade, Cause,
}
use go_engine_io.Server.Connection.{
  Setting, Link, on_world, connection, probe_data, probe_pong, Writes,
}
use go_engine_io.Server.Request.{same_bytes}
use go_engine_io.Server.WebSocket.{
  Read, read_failed, read_message, websocket_read_error, websocket_decode_error,
  websocket_probe_packet, websocket_on_packet, websocket_on_read,
}

-- What a connection that probes may have the session do: start noops for the held poll when a probe
-- ping came, stop the noops that are under way, and close the connection itself while an upgrade is
-- under way.
pub data IsOwn (me : Transport) (stop : Channel) (is_ping : Bool) (before : World)
    : Effect → Type 0 where
  own_start : is_ping ≡ true → IsOwn me stop is_ping before (starts_noops stop)
  own_stop :
      (noops : Channel)
      → before.socket.probe_noop_stop ≡ some noops
      → IsOwn me stop is_ping before (stops_noops noops)
  own_close : before.socket.upgrading ≡ true → IsOwn me stop is_ping before (closes_transport me)

-- The session is in the state it was in, with its transport, its buffer and its heartbeat, and what
-- it did is the connection's own.
pub record IsUndisturbed (me : Transport) (stop : Channel) (is_ping : Bool) (before after : World)
    : Type 0 where
  pub same_state : after.socket.state ≡ before.socket.state
  pub same_transport : after.socket.transport ≡ before.socket.transport
  pub same_buffer : after.socket.write_buffer ≡ before.socket.write_buffer
  pub same_ping : after.socket.ping_timer ≡ before.socket.ping_timer
  pub same_pong : after.socket.pong_timer ≡ before.socket.pong_timer
  pub added : List Effect
  pub appends : after.effects ≡ before.effects ++ added
  pub own : All (IsOwn me stop is_ping before) added

-- The connection has written nothing, or one pong for a probe ping.
abbrev pub WritesPong : Bool → Link → Link → Type 0
WritesPong is_ping before after =
    (after.pongs ≡ before.pongs) ⊎ ((is_ping ≡ true) × (after.pongs ≡ suc before.pongs))

module _ (me : Transport) (stop : Channel) (is_ping : Bool) (w : World) where
  IsUndisturbed-same : IsUndisturbed me stop is_ping w w
  IsUndisturbed-same = record {
    same_state = refl;
    same_transport = refl;
    same_buffer = refl;
    same_ping = refl;
    same_pong = refl;
    added = [];
    appends = sym (append-nil w.effects);
    own = tt;
  }

  IsUndisturbed-emit :
      (next : World) (effect : Effect)
      → IsOwn me stop is_ping w effect
      → IsUndisturbed me stop is_ping w next
      → IsUndisturbed me stop is_ping w (emit effect next)
  IsUndisturbed-emit next effect k u = record {
    same_state = u.same_state;
    same_transport = u.same_transport;
    same_buffer = u.same_buffer;
    same_ping = u.same_ping;
    same_pong = u.same_pong;
    added = u.added ++ effect ∷ [];
    appends = ap (λ xs. xs ++ effect ∷ []) u.appends ∙ append_assoc w.effects u.added (effect ∷ []);
    own = All-append _ u.added (effect ∷ []) u.own (k, tt);
  }

  IsUndisturbed-stop :
      (next : World) (noops : Option Channel)
      → w.socket.probe_noop_stop ≡ noops
      → IsUndisturbed me stop is_ping w next
      → IsUndisturbed me stop is_ping w (when_some noops (λ c. emit (stops_noops c)) next)
  IsUndisturbed-stop next none e u = u
  IsUndisturbed-stop next (some c) e u = IsUndisturbed-emit next (stops_noops c) (own_stop c e) u

  -- A section that keeps what is to be kept.
  IsUndisturbed-put :
      (s : ServerSocket)
      → (s.state ≡ w.socket.state)
        × (s.transport ≡ w.socket.transport)
        × (s.write_buffer ≡ w.socket.write_buffer)
        × (s.ping_timer ≡ w.socket.ping_timer)
        × (s.pong_timer ≡ w.socket.pong_timer)
      → IsUndisturbed me stop is_ping w (put s w)
  IsUndisturbed-put s (a, b, c, d, e) = record {
    same_state = a;
    same_transport = b;
    same_buffer = c;
    same_ping = d;
    same_pong = e;
    added = [];
    appends = sym (append-nil w.effects);
    own = tt;
  }

begin_probe-keeps :
    (stop : Channel) (s next : ServerSocket)
    → begin_probe stop s ≡ some next
    → (next.state ≡ s.state)
      × (next.transport ≡ s.transport)
      × (next.write_buffer ≡ s.write_buffer)
      × (next.ping_timer ≡ s.ping_timer)
      × (next.pong_timer ≡ s.pong_timer)
unfolding begin_probe
begin_probe-keeps stop s next e = ground arith

begin_abort_upgrade-keeps :
    (me : Transport) (s next : ServerSocket) (noops : Option Channel)
    → begin_abort_upgrade me s ≡ some (noops, next)
    → (s.upgrading ≡ true)
      × (s.probe_noop_stop ≡ noops)
      × (next.state ≡ s.state)
      × (next.transport ≡ s.transport)
      × (next.write_buffer ≡ s.write_buffer)
      × (next.ping_timer ≡ s.ping_timer)
      × (next.pong_timer ≡ s.pong_timer)
unfolding begin_abort_upgrade
begin_abort_upgrade-keeps me s next noops e = ground arith

on_probe-IsUndisturbed :
    (me : Transport) (stop : Channel) (w : World) → IsUndisturbed me stop true w (on_probe stop w)
unfolding on_probe
on_probe-IsUndisturbed me stop w = elim (Option-cases (begin_probe stop w.socket)) [
  | inl e ↦ rw (e, on_probe) (IsUndisturbed-same me stop true w)
  | inr (s, e) ↦
      rw (e, on_probe)
        (IsUndisturbed-emit me stop true w (put s w) (starts_noops stop) (own_start refl)
          (IsUndisturbed-put me stop true w s (begin_probe-keeps stop w.socket s e)))
]

abort_upgrade-IsUndisturbed :
    (me : Transport) (stop : Channel) (is_ping : Bool) (w : World)
    → IsUndisturbed me stop is_ping w (abort_upgrade me w)
unfolding abort_upgrade
abort_upgrade-IsUndisturbed me stop is_ping w =
    elim (Option-cases (begin_abort_upgrade me w.socket)) [
      | inl e ↦ rw (e, abort_upgrade) (IsUndisturbed-same me stop is_ping w)
      | inr ((noops, s), e) ↦
          let (up, same, a, b, c, d, f) = begin_abort_upgrade-keeps me w.socket s noops e in
          rw (e, abort_upgrade)
            (IsUndisturbed-emit me stop is_ping w _ (closes_transport me) (own_close up) (
              IsUndisturbed-stop me stop is_ping w (put s w) noops same
                (IsUndisturbed-put me stop is_ping w s (a, b, c, d, f))))
    ]

-- What the loop has read is no upgrade packet.
abbrev pub NoUpgrade : Read → Type 0
NoUpgrade read =
    (kind : MessageType) (frame : Bytes) (p : Packet)
    → read ≡ read_message kind frame
    → decode_websocket_frame kind frame ≡ ok p
    → p.type ≢ packet_upgrade

abbrev pub is_probe : Packet → Bool
is_probe p = (p.type == packet_ping) && same_bytes p.body probe_data

-- What the loop has read is a probe ping.
unfoldable pub is_probe_ping : Read → Bool
is_probe_ping (read_failed cause) = false
is_probe_ping (read_message kind frame) = elim (decode_websocket_frame kind frame) [
  | err e ↦ false
  | ok p ↦ is_probe p
]

module _ (setting : Setting) (write : Writes (MessageType × Bytes)) (l : Link) where
  -- What a read comes to, for one that is a probe ping or is not.
  abbrev pub Aside : ℕ → Bool → Link → Type 0
  Aside n is_ping after =
      IsUndisturbed setting.me (setting.channels n) is_ping l.world after.world
      × WritesPong is_ping l after

  aborts-Aside : (n : ℕ) (is_ping : Bool) → Aside n is_ping (on_world (abort_upgrade setting.me) l)
  aborts-Aside n is_ping =
      (abort_upgrade-IsUndisturbed setting.me (setting.channels n) is_ping l.world, inl refl)

  same-Aside : (n : ℕ) (is_ping : Bool) → Aside n is_ping l
  same-Aside n is_ping =
      (IsUndisturbed-same setting.me (setting.channels n) is_ping l.world, inl refl)

  websocket_probe_packet-Aside :
      (n : ℕ) (p : Packet)
      → p.type ≢ packet_upgrade
      → Aside n (is_probe p) (websocket_probe_packet setting write n p l)
  unfolding websocket_probe_packet
  websocket_probe_packet-Aside n p h = elim (Bool-cases (is_probe p)) [
    | inl c ↦ elim (Option-cases (write l.world.effects l.pongs (websocket_message probe_pong))) [
      | inl e ↦
          rw (c, e)
            (on_probe-IsUndisturbed setting.me (setting.channels n) l.world, inr (refl, refl))
      | inr (cause, e) ↦ rw (c, e) (aborts-Aside n true)
    ]
    | inr c ↦ elim (Bool-cases (p.type == packet_upgrade)) [
      | inl u ↦ absurd (h ((==_iff p.type packet_upgrade).0 u))
      | inr u ↦ rw (c, u) (same-Aside n false)
    ]
  ]

  module _ (probing : (connection setting l).probing ≡ true) where
    websocket_read_error-Aside :
        (n : ℕ) (cause : Cause) → Aside n false (websocket_read_error setting write cause l)
    unfolding websocket_read_error
    websocket_read_error-Aside n cause = elim (Bool-cases (connection setting l).closed) [
      | inl c ↦ rw c (same-Aside n false)
      | inr c ↦ rw (c, probing) (aborts-Aside n false)
    ]

    -- While the transport probes, whatever it reads other than an upgrade packet, errors and
    -- frames that do not decode included, leaves the session's state, its transport, its buffer and
    -- its heartbeat as they were. All that the session does is to start noops for the held poll, for
    -- a probe ping, to stop the noops under way, and to close the probing transport itself, while an
    -- upgrade is under way; and all that the transport writes is one pong, for a probe ping.
    pub websocket_on_read-IsUndisturbed :
        (n : ℕ) (read : Read)
        → NoUpgrade read
        → Aside n (is_probe_ping read) (websocket_on_read setting write n read l).1
    unfolding websocket_on_read websocket_decode_error websocket_on_packet is_probe_ping
    websocket_on_read-IsUndisturbed n (read_failed cause) h = websocket_read_error-Aside n cause
    websocket_on_read-IsUndisturbed n (read_message kind frame) h =
        elim (Result-cases (decode_websocket_frame kind frame)) [
          | inr (x, e) ↦ rw (e, websocket_on_read, is_probe_ping, probing) (aborts-Aside n false)
          | inl (p, e) ↦
              rw (e, websocket_on_read, is_probe_ping, probing)
                (websocket_probe_packet-Aside n p (h kind frame p refl e))
        ]
