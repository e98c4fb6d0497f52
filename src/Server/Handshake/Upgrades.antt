-- ===== src/Server/Handshake/Upgrades.antt =====
-- server.go and server_transport_webtransport.go: which connections become the probe of a session.
use go_engine_io.Base.{
  ◌≡◌, ◌⊎◌, inl, inr, refl, ap, ◌∙◌, arith, true, false, some, Option-cases, if◌then◌else◌,
}
use go_engine_io.Codec.Packet.{Bytes}
use go_engine_io.Session.Socket.{ServerSocket, Transport, is_open}
use go_engine_io.Session.Sections.{start_upgrade, polls}
use go_engine_io.Server.Request.{same_bytes_refl}
use go_engine_io.Server.Store.{get}
use go_engine_io.Server.Store.Laws.{get-put_session}
use go_engine_io.Server.Handshake.{
  HandshakeConfig, abandons_connection, starts_read_loop, Server, record_event, store,
  websocket_upgrade, webtransport_upgrade,
}
use go_engine_io.Server.Handshake.Outcome.{LeavesOthers}

-- The session that takes a connection as its probe, before and after.
pub record IsProbed (sid : Bytes) (probe : Transport) (s out : Server) : Type 0 where
  pub before : ServerSocket
  pub after : ServerSocket
  pub was_stored : get s.sessions sid ≡ some before
  pub was_open : is_open before.state ≡ true
  pub was_idle : before.upgrading ≡ false
  pub was_polling : polls before.transport ≡ true
  pub is_stored : get out.sessions sid ≡ some after
  pub keeps_transport : after.transport ≡ before.transport
  pub holds_probe : after.upgrade_transport ≡ some probe
  pub others : LeavesOthers sid s out

-- What start_upgrade asks of a session, and what it changes.
record IsStarted (probe : Transport) (s next : ServerSocket) : Type 0 where
  pub was_open : is_open s.state ≡ true
  pub was_idle : s.upgrading ≡ false
  pub was_polling : polls s.transport ≡ true
  pub keeps_transport : next.transport ≡ s.transport
  pub holds_probe : next.upgrade_transport ≡ some probe

start_upgrade-IsStarted :
    (probe : Transport) (s next : ServerSocket)
    → start_upgrade probe s ≡ some next
    → IsStarted probe s next
unfolding start_upgrade
start_upgrade-IsStarted probe s next e = ground arith

-- The connection is abandoned with no session touched, or it probes one.
abbrev pub Upgrades : Bytes → Transport → Server → Server → Type 0
Upgrades sid probe s out =
    (out ≡ record_event (abandons_connection probe) s) ⊎ IsProbed sid probe s out

module _ (config : HandshakeConfig) (probe : Transport) (sid : Bytes) (s : Server) where
  stored-IsProbed :
      (socket next : ServerSocket)
      → get s.sessions sid ≡ some socket
      → start_upgrade probe socket ≡ some next
      → IsProbed sid probe s (record_event (starts_read_loop probe) (store config sid next s))
  stored-IsProbed socket next g e =
      let k = start_upgrade-IsStarted probe socket next e in
      record {
        before = socket;
        after = next;
        was_stored = g;
        was_open = k.was_open;
        was_idle = k.was_idle;
        was_polling = k.was_polling;
        is_stored =
            get-put_session sid sid next s.sessions
            ∙ ap (λ b. if b then some next else get s.sessions sid) (same_bytes_refl sid);
        keeps_transport = k.keeps_transport;
        holds_probe = k.holds_probe;
        others = λ other h.
            get-put_session sid other next s.sessions
            ∙ ap (λ b. if b then some next else get s.sessions other) h;
      }

  websocket_upgrade-Upgrades : Upgrades sid probe s (websocket_upgrade config probe sid s)
  unfolding websocket_upgrade
  websocket_upgrade-Upgrades = elim (Option-cases (get s.sessions sid)) [
    | inl g ↦ rw (g, websocket_upgrade) (inl refl)
    | inr (socket, g) ↦ elim (Option-cases (start_upgrade probe socket)) [
      | inl e ↦ rw (g, e, websocket_upgrade) (inl refl)
      | inr (next, e) ↦ rw (g, e, websocket_upgrade) (inr (stored-IsProbed socket next g e))
    ]
  ]

  webtransport_upgrade-Upgrades : Upgrades sid probe s (webtransport_upgrade config probe sid s)
  unfolding webtransport_upgrade
  webtransport_upgrade-Upgrades = elim (Option-cases (get s.sessions sid)) [
    | inl g ↦ rw (g, webtransport_upgrade) (inl refl)
    | inr (socket, g) ↦ elim (Option-cases (start_upgrade probe socket)) [
      | inl e ↦ rw (g, e, webtransport_upgrade) (inl refl)
      | inr (next, e) ↦ rw (g, e, webtransport_upgrade) (inr (stored-IsProbed socket next g e))
    ]
  ]

  -- A connection that names a session becomes its probe only when that session is stored, open, not
  -- upgrading and on polling; it then keeps its transport while it probes. Otherwise the connection
  -- is abandoned and no session is touched. Both hold over websocket and over webtransport.
  pub upgrade_requests_guarded :
      Upgrades sid probe s (websocket_upgrade config probe sid s)
      × Upgrades sid probe s (webtransport_upgrade config probe sid s)
  upgrade_requests_guarded = (websocket_upgrade-Upgrades, webtransport_upgrade-Upgrades)
