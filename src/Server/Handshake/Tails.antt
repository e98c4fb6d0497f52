-- ===== src/Server/Handshake/Tails.antt =====
-- server.go and server_transport_webtransport.go: the two ends that a handshake can have.
use go_engine_io.Base.{
  ◌≡◌, ◌⊎◌, inl, inr, refl, ap, sym, ◌∙◌, none, some, [], ◌∷◌, ◌++◌, append-nil, Bool-cases,
  Option-cases, if◌then◌else◌,
}
use go_engine_io.Codec.Packet.{Bytes}
use go_engine_io.Session.Socket.{ServerSocket, Transport, new_server_socket}
use go_engine_io.Session.Sections.{open_session, arm_ping}
use go_engine_io.Server.Request.{Request, forbidden, same_bytes_refl}
use go_engine_io.Server.Store.{get, put_session}
use go_engine_io.Server.Store.Laws.{get-put_session, get-delete}
use go_engine_io.Server.Handshake.{
  HandshakeConfig, HandshakeEvent, writes_error, sets_session_cookie, calls_connection, Server,
  record_event, gate, reject_handshake, allow_handshake, set_session_cookie, new_session, announce,
  forget,
}
use go_engine_io.Server.Handshake.Outcome.{
  announced, announced-append, expected, IsEstablished, IsRefusedHandshake, IsUnannounced,
  IsUnannounced-event, IsUnannounced-same, IsUnannounced-notify_error,
}

-- How a handshake ends.
abbrev pub Ends : HandshakeConfig → Bytes → Transport → Server → Server → Type 0
Ends config id first s out =
    IsEstablished config.on_connection id (new_session config id first) s out
    ⊎ IsRefusedHandshake id s out

module _ (config : HandshakeConfig) where
  pub set_session_cookie-IsUnannounced :
      (id : Bytes) (s out : Server)
      → IsUnannounced s out
      → IsUnannounced s (set_session_cookie config id out)
  unfolding set_session_cookie
  set_session_cookie-IsUnannounced id s out u = elim (Bool-cases config.has_cookie) [
    | inl c ↦ rw c (IsUnannounced-event (sets_session_cookie id) s out refl u)
    | inr c ↦ rw c u
  ]

  pub allow_handshake-IsUnannounced :
      (r : Request) (s : Server) → IsUnannounced s (allow_handshake config r s).1
  unfolding allow_handshake reject_handshake
  allow_handshake-IsUnannounced r s = elim (Option-cases (gate config.allow_request r)) [
    | inl e ↦ rw (e, allow_handshake) (IsUnannounced-same s)
    | inr (reason, e) ↦
        rw (e, allow_handshake)
          (IsUnannounced-notify_error config.on_connection_error forbidden reason s
            (record_event (writes_error forbidden) s)
            (IsUnannounced-event (writes_error forbidden) s s refl (IsUnannounced-same s)))
  ]

  announced-announce :
      (id : Bytes) (socket : ServerSocket) (s : Server)
      → announced (announce config id socket s).events
        ≡ announced s.events ++ expected config.on_connection id
  announced-announce id socket s = elim (Option-cases config.on_connection) [
    | inl e ↦ rw e (sym (append-nil (announced s.events)))
    | inr (h, e) ↦ rw e (announced-append s.events (calls_connection h id ∷ []))
  ]

  announce-sessions :
      (id : Bytes) (socket : ServerSocket) (s : Server)
      → (announce config id socket s).sessions ≡ put_session id (open_session socket) s.sessions
  announce-sessions id socket s = elim (Option-cases config.on_connection) [
    | inl e ↦ rw e refl
    | inr (h, e) ↦ rw e refl
  ]

  -- The end of a handshake that succeeds: the socket was stored, then opened and announced.
  pub announce-IsEstablished :
      (id : Bytes) (first : Transport) (s told : Server)
      → told.sessions ≡ put_session id (new_session config id first) s.sessions
      → announced told.events ≡ announced s.events
      → IsEstablished config.on_connection id
          (new_session config id first)
          s
          (announce config id (new_session config id first) told)
  unfolding new_server_socket open_session arm_ping
  announce-IsEstablished id first s told e a =
      let socket = new_session config id first in
      let sessions = announce-sessions id socket told in
      record {
        stored =
            ap (λ xs. get xs id) sessions
            ∙ get-put_session id id (open_session socket) told.sessions
            ∙ ap (λ b. if b then some (open_session socket) else get told.sessions id)
                (same_bytes_refl id);
        opened = refl;
        announced_once =
            announced-announce id socket told ∙ ap (λ xs. xs ++ expected config.on_connection id) a;
        others = λ k h.
            ap (λ xs. get xs k) sessions
            ∙ get-put_session id k (open_session socket) told.sessions
            ∙ ap (λ b. if b then some (open_session socket) else get told.sessions k) h
            ∙ ap (λ xs. get xs k) e
            ∙ get-put_session id k socket s.sessions
            ∙ ap (λ b. if b then some socket else get s.sessions k) h;
      }

  -- The end of a handshake whose open packet was not written.
  pub forget-IsRefusedHandshake :
      (id : Bytes) (first : Transport) (s told : Server)
      → told.sessions ≡ put_session id (new_session config id first) s.sessions
      → announced told.events ≡ announced s.events
      → IsRefusedHandshake id s (forget config id told)
  forget-IsRefusedHandshake id first s told e a =
      let socket = new_session config id first in
      record {
        not_stored = inr (
            get-delete id id told.sessions
            ∙ ap (λ b. if b then none else get told.sessions id) (same_bytes_refl id));
        not_announced = a;
        others = λ k h.
            get-delete id k told.sessions
            ∙ ap (λ b. if b then none else get told.sessions k) h
            ∙ ap (λ xs. get xs k) e
            ∙ get-put_session id k socket s.sessions
            ∙ ap (λ b. if b then some socket else get s.sessions k) h;
      }

  -- An event that announces nothing changes neither end.
  pub IsEstablished-event :
      (event : HandshakeEvent) (id : Bytes) (socket : ServerSocket) (s out : Server)
      → announced (event ∷ []) ≡ []
      → IsEstablished config.on_connection id socket s out
      → IsEstablished config.on_connection id socket s (record_event event out)
  IsEstablished-event event id socket s out e k = record {
    stored = k.stored;
    opened = k.opened;
    announced_once =
        (IsUnannounced-event event out out e (IsUnannounced-same out)).same_announced
        ∙ k.announced_once;
    others = k.others;
  }

  pub IsRefusedHandshake-event :
      (event : HandshakeEvent) (id : Bytes) (s out : Server)
      → announced (event ∷ []) ≡ []
      → IsRefusedHandshake id s out
      → IsRefusedHandshake id s (record_event event out)
  IsRefusedHandshake-event event id s out e k = record {
    not_stored = k.not_stored;
    not_announced =
        (IsUnannounced-event event out out e (IsUnannounced-same out)).same_announced
        ∙ k.not_announced;
    others = k.others;
  }

  -- From a server that was only told things to one that stores the new socket and writes its open
  -- packet.
  pub stored-announced :
      (event : HandshakeEvent) (s out : Server)
      → announced (event ∷ []) ≡ []
      → IsUnannounced s out
      → announced (record_event event out).events ≡ announced s.events
  stored-announced event s out e u = (IsUnannounced-event event s out e u).same_announced
