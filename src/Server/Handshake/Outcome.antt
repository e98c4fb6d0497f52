-- ===== src/Server/Handshake/Outcome.antt =====
-- server.go and server_transport_webtransport.go: a handshake makes one open session, or none.
use go_engine_io.Base.{
  ◌≡◌, ◌⊎◌, inl, refl, ap, ◌∙◌, true, false, Option, none, some, List, [], ◌∷◌, ◌++◌, append-nil,
}
use go_engine_io.Codec.Packet.{Bytes}
use go_engine_io.Session.Socket.{ServerSocket, Handler, is_open}
use go_engine_io.Session.Sections.{open_session}
use go_engine_io.Server.Request.{ConnectionErrorCode, same_bytes}
use go_engine_io.Server.Store.{get}
use go_engine_io.Server.Handshake.{
  HandshakeEvent, writes_error, calls_connection_error, sets_session_cookie, writes_poll_body,
  sends_open, calls_connection, starts_read_loop, abandons_connection, Server, record_event,
  notify_error,
}

-- The ids that the connection handler was called with.
abbrev pub announced : List HandshakeEvent → List Bytes
announced [] = []
announced (writes_error code ∷ events) = announced events
announced (calls_connection_error h code reason ∷ events) = announced events
announced (sets_session_cookie id ∷ events) = announced events
announced (writes_poll_body body ∷ events) = announced events
announced (sends_open t packet ∷ events) = announced events
announced (calls_connection h id ∷ events) = id ∷ announced events
announced (starts_read_loop t ∷ events) = announced events
announced (abandons_connection t ∷ events) = announced events

pub announced-append :
    (xs ys : List HandshakeEvent) → announced (xs ++ ys) ≡ announced xs ++ announced ys
announced-append [] ys = refl
announced-append (writes_error code ∷ xs) ys = announced-append xs ys
announced-append (calls_connection_error h code reason ∷ xs) ys = announced-append xs ys
announced-append (sets_session_cookie id ∷ xs) ys = announced-append xs ys
announced-append (writes_poll_body body ∷ xs) ys = announced-append xs ys
announced-append (sends_open t packet ∷ xs) ys = announced-append xs ys
announced-append (calls_connection h id ∷ xs) ys = ap (◌∷◌ id) (announced-append xs ys)
announced-append (starts_read_loop t ∷ xs) ys = announced-append xs ys
announced-append (abandons_connection t ∷ xs) ys = announced-append xs ys

abbrev pub expected : Option Handler → Bytes → List Bytes
expected none id = []
expected (some h) id = id ∷ []

-- No session but that of `id` is touched.
abbrev pub LeavesOthers : Bytes → Server → Server → Type 0
LeavesOthers id s out =
    (k : Bytes) → same_bytes id k ≡ false → get out.sessions k ≡ get s.sessions k

-- The handshake stored this open session under its id and announced it once.
pub record IsEstablished (handler : Option Handler) (id : Bytes) (socket : ServerSocket)
    (s out : Server) : Type 0 where
  pub stored : get out.sessions id ≡ some (open_session socket)
  pub opened : is_open (open_session socket).state ≡ true
  pub announced_once : announced out.events ≡ announced s.events ++ expected handler id
  pub others : LeavesOthers id s out

-- The handshake announced nothing, and stored nothing that it did not take out again.
pub record IsRefusedHandshake (id : Bytes) (s out : Server) : Type 0 where
  pub not_stored : (out.sessions ≡ s.sessions) ⊎ (get out.sessions id ≡ none)
  pub not_announced : announced out.events ≡ announced s.events
  pub others : LeavesOthers id s out

-- Nothing but events that announce nothing was added.
pub record IsUnannounced (s out : Server) : Type 0 where
  pub same_sessions : out.sessions ≡ s.sessions
  pub same_announced : announced out.events ≡ announced s.events

pub IsUnannounced-event :
    (event : HandshakeEvent) (s out : Server)
    → announced (event ∷ []) ≡ []
    → IsUnannounced s out
    → IsUnannounced s (record_event event out)
IsUnannounced-event event s out e u = record {
  same_sessions = u.same_sessions;
  same_announced =
      announced-append out.events (event ∷ [])
      ∙ ap (λ xs. announced out.events ++ xs) e
      ∙ append-nil (announced out.events)
      ∙ u.same_announced;
}

pub IsUnannounced-same : (s : Server) → IsUnannounced s s
IsUnannounced-same s = record { same_sessions = refl; same_announced = refl }

pub IsUnannounced-notify_error :
    (o : Option Handler) (code : ConnectionErrorCode) (reason : Bytes) (s out : Server)
    → IsUnannounced s out
    → IsUnannounced s (notify_error o code reason out)
IsUnannounced-notify_error none code reason s out u = u
IsUnannounced-notify_error (some h) code reason s out u =
    IsUnannounced-event (calls_connection_error h code reason) s out refl u

pub IsUnannounced-refused :
    (id : Bytes) (s out : Server) → IsUnannounced s out → IsRefusedHandshake id s out
IsUnannounced-refused id s out u = record {
  not_stored = inl u.same_sessions;
  not_announced = u.same_announced;
  others = λ k h. ap (λ sessions. get sessions k) u.same_sessions;
}
