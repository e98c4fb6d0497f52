-- ===== src/Server/Store.antt =====
-- server_session_store.go: the sessions by their ids. `all` lists them in one order, where Go's map
-- has none.
pub mod Laws
use go_engine_io.Base.{
  ℕ, Bool, true, false, Option, none, some, List, [], ◌∷◌, length, if◌then◌else◌,
}
use go_engine_io.Codec.Packet.{Bytes}
use go_engine_io.Server.Request.{same_bytes}

module _ {ℓ} {Session : Type ℓ} where
  unfoldable pub get : List (Bytes × Session) → Bytes → Option Session
  get [] id = none
  get ((key, socket) ∷ sessions) id =
      let rest = get sessions id in if same_bytes key id then some socket else rest

  unfoldable pub delete : Bytes → List (Bytes × Session) → List (Bytes × Session)
  delete id [] = []
  delete id ((key, socket) ∷ sessions) =
      let rest = delete id sessions in if same_bytes key id then rest else (key, socket) ∷ rest

  -- put, of a socket and its id. A socket stored under the id before is replaced.
  unfoldable pub put_session : Bytes → Session → List (Bytes × Session) → List (Bytes × Session)
  put_session id socket sessions = (id, socket) ∷ delete id sessions

  unfoldable pub all : List (Bytes × Session) → List Session
  all [] = []
  all ((key, socket) ∷ sessions) = socket ∷ all sessions

  unfoldable pub count : List (Bytes × Session) → ℕ
  count sessions = length sessions
