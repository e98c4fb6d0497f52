-- ===== src/Server/Request.antt =====
-- server.go: what the server reads of a request, and the answers that refuse one.
use go_engine_io.Base.{◌≡◌, refl, arith, Bool, true, false, ◌&&◌, ◌||◌, List, [], ◌∷◌, ◌==◌}
use go_engine_io.Codec.Packet.{Bytes}

pub data HttpMethod : Type 0 where
  method_get method_post method_options method_connect other_method : HttpMethod

-- The method, the protocol of an Extended CONNECT, and the parameters of the query, empty when
-- they are missing.
pub record Request : Type 0 where
  pub http_method : HttpMethod
  pub proto : Bytes
  pub eio : Bytes
  pub transport_name : Bytes
  pub sid : Bytes

-- ConnectionErrorCode.
pub data ConnectionErrorCode : Type 0 where
  unknown_transport unknown_session_id bad_handshake_method : ConnectionErrorCode
  bad_request forbidden unsupported_protocol_version_code : ConnectionErrorCode

abbrev pub is_forbidden : ConnectionErrorCode → Bool
is_forbidden unknown_transport = false
is_forbidden unknown_session_id = false
is_forbidden bad_handshake_method = false
is_forbidden bad_request = false
is_forbidden forbidden = true
is_forbidden unsupported_protocol_version_code = false

-- The equality of two strings.
unfoldable pub same_bytes : Bytes → Bytes → Bool
same_bytes [] [] = true
same_bytes [] (y ∷ ys) = false
same_bytes (x ∷ xs) [] = false
same_bytes (x ∷ xs) (y ∷ ys) = let rest = same_bytes xs ys in x == y && rest

pub same_bytes_sound : (xs ys : Bytes) → same_bytes xs ys ≡ true → xs ≡ ys
unfolding same_bytes
same_bytes_sound [] [] e = refl
same_bytes_sound [] (y ∷ ys) e = cc
same_bytes_sound (x ∷ xs) [] e = cc
same_bytes_sound (x ∷ xs) (y ∷ ys) e =
    let tail : same_bytes xs ys ≡ true = ground (arith, e) in
    ground (arith, e, same_bytes_sound xs ys tail)

pub same_bytes_refl : (xs : Bytes) → same_bytes xs xs ≡ true
unfolding same_bytes
same_bytes_refl [] = refl
same_bytes_refl (x ∷ xs) = ground (arith, same_bytes_refl xs)

-- slices.Contains on strings.
unfoldable pub contains : List Bytes → Bytes → Bool
contains [] name = false
contains (x ∷ xs) name = let rest = contains xs name in same_bytes x name || rest

-- The names of the transports on the wire.
abbrev pub polling_name : Bytes
polling_name = b'p' ∷ b'o' ∷ b'l' ∷ b'l' ∷ b'i' ∷ b'n' ∷ b'g' ∷ []

abbrev pub websocket_name : Bytes
websocket_name = b'w' ∷ b'e' ∷ b'b' ∷ b's' ∷ b'o' ∷ b'c' ∷ b'k' ∷ b'e' ∷ b't' ∷ []

abbrev pub webtransport_name : Bytes
webtransport_name =
    b'w' ∷ b'e' ∷ b'b' ∷ b't' ∷ b'r' ∷ b'a' ∷ b'n' ∷ b's' ∷ b'p' ∷ b'o' ∷ b'r' ∷ b't' ∷ []
