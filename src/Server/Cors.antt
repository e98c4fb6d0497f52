-- ===== src/Server/Cors.antt =====
-- server.go: the cross-origin headers of a response.
use go_engine_io.Base.{
  ◌≡◌, ◌⊎◌, inl, inr, arith, Bool, true, false, not, ◌&&◌, ◌||◌, Option, none, some, List, [], ◌∷◌,
  if◌then◌else◌,
}
use go_engine_io.Codec.Packet.{Bytes}
use go_engine_io.Server.Request.{HttpMethod, same_bytes, contains}
use go_engine_io.Server.Route.{is_method_options}

pub record CorsOptions : Type 0 where
  pub allow_credentials : Bool
  pub allowed_origins : List Bytes
  pub allowed_headers : List Bytes

-- `"*"`.
abbrev pub any_origin : Bytes
any_origin = b'*' ∷ []

abbrev pub no_strings : List Bytes → Bool
no_strings [] = true
no_strings (x ∷ xs) = false

unfoldable pub allows_all_origins : CorsOptions → Bool
allows_all_origins cors =
    no_strings cors.allowed_origins || contains cors.allowed_origins any_origin

-- `allowOrigin`, empty for none.
unfoldable pub allow_origin : CorsOptions → Bytes → Bytes
allow_origin cors origin =
    if allows_all_origins cors
    then (if cors.allow_credentials && not (same_bytes origin []) then origin else any_origin)
    else if not (same_bytes origin []) && contains cors.allowed_origins origin
    then origin
    else []

abbrev pub content_type : Bytes
content_type =
    b'C' ∷ b'o' ∷ b'n' ∷ b't' ∷ b'e' ∷ b'n' ∷ b't' ∷ b'-' ∷ b'T' ∷ b'y' ∷ b'p' ∷ b'e' ∷ []

-- What applyCORS sets: the allowed origin, `Vary: Origin`, the credentials header, and on an OPTIONS
-- request, which it answers, the allowed headers.
pub record CorsHeaders : Type 0 where
  pub sets_origin : Option Bytes
  pub varies : Bool
  pub sets_credentials : Bool
  pub answers_preflight : Option (List Bytes)

unfoldable pub apply_cors : CorsOptions → HttpMethod → Bytes → CorsHeaders
apply_cors cors http_method origin =
    let allowed = allow_origin cors origin in
    let present = not (same_bytes allowed []) in
    record {
      sets_origin = if present then some allowed else none;
      varies = present && not (same_bytes allowed any_origin);
      sets_credentials = present && cors.allow_credentials;
      answers_preflight =
          if is_method_options http_method
          then some
              (if no_strings cors.allowed_headers then content_type ∷ [] else cors.allowed_headers)
          else none;
    }

allow_origin-cases :
    (cors : CorsOptions) (origin : Bytes)
    → (allow_origin cors origin ≡ [])
      ⊎ ((allow_origin cors origin ≡ any_origin)
          × (allows_all_origins cors ≡ true)
          × (cors.allow_credentials && not (same_bytes origin []) ≡ false))
      ⊎ ((allow_origin cors origin ≡ origin)
          × (same_bytes origin [] ≡ false)
          × (allows_all_origins cors || contains cors.allowed_origins origin ≡ true))
unfolding allow_origin
allow_origin-cases cors origin = ground arith

-- The origin that a response allows is the request's own, which then is present and allowed by the
-- policy, or `*` under a policy that allows every origin, and then never to a request with an origin
-- when credentials are allowed.
pub apply_cors-allowed :
    (cors : CorsOptions) (http_method : HttpMethod) (origin allowed : Bytes)
    → (apply_cors cors http_method origin).sets_origin ≡ some allowed
    → ((allowed ≡ any_origin)
        × (allows_all_origins cors ≡ true)
        × (cors.allow_credentials && not (same_bytes origin []) ≡ false))
      ⊎ ((allowed ≡ origin)
          × (same_bytes origin [] ≡ false)
          × (allows_all_origins cors || contains cors.allowed_origins origin ≡ true))
unfolding apply_cors same_bytes
apply_cors-allowed cors http_method origin allowed e = elim (allow_origin-cases cors origin) [
  | inl none_allowed ↦ ground (arith, e, none_allowed)
  | inr (inl (a, b, c)) ↦ ground (arith, e, a, b, c)
  | inr (inr (a, b, c)) ↦ ground (arith, e, a, b, c)
]
