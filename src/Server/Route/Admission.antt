-- ===== src/Server/Route/Admission.antt =====
-- server.go: what has been checked of a request by the time that it is acted on.
use go_engine_io.Base.{
  ◌≡◌, refl, ap, inl, inr, arith, Bool, true, false, not, ◌&&◌, ◌||◌, some, [], ◌∷◌, if-branches,
  Option-cases,
}
use go_engine_io.Codec.Packet.{Bytes}
use go_engine_io.Server.Request.{
  HttpMethod, method_get, method_post, method_options, method_connect, other_method, Request,
  bad_request, same_bytes, contains, polling_name, websocket_name, webtransport_name,
}
use go_engine_io.Server.Route.{
  RouteConfig, Sessions, Action, answer_preflight, serve_webtransport, begin_handshake,
  reject_connection, write_server_error, hold_poll, receive_post, handle_web_socket, is_method_get,
  is_method_options, is_method_connect, session_request, handle_polling, serve_http,
}

-- A v4 request that is no preflight, over an HTTP transport that is enabled.
pub record IsTransport (config : RouteConfig) (r : Request) (name : Bytes) : Type 0 where
  pub no_preflight : is_method_options r.http_method ≡ false
  pub version : same_bytes r.eio (b'4' ∷ []) ≡ true
  pub named : same_bytes r.transport_name name ≡ true
  pub enabled : contains config.transports r.transport_name ≡ true

-- What holds of a request that leads to an action.
abbrev pub IsAdmitted : RouteConfig → Sessions → Request → Action → Type 0
IsAdmitted config sessions r answer_preflight = is_method_options r.http_method ≡ true
IsAdmitted config sessions r serve_webtransport =
    (is_method_connect r.http_method ≡ true)
    × (same_bytes r.proto webtransport_name ≡ true)
    × (config.has_webtransport_upgrade ≡ true)
    × (contains config.transports webtransport_name ≡ true)
IsAdmitted config sessions r begin_handshake =
    IsTransport config r polling_name
    × (is_method_get r.http_method ≡ true)
    × (same_bytes r.sid [] ≡ true)
IsAdmitted config sessions r (reject_connection code) = Unit
IsAdmitted config sessions r (write_server_error code) =
    IsTransport config r polling_name
    × (code ≡ bad_request)
    × (polls : Bool) × (sessions r.sid ≡ some polls)
IsAdmitted config sessions r (hold_poll sid) =
    IsTransport config r polling_name
    × (sid ≡ r.sid)
    × (is_method_get r.http_method ≡ true)
    × (sessions sid ≡ some true)
IsAdmitted config sessions r (receive_post sid) =
    IsTransport config r polling_name
    × (sid ≡ r.sid)
    × (r.http_method ≡ method_post)
    × (polls : Bool) × (sessions sid ≡ some polls)
IsAdmitted config sessions r (handle_web_socket sid) =
    IsTransport config r websocket_name × (sid ≡ r.sid)

IsAdmitted-session_request :
    (config : RouteConfig) (sessions : Sessions) (r : Request) (polls : Bool) (method : HttpMethod)
    → IsTransport config r polling_name
    → sessions r.sid ≡ some polls
    → r.http_method ≡ method
    → IsAdmitted config sessions r (session_request method r.sid polls)
IsAdmitted-session_request config sessions r true method_get t e m =
    (t, refl, ap is_method_get m, e)
IsAdmitted-session_request config sessions r false method_get t e m = (t, refl, false, e)
IsAdmitted-session_request config sessions r polls method_post t e m = (t, refl, m, polls, e)
IsAdmitted-session_request config sessions r polls method_options t e m = (t, refl, polls, e)
IsAdmitted-session_request config sessions r polls method_connect t e m = (t, refl, polls, e)
IsAdmitted-session_request config sessions r polls other_method t e m = (t, refl, polls, e)

IsAdmitted-handle_polling :
    (config : RouteConfig) (sessions : Sessions) (r : Request)
    → IsTransport config r polling_name
    → IsAdmitted config sessions r (handle_polling sessions r)
unfolding handle_polling
IsAdmitted-handle_polling config sessions r t =
    if-branches (IsAdmitted config sessions r) (same_bytes r.sid []) _ _
      (λ empty.
        if-branches (IsAdmitted config sessions r) (not (is_method_get r.http_method)) _ _
          (λ other. tt) (λ get. (t, ground (arith, get), empty)))
      (λ named. elim (Option-cases (sessions r.sid)) [
        | inl e ↦ rw e tt
        | inr (polls, e) ↦
            rw e (IsAdmitted-session_request config sessions r polls r.http_method t e refl)
      ])

-- Every request that ServeHTTP acts on has passed the checks of that action: a poll or a post
-- reaches a stored session of its id over enabled polling at version 4, a poll one that still polls,
-- a handshake comes by GET without an id, and WebTransport is served only when it is enabled and
-- wired.
pub serve_http-IsAdmitted :
    (config : RouteConfig) (sessions : Sessions) (r : Request)
    → IsAdmitted config sessions r (serve_http config sessions r)
unfolding serve_http
serve_http-IsAdmitted config sessions r =
    let P = IsAdmitted config sessions r in
    if-branches P (is_method_options r.http_method) _ _ (λ options. options)
      (λ no_options.
        if-branches P (is_method_connect r.http_method && same_bytes r.proto webtransport_name) _ _
          (λ wt.
            if-branches P
              (not config.has_webtransport_upgrade
                || not (contains config.transports webtransport_name))
              _ _ (λ off. tt)
              (λ on.
                (ground (arith, wt), ground (arith, wt), ground (arith, on), ground (arith, on))))
          (λ http.
            if-branches P (not (same_bytes r.eio (b'4' ∷ []))) _ _ (λ old. tt)
              (λ v4.
                if-branches P (not (contains config.transports r.transport_name)) _ _ (λ off. tt)
                  (λ on.
                    if-branches P (same_bytes r.transport_name websocket_name) _ _
                      (λ ws. (
                        record {
                          no_preflight = no_options;
                          version = ground (arith, v4);
                          named = ws;
                          enabled = ground (arith, on);
                        },
                        refl,
                      ))
                      (λ other.
                        if-branches P (same_bytes r.transport_name polling_name) _ _
                          (λ polls. IsAdmitted-handle_polling config sessions r (record {
                            no_preflight = no_options;
                            version = ground (arith, v4);
                            named = polls;
                            enabled = ground (arith, on);
                          }))
                          (λ unknown. tt))))))
