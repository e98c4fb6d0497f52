-- ===== src/Server/Tests.antt =====
-- server.go: the theorems at concrete requests.
use go_engine_io.Base.{true, false, none, some, [], ◌∷◌, if◌then◌else◌}
use go_engine_io.Server.Request.{Request, method_get, same_bytes, polling_name, websocket_name}
use go_engine_io.Server.Route.{RouteConfig, Sessions, serve_http}
use go_engine_io.Server.Route.Admission.{IsAdmitted, serve_http-IsAdmitted}

abbrev config : RouteConfig
config = record {
  transports = polling_name ∷ websocket_name ∷ [];
  allow_upgrades = true;
  has_webtransport_upgrade = false;
}

abbrev one_session : Sessions
one_session id = if same_bytes id (b'7' ∷ []) then some true else none

abbrev poll : Request
poll = record {
  http_method = method_get;
  proto = [];
  eio = b'4' ∷ [];
  transport_name = polling_name;
  sid = b'7' ∷ [];
}

serve_http-IsAdmitted_example :
    IsAdmitted config one_session poll (serve_http config one_session poll)
serve_http-IsAdmitted_example = serve_http-IsAdmitted config one_session poll
