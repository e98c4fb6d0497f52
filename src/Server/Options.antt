-- ===== src/Server/Options.antt =====
-- server_options.go: the options of a server, and how NewServer applies them over the defaults.
pub mod Last
use go_engine_io.Base.{
  ℕ, ◌≡◌, refl, Bool, true, false, Option, none, some, List, [], ◌∷◌, if◌then◌else◌,
}
use go_engine_io.Base.Int.{ℤ, pos}
use go_engine_io.Codec.Packet.{Bytes}
use go_engine_io.Server.Request.{Request, polling_name, websocket_name, same_bytes}
use go_engine_io.Server.Cors.{CorsOptions}

-- net/http's SameSite; the value of a field that is not set is none of its constants.
pub data SameSite : Type 0 where
  same_site_unset same_site_default_mode same_site_lax_mode : SameSite
  same_site_strict_mode same_site_none_mode : SameSite

pub record CookieOptions : Type 0 where
  pub name : Bytes
  pub path : Bytes
  pub http_only : Bool
  pub secure : Bool
  pub same_site : SameSite
  pub max_age : ℤ

-- serverConfig, with durations in nanoseconds. The closure that serves a webtransport request calls
-- the server it was made for, which is a number.
pub record Settings : Type 0 where
  pub ping_interval : ℤ
  pub ping_timeout : ℤ
  pub upgrade_timeout : ℤ
  pub max_payload : ℤ
  pub transports : List Bytes
  pub allow_upgrades : Bool
  pub cors : CorsOptions
  pub generate_id : Request → Bytes
  pub allow_request : Option (Request → Option Bytes)
  pub cookie : Option CookieOptions
  pub http_compression : Bool
  pub webtransport_upgrade : Option ℕ

-- ServerOption, one constructor for each closure that the options return.
pub data ServerOption : Type 0 where
  with_ping_interval with_ping_timeout with_upgrade_timeout with_max_payload : ℤ → ServerOption
  with_server_transports : List Bytes → ServerOption
  with_allow_upgrades with_http_compression : Bool → ServerOption
  with_cors : CorsOptions → ServerOption
  with_generate_id : (Request → Bytes) → ServerOption
  with_allow_request : Option (Request → Option Bytes) → ServerOption
  sets_cookie : CookieOptions → ServerOption
  with_web_transport_server : ℕ → ServerOption

abbrev or_else : Bytes → Bytes → Bytes
or_else [] default = default
or_else (x ∷ xs) default = x ∷ xs

abbrev lax_by_default : SameSite → SameSite
lax_by_default same_site_unset = same_site_unset
lax_by_default same_site_default_mode = same_site_lax_mode
lax_by_default same_site_lax_mode = same_site_lax_mode
lax_by_default same_site_strict_mode = same_site_strict_mode
lax_by_default same_site_none_mode = same_site_none_mode

unfoldable pub with_cookie : CookieOptions → ServerOption
with_cookie cookie = sets_cookie (record cookie {
  name = or_else cookie.name (b'i' ∷ b'o' ∷ []);
  path = or_else cookie.path (b'/' ∷ []);
  same_site = lax_by_default cookie.same_site;
})

-- What the closure of an option does.
unfoldable pub apply_option : ServerOption → Settings → Settings
apply_option (with_ping_interval v) c = record c { ping_interval = v }
apply_option (with_ping_timeout v) c = record c { ping_timeout = v }
apply_option (with_upgrade_timeout v) c = record c { upgrade_timeout = v }
apply_option (with_max_payload v) c = record c { max_payload = v }
apply_option (with_server_transports v) c = record c { transports = v }
apply_option (with_allow_upgrades v) c = record c { allow_upgrades = v }
apply_option (with_http_compression v) c = record c { http_compression = v }
apply_option (with_cors v) c = record c { cors = v }
apply_option (with_generate_id v) c = record c { generate_id = v }
apply_option (with_allow_request v) c = record c { allow_request = v }
apply_option (sets_cookie v) c = record c { cookie = some v }
apply_option (with_web_transport_server v) c = record c { webtransport_upgrade = some v }

-- The loop of NewServer.
unfoldable pub apply_options : List ServerOption → Settings → Settings
apply_options [] c = c
apply_options (o ∷ options) c = apply_options options (apply_option o c)

-- defaultServerConfig; generateSessionID does not read the request.
unfoldable pub default_server_config : Bytes → Settings
default_server_config session_id = record {
  ping_interval = pos 25000000000;
  ping_timeout = pos 20000000000;
  upgrade_timeout = pos 10000000000;
  max_payload = pos 1000000;
  transports = polling_name ∷ websocket_name ∷ [];
  allow_upgrades = true;
  cors = record { allow_credentials = false; allowed_origins = []; allowed_headers = [] };
  generate_id = λ r. session_id;
  allow_request = none;
  cookie = none;
  http_compression = true;
  webtransport_upgrade = none;
}

-- The options that a new server runs with.
unfoldable pub new_server : Bytes → List ServerOption → Settings
new_server session_id options = apply_options options (default_server_config session_id)
