-- ===== src/Server/Options/Last.antt =====
-- What the options of NewServer come to: each field is read off the options of its own kind alone.
use go_engine_io.Base.{ℕ, ◌≡◌, refl, Bool, Option, none, some, List, [], ◌∷◌}
use go_engine_io.Base.Int.{ℤ}
use go_engine_io.Codec.Packet.{Bytes}
use go_engine_io.Server.Request.{Request}
use go_engine_io.Server.Cors.{CorsOptions}
use go_engine_io.Server.Options.{
  CookieOptions, Settings, ServerOption, with_ping_interval, with_ping_timeout,
  with_upgrade_timeout, with_max_payload, with_server_transports, with_allow_upgrades, with_cors,
  with_generate_id, with_allow_request, sets_cookie, with_http_compression,
  with_web_transport_server, apply_option, apply_options, default_server_config, new_server,
}

module _ {ℓ} {A : Type ℓ} where
  abbrev given : Option A → A → A
  given none default = default
  given (some v) default = v

  -- The value of the last option that is one of the kind `pick` reads.
  unfoldable pub last_given : (ServerOption → Option A) → List ServerOption → A → A
  last_given pick [] default = default
  last_given pick (o ∷ options) default = last_given pick options (given (pick o) default)

abbrev pick_ping_interval : ServerOption → Option (ℤ)
pick_ping_interval (with_ping_interval v) = some v
pick_ping_interval _ = none

abbrev pick_ping_timeout : ServerOption → Option (ℤ)
pick_ping_timeout (with_ping_timeout v) = some v
pick_ping_timeout _ = none

abbrev pick_upgrade_timeout : ServerOption → Option (ℤ)
pick_upgrade_timeout (with_upgrade_timeout v) = some v
pick_upgrade_timeout _ = none

abbrev pick_max_payload : ServerOption → Option (ℤ)
pick_max_payload (with_max_payload v) = some v
pick_max_payload _ = none

abbrev pick_transports : ServerOption → Option (List Bytes)
pick_transports (with_server_transports v) = some v
pick_transports _ = none

abbrev pick_allow_upgrades : ServerOption → Option (Bool)
pick_allow_upgrades (with_allow_upgrades v) = some v
pick_allow_upgrades _ = none

abbrev pick_cors : ServerOption → Option (CorsOptions)
pick_cors (with_cors v) = some v
pick_cors _ = none

abbrev pick_generate_id : ServerOption → Option (Request → Bytes)
pick_generate_id (with_generate_id v) = some v
pick_generate_id _ = none

abbrev pick_allow_request : ServerOption → Option (Option (Request → Option Bytes))
pick_allow_request (with_allow_request v) = some v
pick_allow_request _ = none

abbrev pick_cookie : ServerOption → Option (Option CookieOptions)
pick_cookie (sets_cookie v) = some (some v)
pick_cookie _ = none

abbrev pick_http_compression : ServerOption → Option (Bool)
pick_http_compression (with_http_compression v) = some v
pick_http_compression _ = none

abbrev pick_webtransport_upgrade : ServerOption → Option (Option ℕ)
pick_webtransport_upgrade (with_web_transport_server v) = some (some v)
pick_webtransport_upgrade _ = none

-- Each field is the value of the last option of its kind, or that of `c` when there is none.
abbrev pub overridden : List ServerOption → Settings → Settings
overridden options c = record {
  ping_interval = last_given pick_ping_interval options c.ping_interval;
  ping_timeout = last_given pick_ping_timeout options c.ping_timeout;
  upgrade_timeout = last_given pick_upgrade_timeout options c.upgrade_timeout;
  max_payload = last_given pick_max_payload options c.max_payload;
  transports = last_given pick_transports options c.transports;
  allow_upgrades = last_given pick_allow_upgrades options c.allow_upgrades;
  cors = last_given pick_cors options c.cors;
  generate_id = last_given pick_generate_id options c.generate_id;
  allow_request = last_given pick_allow_request options c.allow_request;
  cookie = last_given pick_cookie options c.cookie;
  http_compression = last_given pick_http_compression options c.http_compression;
  webtransport_upgrade = last_given pick_webtransport_upgrade options c.webtransport_upgrade;
}

apply_options-overridden :
    (options : List ServerOption) (c : Settings) → apply_options options c ≡ overridden options c
unfolding apply_options apply_option last_given
apply_options-overridden [] c = refl
apply_options-overridden (with_ping_interval v ∷ options) c = apply_options-overridden options _
apply_options-overridden (with_ping_timeout v ∷ options) c = apply_options-overridden options _
apply_options-overridden (with_upgrade_timeout v ∷ options) c = apply_options-overridden options _
apply_options-overridden (with_max_payload v ∷ options) c = apply_options-overridden options _
apply_options-overridden (with_server_transports v ∷ options) c = apply_options-overridden options _
apply_options-overridden (with_allow_upgrades v ∷ options) c = apply_options-overridden options _
apply_options-overridden (with_cors v ∷ options) c = apply_options-overridden options _
apply_options-overridden (with_generate_id v ∷ options) c = apply_options-overridden options _
apply_options-overridden (with_allow_request v ∷ options) c = apply_options-overridden options _
apply_options-overridden (sets_cookie v ∷ options) c = apply_options-overridden options _
apply_options-overridden (with_http_compression v ∷ options) c = apply_options-overridden options _
apply_options-overridden (with_web_transport_server v ∷ options) c =
    apply_options-overridden options _

-- A new server runs with the defaults, each field replaced by the last option of its own kind when
-- there is one, whatever the other options and their order.
pub new_server-overridden :
    (session_id : Bytes) (options : List ServerOption)
    → new_server session_id options ≡ overridden options (default_server_config session_id)
unfolding new_server
new_server-overridden session_id options =
    apply_options-overridden options (default_server_config session_id)
