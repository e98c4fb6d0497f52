-- ===== src/Server/OptionsTests.antt =====
-- server_options.go: the theorems on options and session ids at concrete values.
use go_engine_io.Base.{◌≡◌, ◌≢◌, true, false, some, List, [], ◌∷◌, arith}
use go_engine_io.Base.Int.{pos}
use go_engine_io.Codec.Packet.{Bytes}
use go_engine_io.Server.SessionId.{generate_session_id, generate_session_id-IsDistinct}
use go_engine_io.Server.Options.{
  CookieOptions, same_site_unset, ServerOption, with_max_payload, with_allow_upgrades, with_cookie,
  default_server_config, new_server,
}
use go_engine_io.Server.Options.Last.{overridden, new_server-overridden}

abbrev cookie : CookieOptions
cookie = record {
  name = [];
  path = [];
  http_only = true;
  secure = false;
  same_site = same_site_unset;
  max_age = pos 0;
}

abbrev options : List ServerOption
options =
    with_max_payload (pos 5)
    ∷ with_cookie cookie
    ∷ with_allow_upgrades false
    ∷ with_max_payload (pos 7)
    ∷ []

new_server-overridden_example :
    new_server (b'7' ∷ []) options ≡ overridden options (default_server_config (b'7' ∷ []))
new_server-overridden_example = new_server-overridden (b'7' ∷ []) options

abbrev one_buffer : Bytes
one_buffer = 0 ∷ 1 ∷ 2 ∷ 3 ∷ 4 ∷ 5 ∷ 6 ∷ 7 ∷ 8 ∷ 9 ∷ 10 ∷ 11 ∷ 12 ∷ 13 ∷ 14 ∷ 15 ∷ 16 ∷ 17 ∷ []

abbrev other_buffer : Bytes
other_buffer = 0 ∷ 1 ∷ 2 ∷ 3 ∷ 4 ∷ 5 ∷ 6 ∷ 7 ∷ 8 ∷ 9 ∷ 10 ∷ 11 ∷ 12 ∷ 13 ∷ 14 ∷ 15 ∷ 16 ∷ 255 ∷ []

buffers_differ : one_buffer ≢ other_buffer
buffers_differ e = cc

generate_session_id-IsDistinct_example :
    generate_session_id (some one_buffer) ≢ generate_session_id (some other_buffer)
generate_session_id-IsDistinct_example =
    generate_session_id-IsDistinct one_buffer other_buffer (ground arith) (ground arith)
      buffers_differ
