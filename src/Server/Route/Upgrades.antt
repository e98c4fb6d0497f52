-- ===== src/Server/Route/Upgrades.antt =====
-- server_handshake.go: which upgrades the open packet advertises.
use go_engine_io.Base.{◌≡◌, refl, ap, arith, Bool, ◌&&◌, ◌||◌, List, [], ◌∷◌, Bool-cases, inl, inr}
use go_engine_io.Codec.Packet.{Bytes}
use go_engine_io.Server.Request.{
  same_bytes, same_bytes_sound, contains, websocket_name, webtransport_name,
}
use go_engine_io.Server.Route.{RouteConfig, upgrades_of, open_upgrades}

-- A transport that can be upgraded to.
abbrev pub is_target : Bool → Bytes → Bool
is_target has_upgrader name =
    same_bytes name websocket_name || (same_bytes name webtransport_name && has_upgrader)

contains-upgrades_of :
    (has_upgrader : Bool) (names : List Bytes) (name : Bytes)
    → contains (upgrades_of has_upgrader names) name
      ≡ (contains names name && is_target has_upgrader name)
unfolding contains upgrades_of
contains-upgrades_of has_upgrader [] name = refl
contains-upgrades_of has_upgrader (x ∷ xs) name = elim (Bool-cases (same_bytes x name)) [
  | inl e ↦ ground (
    arith,
    e,
    ap (λ n. same_bytes n websocket_name) (same_bytes_sound x name e),
    ap (λ n. same_bytes n webtransport_name) (same_bytes_sound x name e),
    contains-upgrades_of has_upgrader xs name,
  )
  | inr e ↦ ground (arith, e, contains-upgrades_of has_upgrader xs name)
]

-- The open packet advertises a transport exactly when upgrades are offered and allowed, the
-- transport is configured, and it is websocket, or webtransport with an upgrader to serve it.
pub contains-open_upgrades :
    (config : RouteConfig) (offer : Bool) (name : Bytes)
    → contains (open_upgrades config offer) name ≡ (
        offer
        && config.allow_upgrades
        && contains config.transports name
        && is_target config.has_webtransport_upgrade name)
unfolding open_upgrades contains
contains-open_upgrades config offer name =
    ground (arith, contains-upgrades_of config.has_webtransport_upgrade config.transports name)
