-- ===== src/Client/Socket/Receive.antt =====
-- socket.go: what the client socket does with a packet, and how it chooses a transport. A packet's
-- handlers and the goroutines that it starts are events.
use go_engine_io.Base.{
  ◌≡◌, inl, inr, Bool, true, false, not, ◌&&◌, ◌||◌, Option, none, some, List, [], ◌∷◌, ◌++◌, ◌==◌,
  if◌then◌else◌, Bool-cases, Option-cases,
}
use go_engine_io.Base.Int.{ℤ}
use go_engine_io.Codec.Packet.{
  Packet, Bytes, bare, packet_open, packet_ping, packet_pong, packet_message,
}
use go_engine_io.Session.Socket.{TransportType, polling, websocket, webtransport}
use go_engine_io.Session.Operations.{Cause}
use go_engine_io.Client.Socket.{ClientSocket, is_closed, queue_packets, record_open}

abbrev pub same_type : TransportType → TransportType → Bool
same_type polling polling = true
same_type polling websocket = false
same_type polling webtransport = false
same_type websocket polling = false
same_type websocket websocket = true
same_type websocket webtransport = false
same_type webtransport polling = false
same_type webtransport websocket = false
same_type webtransport webtransport = true

-- slices.Contains on transport kinds.
unfoldable pub has_type : List TransportType → TransportType → Bool
has_type [] kind = false
has_type (x ∷ xs) kind = let rest = has_type xs kind in same_type x kind || rest

abbrev pub remembered :
    Bool → Option TransportType → List TransportType → TransportType → TransportType
remembered remember none kinds first = first
remembered remember (some prior) kinds first =
    if remember && has_type kinds prior then prior else first

-- selectTransport, with the option to remember an upgrade.
unfoldable pub select_transport : Bool → ClientSocket → Option TransportType
select_transport remember s = elim s.transports [
  | [] ↦ none
  | first ∷ rest ↦ some (remembered remember s.prior_upgrade (first ∷ rest) first)
]

-- What probeUpgrades comes to: the kind that the socket was upgraded to, and the probes that failed.
abbrev pub Probed : Type 0
Probed = Option TransportType × List (TransportType × Cause)

-- The loop of probeUpgrades, for the outcome of each probe.
unfoldable pub probe_upgrades :
    (TransportType → Option Cause) → List TransportType → List TransportType → Probed
probe_upgrades probe [] transports = (none, [])
probe_upgrades probe (candidate ∷ upgrades) transports =
    let rest = probe_upgrades probe upgrades transports in
    if not (has_type transports candidate) then rest else elim (probe candidate) [
      | none ↦ (some candidate, [])
      | some cause ↦ (rest.0, (candidate, cause) ∷ rest.1)
    ]

-- What an open packet says, when it can be read.
pub record OpenPacket : Type 0 where
  pub open_id : Bytes
  pub upgrades : List TransportType
  pub open_limit : ℤ

-- What onPacket does besides changing the socket.
pub data SocketEvent : Type 0 where
  restarts_heartbeat : SocketEvent
  reports_open_error : SocketEvent
  flushes calls_on_socket_open : SocketEvent
  starts_probes : List TransportType → SocketEvent
  calls_on_message : Bytes → Bool → SocketEvent
  calls_on_packet : Packet → SocketEvent

-- Send with a pong, which does nothing on a socket that is closing.
abbrev pub send_pong : ClientSocket → ClientSocket × List SocketEvent
send_pong s = elim (queue_packets (bare packet_pong ∷ []) s) [
  | none ↦ (s, [])
  | some next ↦ (next, flushes ∷ [])
]

abbrev pub any_type : List TransportType → Bool
any_type [] = false
any_type (kind ∷ kinds) = true

abbrev pub offered : Bool → List TransportType → List SocketEvent
offered upgrade upgrades = if upgrade && any_type upgrades then starts_probes upgrades ∷ [] else []

-- onOpen behind recordOpen, with whether resolveURL succeeds.
abbrev pub announce_open : Bool → OpenPacket → ClientSocket → List SocketEvent
announce_open resolves opened s = elim s.transport [
  | none ↦ []
  | some active ↦
      if resolves
      then restarts_heartbeat ∷ flushes ∷ calls_on_socket_open ∷ offered s.upgrade opened.upgrades
      else restarts_heartbeat ∷ reports_open_error ∷ []
]

unfoldable pub on_open : Bool → OpenPacket → ClientSocket → ClientSocket × List SocketEvent
on_open resolves opened s =
    let next = record_open opened.open_id opened.open_limit s in
    (next, announce_open resolves opened next)

abbrev pub receive_open : Bool → Option OpenPacket → ClientSocket → ClientSocket × List SocketEvent
receive_open resolves none s = (s, reports_open_error ∷ [])
receive_open resolves (some opened) s = on_open resolves opened s

-- The switch of onPacket, with json.Unmarshal of an open packet's data.
unfoldable pub receive :
    Bool → (Bytes → Option OpenPacket) → Packet → ClientSocket → ClientSocket × List SocketEvent
receive resolves unmarshal p s =
    if p.type == packet_open
    then receive_open resolves (unmarshal p.body) s
    else if p.type == packet_ping
    then send_pong s
    else if p.type == packet_message
    then (s, calls_on_message p.body p.is_binary ∷ [])
    else (s, [])

unfoldable pub on_packet :
    Bool → (Bytes → Option OpenPacket) → Packet → ClientSocket → ClientSocket × List SocketEvent
on_packet resolves unmarshal p s =
    if is_closed s.state
    then (s, [])
    else (let (next, events) = receive resolves unmarshal p s in
        (next, restarts_heartbeat ∷ (events ++ calls_on_packet p ∷ [])))

-- What a run of probes says: the kind is the first that is configured and whose probe succeeds, and
-- the failures are those of the configured kinds before it.
pub data FirstUpgrade (probe : TransportType → Option Cause) (transports : List TransportType)
    : List TransportType → Probed → Type 0 where
  no_more : FirstUpgrade probe transports [] (none, [])
  skipped :
      (candidate : TransportType) (upgrades : List TransportType) (rest : Probed)
      → has_type transports candidate ≡ false
      → FirstUpgrade probe transports upgrades rest
      → FirstUpgrade probe transports (candidate ∷ upgrades) rest
  succeeded :
      (candidate : TransportType) (upgrades : List TransportType)
      → has_type transports candidate ≡ true
      → probe candidate ≡ none
      → FirstUpgrade probe transports (candidate ∷ upgrades) (some candidate, [])
  failed_first :
      (candidate : TransportType) (upgrades : List TransportType) (cause : Cause) (rest : Probed)
      → has_type transports candidate ≡ true
      → probe candidate ≡ some cause
      → FirstUpgrade probe transports upgrades rest
      → FirstUpgrade probe transports (candidate ∷ upgrades) (rest.0, (candidate, cause) ∷ rest.1)

-- probeUpgrades tries the offered kinds that are configured, in order, stops at the first whose probe
-- succeeds, and reports the failures before it.
pub probe_upgrades-FirstUpgrade :
    (probe : TransportType → Option Cause) (upgrades transports : List TransportType)
    → FirstUpgrade probe transports upgrades (probe_upgrades probe upgrades transports)
unfolding probe_upgrades
probe_upgrades-FirstUpgrade probe [] transports = no_more
probe_upgrades-FirstUpgrade probe (candidate ∷ upgrades) transports =
    let rest = probe_upgrades probe upgrades transports in
    let next = probe_upgrades-FirstUpgrade probe upgrades transports in
    elim (Bool-cases (has_type transports candidate)) [
      | inr h ↦ rw h (skipped candidate upgrades rest h next)
      | inl h ↦ elim (Option-cases (probe candidate)) [
        | inl e ↦ rw (h, e) (succeeded candidate upgrades h e)
        | inr (cause, e) ↦ rw (h, e) (failed_first candidate upgrades cause rest h e next)
      ]
    ]
