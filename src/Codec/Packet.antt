-- ===== src/Codec/Packet.antt =====
-- packet.go: the packet types, their wire digits, and the packet record.
use go_engine_io.Base.{ℕ, ◌+◌, ◌%◌, ◌<◌, ◌≤◌, ◌≡◌, arith, Bool, true, List, leb, All}

-- Go's `byte` and `uint8`.
abbrev pub IsByte : ℕ → Type 0
IsByte b = b < 256

abbrev pub Bytes : Type 0
Bytes = List ℕ

-- `type PacketType uint8`: an open type, so a value outside the seven constants can occur.
abbrev pub PacketType : Type 0
PacketType = ℕ

abbrev pub packet_open : PacketType
packet_open = 0

abbrev pub packet_close : PacketType
packet_close = 1

abbrev pub packet_ping : PacketType
packet_ping = 2

abbrev pub packet_pong : PacketType
packet_pong = 3

abbrev pub packet_message : PacketType
packet_message = 4

abbrev pub packet_upgrade : PacketType
packet_upgrade = 5

abbrev pub packet_noop : PacketType
packet_noop = 6

-- `byte(p) + '0'`, which wraps at 256.
unfoldable pub to_byte : PacketType → ℕ
to_byte p = (p + b'0') % 256

unfoldable pub valid : PacketType → Bool
valid p = leb p packet_noop

-- `PacketType(b - '0')`, which wraps at 0.
unfoldable pub packet_type_from_byte : ℕ → PacketType
packet_type_from_byte b = (b + 208) % 256

-- The field `Data` is `body`.
pub record Packet : Type 0 where
  pub type : PacketType
  pub body : Bytes
  pub is_binary : Bool

-- A packet that carries no data, `Packet{Type: t}`.
abbrev pub bare : PacketType → Packet
bare t = record { type = t; body = List.[]; is_binary = Bool.false }

-- What packet.go asks of a packet: a known type, bytes for data, and binary data in messages only.
pub record IsValid (p : Packet) : Type 0 where
  pub known : p.type ≤ packet_noop
  pub bytes : All IsByte p.body
  pub binary_message : p.is_binary ≡ true → p.type ≡ packet_message

pub from-to_byte : (t : PacketType) → t < 256 → packet_type_from_byte (to_byte t) ≡ t
unfolding to_byte packet_type_from_byte
from-to_byte t h = omega arith

pub to-from_byte : (b : ℕ) → b < 256 → to_byte (packet_type_from_byte b) ≡ b
unfolding to_byte packet_type_from_byte
to-from_byte b h = omega arith

-- The two conversions between packet types and wire bytes undo one another on every uint8, and
-- exactly the seven known types are valid and are written as the digits '0' to '6'.
pub packet_type_bytes :
    (t : PacketType)
    → t < 256
    → (packet_type_from_byte (to_byte t) ≡ t)
      × (to_byte (packet_type_from_byte t) ≡ t)
      × (valid t ≡ true → (b'0' ≤ to_byte t) × (to_byte t ≤ b'6'))
      × (b'0' ≤ to_byte t → to_byte t ≤ b'6' → valid t ≡ true)
unfolding to_byte packet_type_from_byte valid
packet_type_bytes t h =
    (omega arith, omega arith, λ v. (ground arith, ground arith), λ lo hi. ground arith)
