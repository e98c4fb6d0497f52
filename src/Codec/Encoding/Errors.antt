-- ===== src/Codec/Encoding/Errors.antt =====
-- The errors of DecodePacket, each with the inputs that cause it.
use go_engine_io.Base.{
  ℕ, ==_iff, ◌↔◌, ◌<◌, ◌≡◌, ◌≢◌, ◌⊎◌, inl, inr, arith, none, [], ◌∷◌, All, ◌==◌, Bool-cases,
  Option-cases,
}
use go_engine_io.Codec.Packet.{Bytes, IsByte, packet_type_from_byte, valid}
use go_engine_io.Codec.Result.{Error, err, empty_packet, invalid_packet_type, corrupt_base64}
use go_engine_io.Codec.Base64.{decode_string}
use go_engine_io.Codec.Encoding.RoundTrip.{decode_packet_corrupt, decode_packet-binary}
use go_engine_io.Codec.Encoding.{binary_marker, decode_packet}

-- What makes DecodePacket refuse an input, and with which error.
abbrev pub Refused : Bytes → Error → Type 0
Refused [] e = e ≡ empty_packet
Refused (c ∷ rest) e =
    ((c ≡ binary_marker) × (decode_string rest ≡ none) × (e ≡ corrupt_base64))
    ⊎ ((c ≢ binary_marker) × ((c < b'0') ⊎ (b'6' < c)) × (e ≡ invalid_packet_type))

Refused-binary :
    (rest : Bytes) (e : Error)
    → (decode_packet (binary_marker ∷ rest) ≡ err e) ↔ Refused (binary_marker ∷ rest) e
Refused-binary rest e = elim (Option-cases (decode_string rest)) [
  | inl n ↦
      (ground (arith, decode_packet_corrupt rest n), ground (arith, decode_packet_corrupt rest n))
  | inr (body, s) ↦ (
    ground (arith, decode_packet-binary rest body s),
    ground (arith, decode_packet-binary rest body s),
  )
]

Refused-text :
    (c : ℕ) (rest : Bytes) (e : Error)
    → c < 256
    → c ≢ binary_marker
    → (decode_packet (c ∷ rest) ≡ err e) ↔ Refused (c ∷ rest) e
unfolding decode_packet packet_type_from_byte valid
Refused-text c rest e hc m = (ground arith, ground arith)

-- DecodePacket fails exactly on these inputs and with these errors: the empty input (empty packet),
-- a binary marker before text that base64 does not decode (corrupt base64), and any other first
-- byte outside '0' to '6' (invalid packet type).
pub decode_packet_refuses :
    (input : Bytes) (e : Error) → All IsByte input → (decode_packet input ≡ err e) ↔ Refused input e
decode_packet_refuses [] e h = unfold decode_packet in (ground arith, ground arith)
decode_packet_refuses (c ∷ rest) e h = elim (Bool-cases (c == binary_marker)) [
  | inl b ↦ rw ((==_iff c binary_marker).0 b) (Refused-binary rest e)
  | inr t ↦ Refused-text c rest e h.0 (ground arith)
]
