-- ===== src/Codec/Encoding/RoundTrip.antt =====
-- DecodePacket against EncodePacket, and against its inputs.
use go_engine_io.Base.{
  ℕ, sym, ◌∙◌, ==_iff, ◌≤◌, ◌<◌, ◌≡◌, inl, inr, refl, arith, true, false, none, some, [], ◌∷◌, All,
  ◌==◌, Bool-cases, Option-cases,
}
use mathlib.Core.Path.{subst}
use go_engine_io.Codec.Packet.{
  Bytes, IsByte, Packet, IsValid, to_byte, packet_message, valid, from-to_byte, to-from_byte,
  packet_noop,
}
use go_engine_io.Codec.Result.{ok, err, corrupt_base64}
use go_engine_io.Codec.Base64.{decode_string, encode}
use go_engine_io.Codec.Base64.RoundTrip.{decode_string-encode}
use go_engine_io.Codec.Base64.Output.{decode_string-IsByte}
use go_engine_io.Codec.Encoding.{binary_marker, encode_packet, decode_packet}

to_byte_ne_marker : (t : ℕ) → t ≤ packet_noop → (to_byte t == binary_marker) ≡ false
unfolding to_byte
to_byte_ne_marker t h = ground arith

valid_known : (t : ℕ) → t ≤ packet_noop → valid t ≡ true
unfolding valid
valid_known t h = ground arith

pub encode_packet-binary :
    (p : Packet) → p.is_binary ≡ true → encode_packet p ≡ binary_marker ∷ encode p.body
unfolding encode_packet
encode_packet-binary p b = ground arith

pub encode_packet-text :
    (p : Packet) → p.is_binary ≡ false → encode_packet p ≡ to_byte p.type ∷ p.body
unfolding encode_packet
encode_packet-text p t = ground arith

pub decode_packet-binary :
    (rest body : Bytes)
    → decode_string rest ≡ some body
    → decode_packet (binary_marker ∷ rest)
      ≡ ok (record { type = packet_message; body = body; is_binary = true })
unfolding decode_packet
decode_packet-binary rest body e = ground arith

pub decode_packet-text :
    (t : ℕ) (body : Bytes)
    → t ≤ packet_noop
    → decode_packet (to_byte t ∷ body) ≡ ok (record { type = t; body = body; is_binary = false })
unfolding decode_packet
decode_packet-text t body h =
    ground (arith, to_byte_ne_marker t h, from-to_byte t (omega arith), valid_known t h)

pub decode_packet_corrupt :
    (rest : Bytes)
    → decode_string rest ≡ none
    → decode_packet (binary_marker ∷ rest) ≡ err corrupt_base64
unfolding decode_packet
decode_packet_corrupt rest e = ground arith

-- A valid packet is decoded to itself after it was encoded.
pub decode_packet-encode_packet : (p : Packet) → IsValid p → decode_packet (encode_packet p) ≡ ok p
decode_packet-encode_packet p v = elim (Bool-cases p.is_binary) [
  | inl b ↦ ground (
    arith,
    encode_packet-binary p b,
    decode_packet-binary (encode p.body) p.body (decode_string-encode p.body v.bytes),
    v.binary_message b,
  )
  | inr t ↦ ground (arith, encode_packet-text p t, decode_packet-text p.type p.body v.known)
]

-- What `decode_packet_sound` says of a packet read from `input`.
abbrev Sound : Bytes → Packet → Type 0
Sound input p = IsValid p × (p.is_binary ≡ false → encode_packet p ≡ input)

Sound-ok : (input : Bytes) (q p : Packet) → Sound input q → ok q ≡ ok p → Sound input p
Sound-ok input q p h e = subst (Sound input) (cc) h

Sound-binary :
    (rest : Bytes) (p : Packet)
    → decode_packet (binary_marker ∷ rest) ≡ ok p
    → Sound (binary_marker ∷ rest) p
Sound-binary rest p e = elim (Option-cases (decode_string rest)) [
  | inl n ↦ absurd (ground (arith, decode_packet_corrupt rest n))
  | inr (body, s) ↦
      Sound-ok _ (record { type = packet_message; body = body; is_binary = true }) p
        (
          record {
            known = omega arith;
            bytes = decode_string-IsByte rest s;
            binary_message = λ _. refl;
          },
          λ t. cc,
        )
        (sym (decode_packet-binary rest body s) ∙ e)
]

Sound-text :
    (c : ℕ) (rest : Bytes) (p : Packet)
    → c < 256
    → All IsByte rest
    → (c == binary_marker) ≡ false
    → decode_packet (c ∷ rest) ≡ ok p
    → Sound (c ∷ rest) p
unfolding decode_packet encode_packet valid
Sound-text c rest p hc h m e = (
  record { known = ground arith; bytes = ground arith; binary_message = ground arith },
  ground (arith, to-from_byte c hc),
)

-- Every decoded packet is valid, and a text packet encodes to the input that it was read from.
pub decode_packet_sound :
    (input : Bytes) (p : Packet)
    → All IsByte input
    → decode_packet input ≡ ok p
    → IsValid p × (p.is_binary ≡ false → encode_packet p ≡ input)
decode_packet_sound [] p h e = unfold decode_packet in cc
decode_packet_sound (c ∷ rest) p h e = elim (Bool-cases (c == binary_marker)) [
  | inl b ↦
      let c≡ : c ≡ binary_marker = (==_iff c binary_marker).0 b in
      rw c≡ (Sound-binary rest p (rw c≡ at e))
  | inr t ↦ Sound-text c rest p h.0 h.1 t e
]
