-- ===== src/Codec/Payload/Versions.antt =====
-- DecodePayload, over the protocol versions.
use go_engine_io.Base.{
  ℕ, ◌<◌, ◌≡◌, ◌≢◌, inl, inr, arith, Bool, true, false, none, List, [], ◌∷◌, ◌++◌, All, take, ◌==◌,
  if◌then◌else◌, Option-cases,
}
use go_engine_io.Codec.Packet.{Bytes, IsByte, Packet}
use go_engine_io.Codec.Result.{Result-cases, ok, err, out_of_fuel, malformed_payload}
use go_engine_io.Codec.Runes.{decode_runes, encode_runes, decode_rune-ascii}
use go_engine_io.Codec.Encoding.{decode_packet}
use go_engine_io.Codec.Payload.{decode_payload, starts_framed}
use go_engine_io.Codec.Payload.Separated.{
  encode_payload, decode_segments, decode_record_separator_payload,
}
use go_engine_io.Codec.Payload.Separated.RoundTrip.{Fits, decode-encode_payload}
use go_engine_io.Codec.Payload.Separated.Sound.{encode-decode_payload}
use go_engine_io.Codec.Payload.Framed.Ends.{decode_binary_framed_payload-ends}
use go_engine_io.Codec.Payload.Strings.{
  index, parse_digits, atoi, read_string_frame, decode_string_framed_payload,
}
use go_engine_io.Codec.Payload.Strings.Ends.{decode_string_framed_payload-ends}

-- Decoding a v4 payload gives back the packets that were encoded, in their order, for every
-- non-empty list of valid packets whose text data holds no record separator.
pub decode_payload-encode_payload :
    (p : Packet) (ps : List Packet)
    → All Fits (p ∷ ps)
    → decode_payload 4 (encode_payload (p ∷ ps)) ≡ ok (p ∷ ps)
unfolding decode_payload
decode_payload-encode_payload p ps h = decode-encode_payload p ps h

-- A v4 payload that decodes to text packets is, byte for byte, what encoding those packets gives.
pub encode_payload-decode_payload :
    (input : Bytes) (p : Packet) (ps : List Packet)
    → All IsByte input
    → All (λ q. q.is_binary ≡ false) (p ∷ ps)
    → decode_payload 4 input ≡ ok (p ∷ ps)
    → encode_payload (p ∷ ps) ≡ input
unfolding decode_payload
encode_payload-decode_payload input p ps h t e = encode-decode_payload input p ps h t e

decode_packet-ne : (s : Bytes) → decode_packet s ≢ err out_of_fuel
unfolding decode_packet
decode_packet-ne [] e = cc
decode_packet-ne (c ∷ rest) e = ground arith

decode_segments-ne :
    (ss : List Bytes) (done : List Packet) → decode_segments ss done ≢ err out_of_fuel
unfolding decode_segments
decode_segments-ne [] done = λ e. cc
decode_segments-ne (s ∷ ss) done = elim (Result-cases (decode_packet s)) [
  | inl (p, e) ↦ rw e (decode_segments-ne ss (done ++ (p ∷ [])))
  | inr (x, e) ↦ rw e (λ q. decode_packet-ne s (cc))
]

if-ne {ℓ} : {A : Type ℓ} {x y z : A} (b : Bool) → x ≢ z → y ≢ z → (if b then x else y) ≢ z
if-ne true h k = h
if-ne false h k = k

-- DecodePayload ends on every input and for every version: no loop runs out of its rounds.
pub decode_payload-ends :
    (version : ℕ) (input : Bytes) → decode_payload version input ≢ err out_of_fuel
unfolding decode_payload decode_record_separator_payload
decode_payload-ends version input = if-ne (version == 4) (decode_segments-ne _ []) (
    if-ne (version == 3)
      (if-ne (starts_framed input) (decode_binary_framed_payload-ends input)
        (decode_string_framed_payload-ends input))
      (if-ne (version == 2) (decode_string_framed_payload-ends input) (λ e. cc)))

atoi_marker : (m : ℕ) (cs : Bytes) → m < 2 → atoi (m ∷ cs) ≡ none
unfolding atoi parse_digits
atoi_marker m cs h = ground arith

encode_runes_marker : (m : ℕ) (rs : List ℕ) → m < 2 → encode_runes (m ∷ rs) ≡ m ∷ encode_runes rs
unfolding encode_runes
encode_runes_marker m rs h = ground arith

-- A frame whose first rune is a marker has no decimal length.
read_string_frame_marker :
    (m len cursor : ℕ) (runes : List ℕ)
    → m < 2
    → read_string_frame len cursor (m ∷ runes) ≡ err malformed_payload
unfolding read_string_frame index
read_string_frame_marker m len cursor runes h = elim (Option-cases (index runes b':')) [
  | inl e ↦ ground arith
  | inr (k, e) ↦
      ground
        (arith, atoi_marker m (encode_runes (take k runes)), encode_runes_marker m (take k runes))
]

-- In v2 an input that starts with a marker of the binary framing is malformed.
pub decode_payload_v2_marker :
    (marker : ℕ) (rest : Bytes)
    → marker < 2
    → decode_payload 2 (marker ∷ rest) ≡ err malformed_payload
unfolding decode_payload decode_string_framed_payload decode_runes
decode_payload_v2_marker marker rest h =
    rw (decode_rune-ascii marker rest (omega arith)) (rw (read_string_frame_marker marker _ 0 _ h))
