-- ===== src/Codec/Payload/Separated.antt =====
-- payload.go, v4: packets joined by the record separator.
pub mod RoundTrip
pub mod Sound
use go_engine_io.Base.{ℕ, zero, suc, List, [], ◌∷◌, ◌++◌, ltb, ◌==◌, if◌then◌else◌}
use go_engine_io.Codec.Packet.{Bytes, Packet}
use go_engine_io.Codec.Result.{Result, ok, ◌>>=◌}
use go_engine_io.Codec.Encoding.{append_packet, decode_packet}

abbrev pub separator : ℕ
separator = 0x1e

-- The loop of appendPayload from index `i` on.
unfoldable pub append_payload_from : ℕ → Bytes → List Packet → Bytes
append_payload_from i dst [] = dst
append_payload_from i dst (packet ∷ packets) =
    append_payload_from (suc i)
      (append_packet (if ltb 0 i then dst ++ (separator ∷ []) else dst) packet) packets

unfoldable pub append_payload : Bytes → List Packet → Bytes
unfolding append_payload_from
append_payload dst packets = append_payload_from 0 dst packets

unfoldable pub encode_payload : List Packet → Bytes
unfolding append_payload
encode_payload packets = append_payload [] packets

abbrev pub cons_first : ℕ → List Bytes → List Bytes
cons_first c [] = (c ∷ []) ∷ []
cons_first c (s ∷ ss) = (c ∷ s) ∷ ss

-- bytes.Split at a one-byte separator: the empty input is one empty segment.
unfoldable pub split : ℕ → Bytes → List Bytes
split sep [] = [] ∷ []
split sep (c ∷ cs) = let rest = split sep cs in if c == sep then [] ∷ rest else cons_first c rest

-- The loop over the segments, with the packets decoded so far.
unfoldable pub decode_segments : List Bytes → List Packet → Result (List Packet)
decode_segments [] packets = ok packets
decode_segments (segment ∷ segments) packets =
    decode_packet segment >>= λ packet. decode_segments segments (packets ++ (packet ∷ []))

unfoldable pub decode_record_separator_payload : Bytes → Result (List Packet)
unfolding split decode_segments
decode_record_separator_payload input = decode_segments (split separator input) []
