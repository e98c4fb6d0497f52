-- ===== src/Codec/Payload.antt =====
-- payload.go: the long-polling payloads. Only the v4 form is ever encoded; the framings of v2 and
-- v3 are decoded.
pub mod Separated
pub mod Slice
pub mod Legacy
pub mod Rounds
pub mod Framed
pub mod Strings
pub mod Versions
use go_engine_io.Base.{ℕ, Bool, false, List, [], ◌∷◌, ◌||◌, ◌==◌, if◌then◌else◌}
use go_engine_io.Codec.Packet.{Bytes, Packet}
use go_engine_io.Codec.Result.{Result, err, unsupported_protocol_version}
use Separated.{decode_record_separator_payload}
use Legacy.{binary_string_marker, binary_binary_marker}
use Framed.{decode_binary_framed_payload}
use Strings.{decode_string_framed_payload}

-- `len(input) != 0 && (input[0] == binaryStringMarker || input[0] == binaryBinaryMarker)`
abbrev starts_framed : Bytes → Bool
starts_framed [] = false
starts_framed (c ∷ cs) = c == binary_string_marker || c == binary_binary_marker

-- The protocol version is an `int`; every number but 2, 3 and 4 is refused.
unfoldable pub decode_payload : ℕ → Bytes → Result (List Packet)
decode_payload version input =
    if version == 4
    then decode_record_separator_payload input
    else if version == 3
    then (if starts_framed input
        then decode_binary_framed_payload input
        else decode_string_framed_payload input)
    else if version == 2
    then decode_string_framed_payload input
    else err unsupported_protocol_version
