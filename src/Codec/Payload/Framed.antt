-- ===== src/Codec/Payload/Framed.antt =====
-- payload.go, v3: the binary framing.
pub mod Frames
pub mod Ends
use go_engine_io.Base.{
  ℕ, zero, suc, ◌+◌, ◌*◌, List, [], ◌∷◌, ◌++◌, not, ◌||◌, length, ltb, ◌==◌, if◌then◌else◌,
}
use go_engine_io.Codec.Packet.{Bytes, Packet}
use go_engine_io.Codec.Result.{Result, ok, err, malformed_payload, out_of_fuel, ◌>>=◌}
use go_engine_io.Codec.Payload.Slice.{wrap, slice_frame}
use go_engine_io.Codec.Payload.Legacy.{
  binary_string_marker, binary_binary_marker, binary_length_terminator, decode_binary_framed_packet,
}

-- The inner loop: the length so far, the cursor, and what stands from the cursor on. The result is
-- the length, and the cursor and the input behind the terminator. `length` is an `int` and wraps.
unfoldable pub read_length : ℕ → ℕ → Bytes → Result (ℕ × ℕ × Bytes)
read_length size cursor [] = err malformed_payload
read_length size cursor (digit ∷ rest) =
    let more = read_length (wrap (size * 10 + digit)) (suc cursor) rest in
    if digit == binary_length_terminator
    then ok (size, suc cursor, rest)
    else if ltb 9 digit
    then err malformed_payload
    else more

-- One frame after its marker: the body, and the cursor and the input behind it.
unfoldable pub read_frame : ℕ → ℕ → Bytes → Result (Bytes × ℕ × Bytes)
read_frame len cursor rest =
    read_length 0 cursor rest >>= λ (size, start, from_start). slice_frame len start size from_start

-- The outer loop over frames: `rest` is the input from the cursor on.
unfoldable pub decode_frames : ℕ → ℕ → ℕ → Bytes → List Packet → Result (List Packet)
decode_frames fuel len cursor [] packets = ok packets
decode_frames zero len cursor (marker ∷ rest) packets = err out_of_fuel
decode_frames (suc fuel) len cursor (marker ∷ rest) packets =
    if not (marker == binary_string_marker || marker == binary_binary_marker)
    then err malformed_payload
    else read_frame len (suc cursor) rest >>= λ (body, end, after).
        decode_binary_framed_packet marker body >>= λ packet.
        decode_frames fuel len end after (packets ++ (packet ∷ []))

-- Each round takes the marker at least, so as many rounds as bytes are enough.
unfoldable pub decode_binary_framed_payload : Bytes → Result (List Packet)
unfolding decode_frames
decode_binary_framed_payload input = decode_frames (length input) (length input) 0 input []
