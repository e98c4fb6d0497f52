-- ===== src/Codec/Payload/Framed/Ends.antt =====
-- The loop over v3 binary frames ends on every input.
use go_engine_io.Base.{
  ℕ, zero, suc, ◌+◌, ◌*◌, ◌≤◌, ◌≢◌, inl, inr, arith, List, [], ◌∷◌, ◌++◌, length, Bool-cases, not,
  ◌||◌, ◌==◌,
}
use go_engine_io.Codec.Packet.{Bytes, Packet}
use go_engine_io.Codec.Result.{Result, ok, err, out_of_fuel, ◌>>=◌}
use go_engine_io.Codec.Payload.Slice.{wrap, slice_frame, Ends, slice_frame-Ends}
use go_engine_io.Codec.Payload.Rounds.{round-Ends}
use go_engine_io.Codec.Payload.Legacy.{
  decode_binary_framed_packet, decode_binary_framed_packet-ne, binary_string_marker,
  binary_binary_marker,
}
use go_engine_io.Codec.Payload.Framed.{
  read_length, read_frame, decode_frames, decode_binary_framed_payload,
}

read_length-Ends :
    (rest : Bytes) (size cursor n : ℕ) → length rest ≤ n → Ends n (read_length size cursor rest)
unfolding read_length
read_length-Ends [] size cursor n h = λ e. cc
read_length-Ends (d ∷ rest) size cursor n h =
    ground (arith, read_length-Ends rest (wrap (size * 10 + d)) (suc cursor) n)

bind_slice-Ends :
    (r : Result (ℕ × ℕ × Bytes)) (n len : ℕ)
    → Ends n r
    → Ends n (r >>= λ (size, start, from_start). slice_frame len start size from_start)
bind_slice-Ends (ok (size, start, rest)) n len h = slice_frame-Ends n len start size rest h
bind_slice-Ends (err e) n len h = h

read_frame-Ends : (rest : Bytes) (len cursor : ℕ) → Ends (length rest) (read_frame len cursor rest)
unfolding read_frame
read_frame-Ends rest len cursor =
    bind_slice-Ends (read_length 0 cursor rest) (length rest) len
      (read_length-Ends rest 0 cursor (length rest) (omega arith))

decode_frames-ne :
    (fuel len cursor : ℕ) (rest : Bytes) (done : List Packet)
    → length rest ≤ fuel
    → decode_frames fuel len cursor rest done ≢ err out_of_fuel
unfolding decode_frames
decode_frames-ne fuel len cursor [] done h = λ e. cc
decode_frames-ne zero len cursor (m ∷ rest) done h = absurd (omega arith)
decode_frames-ne (suc fuel) len cursor (m ∷ rest) done h =
    elim (Bool-cases (not (m == binary_string_marker || m == binary_binary_marker))) [
      | inl b ↦ rw b (λ e. cc)
      | inr b ↦ rw b (
          round-Ends (decode_binary_framed_packet m) (decode_binary_framed_packet-ne m)
            (read_frame len (suc cursor) rest) (length rest) _
            (read_frame-Ends rest len (suc cursor))
            (λ end after p k. decode_frames-ne fuel len end after (done ++ (p ∷ [])) (omega arith)))
    ]

-- The v3 binary decoder ends on every input: its loop needs no more rounds than there are bytes.
pub decode_binary_framed_payload-ends :
    (input : Bytes) → decode_binary_framed_payload input ≢ err out_of_fuel
unfolding decode_binary_framed_payload
decode_binary_framed_payload-ends input = decode_frames-ne _ _ 0 input [] (omega arith)
