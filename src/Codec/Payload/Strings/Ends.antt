-- ===== src/Codec/Payload/Strings/Ends.antt =====
-- The loop over v2 and v3 string frames ends on every input.
use go_engine_io.Base.{
  ℕ, zero, suc, ◌+◌, ◌≤◌, ◌≢◌, inl, inr, arith, List, [], ◌∷◌, ◌++◌, length, length-drop, take,
  drop, Option-cases,
}
use go_engine_io.Base.Int.{ℤ, pos, negsuc}
use go_engine_io.Codec.Packet.{Bytes, Packet}
use go_engine_io.Codec.Result.{err, out_of_fuel}
use go_engine_io.Codec.Runes.{decode_runes, encode_runes}
use go_engine_io.Codec.Payload.Slice.{Ends, slice_frame-Ends}
use go_engine_io.Codec.Payload.Rounds.{round-Ends}
use go_engine_io.Codec.Payload.Legacy.{decode_string_framed_packet, decode_string_framed_packet-ne}
use go_engine_io.Codec.Payload.Strings.{
  index, atoi, slice_body, read_string_frame, decode_string_frames, decode_string_framed_payload,
}

slice_body-Ends :
    (n len start : ℕ) (size : ℤ) (rest : List ℕ)
    → length rest ≤ n
    → Ends n (slice_body len start size rest)
unfolding slice_body
slice_body-Ends n len start (pos k) rest h = slice_frame-Ends n len start k rest h
slice_body-Ends n len start (negsuc k) rest h = λ e. cc

read_string_frame-Ends :
    (r : ℕ) (rest : List ℕ) (len cursor : ℕ)
    → Ends (length rest) (read_string_frame len cursor (r ∷ rest))
unfolding read_string_frame
read_string_frame-Ends r rest len cursor = elim (Option-cases (index (r ∷ rest) b':')) [
  | inl e ↦ rw (e, read_string_frame) (λ q. cc)
  | inr (k, e) ↦ elim (Option-cases (atoi (encode_runes (take k (r ∷ rest))))) [
    | inl a ↦ rw (e, read_string_frame) (rw (a, read_string_frame) (λ q. cc))
    | inr (size, a) ↦
        rw (e, read_string_frame)
          (rw (a, read_string_frame)
            (slice_body-Ends (length rest) len (suc (k + cursor)) size (drop k rest)
              (omega (arith, length-drop k rest))))
  ]
]

decode_string_frames-ne :
    (fuel len cursor : ℕ) (rest : List ℕ) (done : List Packet)
    → length rest ≤ fuel
    → decode_string_frames fuel len cursor rest done ≢ err out_of_fuel
unfolding decode_string_frames
decode_string_frames-ne fuel len cursor [] done h = λ e. cc
decode_string_frames-ne zero len cursor (r ∷ rest) done h = absurd (omega arith)
decode_string_frames-ne (suc fuel) len cursor (r ∷ rest) done h =
    round-Ends (λ body. decode_string_framed_packet (encode_runes body))
      (λ s. decode_string_framed_packet-ne (encode_runes s))
      (read_string_frame len cursor (r ∷ rest)) (length rest) _
      (read_string_frame-Ends r rest len cursor)
      (λ end after p k. decode_string_frames-ne fuel len end after (done ++ (p ∷ [])) (omega arith))

-- The string framing's decoder ends on every input: its loop needs no more rounds than runes.
pub decode_string_framed_payload-ends :
    (input : Bytes) → decode_string_framed_payload input ≢ err out_of_fuel
unfolding decode_string_framed_payload
decode_string_framed_payload-ends input =
    decode_string_frames-ne _ _ 0 (decode_runes input) [] (omega arith)
