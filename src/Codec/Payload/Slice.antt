-- ===== src/Codec/Payload/Slice.antt =====
-- The `int` arithmetic of the v2 and v3 decoders. An `int` of 64 bits is its two's complement bit
-- pattern, a number below 2 ^ 64: lengths come off the wire unchecked and can wrap.
use go_engine_io.Base.{
  ℕ, ◌≢◌, length-drop, ◌+◌, ◌-◌, ◌%◌, ◌^◌, ◌≤◌, ◌<◌, ◌≡◌, arith, Bool, not, ◌&&◌, ◌||◌, List, ◌++◌,
  length, take, drop, take-length-append, drop-length-append, ltb, leb, if◌then◌else◌,
}
use go_engine_io.Codec.Result.{Result, ok, err, malformed_payload, slice_panic, out_of_fuel}

abbrev pub wrap : ℕ → ℕ
wrap n = n % 2 ^ 64

abbrev pub is_negative : ℕ → Bool
is_negative a = leb (2 ^ 63) a

-- `input[start:end]` with `end = start + length`, after the check `end > len(input)`. `rest` is
-- what of the input stands from `start` on; the result is the slice, `end`, and what follows it.
-- Slicing panics at an end that is negative or before the start.
unfoldable pub slice_frame : ℕ → ℕ → ℕ → List ℕ → Result (List ℕ × ℕ × List ℕ)
slice_frame len start size rest =
    let end = wrap (start + size) in
    if not (is_negative end) && ltb len end
    then err malformed_payload
    else if is_negative end || ltb end start
    then err slice_panic
    else ok (take (end - start) rest, end, drop (end - start) rest)

-- A length that fits its input cuts the body off.
pub slice_frame-append :
    (len start : ℕ) (body rest : List ℕ)
    → start + length body ≤ len
    → len < 2 ^ 63
    → slice_frame len start (length body) (body ++ rest) ≡ ok (body, start + length body, rest)
unfolding slice_frame
slice_frame-append len start body rest h hl =
    let e : wrap (start + length body) ≡ start + length body = omega arith in
    let d : start + length body - start ≡ length body = omega arith in
    rw (e, d, take-length-append body rest, drop-length-append body rest) (ground arith)

-- A negative length, read as the bit pattern that it is, makes the slice expression panic.
pub slice_frame_negative :
    (len start size : ℕ) (rest : List ℕ)
    → start ≤ len
    → len < 2 ^ 63
    → 2 ^ 63 ≤ size
    → size < 2 ^ 64
    → slice_frame len start size rest ≡ err slice_panic
unfolding slice_frame
slice_frame_negative len start size rest h hl lo hi = ground arith

-- A length that pushes the end past the largest `int` does so too.
pub slice_frame_overflow :
    (len start size : ℕ) (rest : List ℕ)
    → start ≤ len
    → len < 2 ^ 63
    → size < 2 ^ 63
    → 2 ^ 63 ≤ start + size
    → slice_frame len start size rest ≡ err slice_panic
unfolding slice_frame
slice_frame_overflow len start size rest h hl hs ho = ground arith

-- A step of a decoder's loop that leaves at most `n` elements, or fails otherwise than by its fuel.
abbrev pub Ends {ℓ κ} : {A : Type ℓ} {B : Type κ} → ℕ → Result (A × B × List ℕ) → Type 0
Ends n (ok (body, end, after)) = length after ≤ n
Ends n (err e) = e ≢ out_of_fuel

pub slice_frame-Ends :
    (n len start size : ℕ) (rest : List ℕ)
    → length rest ≤ n
    → Ends n (slice_frame len start size rest)
unfolding slice_frame
slice_frame-Ends n len start size rest h =
    ground (arith, length-drop (wrap (start + size) - start) rest)
