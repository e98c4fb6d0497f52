-- ===== src/Codec/Payload/Strings.antt =====
-- payload.go, v2 and v3: the string framing "<length>:<packet>", whose lengths count runes.
pub mod Frames
pub mod Payload
pub mod Ends
use go_engine_io.Base.{
  ℕ, zero, suc, ◌+◌, ◌-◌, ◌*◌, ◌^◌, Bool, true, false, ◌&&◌, ◌||◌, Option, none, some, List, [],
  ◌∷◌, ◌++◌, length, take, drop, ltb, leb, ◌==◌, if◌then◌else◌,
}
use go_engine_io.Base.Int.{ℤ, pos, negsuc}
use go_engine_io.Codec.Packet.{Bytes, Packet}
use go_engine_io.Codec.Result.{Result, ok, err, malformed_payload, out_of_fuel, ◌>>=◌}
use go_engine_io.Codec.Runes.{decode_runes, encode_runes}
use go_engine_io.Codec.Payload.Slice.{slice_frame}
use go_engine_io.Codec.Payload.Legacy.{decode_string_framed_packet}

-- slices.Index, with `none` for -1.
unfoldable pub index : List ℕ → ℕ → Option ℕ
index [] v = none
index (x ∷ xs) v =
    let later = index xs v in
    if x == v then some 0 else elim later [ none ↦ none | some i ↦ some (suc i) ]

-- The digits of a decimal number, after the value of those before; `none` at any other byte.
unfoldable pub parse_digits : ℕ → Bytes → Option ℕ
parse_digits acc [] = some acc
parse_digits acc (c ∷ cs) =
    let more = parse_digits (acc * 10 + (c - b'0')) cs in
    if leb b'0' c && leb c b'9' then more else none

-- A magnitude under its sign, if it fits 64 bits.
abbrev signed : Bool → ℕ → Option ℤ
signed minus zero = some (pos 0)
signed minus (suc n) =
    if minus
    then (if leb (suc n) (2 ^ 63) then some (negsuc n) else none)
    else if ltb (suc n) (2 ^ 63)
    then some (pos (suc n))
    else none

-- The digits that follow the sign, of which there is one at least.
magnitude : Bool → Bytes → Option ℤ
magnitude minus [] = none
magnitude minus (c ∷ cs) = elim (parse_digits 0 (c ∷ cs)) [ none ↦ none | some n ↦ signed minus n ]

-- strconv.Atoi on a 64-bit platform: an optional sign, decimal digits, and a range check.
unfoldable pub atoi : Bytes → Option ℤ
unfolding magnitude
atoi [] = none
atoi (c ∷ cs) =
    if c == b'-'
    then magnitude true cs
    else if c == b'+'
    then magnitude false cs
    else magnitude false (c ∷ cs)

-- The check of the length and the slice: a negative length is refused before the sum is used.
unfoldable pub slice_body : ℕ → ℕ → ℤ → List ℕ → Result (List ℕ × ℕ × List ℕ)
slice_body len start (negsuc n) rest = err malformed_payload
slice_body len start (pos n) rest = slice_frame len start n rest

-- One frame at the cursor, where `rest` are the runes from there on.
unfoldable pub read_string_frame : ℕ → ℕ → List ℕ → Result (List ℕ × ℕ × List ℕ)
read_string_frame len cursor rest = elim (index rest b':') [
  | none ↦ err malformed_payload
  | some k ↦ elim (atoi (encode_runes (take k rest))) [
    | none ↦ err malformed_payload
    | some size ↦ slice_body len (suc (k + cursor)) size (drop (suc k) rest)
  ]
]

unfoldable pub decode_string_frames : ℕ → ℕ → ℕ → List ℕ → List Packet → Result (List Packet)
decode_string_frames fuel len cursor [] packets = ok packets
decode_string_frames zero len cursor (r ∷ rest) packets = err out_of_fuel
decode_string_frames (suc fuel) len cursor (r ∷ rest) packets =
    read_string_frame len cursor (r ∷ rest) >>= λ (body, end, after).
    decode_string_framed_packet (encode_runes body) >>= λ packet.
    decode_string_frames fuel len end after (packets ++ (packet ∷ []))

-- Each round takes the colon at least, so as many rounds as runes are enough.
unfoldable pub decode_string_framed_payload : Bytes → Result (List Packet)
unfolding decode_string_frames
decode_string_framed_payload input =
    let runes = decode_runes input in decode_string_frames (length runes) (length runes) 0 runes []
