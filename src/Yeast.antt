-- ===== src/Yeast.antt =====
-- yeast.go: the unique values that a client adds to the query of a poll. The clock and the sequence
-- number stay far below 2^63, so that int64 is ℕ here, and the clock reads no time before 1970.
pub mod Digits
pub mod Unique
mod Tests
use go_engine_io.Base.{
  ℕ, zero, suc, ◌+◌, ◌-◌, ◌*◌, ◌/◌, ◌%◌, Bool, true, false, not, List, [], ◌∷◌, ◌++◌, ltb, ◌==◌,
  if◌then◌else◌,
}
use go_engine_io.Codec.Packet.{Bytes}

-- `yeastAlphabet[digit]`: the digits, the upper-case letters, the lower-case letters, '-' and '_'.
unfoldable pub yeast_char : ℕ → ℕ
yeast_char digit =
    if ltb digit 10
    then b'0' + digit
    else if ltb digit 36
    then b'A' + (digit - 10)
    else if ltb digit 62
    then b'a' + (digit - 36)
    else if digit == 62
    then b'-'
    else b'_'

-- The loop of yeastEncode, with fuel; `encode_digits_enough` shows that `yeast_encode` gives enough.
unfoldable pub encode_digits : ℕ → ℕ → Bytes → Bytes
encode_digits zero num encoded = encoded
encode_digits (suc fuel) num encoded =
    let encoded' = yeast_char (num % 64) ∷ encoded in
    let rest = encode_digits fuel (num / 64) encoded' in if num / 64 == 0 then encoded' else rest

unfoldable pub yeast_encode : ℕ → Bytes
yeast_encode num = encode_digits (suc num) num []

pub record YeastGenerator : Type 0 where
  pub seed : ℕ
  pub previous_millis : ℕ

abbrev pub max : ℕ → ℕ → ℕ
max a b = if ltb a b then b else a

-- The value of next when the clock reads `now`, and the generator after it.
unfoldable pub next : ℕ → YeastGenerator → Bytes × YeastGenerator
next now g =
    let millis = max now g.previous_millis in
    if not (millis == g.previous_millis)
    then (yeast_encode millis, record { seed = 0; previous_millis = millis })
    else (yeast_encode millis ++ b'.' ∷ yeast_encode g.seed, record g { seed = g.seed + 1 })

-- The values of a sequence of calls, each with its reading of the clock. The mutex of the generator
-- makes every schedule of its goroutines such a sequence.
unfoldable pub next_all : List ℕ → YeastGenerator → List Bytes
next_all [] g = []
next_all (now ∷ readings) g = (next now g).0 ∷ next_all readings (next now g).1
