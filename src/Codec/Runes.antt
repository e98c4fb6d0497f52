-- ===== src/Codec/Runes.antt =====
-- What payload.go uses of Go's strings: the conversions []rune(s) and string(runes).
use go_engine_io.Base.{
  ℕ, zero, suc, ◌+◌, ◌*◌, ◌/◌, ◌%◌, ◌<◌, ◌≡◌, refl, ap, arith, Bool, ◌&&◌, List, [], ◌∷◌, ◌++◌, All,
  ◌||◌, ◌==◌, ltb, leb, if◌then◌else◌,
}
use go_engine_io.Codec.Packet.{Bytes}

-- U+FFFD, which stands for each byte that is no part of a well-formed sequence.
abbrev pub rune_error : ℕ
rune_error = 0xfffd

abbrev within : ℕ → ℕ → ℕ → Bool
within lo hi c = leb lo c && leb c hi

-- The range of the second byte, which depends on the first: no overlong forms, no surrogates and
-- nothing above U+10FFFF.
second_ok : ℕ → ℕ → Bool
second_ok a b =
    within (if a == 0xe0 then 0xa0 else if a == 0xf0 then 0x90 else 0x80)
      (if a == 0xed then 0x9f else if a == 0xf4 then 0x8f else 0xbf) b

abbrev cont : ℕ → Bool
cont = within 0x80 0xbf

-- The first rune of `a ∷ rest` and how many bytes it takes beyond `a`.
unfoldable pub decode_rune : ℕ → Bytes → ℕ × ℕ
unfolding second_ok
decode_rune a (b ∷ c ∷ d ∷ rest) =
    if ltb a 0x80
    then (a, 0)
    else if within 0xc2 0xdf a && cont b
    then (a % 32 * 64 + b % 64, 1)
    else if within 0xe0 0xef a && second_ok a b && cont c
    then (a % 16 * 4096 + b % 64 * 64 + c % 64, 2)
    else if within 0xf0 0xf4 a && second_ok a b && cont c && cont d
    then (a % 8 * 262144 + b % 64 * 4096 + c % 64 * 64 + d % 64, 3)
    else (rune_error, 0)
decode_rune a (b ∷ c ∷ []) =
    if ltb a 0x80
    then (a, 0)
    else if within 0xc2 0xdf a && cont b
    then (a % 32 * 64 + b % 64, 1)
    else if within 0xe0 0xef a && second_ok a b && cont c
    then (a % 16 * 4096 + b % 64 * 64 + c % 64, 2)
    else (rune_error, 0)
decode_rune a (b ∷ []) =
    if ltb a 0x80
    then (a, 0)
    else if within 0xc2 0xdf a && cont b
    then (a % 32 * 64 + b % 64, 1)
    else (rune_error, 0)
decode_rune a [] = if ltb a 0x80 then (a, 0) else (rune_error, 0)

-- `skip` bytes belong to the rune before.
unfoldable pub decode_runes_from : ℕ → Bytes → List ℕ
decode_runes_from skip [] = []
decode_runes_from (suc skip) (a ∷ rest) = decode_runes_from skip rest
decode_runes_from zero (a ∷ rest) =
    let (r, more) = decode_rune a rest in r ∷ decode_runes_from more rest

-- []rune(s)
unfoldable pub decode_runes : Bytes → List ℕ
unfolding decode_runes_from
decode_runes s = decode_runes_from 0 s

-- A surrogate or a number above U+10FFFF is written as U+FFFD.
unfoldable pub encode_rune : ℕ → Bytes
encode_rune r =
    if ltb r 0x80
    then r ∷ []
    else if ltb r 0x800
    then (0xc0 + r / 64) ∷ (0x80 + r % 64) ∷ []
    else if within 0xd800 0xdfff r || ltb 0x10ffff r
    then 0xef ∷ 0xbf ∷ 0xbd ∷ []
    else if ltb r 0x10000
    then (0xe0 + r / 4096) ∷ (0x80 + r / 64 % 64) ∷ (0x80 + r % 64) ∷ []
    else (0xf0 + r / 262144) ∷ (0x80 + r / 4096 % 64) ∷ (0x80 + r / 64 % 64) ∷ (0x80 + r % 64) ∷ []

-- string(runes)
unfoldable pub encode_runes : List ℕ → Bytes
unfolding encode_rune
encode_runes [] = []
encode_runes (r ∷ rs) = encode_rune r ++ encode_runes rs

abbrev pub IsAscii : ℕ → Type 0
IsAscii c = c < 0x80

pub decode_rune-ascii : (a : ℕ) (rest : Bytes) → a < 0x80 → decode_rune a rest ≡ (a, 0)
unfolding decode_rune
decode_rune-ascii a [] h = ground arith
decode_rune-ascii a (b ∷ []) h = ground arith
decode_rune-ascii a (b ∷ c ∷ []) h = ground arith
decode_rune-ascii a (b ∷ c ∷ d ∷ rest) h = ground arith

pub decode_runes-ascii : (s : Bytes) → All IsAscii s → decode_runes s ≡ s
unfolding decode_runes
decode_runes-ascii [] h = refl
decode_runes-ascii (c ∷ cs) h =
    rw (decode_rune-ascii c cs h.0) (ap (◌∷◌ c) (decode_runes-ascii cs h.1))

pub encode_runes-ascii : (s : List ℕ) → All IsAscii s → encode_runes s ≡ s
unfolding encode_runes
encode_runes-ascii [] h = refl
encode_runes-ascii (c ∷ cs) h = ground (arith, encode_runes-ascii cs h.1)
