-- ===== src/Codec/Base64.antt =====
-- What encoding.go uses of Go's encoding/base64: StdEncoding's AppendEncode and DecodeString.
pub mod RoundTrip
pub mod Output
use go_engine_io.Base.{
  ℕ, ◌+◌, ◌-◌, ◌*◌, ◌/◌, ◌%◌, ◌^◌, ◌≡◌, refl, Bool, true, false, ◌||◌, ◌&&◌, Option, none, some,
  List, [], ◌∷◌, ltb, leb, ◌==◌, if◌then◌else◌,
}
use go_engine_io.Codec.Packet.{Bytes}

abbrev pub pad : ℕ
pad = b'='

-- The standard alphabet at a 6-bit value.
unfoldable pub enc_char : ℕ → ℕ
enc_char n =
    if ltb n 26
    then n + b'A'
    else if ltb n 52
    then n - 26 + b'a'
    else if ltb n 62
    then n - 52 + b'0'
    else if n == 62
    then b'+'
    else b'/'

abbrev within : ℕ → ℕ → ℕ → Bool
within lo hi c = leb lo c && leb c hi

-- The decoding table; `none` at a byte outside the alphabet, the padding included.
unfoldable pub dec_char : ℕ → Option ℕ
dec_char c =
    if within b'A' b'Z' c
    then some (c - b'A')
    else if within b'a' b'z' c
    then some (c - b'a' + 26)
    else if within b'0' b'9' c
    then some (c - b'0' + 52)
    else if c == b'+'
    then some 62
    else if c == b'/'
    then some 63
    else none

-- Three bytes are one 24-bit number, written as four 6-bit digits.
abbrev pub word : ℕ → ℕ → ℕ → ℕ
word a b c = a * 65536 + b * 256 + c

unfoldable pub encode : Bytes → Bytes
encode [] = []
encode (a ∷ []) =
    enc_char (word a 0 0 / 262144) ∷ enc_char (word a 0 0 / 4096 % 64) ∷ pad ∷ pad ∷ []
encode (a ∷ b ∷ []) =
    enc_char (word a b 0 / 262144)
    ∷ enc_char (word a b 0 / 4096 % 64)
    ∷ enc_char (word a b 0 / 64 % 64)
    ∷ pad
    ∷ []
encode (a ∷ b ∷ c ∷ rest) =
    enc_char (word a b c / 262144)
    ∷ enc_char (word a b c / 4096 % 64)
    ∷ enc_char (word a b c / 64 % 64)
    ∷ enc_char (word a b c % 64)
    ∷ encode rest

-- The decoder skips carriage returns and line feeds wherever they stand.
unfoldable pub strip_newlines : Bytes → Bytes
strip_newlines [] = []
strip_newlines (c ∷ cs) =
    let rest = strip_newlines cs in if c == b'\n' || c == b'\r' then rest else c ∷ rest

module _ {ℓ κ} {Value : Type ℓ} {Next : Type κ} where
  infixl 5 ◌>>=◌
  abbrev pub ◌>>=◌ : Option Value → (Value → Option Next) → Option Next
  none >>= next = none
  some v >>= next = next v

  pub >>=-eq-some :
      (o : Option Value) (next : Value → Option Next) {out : Next}
      → (o >>= next) ≡ some out
      → (v : Value) × (o ≡ some v) × (next v ≡ some out)
  >>=-eq-some none next e = cc
  >>=-eq-some (some v) next e = (v, refl, e)

abbrev pub quad : ℕ → ℕ → ℕ → ℕ → ℕ
quad a b c d = a * 262144 + b * 4096 + c * 64 + d

-- Nothing may follow the padding.
abbrev pub at_end : Bytes → Bytes → Option Bytes
at_end [] out = some out
at_end (x ∷ xs) out = none

-- One quantum after its first two digits; `more` is what the rest of the input decodes to.
unfoldable pub decode_tail : ℕ → ℕ → ℕ → ℕ → Bytes → Option Bytes → Option Bytes
decode_tail va vb c d rest more =
    if c == pad
    then if d == pad then at_end rest (quad va vb 0 0 / 65536 ∷ []) else none
    else dec_char c >>= λ vc.
        if d == pad
        then at_end rest (quad va vb vc 0 / 65536 ∷ quad va vb vc 0 / 256 % 256 ∷ [])
        else dec_char d >>= λ vd. more >>= λ out.
            some (
              quad va vb vc vd / 65536
              ∷ quad va vb vc vd / 256 % 256
              ∷ quad va vb vc vd % 256
              ∷ out)

unfoldable pub decode_quanta : Bytes → Option Bytes
unfolding decode_tail
decode_quanta [] = some []
decode_quanta (a ∷ b ∷ c ∷ d ∷ rest) =
    let more = decode_quanta rest in
    dec_char a >>= λ va. dec_char b >>= λ vb. decode_tail va vb c d rest more
decode_quanta _ = none

unfoldable pub decode_string : Bytes → Option Bytes
decode_string s = decode_quanta (strip_newlines s)
