-- ===== src/Codec/Base64/RoundTrip.antt =====
-- DecodeString undoes AppendEncode.
use go_engine_io.Base.{
  ℕ, ◌/◌, ◌%◌, ◌≤◌, ◌<◌, ◌≡◌, ◌≢◌, refl, ap, ◌∙◌, arith, false, some, [], ◌∷◌, All, ◌==◌,
}
use go_engine_io.Codec.Packet.{Bytes, IsByte}
use go_engine_io.Codec.Base64.{
  pad, enc_char, dec_char, word, encode, strip_newlines, quad, decode_quanta, decode_string,
}

pub dec_char-enc_char : (n : ℕ) → n < 64 → dec_char (enc_char n) ≡ some n
unfolding dec_char enc_char
dec_char-enc_char n h = ground arith

-- A digit of the alphabet is a printable byte, and none is the padding.
pub enc_char_range :
    (n : ℕ) → n < 64 → (b'+' ≤ enc_char n) × (enc_char n < 123) × (enc_char n ≢ pad)
unfolding enc_char
enc_char_range n h = (ground arith, ground arith, ground arith)

enc_char_ne_pad : (n : ℕ) → n < 64 → (enc_char n == pad) ≡ false
enc_char_ne_pad n h = ground (arith, enc_char_range n h)

-- Every byte of an encoding is printable.
pub encode-printable : (s : Bytes) → All IsByte s → All (λ c. (b'+' ≤ c) × (c < 123)) (encode s)
unfolding encode
encode-printable [] h = tt
encode-printable (a ∷ []) h =
    ground (arith, enc_char_range (word a 0 0 / 262144), enc_char_range (word a 0 0 / 4096 % 64))
encode-printable (a ∷ b ∷ []) h = ground (
  arith,
  enc_char_range (word a b 0 / 262144),
  enc_char_range (word a b 0 / 4096 % 64),
  enc_char_range (word a b 0 / 64 % 64),
)
encode-printable (a ∷ b ∷ c ∷ rest) h = ground (
  arith,
  enc_char_range (word a b c / 262144),
  enc_char_range (word a b c / 4096 % 64),
  enc_char_range (word a b c / 64 % 64),
  enc_char_range (word a b c % 64),
  encode-printable rest h.1.1.1,
)

strip_newlines-printable : (s : Bytes) → All (λ c. (b'+' ≤ c) × (c < 123)) s → strip_newlines s ≡ s
unfolding strip_newlines
strip_newlines-printable [] h = refl
strip_newlines-printable (c ∷ cs) h = ground (arith, strip_newlines-printable cs h.1)

module _ (va vb : ℕ) (ha : va < 64) (hb : vb < 64) where
  quantum_one :
      decode_quanta (enc_char va ∷ enc_char vb ∷ pad ∷ pad ∷ [])
      ≡ some (quad va vb 0 0 / 65536 ∷ [])
  unfolding decode_quanta
  quantum_one = ground (arith, dec_char-enc_char va, dec_char-enc_char vb)

  module _ (vc : ℕ) (hc : vc < 64) where
    quantum_two :
        decode_quanta (enc_char va ∷ enc_char vb ∷ enc_char vc ∷ pad ∷ [])
        ≡ some (quad va vb vc 0 / 65536 ∷ quad va vb vc 0 / 256 % 256 ∷ [])
    unfolding decode_quanta
    quantum_two =
        ground (
          arith,
          dec_char-enc_char va,
          dec_char-enc_char vb,
          dec_char-enc_char vc,
          enc_char_range vc,
        )

    quantum_three :
        (vd : ℕ) (rest out : Bytes)
        → vd < 64
        → decode_quanta rest ≡ some out
        → decode_quanta (enc_char va ∷ enc_char vb ∷ enc_char vc ∷ enc_char vd ∷ rest)
          ≡ some (
              quad va vb vc vd / 65536
              ∷ quad va vb vc vd / 256 % 256
              ∷ quad va vb vc vd % 256
              ∷ out)
    unfolding decode_quanta
    quantum_three vd rest out hd e = rw (
      dec_char-enc_char va ha,
      dec_char-enc_char vb hb,
      enc_char_ne_pad vc hc,
      dec_char-enc_char vc hc,
      enc_char_ne_pad vd hd,
      dec_char-enc_char vd hd,
      e,
    )

-- The digits of a word give its bytes back.
bytes_two :
    (a b : ℕ)
    → a < 256
    → b < 256
    → let q = quad (word a b 0 / 262144) (word a b 0 / 4096 % 64) (word a b 0 / 64 % 64) 0 in
      some (q / 65536 ∷ q / 256 % 256 ∷ []) ≡ some (a ∷ b ∷ [])
bytes_two a b ha hb = ground arith

bytes_three :
    (a b c : ℕ) (rest : Bytes)
    → a < 256
    → b < 256
    → c < 256
    → let q =
        quad
          (word a b c / 262144)
          (word a b c / 4096 % 64)
          (word a b c / 64 % 64)
          (word a b c % 64) in
      some (q / 65536 ∷ q / 256 % 256 ∷ q % 256 ∷ rest) ≡ some (a ∷ b ∷ c ∷ rest)
bytes_three a b c rest ha hb hc = ground arith

decode_quanta-encode : (s : Bytes) → All IsByte s → decode_quanta (encode s) ≡ some s
unfolding encode
decode_quanta-encode [] h = unfold decode_quanta in refl
decode_quanta-encode (a ∷ []) h =
    quantum_one _ _ (omega arith) (omega arith) ∙ ap some (ap (λ x. x ∷ []) (omega arith))
decode_quanta-encode (a ∷ b ∷ []) h =
    quantum_two _ _ (omega arith) (omega arith) _ (omega arith) ∙ bytes_two a b h.0 h.1.0
decode_quanta-encode (a ∷ b ∷ c ∷ rest) h =
    quantum_three _ _ (omega arith) (omega arith) _ (omega arith) _ (encode rest) rest (omega arith)
      (decode_quanta-encode rest h.1.1.1)
    ∙ bytes_three a b c rest h.0 h.1.0 h.1.1.0

-- Every byte string is decoded to itself after it was encoded.
pub decode_string-encode : (s : Bytes) → All IsByte s → decode_string (encode s) ≡ some s
unfolding decode_string
decode_string-encode s h =
    rw (strip_newlines-printable (encode s) (encode-printable s h)) (decode_quanta-encode s h)
