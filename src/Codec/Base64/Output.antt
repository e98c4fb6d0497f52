-- ===== src/Codec/Base64/Output.antt =====
-- The decoder of base64 returns bytes, whatever it is given.
use go_engine_io.Base.{
  ℕ, ◌/◌, ◌%◌, ◌<◌, ◌≡◌, inl, inr, arith, Option, some, [], ◌∷◌, All, ◌==◌, Bool-cases,
  if◌then◌else◌,
}
use go_engine_io.Codec.Packet.{Bytes, IsByte}
use go_engine_io.Codec.Base64.{
  dec_char, pad, at_end, decode_tail, ◌>>=◌, >>=-eq-some, strip_newlines, decode_quanta,
  decode_string, quad,
}

dec_char-lt : (c n : ℕ) → dec_char c ≡ some n → n < 64
unfolding dec_char
dec_char-lt c n e = ground arith

quad_bytes :
    (a b c d : ℕ)
    → a < 64
    → b < 64
    → c < 64
    → d < 64
    → (quad a b c d / 65536 < 256) × (quad a b c d / 256 % 256 < 256) × (quad a b c d % 256 < 256)
quad_bytes a b c d ha hb hc hd = omega arith

some-IsByte : (xs : Bytes) {out : Bytes} → All IsByte xs → some xs ≡ some out → All IsByte out
some-IsByte xs h e = ground arith

at_end-IsByte :
    (rest xs : Bytes) {out : Bytes} → All IsByte xs → at_end rest xs ≡ some out → All IsByte out
at_end-IsByte [] xs h e = ground arith
at_end-IsByte (x ∷ rest) xs h e = cc

-- The third digit is `vc`: the quantum ends in one padding, or in a fourth digit.
decode_third-IsByte :
    (va vb vc d : ℕ) (rest : Bytes) (more : Option Bytes) {out : Bytes}
    → va < 64
    → vb < 64
    → vc < 64
    → ((o : Bytes) → more ≡ some o → All IsByte o)
    → (if d == pad
        then at_end rest (quad va vb vc 0 / 65536 ∷ quad va vb vc 0 / 256 % 256 ∷ [])
        else dec_char d >>= λ vd. more >>= λ o.
            some (
              quad va vb vc vd / 65536 ∷ quad va vb vc vd / 256 % 256 ∷ quad va vb vc vd % 256 ∷ o))
      ≡ some out
    → All IsByte out
decode_third-IsByte va vb vc d rest more ha hb hc k e = elim (Bool-cases (d == pad)) [
  | inl q ↦ at_end-IsByte rest _ (omega arith) (rw q at e)
  | inr q ↦
      let (vd, r, e1) = >>=-eq-some (dec_char d) _ (rw q at e) in
      let (o, m, e2) = >>=-eq-some more _ e1 in
      let hd : vd < 64 = dec_char-lt d vd r in
      let ho : All IsByte o = k o m in
      some-IsByte _ (omega arith, (omega arith, (omega arith, ho))) e2
]

decode_tail-IsByte :
    (va vb c d : ℕ) (rest : Bytes) (more : Option Bytes) {out : Bytes}
    → va < 64
    → vb < 64
    → ((o : Bytes) → more ≡ some o → All IsByte o)
    → decode_tail va vb c d rest more ≡ some out
    → All IsByte out
unfolding decode_tail
decode_tail-IsByte va vb c d rest more {out} ha hb k e = elim (Bool-cases (c == pad)) [
  | inl p ↦ elim (Bool-cases (d == pad)) [
    | inl q ↦ at_end-IsByte rest _ (omega arith) (rw (p, q) at e)
    | inr q ↦ absurd (let x = rw (p, q) at e in cc)
  ]
  | inr p ↦
      let (vc, r, e') = >>=-eq-some (dec_char c) _ (rw p at e) in
      decode_third-IsByte va vb vc d rest more ha hb (dec_char-lt c vc r) k e'
]

-- What the decoder returns are bytes.
decode_quanta-IsByte : (s : Bytes) {out : Bytes} → decode_quanta s ≡ some out → All IsByte out
unfolding decode_quanta
decode_quanta-IsByte [] e = ground arith
decode_quanta-IsByte (a ∷ []) e = cc
decode_quanta-IsByte (a ∷ b ∷ []) e = cc
decode_quanta-IsByte (a ∷ b ∷ c ∷ []) e = cc
decode_quanta-IsByte (a ∷ b ∷ c ∷ d ∷ rest) {out} e =
    let (va, p, e1) = >>=-eq-some (dec_char a) _ e in
    let (vb, q, e2) = >>=-eq-some (dec_char b) _ e1 in
    decode_tail-IsByte va vb c d rest (decode_quanta rest) (dec_char-lt a va p) (dec_char-lt b vb q)
      (λ o h. decode_quanta-IsByte rest {out = o} h) e2

-- What DecodeString returns are bytes.
pub decode_string-IsByte : (s : Bytes) {out : Bytes} → decode_string s ≡ some out → All IsByte out
unfolding decode_string
decode_string-IsByte s e = decode_quanta-IsByte (strip_newlines s) e
