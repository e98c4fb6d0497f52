-- ===== src/Codec/Encoding/Length.antt =====
-- A decoded packet holds no more data than its wire form has bytes.
use go_engine_io.Base.{
  ℕ, ◌+◌, ==_iff, inl, inr, ◌≤◌, ◌≡◌, arith, Option, some, [], ◌∷◌, length, ◌==◌, Option-cases,
  Bool-cases,
}
use go_engine_io.Codec.Packet.{Bytes, Packet}
use go_engine_io.Codec.Result.{ok}
use go_engine_io.Codec.Base64.{
  pad, at_end, dec_char, decode_tail, decode_quanta, decode_string, strip_newlines, >>=-eq-some,
}
use go_engine_io.Codec.Encoding.{binary_marker, decode_packet}
use go_engine_io.Codec.Encoding.RoundTrip.{decode_packet-binary, decode_packet_corrupt}

length-strip_newlines : (s : Bytes) → length (strip_newlines s) ≤ length s
unfolding strip_newlines
length-strip_newlines [] = omega arith
length-strip_newlines (c ∷ cs) = ground (arith, length-strip_newlines cs)

some-length :
    (xs : Bytes) (n : ℕ) {out : Bytes} → length xs ≤ n → some xs ≡ some out → length out ≤ n
some-length xs n h e = ground arith

at_end-length :
    (rest xs : Bytes) (n : ℕ) {out : Bytes}
    → length xs ≤ n
    → at_end rest xs ≡ some out
    → length out ≤ n
at_end-length [] xs n h e = ground arith
at_end-length (x ∷ rest) xs n h e = cc

length-decode_tail :
    (va vb c d n : ℕ) (rest : Bytes) (more : Option Bytes) {out : Bytes}
    → ((o : Bytes) → more ≡ some o → length o ≤ n)
    → decode_tail va vb c d rest more ≡ some out
    → length out ≤ n + 3
unfolding decode_tail
length-decode_tail va vb c d n rest more {out} k e = elim (Bool-cases (c == pad)) [
  | inl p ↦ elim (Bool-cases (d == pad)) [
    | inl q ↦ at_end-length rest _ (n + 3) (omega arith) (rw (p, q) at e)
    | inr q ↦ absurd (let x = rw (p, q) at e in cc)
  ]
  | inr p ↦ elim (Option-cases (dec_char c)) [
    | inl u ↦ absurd (let x = rw (p, u) at e in cc)
    | inr (vc, u) ↦ elim (Bool-cases (d == pad)) [
      | inl q ↦ at_end-length rest _ (n + 3) (omega arith) (rw (p, u, q) at e)
      | inr q ↦ elim (Option-cases (dec_char d)) [
        | inl w ↦ absurd (let x = rw (p, u, q, w) at e in cc)
        | inr (vd, w) ↦ elim (Option-cases more) [
          | inl m ↦ absurd (let x = rw (p, u, q, w, m) at e in cc)
          | inr (o, m) ↦ some-length _ (n + 3) (omega (arith, k o m)) (rw (p, u, q, w, m) at e)
        ]
      ]
    ]
  ]
]

length-decode_quanta :
    (s : Bytes) {out : Bytes} → decode_quanta s ≡ some out → length out ≤ length s
unfolding decode_quanta
length-decode_quanta [] e = ground arith
length-decode_quanta (a ∷ []) e = cc
length-decode_quanta (a ∷ b ∷ []) e = cc
length-decode_quanta (a ∷ b ∷ c ∷ []) e = cc
length-decode_quanta (a ∷ b ∷ c ∷ d ∷ rest) {out} e =
    let (va, p, e1) = >>=-eq-some (dec_char a) _ e in
    let (vb, q, e2) = >>=-eq-some (dec_char b) _ e1 in
    omega (
      arith,
      length-decode_tail va vb c d (length rest) rest (decode_quanta rest)
          (λ o h. length-decode_quanta rest {out = o} h) e2,
    )

length-decode_string :
    (s : Bytes) {out : Bytes} → decode_string s ≡ some out → length out ≤ length s
unfolding decode_string
length-decode_string s e =
    omega (arith, length-decode_quanta (strip_newlines s) e, length-strip_newlines s)

length-decode_binary :
    (rest : Bytes) (p : Packet)
    → decode_packet (binary_marker ∷ rest) ≡ ok p
    → length p.body ≤ length rest
length-decode_binary rest p e = elim (Option-cases (decode_string rest)) [
  | inl n ↦ absurd (ground (arith, decode_packet_corrupt rest n))
  | inr (body, s) ↦ ground (arith, decode_packet-binary rest body s, length-decode_string rest s)
]

pub length-decode_packet :
    (input : Bytes) (p : Packet) → decode_packet input ≡ ok p → length p.body ≤ length input
length-decode_packet [] p e = unfold decode_packet in cc
length-decode_packet (c ∷ rest) p e = elim (Bool-cases (c == binary_marker)) [
  | inl b ↦ omega (arith, length-decode_binary rest p (rw ((==_iff c binary_marker).0 b) at e))
  | inr t ↦ unfold decode_packet in ground arith
]
