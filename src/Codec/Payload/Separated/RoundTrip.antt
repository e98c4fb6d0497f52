-- ===== src/Codec/Payload/Separated/RoundTrip.antt =====
-- The v4 payload: decoding undoes encoding, and the other way round for text packets.
use go_engine_io.Base.{
  ℕ, suc, ◌≤◌, ◌≡◌, ◌≢◌, inl, inr, ltb, refl, sym, ap, ◌∙◌, arith, true, false, List, [], ◌∷◌, ◌++◌,
  append-nil, append_assoc, All, All-mono, Bool-cases,
}
use go_engine_io.Codec.Packet.{Bytes, Packet, IsValid, to_byte}
use go_engine_io.Codec.Result.{ok}
use go_engine_io.Codec.Base64.RoundTrip.{encode-printable}
use go_engine_io.Codec.Encoding.{append_packet, encode_packet}
use go_engine_io.Codec.Encoding.RoundTrip.{
  encode_packet-binary, encode_packet-text, decode_packet-encode_packet,
}
use go_engine_io.Codec.Payload.Separated.{
  separator, append_payload_from, encode_payload, split, decode_segments,
  decode_record_separator_payload,
}

-- Segments joined by the separator, as one byte string.
abbrev pub joined : Bytes → List Bytes → Bytes
joined s [] = s
joined s (t ∷ ts) = s ++ (separator ∷ joined t ts)

abbrev pub encoded : List Packet → List Bytes
encoded [] = []
encoded (p ∷ ps) = encode_packet p ∷ encoded ps

append_packet-encode_packet :
    (dst : Bytes) (p : Packet) → append_packet dst p ≡ dst ++ encode_packet p
unfolding append_packet encode_packet
append_packet-encode_packet dst p = elim (Bool-cases p.is_binary) [
  | inl b ↦ rw b (append_assoc dst _ _)
  | inr t ↦ rw t (append_assoc dst _ _)
]

-- What the loop adds for the packets after the first.
abbrev tail_joined : List Packet → Bytes
tail_joined [] = []
tail_joined (p ∷ ps) = separator ∷ (encode_packet p ++ tail_joined ps)

joined-tail : (s : Bytes) (ps : List Packet) → joined s (encoded ps) ≡ s ++ tail_joined ps
joined-tail s [] = sym (append-nil s)
joined-tail s (p ∷ ps) = ap (λ t. s ++ (separator ∷ t)) (joined-tail (encode_packet p) ps)

ltb-zero-suc : (i : ℕ) → ltb 0 (suc i) ≡ true
ltb-zero-suc i = ground arith

append_payload_from-tail :
    (ps : List Packet) (i : ℕ) (dst : Bytes)
    → append_payload_from (suc i) dst ps ≡ dst ++ tail_joined ps
unfolding append_payload_from
append_payload_from-tail [] i dst = sym (append-nil dst)
append_payload_from-tail (p ∷ ps) i dst =
    append_payload_from-tail ps (suc i) _
    ∙ simp (ltb-zero-suc, append_packet-encode_packet, append_assoc)

-- The payload is the packets' encodings with one separator between each two.
pub encode_payload-joined :
    (p : Packet) (ps : List Packet)
    → encode_payload (p ∷ ps) ≡ joined (encode_packet p) (encoded ps)
unfolding encode_payload append_payload_from
encode_payload-joined p ps =
    append_payload_from-tail ps 0 _
    ∙ rw (append_packet-encode_packet [] p) (sym (joined-tail (encode_packet p) ps))

abbrev pub SeparatorFree : Bytes → Type 0
SeparatorFree = All (λ c. c ≢ separator)

split-SeparatorFree : (s : Bytes) → SeparatorFree s → split separator s ≡ s ∷ []
unfolding split
split-SeparatorFree [] h = refl
split-SeparatorFree (c ∷ cs) h = ground (arith, split-SeparatorFree cs h.1)

split-joined_cons :
    (s rest : Bytes)
    → SeparatorFree s
    → split separator (s ++ (separator ∷ rest)) ≡ s ∷ split separator rest
unfolding split
split-joined_cons [] rest h = refl
split-joined_cons (c ∷ cs) rest h = ground (arith, split-joined_cons cs rest h.1)

split-joined :
    (s : Bytes) (ss : List Bytes)
    → SeparatorFree s
    → All SeparatorFree ss
    → split separator (joined s ss) ≡ s ∷ ss
split-joined s [] h hs = split-SeparatorFree s h
split-joined s (t ∷ ts) h hs =
    split-joined_cons s (joined t ts) h ∙ ap (◌∷◌ s) (split-joined t ts hs.0 hs.1)

-- A packet that a v4 payload can hold: valid, and a text packet's data is free of separators.
pub record Fits (p : Packet) : Type 0 where
  pub valid : IsValid p
  pub separator_free : p.is_binary ≡ false → SeparatorFree p.body

encode_packet-SeparatorFree : (p : Packet) → Fits p → SeparatorFree (encode_packet p)
encode_packet-SeparatorFree p f = elim (Bool-cases p.is_binary) [
  | inl b ↦
      rw (encode_packet-binary p b)
        (omega arith, All-mono _ _ (λ c h. omega arith) _ (encode-printable p.body f.valid.bytes))
  | inr t ↦ rw (encode_packet-text p t) (to_byte_ne p.type f.valid.known, f.separator_free t)
]
  where
    to_byte_ne : (t : ℕ) → t ≤ 6 → to_byte t ≢ separator
    to_byte_ne t h = unfold to_byte in omega arith

encoded-SeparatorFree : (ps : List Packet) → All Fits ps → All SeparatorFree (encoded ps)
encoded-SeparatorFree [] h = tt
encoded-SeparatorFree (p ∷ ps) h = (encode_packet-SeparatorFree p h.0, encoded-SeparatorFree ps h.1)

decode_segments-encoded :
    (ps done : List Packet) → All Fits ps → decode_segments (encoded ps) done ≡ ok (done ++ ps)
unfolding decode_segments
decode_segments-encoded [] done h = rw append-nil
decode_segments-encoded (p ∷ ps) done h =
    rw (decode_packet-encode_packet p h.0.valid)
      (decode_segments-encoded ps (done ++ (p ∷ [])) h.1 ∙ ap ok (append_assoc done (p ∷ []) ps))

-- Decoding a v4 payload gives back the packets that were encoded, in their order, for every
-- non-empty list of valid packets whose text data holds no record separator.
pub decode-encode_payload :
    (p : Packet) (ps : List Packet)
    → All Fits (p ∷ ps)
    → decode_record_separator_payload (encode_payload (p ∷ ps)) ≡ ok (p ∷ ps)
unfolding decode_record_separator_payload
decode-encode_payload p ps h =
    rw
      (
        encode_payload-joined p ps,
        split-joined (encode_packet p) (encoded ps) (encode_packet-SeparatorFree p h.0)
            (encoded-SeparatorFree ps h.1),
      )
      (decode_segments-encoded (p ∷ ps) [] h)
