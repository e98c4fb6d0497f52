-- ===== src/Client/Chunks/Sizes.antt =====
-- socket.go: the chunks are the packets in order, and each fits the limit unless it is one packet.
use go_engine_io.Base.{
  ℕ, ◌+◌, ◌≤◌, ◌<◌, ◌≡◌, ◌⊎◌, inl, inr, refl, sym, ◌∙◌, ap, arith, true, false, not, ◌&&◌, ◌||◌,
  List, [], ◌∷◌, ◌++◌, length, ltb, if-both, if-branches, All, append-nil, append_assoc,
  length-append,
}
use go_engine_io.Base.Int.{ℤ, is_positive, pos_part}
use go_engine_io.Codec.Packet.{Packet, Bytes}
use go_engine_io.Codec.Encoding.{encode_packet}
use go_engine_io.Codec.Payload.Separated.{
  encode_payload, append_payload, append_payload_from, separator,
}
use go_engine_io.Codec.Payload.Separated.RoundTrip.{joined, encoded, encode_payload-joined}
use go_engine_io.Client.Chunks.{is_nil, addition, chunk_from, chunk_packets}

abbrev pub concat : List (List Packet) → List Packet
concat [] = []
concat (chunk ∷ chunks) = chunk ++ concat chunks

concat-chunk_from :
    (max size : ℕ) (current packets : List Packet)
    → concat (chunk_from max current size packets) ≡ current ++ packets
unfolding chunk_from
concat-chunk_from max size current [] = refl
concat-chunk_from max size current (p ∷ ps) =
    if-both (λ chunks. concat chunks ≡ current ++ p ∷ ps)
      (not (is_nil current) && ltb max (size + addition current p)) _ _
      (ap (◌++◌ current) (concat-chunk_from max (length (encode_packet p)) (p ∷ []) ps))
      (concat-chunk_from max (size + addition current p) (current ++ p ∷ []) ps
        ∙ append_assoc current (p ∷ []) ps)

length-joined :
    (s t : Bytes) (ts : List Bytes)
    → length (joined s (ts ++ t ∷ [])) ≡ length (joined s ts) + (length t + 1)
length-joined s t [] = omega (arith, length-append s (separator ∷ t))
length-joined s t (u ∷ ts) = omega (
  arith,
  length-joined u t ts,
  length-append s (separator ∷ joined u (ts ++ t ∷ [])),
  length-append s (separator ∷ joined u ts),
)

encoded-append :
    (ps : List Packet) (p : Packet) → encoded (ps ++ p ∷ []) ≡ encoded ps ++ encode_packet p ∷ []
encoded-append [] p = refl
encoded-append (q ∷ ps) p = ap (◌∷◌ (encode_packet q)) (encoded-append ps p)

-- A packet adds to the payload of a chunk what chunkPackets counts.
payload_grows :
    (current : List Packet) (p : Packet)
    → length (encode_payload (current ++ p ∷ []))
      ≡ length (encode_payload current) + addition current p
unfolding encode_payload append_payload append_payload_from
payload_grows [] p = omega (arith, ap length (encode_payload-joined p []))
payload_grows (c ∷ cs) p =
    ap length (encode_payload-joined c (cs ++ p ∷ []))
    ∙ ap (λ ts. length (joined (encode_packet c) ts)) (encoded-append cs p)
    ∙ length-joined (encode_packet c) (encode_packet p) (encoded cs)
    ∙ ap (λ bytes. length bytes + (length (encode_packet p) + 1)) (sym (encode_payload-joined c cs))

-- The chunk fits the limit, or is a single packet.
abbrev pub FitsLimit : ℕ → List Packet → Type 0
FitsLimit max chunk = (length (encode_payload chunk) ≤ max) ⊎ ((p : Packet) × (chunk ≡ p ∷ []))

payload_of_one : (p : Packet) → length (encode_packet p) ≡ length (encode_payload (p ∷ []))
payload_of_one p = sym (ap length (encode_payload-joined p []))

-- What the loop knows of a packet that it adds to its chunk.
FitsLimit-joined :
    (max size : ℕ) (current : List Packet) (p : Packet)
    → size ≡ length (encode_payload current)
    → not (is_nil current) && ltb max (size + addition current p) ≡ false
    → FitsLimit max (current ++ p ∷ [])
FitsLimit-joined max size [] p e h = inr (p, refl)
FitsLimit-joined max size (c ∷ cs) p e h = inl (ground (arith, e, h, payload_grows (c ∷ cs) p))

chunk_from-FitsLimit :
    (max size : ℕ) (current packets : List Packet)
    → size ≡ length (encode_payload current)
    → FitsLimit max current
    → All (FitsLimit max) (chunk_from max current size packets)
unfolding chunk_from
chunk_from-FitsLimit max size current [] e fits = (fits, tt)
chunk_from-FitsLimit max size current (p ∷ ps) e fits =
    if-branches (All (FitsLimit max)) (not (is_nil current) && ltb max (size + addition current p))
      _ _
      (λ full. (
        fits,
        chunk_from-FitsLimit max (length (encode_packet p)) (p ∷ []) ps (payload_of_one p)
            (inr (p, refl)),
      ))
      (λ room.
        chunk_from-FitsLimit max (size + addition current p) (current ++ p ∷ []) ps
          (ap (λ n. n + addition current p) e ∙ sym (payload_grows current p))
          (FitsLimit-joined max size current p e room))

-- Whatever the limit, the chunks joined are the packets in order.
pub concat-chunk_packets :
    (packets : List Packet) (max_payload : ℤ) → concat (chunk_packets packets max_payload) ≡ packets
unfolding chunk_packets
concat-chunk_packets packets max_payload =
    if-both (λ chunks. concat chunks ≡ packets)
      (not (is_positive max_payload) || ltb (length packets) 2) _ _ (append-nil packets)
      (concat-chunk_from (pos_part max_payload) 0 [] packets)

FitsLimit-short : (max : ℕ) (packets : List Packet) → length packets < 2 → FitsLimit max packets
unfolding encode_payload append_payload append_payload_from
FitsLimit-short max [] h = inl (omega arith)
FitsLimit-short max (p ∷ []) h = inr (p, refl)
FitsLimit-short max (p ∷ q ∷ ps) h = absurd (omega (arith, h))

-- Under a positive limit the payload of every chunk fits it, but for a packet that is alone in its
-- chunk.
pub chunk_packets-FitsLimit :
    (packets : List Packet) (max_payload : ℤ)
    → is_positive max_payload ≡ true
    → All (FitsLimit (pos_part max_payload)) (chunk_packets packets max_payload)
unfolding chunk_packets encode_payload append_payload append_payload_from
chunk_packets-FitsLimit packets max_payload positive =
    if-branches (All (FitsLimit (pos_part max_payload)))
      (not (is_positive max_payload) || ltb (length packets) 2) _ _
      (λ short.
        (FitsLimit-short (pos_part max_payload) packets (ground (arith, short, positive)), tt))
      (λ long. chunk_from-FitsLimit (pos_part max_payload) 0 [] packets refl (inl (omega arith)))
