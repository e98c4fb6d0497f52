-- ===== src/Codec/Payload/Strings/Frames.antt =====
-- The string framing against a description of its frames, and its panic.
use go_engine_io.Base.{
  ℕ, zero, suc, ◌+◌, ◌-◌, ◌*◌, ◌≤◌, ◌<◌, ◌^◌, ◌≡◌, ◌≢◌, refl, ap, ◌∙◌, arith, some, List, [], ◌∷◌,
  ◌++◌, length, drop, take-length-append, length-append, All, All-mono,
}
use go_engine_io.Base.Int.{pos}
use go_engine_io.Codec.Packet.{Bytes, Packet}
use go_engine_io.Codec.Result.{ok, ◌>>=◌}
use go_engine_io.Codec.Runes.{encode_runes, encode_runes-ascii}
use go_engine_io.Codec.Payload.Slice.{slice_frame, slice_frame-append}
use go_engine_io.Codec.Payload.Legacy.{decode_string_framed_packet}
use go_engine_io.Codec.Payload.Strings.{
  index, parse_digits, atoi, slice_body, read_string_frame, decode_string_frames,
}

-- ASCII decimal digits, and the number that they stand for.
abbrev pub AreDecimal : Bytes → Type 0
AreDecimal = All (λ c. (b'0' ≤ c) × (c ≤ b'9'))

abbrev pub decimal : ℕ → Bytes → ℕ
decimal acc [] = acc
decimal acc (c ∷ cs) = decimal (acc * 10 + (c - b'0')) cs

parse_digits-decimal :
    (cs : Bytes) (acc : ℕ) → AreDecimal cs → parse_digits acc cs ≡ some (decimal acc cs)
unfolding parse_digits
parse_digits-decimal [] acc h = refl
parse_digits-decimal (c ∷ cs) acc h =
    ground (arith, parse_digits-decimal cs (acc * 10 + (c - b'0')) h.1)

atoi-decimal :
    (cs : Bytes) (n : ℕ)
    → cs ≢ []
    → AreDecimal cs
    → decimal 0 cs ≡ n
    → n < 2 ^ 63
    → atoi cs ≡ some (pos n)
unfolding atoi
atoi-decimal [] n ne h e lt = absurd (ne refl)
atoi-decimal (c ∷ cs) zero ne h e lt = ground (arith, parse_digits-decimal (c ∷ cs) 0 h)
atoi-decimal (c ∷ cs) (suc n) ne h e lt = ground (arith, parse_digits-decimal (c ∷ cs) 0 h)

index-decimal :
    (cs : Bytes) (rest : List ℕ)
    → AreDecimal cs
    → index (cs ++ (b':' ∷ rest)) b':' ≡ some (length cs)
unfolding index
index-decimal [] rest h = refl
index-decimal (c ∷ cs) rest h = ground (arith, index-decimal cs rest h.1)

take-suc-length-append :
    (cs : Bytes) (x : ℕ) (rest : List ℕ) → drop (suc (length cs)) (cs ++ (x ∷ rest)) ≡ rest
take-suc-length-append [] x rest = refl
take-suc-length-append (c ∷ cs) x rest = take-suc-length-append cs x rest

encode_runes-decimal : (cs : Bytes) → AreDecimal cs → encode_runes cs ≡ cs
encode_runes-decimal cs h = encode_runes-ascii cs (All-mono _ _ (λ c d. omega arith) cs h)

-- A frame's header is read as its length, and the slice is then taken behind the colon.
pub read_string_frame-decimal :
    (digits : Bytes) (n len cursor : ℕ) (rest : List ℕ)
    → digits ≢ []
    → AreDecimal digits
    → decimal 0 digits ≡ n
    → n < 2 ^ 63
    → read_string_frame len cursor (digits ++ (b':' ∷ rest))
      ≡ slice_frame len (suc (length digits + cursor)) n rest
unfolding read_string_frame slice_body
read_string_frame-decimal digits n len cursor rest ne h e lt =
    rw (index-decimal digits rest h, read_string_frame)
      (rw
        (
          take-length-append digits (b':' ∷ rest),
          encode_runes-decimal digits h,
          atoi-decimal digits n ne h e lt,
          read_string_frame,
        )
        (rw (take-suc-length-append digits b':' rest)))

-- A frame: the length in decimal, and the packet's runes.
pub record Frame : Type 0 where
  pub digits : Bytes
  pub body : List ℕ

abbrev pub frames_runes : List Frame → List ℕ
frames_runes [] = []
frames_runes (f ∷ fs) = f.digits ++ (b':' ∷ (f.body ++ frames_runes fs))

pub record IsFrame (f : Frame) (p : Packet) : Type 0 where
  pub digits_ne_nil : f.digits ≢ []
  pub digits_are : AreDecimal f.digits
  pub length_is : decimal 0 f.digits ≡ length f.body
  pub decodes : decode_string_framed_packet (encode_runes f.body) ≡ ok p

abbrev pub Frames : List Frame → List Packet → Type 0
Frames [] [] = Unit {0}
Frames (f ∷ fs) (p ∷ ps) = IsFrame f p × Frames fs ps
Frames _ _ = ⊥

pub round-cons :
    (fuel len cursor : ℕ) (done : List Packet) (rest : List ℕ)
    → rest ≢ []
    → decode_string_frames (suc fuel) len cursor rest done ≡ (
        read_string_frame len cursor rest >>= λ (body, end, after).
        decode_string_framed_packet (encode_runes body) >>= λ packet.
        decode_string_frames fuel len end after (done ++ (packet ∷ [])))
unfolding decode_string_frames
round-cons fuel len cursor done [] h = absurd (h refl)
round-cons fuel len cursor done (r ∷ rest) h = refl

-- One round of the loop over a frame.
pub decode_string_frames_step :
    (f : Frame) (p : Packet) (fuel len cursor : ℕ) (rest : List ℕ) (done : List Packet)
    → IsFrame f p
    → cursor + length (f.digits ++ (b':' ∷ (f.body ++ rest))) ≤ len
    → len < 2 ^ 63
    → decode_string_frames (suc fuel) len cursor (f.digits ++ (b':' ∷ (f.body ++ rest))) done
      ≡ decode_string_frames fuel len
          (suc (length f.digits + cursor) + length f.body)
          rest
          (done ++ (p ∷ []))
decode_string_frames_step f p fuel len cursor rest done v h hl =
    round-cons fuel len cursor done _ ne
    ∙ rw (
      read_string_frame-decimal f.digits (length f.body) len cursor (f.body ++ rest) v.digits_ne_nil
          v.digits_are v.length_is (omega (arith, n, m)),
      slice_frame-append len (suc (length f.digits + cursor)) f.body rest (omega (arith, n, m)) hl,
      v.decodes,
    )
  where
    n :
        length (f.digits ++ (b':' ∷ (f.body ++ rest)))
        ≡ length f.digits + suc (length (f.body ++ rest))
    n = length-append f.digits (b':' ∷ (f.body ++ rest))

    m : length (f.body ++ rest) ≡ length f.body + length rest
    m = length-append f.body rest

    ne : f.digits ++ (b':' ∷ (f.body ++ rest)) ≢ []
    ne e = absurd (omega (arith, n, ap length e))
