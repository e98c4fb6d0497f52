-- ===== src/Codec/Payload/Separated/Sound.antt =====
-- What a v4 payload that decodes looks like.
use go_engine_io.Base.{
  ℕ, ==_iff, ◌<◌, ◌≡◌, ◌≢◌, inl, inr, refl, sym, ap, ◌∙◌, arith, false, List, [], ◌∷◌, ◌++◌,
  append-nil, append_assoc, All, ◌==◌, Bool-cases,
}
use mathlib.Core.Path.{ap₂, subst}
use go_engine_io.Codec.Packet.{Bytes, IsByte, Packet}
use go_engine_io.Codec.Result.{ok, >>=-eq-ok}
use go_engine_io.Codec.Encoding.{decode_packet}
use go_engine_io.Codec.Encoding.RoundTrip.{decode_packet_sound}
use go_engine_io.Codec.Payload.Separated.RoundTrip.{joined, encoded, encode_payload-joined}
use go_engine_io.Codec.Payload.Separated.{
  separator, encode_payload, cons_first, split, decode_segments, decode_record_separator_payload,
}

abbrev IsText : Packet → Type 0
IsText p = p.is_binary ≡ false

abbrev unsplit : List Bytes → Bytes
unsplit [] = []
unsplit (s ∷ ss) = joined s ss

unsplit-cons_first : (c : ℕ) (ss : List Bytes) → unsplit (cons_first c ss) ≡ c ∷ unsplit ss
unsplit-cons_first c [] = refl
unsplit-cons_first c (s ∷ []) = refl
unsplit-cons_first c (s ∷ t ∷ ts) = refl

split-ne-nil : (s : Bytes) → split separator s ≢ []
unfolding split
split-ne-nil [] e = cc
split-ne-nil (c ∷ cs) e = elim (Bool-cases (c == separator)) [
  | inl b ↦ let f = rw b at e in cc
  | inr b ↦ cons_first-ne-nil c (split separator cs) (rw b at e)
]
  where
    cons_first-ne-nil : (c : ℕ) (ss : List Bytes) → cons_first c ss ≢ []
    cons_first-ne-nil c [] e = cc
    cons_first-ne-nil c (s ∷ ss) e = cc

unsplit-nil_cons : (ss : List Bytes) → ss ≢ [] → unsplit ([] ∷ ss) ≡ separator ∷ unsplit ss
unsplit-nil_cons [] h = absurd (h refl)
unsplit-nil_cons (s ∷ ss) h = refl

-- Splitting loses nothing.
unsplit-split : (s : Bytes) → unsplit (split separator s) ≡ s
unfolding split
unsplit-split [] = refl
unsplit-split (c ∷ cs) = elim (Bool-cases (c == separator)) [
  | inl b ↦ rw b (
      unsplit-nil_cons (split separator cs) (split-ne-nil cs)
      ∙ ap₂ ◌∷◌ (sym ((==_iff c separator).0 b)) (unsplit-split cs))
  | inr b ↦ rw b (unsplit-cons_first c (split separator cs) ∙ ap (◌∷◌ c) (unsplit-split cs))
]

cons_first-IsByte :
    (c : ℕ) (ss : List Bytes) → c < 256 → All (All IsByte) ss → All (All IsByte) (cons_first c ss)
cons_first-IsByte c [] h hs = omega arith
cons_first-IsByte c (s ∷ ss) h hs = ((h, hs.0), hs.1)

split-IsByte : (s : Bytes) → All IsByte s → All (All IsByte) (split separator s)
unfolding split
split-IsByte [] h = (tt, tt)
split-IsByte (c ∷ cs) h = elim (Bool-cases (c == separator)) [
  | inl b ↦ rw b (tt, split-IsByte cs h.1)
  | inr b ↦ rw b (cons_first-IsByte c _ h.0 (split-IsByte cs h.1))
]

-- The packets that the loop adds encode to the segments, if they are text.
decode_segments-encoded :
    (ss : List Bytes) (done out : List Packet)
    → All (All IsByte) ss
    → decode_segments ss done ≡ ok out
    → (qs : List Packet) × (out ≡ done ++ qs) × (All IsText qs → encoded qs ≡ ss)
unfolding decode_segments
decode_segments-encoded [] done out h e = ([], cc (append-nil done), λ _. refl)
decode_segments-encoded (s ∷ ss) done out h e =
    let (p, d, e1) = >>=-eq-ok (decode_packet s) _ e in
    let (qs, o, f) = decode_segments-encoded ss (done ++ (p ∷ [])) out h.1 e1 in
    (
      p ∷ qs,
      o ∙ append_assoc done (p ∷ []) qs,
      λ t. ap₂ ◌∷◌ ((decode_packet_sound s p h.0 d).1 t.0) (f t.1),
    )

-- A payload of text packets that decodes is what encoding its packets gives, byte for byte.
pub encode-decode_payload :
    (input : Bytes) (p : Packet) (ps : List Packet)
    → All IsByte input
    → All (λ q. q.is_binary ≡ false) (p ∷ ps)
    → decode_record_separator_payload input ≡ ok (p ∷ ps)
    → encode_payload (p ∷ ps) ≡ input
unfolding decode_record_separator_payload
encode-decode_payload input p ps h t e =
    let (qs, o, f) =
      decode_segments-encoded (split separator input) [] (p ∷ ps) (split-IsByte input h) e in
    encode_payload-joined p ps
    ∙ ap unsplit (ap encoded o ∙ f (subst (All IsText) o t))
    ∙ unsplit-split input
