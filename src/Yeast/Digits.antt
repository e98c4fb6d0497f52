-- ===== src/Yeast/Digits.antt =====
-- yeast.go: yeastEncode writes the digits of its number, which can be read back.
use go_engine_io.Base.{
  ℕ, zero, suc, ◌+◌, ◌-◌, ◌*◌, ◌/◌, ◌%◌, ◌<◌, ◌≡◌, ◌≢◌, refl, sym, ◌∙◌, ap, arith, [], ◌∷◌, ltb,
  ◌==◌, if◌then◌else◌, All, inl, inr, Bool-cases, if-both,
}
use go_engine_io.Codec.Packet.{Bytes}
use go_engine_io.Yeast.{yeast_char, encode_digits, yeast_encode}

-- The digit that a character stands for.
unfoldable pub digit_of : ℕ → ℕ
digit_of c =
    if c == b'-'
    then 62
    else if c == b'_'
    then 63
    else if ltb c b'A'
    then c - b'0'
    else if ltb c b'a'
    then c - b'A' + 10
    else c - b'a' + 36

pub digit_of-yeast_char : (digit : ℕ) → digit < 64 → digit_of (yeast_char digit) ≡ digit
unfolding digit_of yeast_char
digit_of-yeast_char digit h = ground arith

-- The 64 characters of the alphabet, all safe in a query value, and none of them a dot.
abbrev pub IsYeastChar : ℕ → Type 0
IsYeastChar c = (digit : ℕ) × (digit < 64) × (c ≡ yeast_char digit)

pub yeast_char-no_dot : (digit : ℕ) → digit < 64 → yeast_char digit ≢ b'.'
unfolding yeast_char
yeast_char-no_dot digit h = ground arith

-- The number that digits behind the number `high` make.
unfoldable pub value_from : ℕ → Bytes → ℕ
value_from high [] = high
value_from high (c ∷ cs) = value_from (high * 64 + digit_of c) cs

value_from-digit :
    (num : ℕ) (cs : Bytes) → value_from (num / 64) (yeast_char (num % 64) ∷ cs) ≡ value_from num cs
unfolding value_from
value_from-digit num cs =
    ap (λ n. value_from n cs)
      (ap (◌+◌ (num / 64 * 64)) (digit_of-yeast_char (num % 64) (omega arith)) ∙ omega arith)

value_from-encode_digits :
    (fuel num : ℕ) (cs : Bytes)
    → num < fuel
    → value_from 0 (encode_digits fuel num cs) ≡ value_from num cs
unfolding encode_digits
value_from-encode_digits zero num cs h = omega (arith, h)
value_from-encode_digits (suc fuel) num cs h = elim (Bool-cases (num / 64 == 0)) [
  | inl e ↦
      let small : num / 64 ≡ 0 = ground (arith, e) in
      ground (
        arith,
        e,
        sym (ap (λ n. value_from n (yeast_char (num % 64) ∷ cs)) small) ∙ value_from-digit num cs,
      )
  | inr e ↦ ground (
    arith,
    e,
    value_from-encode_digits fuel (num / 64) (yeast_char (num % 64) ∷ cs) (ground (arith, e, h))
        ∙ value_from-digit num cs,
  )
]

-- The number that yeastEncode wrote, read back.
pub value_from-yeast_encode : (num : ℕ) → value_from 0 (yeast_encode num) ≡ num
unfolding yeast_encode value_from
value_from-yeast_encode num = value_from-encode_digits (suc num) num [] (omega arith)

-- Any fuel above the number gives all its digits, as yeastEncode does.
pub encode_digits_enough :
    (fuel more num : ℕ) (cs : Bytes)
    → num < fuel
    → num < more
    → encode_digits fuel num cs ≡ encode_digits more num cs
unfolding encode_digits
encode_digits_enough zero more num cs h k = absurd (omega (arith, h))
encode_digits_enough (suc fuel) zero num cs h k = absurd (omega (arith, k))
encode_digits_enough (suc fuel) (suc more) num cs h k = elim (Bool-cases (num / 64 == 0)) [
  | inl e ↦ ground (arith, e)
  | inr e ↦ ground (
    arith,
    e,
    encode_digits_enough fuel more (num / 64) (yeast_char (num % 64) ∷ cs) (ground (arith, e, h))
        (ground (arith, e, k)),
  )
]

encode_digits-All :
    (fuel num : ℕ) (cs : Bytes) → All IsYeastChar cs → All IsYeastChar (encode_digits fuel num cs)
unfolding encode_digits
encode_digits-All zero num cs h = h
encode_digits-All (suc fuel) num cs h =
    let digit : IsYeastChar (yeast_char (num % 64)) = (num % 64, omega arith, refl) in
    if-both (All IsYeastChar) (num / 64 == 0) _ _ (digit, h)
      (encode_digits-All fuel (num / 64) (yeast_char (num % 64) ∷ cs) (digit, h))

pub yeast_encode-All : (num : ℕ) → All IsYeastChar (yeast_encode num)
unfolding yeast_encode
yeast_encode-All num = encode_digits-All (suc num) num [] tt
