-- ===== src/Yeast/Unique.antt =====
-- yeast.go: no two values of one generator are equal, whatever the clock does.
use go_engine_io.Base.{
  ℕ, suc, ◌+◌, ◌*◌, ◌<◌, ◌≡◌, ◌≢◌, ◌⊎◌, refl, sym, ◌∙◌, ap, arith, List, [], ◌∷◌, ◌++◌, ◌==◌,
  if◌then◌else◌, All, All-mono, append-nil,
}
use go_engine_io.Codec.Packet.{Bytes}
use go_engine_io.Yeast.{yeast_encode, YeastGenerator, max, next, next_all}
use go_engine_io.Yeast.Digits.{
  digit_of, IsYeastChar, yeast_char-no_dot, value_from, value_from-yeast_encode, yeast_encode-All,
}

-- What a value says: its millisecond, and 0 or one more than the sequence number behind the dot.
unfoldable stamp_from : ℕ → Bytes → ℕ × ℕ
stamp_from high [] = (high, 0)
stamp_from high (c ∷ cs) =
    let rest = stamp_from (high * 64 + digit_of c) cs in
    if c == b'.' then (high, suc (value_from 0 cs)) else rest

stamp_from-append :
    (high : ℕ) (cs rest : Bytes)
    → All IsYeastChar cs
    → stamp_from high (cs ++ rest) ≡ stamp_from (value_from high cs) rest
unfolding stamp_from value_from
stamp_from-append high [] rest h = refl
stamp_from-append high (c ∷ cs) rest ((digit, small, e), h) =
    let no_dot : c ≢ b'.' = λ dot. yeast_char-no_dot digit small (sym e ∙ dot) in
    ground (arith, no_dot, stamp_from-append (high * 64 + digit_of c) cs rest h)

stamp-plain : (millis : ℕ) → stamp_from 0 (yeast_encode millis) ≡ (millis, 0)
unfolding stamp_from
stamp-plain millis =
    ap (stamp_from 0) (sym (append-nil (yeast_encode millis)))
    ∙ stamp_from-append 0 (yeast_encode millis) [] (yeast_encode-All millis)
    ∙ ap (λ n. (n, 0)) (value_from-yeast_encode millis)

stamp-dotted :
    (millis seq : ℕ)
    → stamp_from 0 (yeast_encode millis ++ b'.' ∷ yeast_encode seq) ≡ (millis, suc seq)
unfolding stamp_from
stamp-dotted millis seq =
    stamp_from-append 0 (yeast_encode millis) (b'.' ∷ yeast_encode seq) (yeast_encode-All millis)
    ∙ ap (λ n. (n, suc (value_from 0 (yeast_encode seq)))) (value_from-yeast_encode millis)
    ∙ ap (λ n. (millis, suc n)) (value_from-yeast_encode seq)

-- The value is later than every value that the generator has made.
abbrev IsLater : YeastGenerator → Bytes → Type 0
IsLater g value =
    (g.previous_millis < (stamp_from 0 value).0)
    ⊎ ((g.previous_millis ≡ (stamp_from 0 value).0) × (g.seed < (stamp_from 0 value).1))

-- A generator only moves on.
next-grows :
    (now : ℕ) (g : YeastGenerator)
    → (g.previous_millis < (next now g).1.previous_millis)
      ⊎ ((g.previous_millis ≡ (next now g).1.previous_millis) × (g.seed < (next now g).1.seed))
unfolding next
next-grows now g = ground arith

-- The value is stamped with the state that the generator is left in.
next-stamp :
    (now : ℕ) (g : YeastGenerator)
    → stamp_from 0 (next now g).0 ≡ ((next now g).1.previous_millis, (next now g).1.seed)
unfolding next
next-stamp now g = ground (
  arith,
  stamp-plain (max now g.previous_millis),
  stamp-dotted (max now g.previous_millis) g.seed,
)

IsLater-next :
    (now : ℕ) (g : YeastGenerator) (value : Bytes) → IsLater (next now g).1 value → IsLater g value
IsLater-next now g value h = ground (arith, next-grows now g, h)

next-IsLater : (now : ℕ) (g : YeastGenerator) → IsLater g (next now g).0
next-IsLater now g = ground (arith, next-grows now g, next-stamp now g)

later_differs :
    (now : ℕ) (g : YeastGenerator) (value : Bytes)
    → IsLater (next now g).1 value
    → (next now g).0 ≢ value
later_differs now g value h same = ground (arith, h, next-stamp now g, ap (stamp_from 0) same)

next_all-IsLater : (readings : List ℕ) (g : YeastGenerator) → All (IsLater g) (next_all readings g)
unfolding next_all
next_all-IsLater [] g = tt
next_all-IsLater (now ∷ readings) g = (
  next-IsLater now g,
  All-mono (IsLater (next now g).1) (IsLater g) (IsLater-next now g)
      (next_all readings (next now g).1) (next_all-IsLater readings (next now g).1),
)

abbrev pub IsDistinct : List Bytes → Type 0
IsDistinct [] = Unit
IsDistinct (x ∷ xs) = All (λ y. x ≢ y) xs × IsDistinct xs

-- Whatever the clock reads at each call, backwards steps included, no value of a generator is made
-- twice.
pub next_all-IsDistinct :
    (readings : List ℕ) (g : YeastGenerator) → IsDistinct (next_all readings g)
unfolding next_all
next_all-IsDistinct [] g = tt
next_all-IsDistinct (now ∷ readings) g = (
  All-mono (IsLater (next now g).1) (λ value. (next now g).0 ≢ value) (later_differs now g)
      (next_all readings (next now g).1) (next_all-IsLater readings (next now g).1),
  next_all-IsDistinct readings (next now g).1,
)
