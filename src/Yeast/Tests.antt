-- ===== src/Yeast/Tests.antt =====
-- yeast.go: values of a generator, and the theorems on them.
use go_engine_io.Base.{◌≡◌, refl, [], ◌∷◌}
use go_engine_io.Yeast.{YeastGenerator, yeast_char, encode_digits, yeast_encode, next, next_all}
use go_engine_io.Yeast.Unique.{IsDistinct, next_all-IsDistinct}

abbrev fresh : YeastGenerator
fresh = record { seed = 0; previous_millis = 0 }

yeast_encode_now : yeast_encode 130 ≡ b'2' ∷ b'2' ∷ []
unfolding yeast_encode encode_digits yeast_char
yeast_encode_now = refl

-- The clock repeats a reading and then goes back.
next_all_backwards :
    next_all (63 ∷ 63 ∷ 5 ∷ 64 ∷ []) fresh
    ≡ (b'_' ∷ []) ∷ (b'_' ∷ b'.' ∷ b'0' ∷ []) ∷ (b'_' ∷ b'.' ∷ b'1' ∷ []) ∷ (b'1' ∷ b'0' ∷ []) ∷ []
unfolding next_all next yeast_encode encode_digits yeast_char
next_all_backwards = refl

next_all-IsDistinct_example : IsDistinct (next_all (63 ∷ 63 ∷ 5 ∷ 64 ∷ []) fresh)
next_all-IsDistinct_example = next_all-IsDistinct (63 ∷ 63 ∷ 5 ∷ 64 ∷ []) fresh
