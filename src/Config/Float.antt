-- ===== src/Config/Float.antt =====
-- The comparisons of IEEE 754 binary32 that the configuration makes, on the bit patterns: but for the
-- not-a-numbers, the numbers are ordered as their magnitude bits are, with the sign bit for the sign.
use franken_mo_e_cuda.Prelude.{ℕ, ◌-◌, ◌%◌, ◌^◌, Bool, ◌&&◌, not, ltb, leb, if◌then◌else◌}
use franken_mo_e_cuda.Prelude.Int.{ℤ, pos, negsuc, ltb_ℤ, leb_ℤ, ◌==ℤ◌}

pub record Float32 : Type 0 where
  pub bits : ℕ

abbrev pub zero_f : Float32
zero_f = record { bits = 0 }

abbrev pub one_f : Float32
one_f = record { bits = 1065353216 }

-- The bits of infinity; those above are not numbers.
abbrev infinity_bits : ℕ
infinity_bits = 2139095040

unfoldable pub magnitude : Float32 → ℕ
magnitude x = x.bits % 2 ^ 31

unfoldable pub is_nan : Float32 → Bool
is_nan x = ltb infinity_bits (magnitude x)

-- The place of a number in their order; both zeros are at 0.
unfoldable pub rank : Float32 → ℤ
rank x =
    if ltb x.bits (2 ^ 31)
    then pos (magnitude x)
    else if leb (magnitude x) 0
    then pos 0
    else negsuc (magnitude x - 1)

unfoldable pub ltb_f : Float32 → Float32 → Bool
ltb_f x y = not (is_nan x) && not (is_nan y) && ltb_ℤ (rank x) (rank y)

unfoldable pub leb_f : Float32 → Float32 → Bool
leb_f x y = not (is_nan x) && not (is_nan y) && leb_ℤ (rank x) (rank y)

-- `!=` is the negation of `==`, so it holds of a not-a-number.
unfoldable pub eqb_f : Float32 → Float32 → Bool
eqb_f x y = not (is_nan x) && not (is_nan y) && rank x ==ℤ rank y
