-- ===== src/Reader/Window.antt =====
-- The window of an aligned read: whole blocks around the request, cut off at the end of the file.
use franken_mo_e_cuda.Prelude.{ℕ, ◌+◌, ◌-◌, ◌*◌, ◌/◌, ◌≡◌, ◌≤◌, ◌<◌, arith, inl, inr, ◌⊎◌}
use native.Mathlib.Nat.{div-add-mod, mod-lt, le-div_iff_mul-le, mul-le-mul_left, div-mul-le_self}
use franken_mo_e_cuda.Reader.{round_down, clip}

pub round_down-le : (align x : ℕ) → round_down align x ≤ x
round_down-le align x = omega arith

pub round_down_mono : (align x y : ℕ) → 0 < align → x ≤ y → round_down align x ≤ round_down align y
round_down_mono align x y h le =
    let below : x / align * align ≤ y = omega (arith, div-mul-le_self x align) in
    let quotients : x / align ≤ y / align = (le-div_iff_mul-le h).1 below in
    omega (arith, mul-le-mul_left align quotients, div-add-mod x align, div-add-mod y align)

-- The boundary above.
pub round_up-ge : (align x : ℕ) → 0 < align → x ≤ round_down align (x + align - 1)
round_up-ge align x h = omega (arith, mod-lt (x + align - 1) h)

-- A request inside the file is not cut off.
abbrev pub Inside : ℕ → ℕ → Type 0
Inside fsize end = (fsize ≡ 0) ⊎ (end ≤ fsize)

pub clip-Inside : (fsize end : ℕ) → Inside fsize end → clip fsize end ≡ end
unfolding clip
clip-Inside fsize end (inl h) = ground arith
clip-Inside fsize end (inr h) = ground arith

pub clip-ge : (fsize end x : ℕ) → Inside fsize end → end ≤ x → end ≤ clip fsize x
unfolding clip
clip-ge fsize end x (inl h) le = ground arith
clip-ge fsize end x (inr h) le = ground arith
