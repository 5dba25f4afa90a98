-- ===== src/Workload/Digits.antt =====
-- Printing and reading words and numbers of the workload file.
use franken_mo_e_cuda.Prelude.{
  ℕ, zero, suc, ◌+◌, ◌-◌, ◌*◌, ◌/◌, ◌%◌, ◌^◌, ◌≡◌, ◌≤◌, ◌<◌, true, false, some, [], ◌∷◌, ◌++◌, All,
  arith, Bool-cases, inl, inr, refl, ap, ◌∙◌, All-append, ltb, leb, ◌==◌, subst,
}
use native.Mathlib.Nat.{div-add-mod, mod-lt}
use franken_mo_e_cuda.Prelude.Int.{ℤ, pos, negsuc}
use franken_mo_e_cuda.Workload.Text.{
  Bytes, digits, put_size, put_int, is_space, is_digit, skip, span_word, span_digits, value,
  some_word, get_word, some_number, get_digits, negate, in_int, get_int_at, get_int, in_size,
  get_size_at, get_size,
}

-- White space or the end of the file.
abbrev pub Stops : Bytes → Type 0
Stops [] = Unit
Stops (c ∷ cs) = is_space c ≡ true

abbrev pub Solid : Bytes → Type 0
Solid = All (λ c. is_space c ≡ false)

abbrev Digital : Bytes → Type 0
Digital = All (λ c. is_digit c ≡ true)

space-not_digit : (c : ℕ) → is_space c ≡ true → is_digit c ≡ false
unfolding is_space is_digit
space-not_digit c h = ground arith

digit-not_space : (c : ℕ) → is_digit c ≡ true → is_space c ≡ false
unfolding is_space is_digit
digit-not_space c h = ground arith

span_word-append : (w rest : Bytes) → Solid w → Stops rest → span_word (w ++ rest) ≡ (w, rest)
unfolding span_word
span_word-append [] [] s h = refl
span_word-append [] (c ∷ cs) s h = simp (h, span_word) refl
span_word-append (c ∷ w) rest s h =
    simp (s.0, span_word) (ap (λ r. (c ∷ r.0, r.1)) (span_word-append w rest s.1 h))

span_digits-append : (w rest : Bytes) → Digital w → Stops rest → span_digits (w ++ rest) ≡ (w, rest)
unfolding span_digits
span_digits-append [] [] s h = refl
span_digits-append [] (c ∷ cs) s h = simp (space-not_digit c h, span_digits) refl
span_digits-append (c ∷ w) rest s h =
    simp (s.0, span_digits) (ap (λ r. (c ∷ r.0, r.1)) (span_digits-append w rest s.1 h))

-- A separator and a word.
pub get_word-append :
    (s c : ℕ) (w rest : Bytes)
    → is_space s ≡ true
    → Solid (c ∷ w)
    → Stops rest
    → get_word (s ∷ (c ∷ w) ++ rest) ≡ some (c ∷ w, rest)
unfolding get_word skip some_word
get_word-append s c w rest sp solid h =
    simp (sp, solid.0, skip, get_word) (ap some_word (span_word-append (c ∷ w) rest solid h))

value-append :
    (acc : ℕ) (ds : Bytes) (d : ℕ) → value acc (ds ++ d ∷ []) ≡ value acc ds * 10 + (d - 48)
unfolding value
value-append acc [] d = refl
value-append acc (x ∷ ds) d = value-append (acc * 10 + (x - 48)) ds d

below_ten : (n : ℕ) → n % 10 < 10
below_ten n = mod-lt n (omega arith)

digits-Digital : (fuel n : ℕ) → n ≤ fuel → Digital (digits fuel n)
unfolding digits is_digit
digits-Digital zero n h = (ground arith, tt)
digits-Digital (suc fuel) n h = elim (Bool-cases (ltb n 10)) [
  | inl e ↦ simp (e, digits) (ground arith, tt)
  | inr e ↦
      simp (e, digits)
        (All-append _ (digits fuel (n / 10)) _ (digits-Digital fuel (n / 10) (ground arith))
          (ground (arith, below_ten n), tt))
]

value-digits : (fuel n : ℕ) → n ≤ fuel → value 0 (digits fuel n) ≡ n
unfolding digits value
value-digits zero n h = omega arith
value-digits (suc fuel) n h = elim (Bool-cases (ltb n 10)) [
  | inl e ↦ simp (e, digits) (omega arith)
  | inr e ↦
      let front = value-digits fuel (n / 10) (ground arith) in
      simp (e, digits)
        (value-append 0 (digits fuel (n / 10)) (48 + n % 10)
          ∙ omega (arith, front, div-add-mod n 10))
]

digits-cons : (fuel n : ℕ) → (d : ℕ) × (ds : Bytes) × (digits fuel n ≡ d ∷ ds)
unfolding digits
digits-cons zero n = (48 + n, [], refl)
digits-cons (suc fuel) n = elim (Bool-cases (ltb n 10)) [
  | inl e ↦ (48 + n, [], simp (e, digits) refl)
  | inr e ↦
      let (d, ds, p) = digits-cons fuel (n / 10) in
      (d, ds ++ (48 + n % 10) ∷ [], simp (e, digits) (ap (λ l. l ++ (48 + n % 10) ∷ []) p))
]

-- The digits of a number are a first digit and others, which stand for the number.
record Printed (n : ℕ) : Type 0 where
  first : ℕ
  others : Bytes
  shape : put_size n ≡ first ∷ others
  digital : Digital (first ∷ others)
  stands : value 0 (first ∷ others) ≡ n

put_size-Printed : (n : ℕ) → Printed n
unfolding put_size
put_size-Printed n =
    let (d, ds, p) = digits-cons n n in
    record {
      first = d;
      others = ds;
      shape = p;
      digital = subst Digital p (digits-Digital n n (omega arith));
      stands = subst (λ l. value 0 l ≡ n) p (value-digits n n (omega arith));
    }

get_digits-Printed :
    (n : ℕ) (p : Printed n) (rest : Bytes)
    → Stops rest
    → get_digits ((p.first ∷ p.others) ++ rest) ≡ some (n, rest)
unfolding get_digits some_number
get_digits-Printed n p rest h =
    ap some_number (span_digits-append (p.first ∷ p.others) rest p.digital h)
    ∙ ap (λ v. some (v, rest)) p.stands

no_sign : (c : ℕ) → is_digit c ≡ true → ((c == 45) ≡ false) × ((c == 43) ≡ false)
unfolding is_digit
no_sign c h = (ground arith, ground arith)

-- A space and a number.
pub get_size-put_size :
    (s n : ℕ) (rest : Bytes)
    → is_space s ≡ true
    → n < 2 ^ 64
    → Stops rest
    → get_size (s ∷ put_size n ++ rest) ≡ some (n, rest)
unfolding get_size get_size_at skip in_size
get_size-put_size s n rest sp small h =
    let p = put_size-Printed n in
    let solid = digit-not_space p.first p.digital.0 in
    let sign = no_sign p.first p.digital.0 in
    let fits : ltb n (2 ^ 64) ≡ true = ground arith in
    let e = get_digits-Printed n p rest h in
    rw p.shape (
      simp (sp, solid, sign.0, sign.1, skip, get_size, get_size_at)
        (ap (in_size false) e ∙ simp (fits, in_size) refl))

-- The range of an `int`.
abbrev pub InInt : ℤ → Type 0
InInt (pos n) = n < 2 ^ 31
InInt (negsuc n) = suc n ≤ 2 ^ 31

minus_solid : is_space 45 ≡ false
unfolding is_space
minus_solid = refl

pub get_int-put_int :
    (s : ℕ) (z : ℤ) (rest : Bytes)
    → is_space s ≡ true
    → InInt z
    → Stops rest
    → get_int (s ∷ put_int z ++ rest) ≡ some (z, rest)
unfolding get_int get_int_at skip put_int in_int negate
get_int-put_int s (pos n) rest sp small h =
    let p = put_size-Printed n in
    let solid = digit-not_space p.first p.digital.0 in
    let sign = no_sign p.first p.digital.0 in
    let fits : ltb n (2 ^ 31) ≡ true = ground arith in
    let e = get_digits-Printed n p rest h in
    rw p.shape (
      simp (sp, solid, sign.0, sign.1, skip, get_int, get_int_at)
        (ap (in_int false) e ∙ simp (fits, in_int) refl))
get_int-put_int s (negsuc n) rest sp small h =
    let p = put_size-Printed (suc n) in
    let minus : is_space 45 ≡ false = minus_solid in
    let fits : leb (suc n) (2 ^ 31) ≡ true = ground arith in
    let e = get_digits-Printed (suc n) p rest h in
    rw p.shape
      (simp (sp, minus, skip, get_int, get_int_at) (ap (in_int true) e ∙ simp (fits, in_int) refl))

-- A word at the start of the file.
pub first_word :
    (c : ℕ) (w rest : Bytes)
    → Solid (c ∷ w)
    → Stops rest
    → get_word ((c ∷ w) ++ rest) ≡ some (c ∷ w, rest)
unfolding get_word skip some_word
first_word c w rest solid h =
    simp (solid.0, skip, get_word) (ap some_word (span_word-append (c ∷ w) rest solid h))
