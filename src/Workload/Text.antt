-- ===== src/Workload/Text.antt =====
-- What the workload file uses of the standard streams, on bytes: `out << n` and `out << s`, and
-- `in >> n` and `in >> s`, which skip white space and leave what they do not take.
use franken_mo_e_cuda.Prelude.{
  ℕ, zero, suc, ◌+◌, ◌-◌, ◌*◌, ◌/◌, ◌%◌, ◌^◌, Bool, true, false, ◌&&◌, ◌||◌, Option, none, some,
  List, [], ◌∷◌, ◌++◌, ltb, leb, ◌==◌, if◌then◌else◌,
}
use franken_mo_e_cuda.Prelude.Int.{ℤ, pos, negsuc}

abbrev pub Bytes : Type 0
Bytes = List ℕ

-- The decimal digits; each leaves less than before, so n of them suffice.
unfoldable pub digits : ℕ → ℕ → Bytes
digits zero n = (48 + n) ∷ []
digits (suc fuel) n =
    let front = digits fuel (n / 10) in
    if ltb n 10 then (48 + n) ∷ [] else front ++ (48 + n % 10) ∷ []

unfoldable pub put_size : ℕ → Bytes
put_size n = digits n n

unfoldable pub put_int : ℤ → Bytes
put_int (pos n) = put_size n
put_int (negsuc n) = 45 ∷ put_size (suc n)

unfoldable pub is_space : ℕ → Bool
is_space c = c == 32 || (leb 9 c && leb c 13)

unfoldable pub is_digit : ℕ → Bool
is_digit c = leb 48 c && leb c 57

unfoldable pub skip : Bytes → Bytes
skip [] = []
skip (c ∷ cs) = let rest = skip cs in if is_space c then rest else c ∷ cs

-- The longest front of other bytes than white space, and the longest of digits.
unfoldable pub span_word : Bytes → Bytes × Bytes
span_word [] = ([], [])
span_word (c ∷ cs) = let r = span_word cs in if is_space c then ([], c ∷ cs) else (c ∷ r.0, r.1)

unfoldable pub span_digits : Bytes → Bytes × Bytes
span_digits [] = ([], [])
span_digits (c ∷ cs) = let r = span_digits cs in if is_digit c then (c ∷ r.0, r.1) else ([], c ∷ cs)

unfoldable pub value : ℕ → Bytes → ℕ
value acc [] = acc
value acc (d ∷ ds) = value (acc * 10 + (d - 48)) ds

unfoldable pub some_word : Bytes × Bytes → Option (Bytes × Bytes)
some_word ([], rest) = none
some_word (c ∷ cs, rest) = some (c ∷ cs, rest)

unfoldable pub get_word : Bytes → Option (Bytes × Bytes)
get_word cs = some_word (span_word (skip cs))

-- A number without its sign.
unfoldable pub some_number : Bytes × Bytes → Option (ℕ × Bytes)
some_number ([], rest) = none
some_number (d ∷ ds, rest) = some (value 0 (d ∷ ds), rest)

unfoldable pub get_digits : Bytes → Option (ℕ × Bytes)
get_digits cs = some_number (span_digits cs)

unfoldable pub negate : ℕ → ℤ
negate zero = pos zero
negate (suc n) = negsuc n

-- An `int`, of 32 bits; a number out of range is refused.
unfoldable pub in_int : Bool → Option (ℕ × Bytes) → Option (ℤ × Bytes)
in_int minus none = none
in_int true (some (n, rest)) = if leb n (2 ^ 31) then some (negate n, rest) else none
in_int false (some (n, rest)) = if ltb n (2 ^ 31) then some (pos n, rest) else none

unfoldable pub get_int_at : Bytes → Option (ℤ × Bytes)
get_int_at [] = none
get_int_at (c ∷ cs) =
    if c == 45
    then in_int true (get_digits cs)
    else if c == 43
    then in_int false (get_digits cs)
    else in_int false (get_digits (c ∷ cs))

unfoldable pub get_int : Bytes → Option (ℤ × Bytes)
get_int cs = get_int_at (skip cs)

-- A `size_t`, of 64 bits; a minus sign wraps around.
unfoldable pub in_size : Bool → Option (ℕ × Bytes) → Option (ℕ × Bytes)
in_size minus none = none
in_size true (some (n, rest)) = if ltb n (2 ^ 64) then some ((2 ^ 64 - n) % 2 ^ 64, rest) else none
in_size false (some (n, rest)) = if ltb n (2 ^ 64) then some (n, rest) else none

unfoldable pub get_size_at : Bytes → Option (ℕ × Bytes)
get_size_at [] = none
get_size_at (c ∷ cs) =
    if c == 45
    then in_size true (get_digits cs)
    else if c == 43
    then in_size false (get_digits cs)
    else in_size false (get_digits (c ∷ cs))

unfoldable pub get_size : Bytes → Option (ℕ × Bytes)
get_size cs = get_size_at (skip cs)
