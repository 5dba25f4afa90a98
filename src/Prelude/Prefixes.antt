-- ===== src/Prelude/Prefixes.antt =====
-- Lists that grow at their ends.
use mathlib.Core.Path.{◌≡◌, refl, sym, ap, ◌∙◌}
use mathlib.Core.List.{List, [], ◌∷◌, ◌++◌, append-nil, append_assoc}
use mathlib.Core.Option.{some}
use Prim.Native.Nat.{ℕ, zero, suc, ◌+◌, ◌≤◌}
use native.Mathlib.Omega.{arith}
use franken_mo_e_cuda.Prelude.Lists.{length, get_elem?, take, drop}

module _ {ℓ} {A : Type ℓ} where
  abbrev pub Prefix : List A → List A → Type ℓ
  Prefix xs ys = (zs : List A) × (ys ≡ xs ++ zs)

  pub Prefix-refl : (xs : List A) → Prefix xs xs
  Prefix-refl xs = ([], sym (append-nil xs))

  pub Prefix-snoc : (xs : List A) (x : A) → Prefix xs (xs ++ x ∷ [])
  Prefix-snoc xs x = (x ∷ [], refl)

  pub Prefix-trans : (xs ys zs : List A) → Prefix xs ys → Prefix ys zs → Prefix xs zs
  Prefix-trans xs ys zs (a, p) (b, q) = (a ++ b, q ∙ ap (λ l. l ++ b) p ∙ append_assoc xs a b)

  get-middle : (xs : List A) (x : A) (ys : List A) → get_elem? (xs ++ x ∷ ys) (length xs) ≡ some x
  get-middle [] x ys = refl
  get-middle (y ∷ xs) x ys = get-middle xs x ys

  -- What was added last is at the old length.
  pub Prefix-get :
      (xs ys : List A) (x : A) → Prefix (xs ++ x ∷ []) ys → get_elem? ys (length xs) ≡ some x
  Prefix-get xs ys x (zs, p) =
      ap (λ l. get_elem? l (length xs)) (p ∙ append_assoc xs (x ∷ []) zs) ∙ get-middle xs x zs

  pub take-length_append : (xs ys : List A) → take (length xs) (xs ++ ys) ≡ xs
  take-length_append [] ys = refl
  take-length_append (x ∷ xs) ys = ap (λ l. x ∷ l) (take-length_append xs ys)

  -- Behind a first part, a number of its own.
  pub take-add_append : (xs ys : List A) (k : ℕ) → take (length xs + k) (xs ++ ys) ≡ xs ++ take k ys
  take-add_append [] ys k = ap (λ n. take n ys) (omega arith)
  take-add_append (x ∷ xs) ys k =
      let e : suc (length xs) + k ≡ suc (length xs + k) = omega arith in
      rw e (ap (λ l. x ∷ l) (take-add_append xs ys k))

  pub take_all : (n : ℕ) (xs : List A) → length xs ≤ n → take n xs ≡ xs
  take_all zero [] h = refl
  take_all zero (x ∷ xs) h = absurd (omega arith)
  take_all (suc n) [] h = refl
  take_all (suc n) (x ∷ xs) h = ap (λ l. x ∷ l) (take_all n xs (omega arith))

  pub length-take_le : (n : ℕ) (xs : List A) → length (take n xs) ≤ n
  length-take_le zero xs = omega arith
  length-take_le (suc n) [] = omega arith
  length-take_le (suc n) (x ∷ xs) = omega (arith, length-take_le n xs)

  pub Prefix-take : (n m : ℕ) (xs : List A) → n ≤ m → Prefix (take n xs) (take m xs)
  Prefix-take zero m xs h = (take m xs, refl)
  Prefix-take (suc n) zero xs h = absurd (omega arith)
  Prefix-take (suc n) (suc m) [] h = ([], refl)
  Prefix-take (suc n) (suc m) (x ∷ xs) h =
      let (zs, e) = Prefix-take n m xs (omega arith) in (zs, ap (λ l. x ∷ l) e)

  pub Prefix-under : (xs ys zs : List A) → Prefix ys zs → Prefix (xs ++ ys) (xs ++ zs)
  Prefix-under xs ys zs (ws, e) = (ws, ap (λ l. xs ++ l) e ∙ sym (append_assoc xs ys ws))

  pub Prefix-append : (xs ys : List A) → Prefix xs (xs ++ ys)
  Prefix-append xs ys = (ys, refl)

  pub eq-Prefix : {xs ys : List A} → ys ≡ xs → Prefix xs ys
  eq-Prefix {xs} e = ([], e ∙ sym (append-nil xs))

  pub take-drop : (n k : ℕ) (xs : List A) → take n xs ++ take k (drop n xs) ≡ take (n + k) xs
  take-drop zero k xs = ap (λ m. take m xs) (omega arith)
  take-drop (suc n) zero [] = let e : suc n + 0 ≡ suc n = omega arith in rw e refl
  take-drop (suc n) (suc k) [] = let e : suc n + suc k ≡ suc (n + suc k) = omega arith in rw e refl
  take-drop (suc n) k (x ∷ xs) =
      let e : suc n + k ≡ suc (n + k) = omega arith in rw e (ap (λ l. x ∷ l) (take-drop n k xs))

  pub take-append_drop : (n : ℕ) (xs : List A) → take n xs ++ drop n xs ≡ xs
  take-append_drop zero xs = refl
  take-append_drop (suc n) [] = refl
  take-append_drop (suc n) (x ∷ xs) = ap (λ l. x ∷ l) (take-append_drop n xs)

  pub length-take : (n : ℕ) (xs : List A) → n ≤ length xs → length (take n xs) ≡ n
  length-take zero xs h = refl
  length-take (suc n) [] h = absurd (omega arith)
  length-take (suc n) (x ∷ xs) h = omega (arith, length-take n xs)
