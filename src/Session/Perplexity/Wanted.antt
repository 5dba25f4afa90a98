-- ===== src/Session/Perplexity/Wanted.antt =====
-- engine/session.cpp, Session::perplexity: the positions that count, as a list.
use franken_mo_e_cuda.Prelude.{
  ◌⊎◌, ℕ, zero, suc, ◌+◌, ◌-◌, ◌≡◌, ◌≤◌, min, max, refl, sym, ap, ◌∙◌, true, inl, inr, List, [],
  ◌∷◌, ◌++◌, leb, if◌then◌else◌, length, arith, Bool-cases,
}
use mathlib.Core.List.{append-nil}
use franken_mo_e_cuda.Prelude.Int.{ℤ}
use franken_mo_e_cuda.Session.{Target}
use franken_mo_e_cuda.Session.Perplexity.{unscored}

module _ (t : Target) (tokens : List ℤ) (skip : ℕ) where
  -- Those of `k` positions from `position` on that count.
  unfoldable pub wanted : ℕ → ℕ → List ℕ
  wanted zero position = []
  wanted (suc k) position =
      let rest = wanted k (position + 1) in
      if unscored t tokens skip position then rest else position ∷ rest

  pub wanted-add :
      (a b position : ℕ) → wanted (a + b) position ≡ wanted a position ++ wanted b (position + a)
  unfolding wanted
  wanted-add zero b position =
      let e : zero + b ≡ b = omega arith in
      let f : position + zero ≡ position = omega arith in rw (e, f) refl
  wanted-add (suc a) b position =
      let e : suc a + b ≡ suc (a + b) = omega arith in
      let f : position + 1 + a ≡ position + suc a = omega arith in
      let ih = wanted-add a b (position + 1) ∙ ap (λ p. wanted a (position + 1) ++ wanted b p) f in
      elim (Bool-cases (unscored t tokens skip position)) [
        | inl out ↦ rw (e, out, wanted) ih
        | inr counts ↦ rw (e, counts, wanted) (ap (λ l. position ∷ l) ih)
      ]

  pub pieces : (b left i : ℕ) → wanted (min b left) i ++ wanted (left - b) (i + b) ≡ wanted left i
  unfolding wanted
  pieces b left i = elim (Bool-cases (leb b left)) [
    | inl e ↦
        let size : min b left ≡ b = ground arith in
        let all : b + (left - b) ≡ left = ground arith in
        rw size (sym (wanted-add b (left - b) i) ∙ ap (λ k. wanted k i) all)
    | inr e ↦
        let size : min b left ≡ left = ground arith in
        let none : left - b ≡ 0 = ground arith in rw (size, none) (append-nil (wanted left i))
  ]

  pub wanted-none :
      (k position : ℕ)
      → (position + k ≤ skip) ⊎ (length tokens ≤ position + 1)
      → wanted k position ≡ []
  unfolding wanted unscored
  wanted-none zero position h = refl
  wanted-none (suc k) position h =
      let out : unscored t tokens skip position ≡ true = ground arith in
      rw (out, wanted) (wanted-none k (position + 1) (later h))
    where
      later :
          (position + suc k ≤ skip) ⊎ (length tokens ≤ position + 1)
          → (position + 1 + k ≤ skip) ⊎ (length tokens ≤ position + 1 + 1)
      later (inl e) = inl (omega arith)
      later (inr e) = inr (omega arith)

  pub length-wanted :
      (k position : ℕ)
      → position + k ≡ length tokens
      → length (wanted k position) ≡ length tokens - 1 - max position skip
  unfolding wanted unscored
  length-wanted zero position h = ground arith
  length-wanted (suc k) position h = ground (arith, length-wanted k (position + 1))

  wanted-whole :
      (prefix last : ℕ)
      → prefix ≤ skip
      → prefix ≤ last
      → last ≡ length tokens
      → wanted (last - prefix) prefix ≡ wanted (length tokens) 0
  wanted-whole prefix last low le e =
      let size : prefix + (last - prefix) ≡ length tokens = omega arith in
      let z : 0 + prefix ≡ prefix = omega arith in
      ap (λ p. wanted (last - prefix) p) (sym z)
      ∙ ap (λ l. l ++ wanted (last - prefix) (0 + prefix))
          (sym (wanted-none prefix 0 (inl (omega arith))))
      ∙ sym (wanted-add prefix (last - prefix) 0)
      ∙ ap (λ k. wanted k 0) size

  -- Neither the prefix nor the last position adds a score.
  pub wanted-middle :
      (prefix last : ℕ)
      → prefix ≤ skip
      → prefix ≤ last
      → (last ≡ length tokens) ⊎ (last + 1 ≡ length tokens)
      → wanted (last - prefix) prefix ≡ wanted (length tokens) 0
  wanted-middle prefix last low le (inl e) = wanted-whole prefix last low le e
  wanted-middle prefix last low le (inr e) =
      let size : last - prefix + 1 ≡ length tokens - prefix = omega arith in
      sym (append-nil (wanted (last - prefix) prefix))
      ∙ ap (λ l. wanted (last - prefix) prefix ++ l)
          (sym (wanted-none 1 (prefix + (last - prefix)) (inr (omega arith))))
      ∙ sym (wanted-add (last - prefix) 1 prefix)
      ∙ ap (λ k. wanted k prefix) size
      ∙ wanted-whole prefix (length tokens) low (omega arith) refl
