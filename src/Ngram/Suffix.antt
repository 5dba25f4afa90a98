-- ===== src/Ngram/Suffix.antt =====
-- engine/ngram_draft.cpp: the inner loop, and common suffixes of two prefixes of the corpus.
use franken_mo_e_cuda.Prelude.{
  ℕ, zero, suc, ◌+◌, ◌-◌, ◌<◌, ◌≤◌, ◌≡◌, ◌≢◌, List, arith, length, Bool-cases, inl, inr, subst,
}
use native.Mathlib.Decide.{dec_lt}
use native.Mathlib.Numerals.{unary_clauses}
use franken_mo_e_cuda.Prelude.Int.{ℤ, ◌==ℤ◌, ==ℤ→eq, eq→==ℤ}
use franken_mo_e_cuda.Ngram.{at, grow}

module _ (ctx : List ℤ) (last : ℤ) where
  -- The `m` tokens that end at `j` are those that end the corpus.
  abbrev pub Agrees : ℕ → ℕ → Type 0
  Agrees j m = (i : ℕ) → i < m → at ctx last (j - i) ≡ at ctx last (length ctx - i)

  pub record Grown (k j m r : ℕ) : Type 0 where
    pub lower : m ≤ r
    pub upper : r ≤ m + k
    pub same : (i : ℕ) → m ≤ i → i < r → at ctx last (j - i) ≡ at ctx last (length ctx - i)
    pub longest : r < m + k → at ctx last (j - r) ≢ at ctx last (length ctx - r)

  pub grow-Grown : (k j m : ℕ) → Grown k j m (grow ctx last k j m)
  unfolding grow
  grow-Grown zero j m = record {
    lower = omega arith;
    upper = omega arith;
    same = λ i lo hi. absurd (omega arith);
    longest = λ h. absurd (omega arith);
  }
  grow-Grown (suc k) j m =
      elim (Bool-cases (at ctx last (j - m) ==ℤ at ctx last (length ctx - m))) [
        | inl e ↦
            let r = grow-Grown k j (m + 1) in
            rw (e, grow)
              (record {
                lower = omega (arith, r.lower);
                upper = omega (arith, r.upper);
                same = λ i lo hi. elim (dec_lt m i) [
                  | yes p ↦ r.same i (omega arith) hi
                  | no p ↦
                      let here : m ≡ i = omega arith in
                      subst (λ i. at ctx last (j - i) ≡ at ctx last (length ctx - i)) here
                        (==ℤ→eq _ _ e)
                ];
                longest = λ h. r.longest (omega arith);
              })
        | inr e ↦
            rw (e, grow)
              (record {
                lower = omega arith;
                upper = omega arith;
                same = λ i lo hi. absurd (omega arith);
                longest = λ h q. absurd (cc (eq→==ℤ _ _ q));
              })
      ]

  -- Started at 1 behind a first token that agrees, it finds the longest agreement within the limit.
  pub grow-longest :
      (lim j n : ℕ)
      → 0 < lim
      → at ctx last j ≡ at ctx last (length ctx)
      → let r = grow ctx last (lim - 1) j 1 in
        Agrees j r × (0 < r) × (r ≤ lim) × (n ≤ lim → Agrees j n → n ≤ r)
  grow-longest lim j n pos e =
      let g = grow-Grown (lim - 1) j 1 in
      (
        λ i lt. elim (dec_lt 0 i) [
          | yes p ↦ g.same i (omega arith) lt
          | no p ↦
              let here : 0 ≡ i = omega arith in
              subst (λ i. at ctx last (j - i) ≡ at ctx last (length ctx - i)) here
                (simp unary_clauses e)
        ],
        omega (arith, g.lower),
        omega (arith, g.upper),
        λ h a.
            let r = grow ctx last (lim - 1) j 1 in
            elim (dec_lt r n) [
              | yes p ↦ absurd (g.longest (omega arith) (a r p))
              | no p ↦ omega arith
            ],
      )
