-- ===== src/Ngram/Best.antt =====
-- engine/ngram_draft.cpp: the backward scan and the matches that it has seen.
use franken_mo_e_cuda.Prelude.{
  ℕ, zero, suc, ◌+◌, ◌-◌, ◌<◌, ◌≤◌, ◌≡◌, min, true, List, arith, length, Bool-cases, inl, inr,
  subst, ltb, leb,
}
use native.Mathlib.Decide.{dec_lt}
use native.Mathlib.Numerals.{unary_clauses}
use franken_mo_e_cuda.Prelude.Int.{ℤ, ◌==ℤ◌, ==ℤ→eq, eq→==ℤ}
use franken_mo_e_cuda.Ngram.{Match, at, consider, scan, grow}
use franken_mo_e_cuda.Ngram.Suffix.{Agrees, grow-longest}

module _ (ctx : List ℤ) (last : ℤ) where
  -- A candidate: a match of `m` tokens that ends at `j`, before the last token.
  pub record IsMatch (max_match j m : ℕ) : Type 0 where
    pub short : m ≤ max_match
    pub inside : m ≤ j + 1
    pub before : j < length ctx
    pub agrees : Agrees ctx last j m

  -- `best` is at least as long as a match at `j`, and no earlier than one as long.
  abbrev pub Beats : ℕ → Match → ℕ → ℕ → Type 0
  Beats max_match best j m = IsMatch max_match j m → (m ≤ best.m) × (m ≡ best.m → j ≤ best.j)

  -- What holds when every position from `j` on has been considered.
  pub record Seen (max_match j : ℕ) (best : Match) : Type 0 where
    pub found : 0 < best.m → IsMatch max_match best.j best.m
    pub latest : 0 < best.m → j ≤ best.j
    pub beats : (i m : ℕ) → j ≤ i → 0 < m → Beats max_match best i m

  -- A statement about every position from `j` on is one about `j` and one about those after it.
  seen_from :
      (max_match j : ℕ)
      → (best : Match) → ((i m : ℕ) → j + 1 ≤ i → 0 < m → Beats max_match best i m)
      → ((m : ℕ) → 0 < m → Beats max_match best j m)
      → (i m : ℕ) → j ≤ i
      → 0 < m
      → Beats max_match best i m
  seen_from max_match j best above here i m ji gt = elim (dec_lt j i) [
    | yes p ↦ above i m (omega arith) gt
    | no p ↦
        let same : j ≡ i = omega arith in subst (λ i. Beats max_match best i m) same (here m gt)
  ]

  -- The loop finds at least every match at its position.
  grow-Beats :
      (max_match j n : ℕ)
      → 0 < max_match
      → at ctx last j ≡ at ctx last (length ctx)
      → IsMatch max_match j n
      → n ≤ grow ctx last (min max_match (j + 1) - 1) j 1
  grow-Beats max_match j n hm e c =
      let lim = min max_match (j + 1) in
      let lim_pos : 0 < lim = ground arith in
      let fits : n ≤ lim = ground (arith, c.short, c.inside) in
      (grow-longest ctx last lim j n lim_pos e).3 fits c.agrees

  -- One round extends what has been seen by its position; a break comes with a match of full length.
  pub consider-Seen :
      (max_match j : ℕ)
      → (best : Match) → 0 < max_match
      → j < length ctx
      → Seen max_match (j + 1) best
      → let r = consider ctx last max_match j best in
        Seen max_match j r.0 × (r.1 ≡ true → r.0.m ≡ max_match)
  unfolding consider
  consider-Seen max_match j best hm hj s =
      elim (Bool-cases (at ctx last j ==ℤ at ctx last (length ctx))) [
        | inl e ↦
            let lim = min max_match (j + 1) in
            let m = grow ctx last (lim - 1) j 1 in
            let lim_pos : 0 < lim = ground arith in
            let eq = ==ℤ→eq _ _ e in
            let g = grow-longest ctx last lim j 0 lim_pos eq in
            let hi = g.2 in
            let found = λ (n : ℕ) (c : IsMatch max_match j n). grow-Beats max_match j n hm eq c in
            elim (Bool-cases (ltb best.m m)) [
              | inl b ↦
                  let longer : best.m < m = ground arith in
                  rw (e, b, consider)
                    (
                      record {
                        found = λ h. record {
                          short = ground arith;
                          inside = ground arith;
                          before = hj;
                          agrees = g.0;
                        };
                        latest = λ h. omega arith;
                        beats =
                            seen_from max_match j _
                              (λ i n ji gt c.
                                let old = s.beats i n ji gt c in
                                let shorter : n ≤ best.m = old.0 in
                                (omega arith, λ q. absurd (omega arith)))
                              (λ n gt c. (found n c, λ q. omega arith));
                      },
                      λ h. ground arith,
                    )
              | inr b ↦
                  let shorter : m ≤ best.m = ground arith in
                  rw (e, b, consider)
                    (
                      record {
                        found = s.found;
                        latest = λ h. omega (arith, s.latest h);
                        beats = seen_from max_match j best s.beats (λ n gt c.
                            (omega (arith, found n c), λ q. omega (arith, s.latest (omega arith))));
                      },
                      λ h. absurd (cc),
                    )
            ]
        | inr e ↦
            rw (e, consider)
              (
                record {
                  found = s.found;
                  latest = λ h. omega (arith, s.latest h);
                  beats = seen_from max_match j best s.beats (λ n gt c.
                      let now = c.agrees 0 gt in
                      absurd (cc (eq→==ℤ _ _ (simp unary_clauses at now))));
                },
                λ h. absurd (cc),
              )
      ]

  -- What the whole scan returns, for matches long enough to be used.
  pub record Best (min_match max_match : ℕ) (best : Match) : Type 0 where
    pub found : 0 < best.m → IsMatch max_match best.j best.m
    pub beats : (i m : ℕ) → min_match ≤ m → Beats max_match best i m

  full-beats :
      (min_match max_match j : ℕ)
      → (best : Match) → 0 < min_match
      → best.m ≡ max_match
      → 0 < max_match
      → Seen max_match j best
      → Best min_match max_match best
  full-beats min_match max_match j best hmin full hm s = record {
    found = s.found;
    beats = λ i n long c. elim (dec_lt i j) [
      | yes p ↦ (omega (arith, c.short), λ q. omega (arith, s.latest (omega arith)))
      | no p ↦ s.beats i n (omega arith) (omega arith) c
    ];
  }

  end-beats :
      (min_match max_match j : ℕ)
      → (best : Match) → 0 < min_match
      → j ≤ min_match - 1
      → Seen max_match j best
      → Best min_match max_match best
  end-beats min_match max_match j best hmin low s = record {
    found = s.found;
    beats = λ i n long c. elim (dec_lt i j) [
      | yes p ↦ absurd (omega (arith, c.inside))
      | no p ↦ s.beats i n (omega arith) (omega arith) c
    ];
  }

  -- The scan is complete for matches of at least `min_match`.
  pub scan-Best :
      (min_match max_match j : ℕ)
      → (best : Match) → 0 < min_match
      → 0 < max_match
      → j < length ctx
      → Seen max_match (j + 1) best
      → Best min_match max_match (scan ctx last max_match (min_match - 1) j best)
  unfolding scan
  scan-Best min_match max_match zero best hmin hm hj s =
      let r = consider-Seen max_match zero best hm hj s in
      end-beats min_match max_match zero _ hmin (omega arith) r.0
  scan-Best min_match max_match (suc j) best hmin hm hj s =
      let r = consider-Seen max_match (suc j) best hm hj s in
      elim (Bool-cases ((consider ctx last max_match (suc j) best).1)) [
        | inl b ↦ rw (b, scan) (full-beats min_match max_match (suc j) _ hmin (r.1 b) hm r.0)
        | inr b ↦ elim (Bool-cases (leb (suc j) (min_match - 1))) [
          | inl d ↦
              rw (b, d, scan) (end-beats min_match max_match (suc j) _ hmin (ground arith) r.0)
          | inr d ↦
              let next : Seen max_match (j + 1) (consider ctx last max_match (suc j) best).0 =
                subst (λ k. Seen max_match k (consider ctx last max_match (suc j) best).0)
                  (ground arith) r.0 in
              rw (b, d, scan) (scan-Best min_match max_match j _ hmin hm (omega arith) next)
        ]
      ]
