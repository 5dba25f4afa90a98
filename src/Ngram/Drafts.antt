-- ===== src/Ngram/Drafts.antt =====
-- engine/ngram_draft.cpp: what ngram_draft returns.
use franken_mo_e_cuda.Prelude.{
  ℕ, zero, suc, ◌+◌, ◌-◌, ◌<◌, ◌≤◌, ◌≡◌, min, false, List, [], some, arith, length, get_elem?,
  Bool-cases, inl, inr, ltb, ◌⊎◌, if◌then◌else◌, refl, ap, subst,
}
use native.Mathlib.Decide.{dec_lt}
use franken_mo_e_cuda.Prelude.Int.{ℤ, pos, pos_part, ltb_ℤ, leb_ℤ}
use franken_mo_e_cuda.Ngram.{Match, at, scan, copy, draft, ngram_draft}
use franken_mo_e_cuda.Ngram.Best.{IsMatch, Beats, scan-Best, Seen}

length-copy : (ctx : List ℤ) → (last : ℤ) → (n i : ℕ) → length (copy ctx last n i) ≡ n
unfolding copy
length-copy ctx last zero i = refl
length-copy ctx last (suc n) i = ground (arith, length-copy ctx last n (i + 1))

get-copy :
    (ctx : List ℤ)
    → (last : ℤ) → (n i k : ℕ) → k < n
    → get_elem? (copy ctx last n i) k ≡ some (at ctx last (i + k))
unfolding copy
get-copy ctx last zero i k h = absurd (omega arith)
get-copy ctx last (suc n) i zero h = ap (λ j. some (at ctx last j)) (ground arith)
get-copy ctx last (suc n) i (suc k) h =
    let shift : i + 1 + k ≡ i + suc k = omega arith in
    subst (λ j. get_elem? (copy ctx last n (i + 1)) k ≡ some (at ctx last j)) shift
      (get-copy ctx last n (i + 1) k (omega arith))

module _ (ctx : List ℤ) (last : ℤ) where
  -- A draft: it continues the match `best`, the longest of the corpus and of those the most recent.
  pub record IsDraft (n_max min_match max_match : ℕ) (r : ℕ × List ℤ) : Type 0 where
    pub best : Match
    pub confident : min_match ≤ best.m
    pub is_match : IsMatch ctx last max_match best.j best.m
    pub beats : (i m : ℕ) → min_match ≤ m → Beats ctx last max_match best i m
    pub some_tokens : 0 < r.0
    pub count : r.0 ≡ min n_max (length ctx - best.j)
    pub size : length r.1 ≡ r.0
    pub tokens : (k : ℕ) → k < r.0 → get_elem? r.1 k ≡ some (at ctx last (best.j + 1 + k))

  -- Nothing is returned, and no match is long enough.
  pub record IsDeclined (min_match max_match : ℕ) (r : ℕ × List ℤ) : Type 0 where
    pub nothing : r ≡ (0, [])
    pub unmatched : (i m : ℕ) → IsMatch ctx last max_match i m → m < min_match

  nothing_before :
      (max_match : ℕ)
      → 0 < length ctx
      → Seen ctx last max_match (length ctx - 1 + 1) (record { m = 0; j = 0 })
  nothing_before max_match h = record {
    found = λ q. absurd (omega arith);
    latest = λ q. absurd (omega arith);
    beats = λ i m ji h c. absurd (omega (arith, c.before));
  }

  draft-cases :
      (n_max min_match max_match : ℕ)
      → 0 < n_max
      → 0 < min_match
      → min_match ≤ max_match
      → IsDraft n_max min_match max_match (draft ctx last n_max min_match max_match)
        ⊎ IsDeclined min_match max_match (draft ctx last n_max min_match max_match)
  unfolding draft
  draft-cases n_max min_match max_match hn hmin hmax =
      let best =
        scan ctx last max_match (min_match - 1) (length ctx - 1) (record { m = 0; j = 0 }) in
      elim (Bool-cases (ltb (length ctx + 1) (min_match + 1))) [
        | inl e ↦
            rw (e, draft)
              (inr (record {
                nothing = refl;
                unmatched = λ i m c. ground (arith, c.before, c.inside);
              }))
        | inr e ↦
            let long : 0 < length ctx = ground arith in
            let b =
              scan-Best ctx last min_match max_match (length ctx - 1) _ hmin (omega arith)
                (omega arith) (nothing_before max_match long) in
            elim (Bool-cases (ltb best.m min_match)) [
              | inl d ↦
                  rw (e, d, draft)
                    (inr (record {
                      nothing = refl;
                      unmatched = λ i m c. elim (dec_lt m min_match) [
                        | yes p ↦ p
                        | no p ↦ ground (arith, (b.beats i m (omega arith) c).0)
                      ];
                    }))
              | inr d ↦
                  let enough : min_match ≤ best.m = ground arith in
                  let c = b.found (omega arith) in
                  rw (e, d, draft)
                    (inl (record {
                      best = best;
                      confident = enough;
                      is_match = c;
                      beats = b.beats;
                      some_tokens = ground (arith, c.before);
                      count = refl;
                      size = length-copy ctx last _ _;
                      tokens = λ k h. get-copy ctx last _ _ k h;
                    }))
            ]
      ]

  draft_bounds :
      (n_max min_match max_match : ℕ)
      → let r = draft ctx last n_max min_match max_match in
        (length r.1 ≡ r.0) × (r.0 ≤ n_max) × (r.0 ≤ length ctx)
  unfolding draft
  draft_bounds n_max min_match max_match =
      let best =
        scan ctx last max_match (min_match - 1) (length ctx - 1) (record { m = 0; j = 0 }) in
      elim (Bool-cases (ltb (length ctx + 1) (min_match + 1))) [
        | inl e ↦ rw (e, draft) (refl, ground arith, ground arith)
        | inr e ↦ elim (Bool-cases (ltb best.m min_match)) [
          | inl d ↦ rw (e, d, draft) (refl, ground arith, ground arith)
          | inr d ↦ rw (e, d, draft) (length-copy ctx last _ _, ground arith, ground arith)
        ]
      ]

  -- For positive arguments in order, ngram_draft either returns nothing, and no suffix of the corpus
  -- of at least `min_match` and at most `max_match` tokens occurs before; or it returns at least one
  -- token, all of those, up to `n_max`, that follow an earlier occurrence of such a suffix, which is
  -- the longest there is and of equally long ones the most recent.
  pub ngram_draft-cases :
      (n_max min_match max_match : ℕ)
      → 0 < n_max
      → 0 < min_match
      → min_match ≤ max_match
      → let r = ngram_draft ctx last (pos n_max) (pos min_match) (pos max_match) in
        IsDraft n_max min_match max_match r ⊎ IsDeclined min_match max_match r
  unfolding ngram_draft
  ngram_draft-cases n_max min_match max_match hn hmin hmax =
      let asked : leb_ℤ (pos n_max) (pos 0) ≡ false = ground arith in
      let floor : ltb_ℤ (pos min_match) (pos 1) ≡ false = ground arith in
      let room : ltb_ℤ (pos max_match) (pos min_match) ≡ false = ground arith in
      rw (asked, floor, ngram_draft) (rw room (draft-cases n_max min_match max_match hn hmin hmax))

  -- Whatever its arguments, ngram_draft returns as many tokens as it says, at most `n_max` and at
  -- most the length of the context.
  pub ngram_draft_bounds :
      (n_max min_match max_match : ℤ)
      → let r = ngram_draft ctx last n_max min_match max_match in
        (length r.1 ≡ r.0) × (r.0 ≤ pos_part n_max) × (r.0 ≤ length ctx)
  unfolding ngram_draft
  ngram_draft_bounds n_max min_match max_match =
      let floor = if ltb_ℤ min_match (pos 1) then pos 1 else min_match in
      elim (Bool-cases (leb_ℤ n_max (pos 0))) [
        | inl e ↦ rw (e, ngram_draft) (refl, ground arith, ground arith)
        | inr e ↦ elim (Bool-cases (ltb_ℤ max_match floor)) [
          | inl d ↦ rw (e, d, ngram_draft) (refl, ground arith, ground arith)
          | inr d ↦
              rw (e, d, ngram_draft)
                (draft_bounds (pos_part n_max) (pos_part floor) (pos_part max_match))
        ]
      ]
