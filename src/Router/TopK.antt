-- ===== src/Router/TopK.antt =====
-- moe/router_hook.cpp, rank_top_k(): that the selection is the k best.
use franken_mo_e_cuda.Prelude.{
  ℕ, zero, suc, ◌+◌, ◌≤◌, ◌<◌, ◌≡◌, ◌≢◌, subst, min, true, false, Option, none, some, List, [], ◌∷◌,
  ◌++◌, All, All-append, arith, ◌==◌, if◌then◌else◌, length, length-append, Bool-cases,
  Option-cases, inl, inr, ==_iff,
}
use franken_mo_e_cuda.Lru.Segment.{Distinct}
use franken_mo_e_cuda.Expert.Sequence.{has, has-append}
use franken_mo_e_cuda.Config.Float.{Float32, ltb_f, is_nan}
use franken_mo_e_cuda.Router.Rank.{better, scan, picks, rank_top_k}

-- Without a member.
erase : ℕ → List ℕ → List ℕ
erase e [] = []
erase e (x ∷ xs) = if e == x then xs else x ∷ erase e xs

length-erase : (e : ℕ) (xs : List ℕ) → has e xs ≡ true → length xs ≡ suc (length (erase e xs))
unfolding has erase
length-erase e [] h = absurd (cc)
length-erase e (x ∷ xs) h = ground (arith, h, length-erase e xs)

has-erase : (d e : ℕ) (xs : List ℕ) → d ≢ e → has d xs ≡ true → has d (erase e xs) ≡ true
unfolding has erase
has-erase d e [] n h = h
has-erase d e (x ∷ xs) n h = ground (arith, n, h, has-erase d e xs n)

-- A list that has every number below a bound is as long.
covering-length : (n : ℕ) (xs : List ℕ) → ((e : ℕ) → e < n → has e xs ≡ true) → n ≤ length xs
covering-length zero xs h = omega arith
covering-length (suc n) xs h =
    let rest =
      covering-length n (erase n xs)
        (λ e lt. has-erase e n xs (λ q. omega (arith, q, lt)) (h e (omega (arith, lt)))) in
    omega (arith, rest, length-erase n xs (h n (omega arith)))

Distinct-snoc : (b : ℕ) (xs : List ℕ) → Distinct xs → has b xs ≡ false → Distinct (xs ++ b ∷ [])
unfolding has
Distinct-snoc b [] d h = (tt, tt)
Distinct-snoc b (x ∷ xs) d h =
    let ne : b ≢ x = λ e. absurd (ground (arith, h, e)) in
    (All-append _ xs (b ∷ []) d.0 (ne, tt), Distinct-snoc b xs d.1 (ground (arith, h)))

pub not_self : (x : Float32) → ltb_f x x ≡ false
unfolding ltb_f
not_self x = ground arith

pub ltb_f_trans :
    (x y z : Float32)
    → is_nan y ≡ false
    → is_nan z ≡ false
    → ltb_f x y ≡ true
    → ltb_f x z ≡ false
    → ltb_f y z ≡ false
unfolding ltb_f
ltb_f_trans x y z ny nz h k = ground (arith, ny, nz, h, k)

module _ (scores : ℕ → Float32) where
  -- No member of `out`, all below `e`; the best of those so far: none beats it.
  record Best (out : List ℕ) (e best : ℕ) : Type 0 where
    below : best < e
    free : has best out ≡ false
    beats :
        ((d : ℕ) → d < e → is_nan (scores d) ≡ false)
        → (d : ℕ) → d < e
        → has d out ≡ false
        → ltb_f (scores best) (scores d) ≡ false

  Scanned : List ℕ → ℕ → Option ℕ → Type 0
  Scanned out e none = (d : ℕ) → d < e → has d out ≡ true
  Scanned out e (some best) = Best out e best

  better-Scanned :
      (out : List ℕ) (e : ℕ) (best : Option ℕ)
      → Scanned out e best
      → Scanned out (suc e) (better scores out e best)
  unfolding better Scanned
  better-Scanned out e none h = elim (Bool-cases (has e out)) [
    | inl k ↦
        rw (k, better)
          (λ d lt. elim (Bool-cases (d == e)) [
            | inl q ↦ rw ((==_iff d e).0 q) k
            | inr q ↦ h d (ground (arith, lt, q))
          ])
    | inr k ↦
        rw (k, better)
          (record {
            below = omega arith;
            free = k;
            beats = λ nn d lt f. elim (Bool-cases (d == e)) [
              | inl q ↦ rw ((==_iff d e).0 q) (not_self (scores e))
              | inr q ↦ let t : has d out ≡ true = h d (ground (arith, lt, q)) in absurd (cc)
            ];
          })
  ]
  better-Scanned out e (some b) h = elim (Bool-cases (has e out)) [
    | inl k ↦
        rw (k, better)
          (record {
            below = omega (arith, h.below);
            free = h.free;
            beats = λ nn d lt f. elim (Bool-cases (d == e)) [
              | inl q ↦ let t : has d out ≡ true = rw ((==_iff d e).0 q) k in absurd (cc)
              | inr q ↦ h.beats (λ c m. nn c (omega (arith, m))) d (ground (arith, lt, q)) f
            ];
          })
    | inr k ↦ elim (Bool-cases (ltb_f (scores b) (scores e))) [
      | inl up ↦
          rw (k, up, better)
            (record {
              below = omega arith;
              free = k;
              beats = λ nn d lt f. elim (Bool-cases (d == e)) [
                | inl q ↦ rw ((==_iff d e).0 q) (not_self (scores e))
                | inr q ↦
                    ltb_f_trans (scores b) (scores e) (scores d) (nn e (omega arith)) (nn d lt) up
                      (h.beats (λ c m. nn c (omega (arith, m))) d (ground (arith, lt, q)) f)
              ];
            })
      | inr down ↦
          rw (k, down, better)
            (record {
              below = omega (arith, h.below);
              free = h.free;
              beats = λ nn d lt f. elim (Bool-cases (d == e)) [
                | inl q ↦ rw ((==_iff d e).0 q) down
                | inr q ↦ h.beats (λ c m. nn c (omega (arith, m))) d (ground (arith, lt, q)) f
              ];
            })
    ]
  ]

  scan-Scanned :
      (out : List ℕ) (k e n : ℕ) (best : Option ℕ)
      → e + k ≡ n
      → Scanned out e best
      → Scanned out n (scan scores out k e best)
  unfolding scan
  scan-Scanned out zero e n best q h = let same : e ≡ n = omega (arith, q) in rw (← same) h
  scan-Scanned out (suc k) e n best q h =
      scan-Scanned out k (suc e) n (better scores out e best) (omega (arith, q))
        (better-Scanned out e best h)

  -- Best first: none is beaten by one behind it.
  abbrev pub Descending : List ℕ → Type 0
  Descending [] = Unit
  Descending (x ∷ xs) = All (λ y. ltb_f (scores x) (scores y) ≡ false) xs × Descending xs

  Descending-snoc :
      (xs : List ℕ) (b : ℕ)
      → Descending xs
      → All (λ x. ltb_f (scores x) (scores b) ≡ false) xs
      → Descending (xs ++ b ∷ [])
  Descending-snoc [] b d a = (tt, tt)
  Descending-snoc (x ∷ xs) b d a =
      (All-append _ xs (b ∷ []) d.0 (a.0, tt), Descending-snoc xs b d.1 a.1)

  -- Distinct experts, below `n`; and where no score is a not-a-number, in descending order, with
  -- none left out that beats one of them.
  pub record Ranking (n : ℕ) (out : List ℕ) : Type 0 where
    pub distinct : Distinct out
    pub range : All (λ e. e < n) out
    pub order : ((d : ℕ) → d < n → is_nan (scores d) ≡ false) → Descending out
    pub best :
        ((d : ℕ) → d < n → is_nan (scores d) ≡ false)
        → (e : ℕ) → e < n
        → has e out ≡ false
        → All (λ b. ltb_f (scores b) (scores e) ≡ false) out

  Ranking-snoc :
      (n : ℕ) (out : List ℕ) (b : ℕ) → Ranking n out → Best out n b → Ranking n (out ++ b ∷ [])
  unfolding has
  Ranking-snoc n out b r t = record {
    distinct = Distinct-snoc b out r.distinct t.free;
    range = All-append _ out (b ∷ []) r.range (t.below, tt);
    order = λ nn. Descending-snoc out b (r.order nn) (r.best nn b t.below t.free);
    best = λ nn e lt f.
        let gone : has e out ≡ false = ground (arith, f, has-append e out (b ∷ [])) in
        All-append _ out (b ∷ []) (r.best nn e lt gone) (t.beats nn e lt gone, tt);
  }

  picks-Ranking :
      (n i : ℕ) (out : List ℕ)
      → length out + i ≤ n
      → Ranking n out
      → Ranking n (picks scores n i out) × (length (picks scores n i out) ≡ length out + i)
  unfolding picks Scanned
  picks-Ranking n zero out le r = (r, omega arith)
  picks-Ranking n (suc i) out le r =
      let s = scan-Scanned out n 0 n none (omega arith) (λ d lt. absurd (omega (arith, lt))) in
      elim (Option-cases (scan scores out n 0 none)) [
        | inl e ↦
            let full = covering-length n out (subst (Scanned out n) e s) in
            absurd (omega (arith, full, le))
        | inr (b, e) ↦
            let t : Best out n b = subst (Scanned out n) e s in
            let longer = length-append out (b ∷ []) in
            let rest =
              picks-Ranking n i (out ++ b ∷ []) (omega (arith, longer, le))
                (Ranking-snoc n out b r t) in
            rw (e, picks) (rest.0, omega (arith, rest.1, longer))
      ]

-- The ranking of n scores has min k n experts, all different and below n. Where no score is a
-- not-a-number, each expert has a score that no later one's exceeds, and no expert that was left out has a
-- score above one of theirs.
pub rank_top_k-Ranking :
    (scores : ℕ → Float32) (n k : ℕ)
    → Ranking scores n (rank_top_k scores n k) × (length (rank_top_k scores n k) ≡ min k n)
unfolding rank_top_k
rank_top_k-Ranking scores n k =
    let start : Ranking scores n [] = record {
      distinct = tt;
      range = tt;
      order = λ nn. tt;
      best = λ nn e lt f. tt;
    } in
    let r = picks-Ranking scores n (min k n) [] (omega arith) start in (r.0, omega (arith, r.1))
