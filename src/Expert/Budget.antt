-- ===== src/Expert/Budget.antt =====
-- moe/expert_stream_source.cpp, set_cache_budget(): the cache after a resize.
use franken_mo_e_cuda.Prelude.{
  ℕ, ◌≤◌, ◌<◌, ◌≡◌, ◌≢◌, max, false, List, [], ◌∷◌, arith, Bool-cases, inl, inr, ltb, ◌==◌, ◌∙◌,
}
use franken_mo_e_cuda.Expert.Sequence.{total}
use franken_mo_e_cuda.Lru.Segment.{last_or-some}
use franken_mo_e_cuda.Expert.Layout.{Layout}
use franken_mo_e_cuda.Expert.State.{Cache}
use franken_mo_e_cuda.Expert.Invariant.{IsValid, InvOf}
use franken_mo_e_cuda.Expert.Entries.{over_budget}
use franken_mo_e_cuda.Expert.Evict.{evict_all-Evicted}
use franken_mo_e_cuda.Expert.Spec.{quiesce_spec}
use franken_mo_e_cuda.Expert.Settle.{InRange, quiesce_spec-Settled}
use franken_mo_e_cuda.Expert.Load.{Source, shrink, set_cache_budget}

stopped_fits :
    (c : Layout) (s : Cache) (xs : List ℕ)
    → InvOf c s xs
    → over_budget s ≡ false
    → s.resident ≤ s.cache_max
unfolding over_budget total
stopped_fits c s [] v h = omega (arith, v.bytes)
stopped_fits c s (x ∷ xs) v h =
    let (id, e) = last_or-some x xs in let at = v.holds.final ∙ e in ground arith

shrink_fits :
    (c : Layout) (bytes : ℕ) (s : Cache)
    → IsValid c s
    → IsValid c (shrink c bytes s)
      × ((shrink c bytes s).resident ≤ (shrink c bytes s).cache_max)
      × ((shrink c bytes s).cache_max ≡ max 1 bytes)
unfolding shrink
shrink_fits c bytes s v =
    let smaller : IsValid c (record s { cache_max = max 1 bytes }) = record {
      order = v.order;
      inv = v.inv;
    } in
    let r = evict_all-Evicted c (record s { cache_max = max 1 bytes }) v.order smaller.inv in
    (record { order = r.kept; inv = r.inv }, stopped_fits c _ r.kept r.inv r.stopped, r.same_max)

module _ (c : Layout) (x : Source) (v : IsValid c x.cache) (r : InRange c x.spec.done) where
  -- What a resize makes of the cache.
  pub record Resized (bytes total_bytes : ℕ) (y : Source) : Type 0 where
    pub is_valid : IsValid c y.cache
    pub stays_on : x.cache.cache_max ≢ 0 → y.cache.cache_max ≢ 0
    pub stays_off : x.cache.cache_max ≡ 0 → y.cache.cache_max ≡ 0
    pub budget : x.cache.cache_max ≢ 0 → y.cache.cache_max ≤ max 1 bytes
    pub fits : y.cache.resident ≤ y.cache.cache_max

  -- set_cache_budget keeps the cache well formed and leaves it within its budget, which is at most the
  -- one asked for and never turns a cache that is on off, nor one that is off on. The hypotheses are a
  -- well-formed cache within its budget and within the size of all experts, which is not 0, and
  -- completed speculation that names entries.
  pub set_cache_budget-Resized :
      (bytes total_bytes : ℕ)
      → 0 < total_bytes
      → x.cache.resident ≤ total_bytes
      → x.cache.resident ≤ x.cache.cache_max
      → Resized bytes total_bytes (set_cache_budget c total_bytes bytes x)
  unfolding set_cache_budget
  set_cache_budget-Resized bytes total_bytes some_bytes all_fit fit =
      let q = quiesce_spec-Settled c x.cache x.spec r v in
      let t = shrink_fits c bytes (quiesce_spec c x.cache x.spec).0 q.is_valid in
      elim (Bool-cases (x.cache.cache_max == 0)) [
        | inl e ↦ simp e (record {
          is_valid = v;
          stays_on = λ h. h;
          stays_off = λ h. h;
          budget = λ h. absurd (ground arith);
          fits = fit;
        })
        | inr e ↦ elim (Bool-cases (ltb x.cache.cache_max bytes)) [
          | inl b ↦
              simp (e, b)
                (record {
                  is_valid = record { order = v.order; inv = v.inv };
                  stays_on = λ h. ground arith;
                  stays_off = λ h. absurd (ground arith);
                  budget = λ h. ground arith;
                  fits = ground arith;
                })
          | inr b ↦ elim (Bool-cases (bytes == x.cache.cache_max)) [
            | inl d ↦
                simp (e, b, d)
                  (record {
                    is_valid = v;
                    stays_on = λ h. h;
                    stays_off = λ h. h;
                    budget = λ h. ground arith;
                    fits = fit;
                  })
            | inr d ↦
                simp (e, b, d)
                  (record {
                    is_valid = t.0;
                    stays_on = λ h. ground (arith, t.2);
                    stays_off = λ h. absurd (ground arith);
                    budget = λ h. ground (arith, t.2);
                    fits = t.1;
                  })
          ]
        ]
      ]
