-- ===== src/Config/Accepted.antt =====
-- config.cpp, validate(): accepted configurations.
pub mod Inert
pub mod Drafting
use franken_mo_e_cuda.Prelude.{
  ℕ, zero, suc, Bool, true, false, ◌&&◌, ◌||◌, not, Option, none, some, List, [], ◌∷◌, ◌++◌, ◌≡◌,
  ◌≢◌, if◌then◌else◌, All, arith, Bool-cases, inl, inr, refl, ◌⊎◌,
}
use franken_mo_e_cuda.Prelude.Int.{
  ℤ, pos, ltb_ℤ, leb_ℤ, ◌==ℤ◌, ◌+ℤ◌, ◌≤ℤ◌, eq→==ℤ, +ℤ_parts, eq_of_parts,
}
use franken_mo_e_cuda.Config.Float.{Float32, zero_f, one_f, ltb_f, leb_f, is_nan}
use franken_mo_e_cuda.Config.{
  RunConfig, SamplingConfig, SpecConfig, MoeStreamConfig, spec_enabled, is_mtp, is_ngram,
  cache_min_mb,
}
use franken_mo_e_cuda.Config.Checks.{
  Check, first_failure, validate, checks, size_checks, workload_checks, sampling_checks,
  spec_checks, feature_checks, stream_checks, cache_checks, predict_checks, policy_checks,
  has_workload, cache_on, negative, positive, is_empty,
}

excludes : (a b : Bool) → (a && b) ≡ false → a ≡ true → b ≡ false
excludes true b h e = h
excludes false b h e = absurd (cc)

implies : (a b : Bool) → (a && not b) ≡ false → a ≡ true → b ≡ true
implies true true h e = refl
implies true false h e = absurd (cc)
implies false b h e = absurd (cc)

abbrev Passes : Check → Type 0
Passes c = c.fails ≡ false

first_failure-none : (cs : List Check) → first_failure cs ≡ none → All Passes cs
unfolding first_failure
first_failure-none [] h = tt
first_failure-none (c ∷ cs) h = elim (Bool-cases c.fails) [
  | inl e ↦ absurd (cc (rw e at h))
  | inr e ↦ (e, first_failure-none cs (rw e at h))
]

All-parts : (xs ys : List Check) → All Passes (xs ++ ys) → All Passes xs × All Passes ys
All-parts [] ys h = (tt, h)
All-parts (x ∷ xs) ys h = let r = All-parts xs ys h.1 in ((h.0, r.0), r.1)

-- Whether the check at a place fails; past the end none does.
abbrev fails_at : List Check → ℕ → Bool
fails_at [] i = false
fails_at (c ∷ cs) zero = c.fails
fails_at (c ∷ cs) (suc i) = fails_at cs i

abbrev AllPass : List Check → Type 0
AllPass cs = (i : ℕ) → fails_at cs i ≡ false

pass_at : (cs : List Check) → All Passes cs → AllPass cs
pass_at [] h i = refl
pass_at (c ∷ cs) h zero = h.0
pass_at (c ∷ cs) h (suc i) = pass_at cs h.1 i

-- The checks of an accepted configuration, by group.
record Groups (cfg : RunConfig) : Type 0 where
  size : AllPass (size_checks cfg)
  workload : AllPass (workload_checks cfg)
  sampling : AllPass (sampling_checks cfg)
  spec : AllPass (spec_checks cfg)
  feature : AllPass (feature_checks cfg)
  stream : cfg.moe.enabled ≡ true → AllPass (stream_checks cfg)

accepted-Groups : (cfg : RunConfig) → validate cfg ≡ none → Groups cfg
unfolding validate checks
accepted-Groups cfg h =
    let on : List Check = if cfg.moe.enabled then stream_checks cfg else [] in
    let late = feature_checks cfg ++ on in
    let middle = sampling_checks cfg ++ spec_checks cfg ++ late in
    let a =
      All-parts (size_checks cfg) (workload_checks cfg ++ middle)
        (first_failure-none (checks cfg) h) in
    let b = All-parts (workload_checks cfg) middle a.1 in
    let c = All-parts (sampling_checks cfg) (spec_checks cfg ++ late) b.1 in
    let d = All-parts (spec_checks cfg) late c.1 in
    let e = All-parts (feature_checks cfg) on d.1 in
    record {
      size = pass_at (size_checks cfg) a.0;
      workload = pass_at (workload_checks cfg) b.0;
      sampling = pass_at (sampling_checks cfg) c.0;
      spec = pass_at (spec_checks cfg) d.0;
      feature = pass_at (feature_checks cfg) e.0;
      stream = λ on.
          let rest : All Passes (if cfg.moe.enabled then stream_checks cfg else []) = e.1 in
          pass_at (stream_checks cfg) (rw on at rest);
    }

-- What the sizes of an accepted configuration are.
pub record Sizes (cfg : RunConfig) : Type 0 where
  pub path : is_empty cfg.model_path ≡ false
  pub n_predict : pos 1 ≤ℤ cfg.n_predict
  pub n_threads : pos 1 ≤ℤ cfg.n_threads
  pub n_ctx : pos 1 ≤ℤ cfg.n_ctx
  pub n_ubatch : (pos 0 ≤ℤ cfg.n_ubatch) × (cfg.n_ubatch ≤ℤ cfg.n_ctx)
  pub n_expert_used : pos 0 ≤ℤ cfg.n_expert_used
  pub caches : (pos 0 ≤ℤ cfg.vram_cache_mb) × (pos 0 ≤ℤ cfg.expert_hot_slots)
  pub gpu :
      ((pos 1 ≤ℤ cfg.vram_cache_mb) ⊎ (pos 1 ≤ℤ cfg.expert_hot_slots)) → cfg.n_gpu_layers ≢ pos 0
  pub workload :
      has_workload cfg ≡ true → (cfg.moe.enabled ≡ true) × (spec_enabled cfg.spec ≡ false)

-- An accepted configuration names a model, has positive lengths and counts, a graph no wider than the
-- context, a VRAM cache only with layers on the GPU, and a recorded workload only while streaming
-- and without speculation.
pub validate-Sizes : (cfg : RunConfig) → validate cfg ≡ none → Sizes cfg
validate-Sizes cfg h =
    let g = accepted-Groups cfg h in
    record {
      path = g.size 0;
      n_predict = ground (arith, g.size 1);
      n_threads = ground (arith, g.size 2);
      n_ctx = ground (arith, g.size 3);
      n_ubatch = (ground (arith, g.size 4), ground (arith, g.size 5));
      n_expert_used = ground (arith, g.size 6);
      caches = (ground (arith, g.workload 3), ground (arith, g.workload 4));
      gpu = λ used none_on.
          let none_b = eq→==ℤ _ _ none_on in
          elim used [
            | inl p ↦ absurd (ground (arith, g.workload 5, none_b))
            | inr p ↦ absurd (ground (arith, g.workload 5, none_b))
          ];
      workload = λ used. (implies _ _ (g.workload 1) used, excludes _ _ (g.workload 2) used);
    }

-- What speculation of an accepted configuration is.
pub record Speculates (cfg : RunConfig) : Type 0 where
  pub greedy : ltb_f zero_f cfg.sampling.temp ≡ false
  pub draft_max : (pos 1 ≤ℤ cfg.spec.draft_max) × (cfg.spec.draft_max ≤ℤ pos 8)
  pub wide : pos 1 ≤ℤ cfg.n_ubatch → cfg.spec.draft_max +ℤ pos 1 ≤ℤ cfg.n_ubatch
  pub uncommitted : cfg.moe.enabled ≡ true → cfg.moe.route_ahead ≤ℤ pos 0
  pub ngram_match :
      is_ngram cfg.spec ≡ true
      → (pos 1 ≤ℤ cfg.spec.ngram_min_match)
        × (cfg.spec.ngram_min_match ≤ℤ cfg.spec.ngram_max_match)
        × (cfg.spec.ngram_max_match ≤ℤ pos 64)

-- An accepted configuration that speculates decodes greedily, drafts 1 to 8 tokens, computes the
-- verify batch in one graph, does not route ahead, and for the n-gram source has its match lengths
-- in order within 1 to 64.
pub validate-Speculates :
    (cfg : RunConfig) → validate cfg ≡ none → spec_enabled cfg.spec ≡ true → Speculates cfg
validate-Speculates cfg h on =
    let g = accepted-Groups cfg h in
    let range = excludes _ _ (g.spec 1) on in
    record {
      greedy = excludes _ _ (g.spec 0) on;
      draft_max = (ground (arith, range), ground (arith, range));
      wide = λ p. ground (arith, +ℤ_parts cfg.spec.draft_max (pos 1), g.spec 6, on);
      uncommitted = λ moe. ground (arith, g.stream moe 15, on);
      ngram_match = λ n.
          let hi = excludes _ _ (g.spec 4) n in
          let lo = excludes _ _ (g.spec 5) n in
          (ground (arith, lo), ground (arith, lo), ground (arith, hi));
    }

-- What streaming with an accepted configuration is.
pub record Streams (m : MoeStreamConfig) : Type 0 where
  pub io_threads : (pos 1 ≤ℤ m.io_threads) × (m.io_threads ≤ℤ pos 8)
  pub cache_mb : (m.cache_mb ≡ pos 0) ⊎ (pos 1500 ≤ℤ m.cache_mb) ⊎ (m.force_cache ≡ true)
  pub fixed_or_auto : m.cache_auto ≡ true → m.cache_mb ≡ pos 0
  pub limits : (pos 0 ≤ℤ m.cache_floor_mb) × (pos 0 ≤ℤ m.cache_ceil_mb)
  pub prefetch : (pos 0 ≤ℤ m.prefetch_layers) × (m.prefetch_layers ≤ℤ pos 8)
  pub route_ahead : (pos 0 ≤ℤ m.route_ahead) × (m.route_ahead ≤ℤ pos 8)
  pub two_wave : m.io_two_wave ≡ true → (m.overlap ≡ true) × (cache_on m ≡ true)
  pub one_predictor :
      m.predict_prefetch ≡ true → (m.prefetch_layers ≡ pos 0) × (m.route_ahead ≡ pos 0)
  pub cached : (m.predict_prefetch ≡ true) ⊎ (pos 1 ≤ℤ m.prefetch_layers) → cache_on m ≡ true

settled_size :
    (m : MoeStreamConfig)
    → negative m.cache_mb ≡ false
    → (positive m.cache_mb && ltb_ℤ m.cache_mb cache_min_mb && not m.force_cache) ≡ false
    → (m.cache_mb ≡ pos 0) ⊎ (pos 1500 ≤ℤ m.cache_mb) ⊎ (m.force_cache ≡ true)
settled_size m h k = elim (Bool-cases (positive m.cache_mb)) [
  | inl p ↦ elim (Bool-cases (ltb_ℤ m.cache_mb cache_min_mb)) [
    | inl q ↦ inr (inr (ground (arith, k, p, q)))
    | inr q ↦ inr (inl (ground (arith, q)))
  ]
  | inr p ↦ inl (ground (arith, eq_of_parts m.cache_mb (pos 0), h, p))
]

-- An accepted configuration that streams has 1 to 8 I/O threads, a cache that is off, automatic or, but
-- when forced, of at least 1500 MiB, its look-ahead depths in 0 to 8, predict_prefetch only without the
-- other two predictors, and the speculative reads and the wave split only with a cache.
pub validate-Streams :
    (cfg : RunConfig) → validate cfg ≡ none → cfg.moe.enabled ≡ true → Streams cfg.moe
validate-Streams cfg h on =
    let g = (accepted-Groups cfg h).stream on in
    record {
      io_threads = (ground (arith, g 0), ground (arith, g 0));
      cache_mb = settled_size cfg.moe (g 1) (g 2);
      fixed_or_auto =
          λ a. ground (arith, eq_of_parts cfg.moe.cache_mb (pos 0), g 1, excludes _ _ (g 4) a);
      limits = (ground (arith, g 5), ground (arith, g 6));
      prefetch = (ground (arith, g 3), ground (arith, g 3));
      route_ahead = (ground (arith, g 13), ground (arith, g 13));
      two_wave = λ w. (implies _ _ (g 9) w, implies _ _ (g 10) w);
      one_predictor = λ p. (
        ground (arith, eq_of_parts cfg.moe.prefetch_layers (pos 0), g 3, excludes _ _ (g 12) p),
        ground (arith, eq_of_parts cfg.moe.route_ahead (pos 0), g 13, g 14, p),
      );
      cached =
          λ u. elim u [ inl p ↦ implies _ _ (g 8) p | inr p ↦ implies _ _ (g 7) (ground arith) ];
    }

-- What the lossy policies of an accepted configuration are: a fraction is a number in [0, 1], and
-- above 0 only with the cache on.
abbrev pub IsFraction : MoeStreamConfig → Float32 → Type 0
IsFraction m x =
    (is_nan x ≡ false)
    × (leb_f zero_f x ≡ true)
    × (leb_f x one_f ≡ true)
    × (ltb_f zero_f x ≡ true → cache_on m ≡ true)

above_zero : (x : Float32) → leb_f zero_f x ≡ true → is_nan x ≡ false
unfolding leb_f
above_zero x h = elim (Bool-cases (is_nan x)) [ inl e ↦ absurd (ground (arith, e, h)) | inr e ↦ e ]

fraction :
    (m : MoeStreamConfig)
    → (x : Float32) → (ltb_f zero_f x && not (cache_on m)) ≡ false
    → not (leb_f zero_f x && leb_f x one_f) ≡ false
    → IsFraction m x
fraction m x h k =
    let lo : leb_f zero_f x ≡ true = ground (arith, k) in
    let hi : leb_f x one_f ≡ true = ground (arith, k) in
    (above_zero x lo, lo, hi, λ p. implies _ _ h p)

-- An accepted configuration that streams has as drop_cold_frac and as substitute_lambda a number, no
-- NaN, in [0, 1], and 0 when there is no cache.
pub validate-IsFraction :
    (cfg : RunConfig)
    → validate cfg ≡ none
    → cfg.moe.enabled ≡ true
    → IsFraction cfg.moe cfg.moe.drop_cold_frac × IsFraction cfg.moe cfg.moe.substitute_lambda
validate-IsFraction cfg h on =
    let g = (accepted-Groups cfg h).stream on in
    (fraction cfg.moe _ (g 16) (g 17), fraction cfg.moe _ (g 18) (g 19))
