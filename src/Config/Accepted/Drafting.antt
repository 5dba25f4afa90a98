-- ===== src/Config/Accepted/Drafting.antt =====
-- config.cpp, validate(), and the arguments of ngram_draft in engine/ngram_draft.cpp.
use franken_mo_e_cuda.Prelude.{true, List, none, ◌≡◌, ◌⊎◌, arith}
use franken_mo_e_cuda.Prelude.Int.{ℤ, pos, negsuc, pos_part, ◌≤ℤ◌}
use franken_mo_e_cuda.Config.{RunConfig, SpecConfig, spec_enabled, is_ngram}
use franken_mo_e_cuda.Config.Checks.{validate}
use franken_mo_e_cuda.Config.Accepted.{validate-Speculates}
use franken_mo_e_cuda.Ngram.{ngram_draft}
use franken_mo_e_cuda.Ngram.Drafts.{IsDraft, IsDeclined, ngram_draft-cases}

ngram_enabled : (s : SpecConfig) → is_ngram s ≡ true → spec_enabled s ≡ true
unfolding spec_enabled is_ngram
ngram_enabled s h = ground arith

module _ (ctx : List ℤ) (last : ℤ) where
  cases_signed :
      (n_max min_match max_match : ℤ)
      → pos 1 ≤ℤ n_max
      → pos 1 ≤ℤ min_match
      → min_match ≤ℤ max_match
      → let r = ngram_draft ctx last n_max min_match max_match in
        IsDraft ctx last (pos_part n_max) (pos_part min_match) (pos_part max_match) r
        ⊎ IsDeclined ctx last (pos_part min_match) (pos_part max_match) r
  cases_signed (pos n) (pos a) (pos b) hn ha hb =
      ngram_draft-cases ctx last n a b (omega arith) (omega arith) (omega arith)
  cases_signed (pos n) (pos a) (negsuc b) hn ha hb = absurd (omega arith)
  cases_signed (pos n) (negsuc a) b hn ha hb = absurd (omega arith)
  cases_signed (negsuc n) a b hn ha hb = absurd (omega arith)

  -- With an accepted configuration for the n-gram source, at every step that asks for at least one token
  -- ngram_draft either continues the longest and most recent earlier
  -- occurrence of the text's end, or no occurrence reaches the configured `ngram_min_match`.
  pub validate-ngram_draft :
      (cfg : RunConfig)
      → (n_max : ℤ) → validate cfg ≡ none
      → is_ngram cfg.spec ≡ true
      → pos 1 ≤ℤ n_max
      → let lo = cfg.spec.ngram_min_match in
        let hi = cfg.spec.ngram_max_match in
        let r = ngram_draft ctx last n_max lo hi in
        IsDraft ctx last (pos_part n_max) (pos_part lo) (pos_part hi) r
        ⊎ IsDeclined ctx last (pos_part lo) (pos_part hi) r
  validate-ngram_draft cfg n_max h on asked =
      let s = validate-Speculates cfg h (ngram_enabled cfg.spec on) in
      let m = s.ngram_match on in
      cases_signed n_max cfg.spec.ngram_min_match cfg.spec.ngram_max_match asked m.0 m.1
