-- ===== src/Config/Checks.antt =====
-- config.cpp, validate(): the sequence of its tests, each with the message of its failure. Tests have
-- no effect, so the early returns are the first of the list that fails. The texts of the messages are
-- constructors here.
use franken_mo_e_cuda.Prelude.{
  ℕ, Bool, true, false, ◌&&◌, ◌||◌, not, Option, none, some, List, [], ◌∷◌, ◌++◌, if◌then◌else◌,
}
use franken_mo_e_cuda.Prelude.Int.{ℤ, pos, ltb_ℤ, leb_ℤ, ◌==ℤ◌, ◌+ℤ◌}
use franken_mo_e_cuda.Config.Float.{zero_f, one_f, ltb_f, leb_f, eqb_f}
use franken_mo_e_cuda.Config.{
  RunConfig, SpecConfig, MoeStreamConfig, spec_enabled, is_mtp, is_ngram, cache_min_mb,
  io_threads_max, prefetch_layers_max, route_ahead_max, draft_max_limit, ngram_match_limit,
}

-- One message for each `fail`, named for the setting it speaks of.
pub data Message : Type 0 where
  model_path_required : Message
  n_predict_positive : Message
  n_threads_positive : Message
  n_ctx_positive : Message
  n_ubatch_negative : Message
  n_ubatch_exceeds : ℤ → ℤ → Message
  n_expert_used_negative : Message
  workload_exclusive : Message
  workload_needs_moe : Message
  workload_without_spec : Message
  vram_cache_negative : Message
  hot_slots_negative : Message
  vram_cache_needs_gpu : Message
  top_k_negative : Message
  top_p_range : Message
  spec_needs_greedy : Message
  draft_max_range : Message
  draft_p_min_range : Message
  draft_p_min_is_mtp : Message
  ngram_max_match_range : Message
  ngram_min_match_range : ℤ → Message
  n_ubatch_narrow : ℤ → ℤ → Message
  overlap_needs_moe : Message
  predict_log_needs_moe : Message
  predict_prefetch_needs_moe : Message
  route_ahead_needs_moe : Message
  row_stream_needs_moe : Message
  row_stream_mb_negative : Message
  io_threads_range : Message
  cache_negative : Message
  cache_pathological : ℤ → Message
  prefetch_layers_range : Message
  cache_auto_exclusive : Message
  cache_floor_negative : Message
  cache_ceil_negative : Message
  prefetch_needs_cache : Message
  predict_prefetch_needs_cache : Message
  two_wave_needs_overlap : Message
  two_wave_needs_cache : Message
  predict_spec_max_range : Message
  predictors_exclusive : Message
  route_ahead_range : Message
  route_ahead_excludes_predictors : Message
  route_ahead_excludes_spec : Message
  drop_cold_needs_cache : Message
  drop_cold_range : Message
  substitute_needs_cache : Message
  substitute_range : Message

-- A test that holds when it fails the configuration.
pub record Check : Type 0 where
  pub fails : Bool
  pub message : Message

infix 30 ◌refuse◌
abbrev pub ◌refuse◌ : Bool → Message → Check
b refuse m = record { fails = b; message = m }

-- `std::string::empty`.
unfoldable pub is_empty : List ℕ → Bool
is_empty [] = true
is_empty (c ∷ cs) = false

-- x < 0 and x > 0.
abbrev pub negative : ℤ → Bool
negative x = ltb_ℤ x (pos 0)

abbrev pub positive : ℤ → Bool
positive x = ltb_ℤ (pos 0) x

-- x outside [lo, hi].
abbrev pub outside : ℤ → ℤ → ℤ → Bool
outside lo hi x = ltb_ℤ x lo || ltb_ℤ hi x

abbrev pub size_checks : RunConfig → List Check
size_checks cfg =
    (is_empty cfg.model_path refuse model_path_required)
    ∷ (leb_ℤ cfg.n_predict (pos 0) refuse n_predict_positive)
    ∷ (leb_ℤ cfg.n_threads (pos 0) refuse n_threads_positive)
    ∷ (leb_ℤ cfg.n_ctx (pos 0) refuse n_ctx_positive)
    ∷ (negative cfg.n_ubatch refuse n_ubatch_negative)
    ∷ (ltb_ℤ cfg.n_ctx cfg.n_ubatch refuse n_ubatch_exceeds cfg.n_ubatch cfg.n_ctx)
    ∷ (negative cfg.n_expert_used refuse n_expert_used_negative)
    ∷ []

-- A workload is captured or replayed.
abbrev pub has_workload : RunConfig → Bool
has_workload cfg =
    not (is_empty cfg.workload_capture_path) || not (is_empty cfg.workload_replay_path)

abbrev pub workload_checks : RunConfig → List Check
workload_checks cfg =
    (not (is_empty cfg.workload_capture_path) && not (is_empty cfg.workload_replay_path)
      refuse workload_exclusive)
    ∷ (has_workload cfg && not cfg.moe.enabled refuse workload_needs_moe)
    ∷ (has_workload cfg && spec_enabled cfg.spec refuse workload_without_spec)
    ∷ (negative cfg.vram_cache_mb refuse vram_cache_negative)
    ∷ (negative cfg.expert_hot_slots refuse hot_slots_negative)
    ∷ ((positive cfg.vram_cache_mb || positive cfg.expert_hot_slots) && cfg.n_gpu_layers ==ℤ pos 0
        refuse vram_cache_needs_gpu)
    ∷ []

-- The ranges of the sampling settings matter only when sampling is on.
abbrev pub sampling_checks : RunConfig → List Check
sampling_checks cfg =
    let s = cfg.sampling in
    let on = ltb_f zero_f s.temp in
    (on && negative s.top_k refuse top_k_negative)
    ∷ (on && (leb_f s.top_p zero_f || ltb_f one_f s.top_p) refuse top_p_range)
    ∷ []

abbrev pub spec_checks : RunConfig → List Check
spec_checks cfg =
    let s = cfg.spec in
    (spec_enabled s && ltb_f zero_f cfg.sampling.temp refuse spec_needs_greedy)
    ∷ (spec_enabled s && outside (pos 1) draft_max_limit s.draft_max refuse draft_max_range)
    ∷ (is_mtp s && (ltb_f s.draft_p_min zero_f || ltb_f one_f s.draft_p_min)
        refuse draft_p_min_range)
    ∷ (is_ngram s && not (eqb_f s.draft_p_min zero_f) refuse draft_p_min_is_mtp)
    ∷ (is_ngram s && outside (pos 1) ngram_match_limit s.ngram_max_match
        refuse ngram_max_match_range)
    ∷ (is_ngram s && outside (pos 1) s.ngram_max_match s.ngram_min_match
        refuse ngram_min_match_range s.ngram_max_match)
    ∷ (spec_enabled s && positive cfg.n_ubatch && ltb_ℤ cfg.n_ubatch (s.draft_max +ℤ pos 1)
        refuse n_ubatch_narrow cfg.n_ubatch (s.draft_max +ℤ pos 1))
    ∷ []

abbrev pub feature_checks : RunConfig → List Check
feature_checks cfg =
    let m = cfg.moe in
    (m.overlap && not m.enabled refuse overlap_needs_moe)
    ∷ (m.predict_log && not m.enabled refuse predict_log_needs_moe)
    ∷ (m.predict_prefetch && not m.enabled refuse predict_prefetch_needs_moe)
    ∷ (positive m.route_ahead && not m.enabled refuse route_ahead_needs_moe)
    ∷ (m.row_stream && not m.enabled refuse row_stream_needs_moe)
    ∷ (negative m.row_stream_mb refuse row_stream_mb_negative)
    ∷ []

-- The LRU cache is on, with a fixed budget or an automatic one.
abbrev pub cache_on : MoeStreamConfig → Bool
cache_on m = positive m.cache_mb || m.cache_auto

abbrev pub cache_checks : MoeStreamConfig → List Check
cache_checks m =
    (outside (pos 1) io_threads_max m.io_threads refuse io_threads_range)
    ∷ (negative m.cache_mb refuse cache_negative)
    ∷ (positive m.cache_mb && ltb_ℤ m.cache_mb cache_min_mb && not m.force_cache
        refuse cache_pathological m.cache_mb)
    ∷ (outside (pos 0) prefetch_layers_max m.prefetch_layers refuse prefetch_layers_range)
    ∷ (m.cache_auto && positive m.cache_mb refuse cache_auto_exclusive)
    ∷ (negative m.cache_floor_mb refuse cache_floor_negative)
    ∷ (negative m.cache_ceil_mb refuse cache_ceil_negative)
    ∷ (positive m.prefetch_layers && not (cache_on m) refuse prefetch_needs_cache)
    ∷ (m.predict_prefetch && not (cache_on m) refuse predict_prefetch_needs_cache)
    ∷ (m.io_two_wave && not m.overlap refuse two_wave_needs_overlap)
    ∷ (m.io_two_wave && not (cache_on m) refuse two_wave_needs_cache)
    ∷ []

abbrev pub predict_checks : MoeStreamConfig → SpecConfig → List Check
predict_checks m s =
    (outside (pos 0) (pos 8) m.predict_spec_max refuse predict_spec_max_range)
    ∷ (m.predict_prefetch && positive m.prefetch_layers refuse predictors_exclusive)
    ∷ (outside (pos 0) route_ahead_max m.route_ahead refuse route_ahead_range)
    ∷ (positive m.route_ahead && (m.predict_log || m.predict_prefetch || positive m.prefetch_layers)
        refuse route_ahead_excludes_predictors)
    ∷ (positive m.route_ahead && spec_enabled s refuse route_ahead_excludes_spec)
    ∷ []

abbrev pub policy_checks : MoeStreamConfig → List Check
policy_checks m =
    (ltb_f zero_f m.drop_cold_frac && not (cache_on m) refuse drop_cold_needs_cache)
    ∷ (not (leb_f zero_f m.drop_cold_frac && leb_f m.drop_cold_frac one_f) refuse drop_cold_range)
    ∷ (ltb_f zero_f m.substitute_lambda && not (cache_on m) refuse substitute_needs_cache)
    ∷ (not (leb_f zero_f m.substitute_lambda && leb_f m.substitute_lambda one_f)
        refuse substitute_range)
    ∷ []

abbrev pub stream_checks : RunConfig → List Check
stream_checks cfg = cache_checks cfg.moe ++ predict_checks cfg.moe cfg.spec ++ policy_checks cfg.moe

unfoldable pub checks : RunConfig → List Check
checks cfg =
    size_checks cfg
    ++ workload_checks cfg
    ++ sampling_checks cfg
    ++ spec_checks cfg
    ++ feature_checks cfg
    ++ (if cfg.moe.enabled then stream_checks cfg else [])

-- The message of the first check that fails.
unfoldable pub first_failure : List Check → Option Message
first_failure [] = none
first_failure (c ∷ cs) = elim c.fails [ true ↦ some c.message | false ↦ first_failure cs ]

-- The error; none is the result `ok`.
unfoldable pub validate : RunConfig → Option Message
validate cfg = first_failure (checks cfg)
