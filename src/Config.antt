-- ===== src/Config.antt =====
-- include/bmoe/config.h: the configuration of a run. A string is the list of its bytes.
pub mod Float
pub mod Checks
pub mod Accepted
mod Tests
use franken_mo_e_cuda.Prelude.{ℕ, Bool, true, false, List, []}
use franken_mo_e_cuda.Prelude.Int.{ℤ, pos}
use franken_mo_e_cuda.Config.Float.{Float32, zero_f}

pub record SamplingConfig : Type 0 where
  pub temp : Float32
  pub top_k : ℤ
  pub top_p : Float32
  pub seed : ℕ

pub data DenseWeightsMode : Type 0 where
  mmap : DenseWeightsMode
  warmed : DenseWeightsMode
  anonymous : DenseWeightsMode
  pinned : DenseWeightsMode

pub record MoeStreamConfig : Type 0 where
  pub enabled : Bool
  pub cache_mb : ℤ
  pub cache_auto : Bool
  pub cache_floor_mb : ℤ
  pub cache_ceil_mb : ℤ
  pub io_threads : ℤ
  pub o_direct : Bool
  pub load_all : Bool
  pub force_cache : Bool
  pub overlap : Bool
  pub io_two_wave : Bool
  pub prefetch_layers : ℤ
  pub dense_weights : DenseWeightsMode
  pub row_stream : Bool
  pub row_stream_mb : ℤ
  pub drop_cold_frac : Float32
  pub drop_renorm : Bool
  pub drop_prefill : Bool
  pub substitute_lambda : Float32
  pub predict_log : Bool
  pub predict_prefetch : Bool
  pub predict_spec_max : ℤ
  pub route_ahead : ℤ
  pub prefetch_sync : Bool

abbrev pub cache_min_mb : ℤ
cache_min_mb = pos 1500

abbrev pub io_threads_max : ℤ
io_threads_max = pos 8

abbrev pub prefetch_layers_max : ℤ
prefetch_layers_max = pos 8

abbrev pub route_ahead_max : ℤ
route_ahead_max = pos 8

-- Its constructors are the source's none, mtp and ngram.
pub data DraftSource : Type 0 where
  no_source : DraftSource
  mtp : DraftSource
  ngram : DraftSource

pub record SpecConfig : Type 0 where
  pub source : DraftSource
  pub draft_max : ℤ
  pub draft_p_min : Float32
  pub ngram_min_match : ℤ
  pub ngram_max_match : ℤ

abbrev pub draft_max_limit : ℤ
draft_max_limit = pos 8

abbrev pub ngram_match_limit : ℤ
ngram_match_limit = pos 64

unfoldable pub spec_enabled : SpecConfig → Bool
spec_enabled s = elim s.source [ no_source ↦ false | mtp ↦ true | ngram ↦ true ]

unfoldable pub is_mtp : SpecConfig → Bool
is_mtp s = elim s.source [ no_source ↦ false | mtp ↦ true | ngram ↦ false ]

unfoldable pub is_ngram : SpecConfig → Bool
is_ngram s = elim s.source [ no_source ↦ false | mtp ↦ false | ngram ↦ true ]

pub record RunConfig : Type 0 where
  pub model_path : List ℕ
  pub prompt : List ℕ
  pub n_predict : ℤ
  pub n_threads : ℤ
  pub n_ctx : ℤ
  pub n_gpu_layers : ℤ
  pub vram_cache_mb : ℤ
  pub expert_hot_slots : ℤ
  pub n_ubatch : ℤ
  pub chatml : Bool
  pub progress : Bool
  pub think : Bool
  pub n_expert_used : ℤ
  pub compute_trace_layers : Bool
  pub workload_capture_path : List ℕ
  pub workload_replay_path : List ℕ
  pub sampling : SamplingConfig
  pub moe : MoeStreamConfig
  pub spec : SpecConfig
