-- ===== src/Config/Tests.antt =====
-- Configurations that validate accepts, and some that it refuses.
use franken_mo_e_cuda.Prelude.{true, false, List, [], ◌∷◌, none, some, ◌≡◌, ◌⊎◌, refl, arith}
use franken_mo_e_cuda.Prelude.Int.{ℤ, pos, ◌+ℤ◌}
use franken_mo_e_cuda.Config.Float.{
  Float32, zero_f, one_f, ltb_f, leb_f, eqb_f, is_nan, rank, magnitude,
}
use franken_mo_e_cuda.Config.{
  RunConfig, SamplingConfig, SpecConfig, MoeStreamConfig, no_source, ngram, anonymous, spec_enabled,
  is_mtp, is_ngram,
}
use franken_mo_e_cuda.Config.Checks.{
  validate, checks, first_failure, is_empty, model_path_required, n_ubatch_narrow, drop_cold_range,
  route_ahead_excludes_spec, cache_pathological,
}
use franken_mo_e_cuda.Config.Accepted.{Speculates, validate-Speculates, Streams, validate-Streams}
use franken_mo_e_cuda.Config.Accepted.Drafting.{validate-ngram_draft}
use franken_mo_e_cuda.Ngram.{ngram_draft}
use franken_mo_e_cuda.Ngram.Drafts.{IsDraft, IsDeclined}

-- The defaults of the source; 0.95f has the bits 1064514355.
abbrev default_sampling : SamplingConfig
default_sampling = record {
  temp = zero_f;
  top_k = pos 40;
  top_p = record { bits = 1064514355 };
  seed = 4294967295;
}

abbrev default_moe : MoeStreamConfig
default_moe = record {
  enabled = false;
  cache_mb = pos 0;
  cache_auto = false;
  cache_floor_mb = pos 1536;
  cache_ceil_mb = pos 0;
  io_threads = pos 4;
  o_direct = true;
  load_all = false;
  force_cache = false;
  overlap = false;
  io_two_wave = false;
  prefetch_layers = pos 0;
  dense_weights = anonymous;
  row_stream = false;
  row_stream_mb = pos 64;
  drop_cold_frac = zero_f;
  drop_renorm = true;
  drop_prefill = false;
  substitute_lambda = zero_f;
  predict_log = false;
  predict_prefetch = false;
  predict_spec_max = pos 2;
  route_ahead = pos 0;
  prefetch_sync = false;
}

abbrev default_spec : SpecConfig
default_spec = record {
  source = no_source;
  draft_max = pos 3;
  draft_p_min = zero_f;
  ngram_min_match = pos 3;
  ngram_max_match = pos 12;
}

abbrev default_run : RunConfig
default_run = record {
  model_path = 109 ∷ [];
  prompt = [];
  n_predict = pos 128;
  n_threads = pos 4;
  n_ctx = pos 2048;
  n_gpu_layers = pos 0;
  vram_cache_mb = pos 0;
  expert_hot_slots = pos 0;
  n_ubatch = pos 0;
  chatml = false;
  progress = false;
  think = true;
  n_expert_used = pos 0;
  compute_trace_layers = false;
  workload_capture_path = [];
  workload_replay_path = [];
  sampling = default_sampling;
  moe = default_moe;
  spec = default_spec;
}

default_accepted : validate default_run ≡ none
unfolding validate checks first_failure spec_enabled is_mtp is_ngram is_empty ltb_f leb_f eqb_f
    is_nan rank magnitude ◌+ℤ◌
default_accepted = refl

-- Streaming with a cache, a cold-drop policy and the n-gram source.
abbrev streaming : RunConfig
streaming = record default_run {
  moe = record default_moe { enabled = true; cache_mb = pos 2000; drop_cold_frac = one_f };
  spec = record default_spec { source = ngram };
}

streaming_accepted : validate streaming ≡ none
unfolding validate checks first_failure spec_enabled is_mtp is_ngram is_empty ltb_f leb_f eqb_f
    is_nan rank magnitude ◌+ℤ◌
streaming_accepted = refl

pathless : validate (record default_run { model_path = [] }) ≡ some model_path_required
unfolding validate checks first_failure spec_enabled is_mtp is_ngram is_empty ltb_f leb_f eqb_f
    is_nan rank magnitude ◌+ℤ◌
pathless = refl

narrow_graph :
    validate (record streaming { n_ubatch = pos 2 }) ≡ some (n_ubatch_narrow (pos 2) (pos 4))
unfolding validate checks first_failure spec_enabled is_mtp is_ngram is_empty ltb_f leb_f eqb_f
    is_nan rank magnitude ◌+ℤ◌
narrow_graph = refl

small_cache :
    validate (record streaming { moe = record streaming.moe { cache_mb = pos 1000 } })
    ≡ some (cache_pathological (pos 1000))
unfolding validate checks first_failure spec_enabled is_mtp is_ngram is_empty ltb_f leb_f eqb_f
    is_nan rank magnitude ◌+ℤ◌
small_cache = refl

routes_ahead :
    validate (record streaming { moe = record streaming.moe { route_ahead = pos 1 } })
    ≡ some route_ahead_excludes_spec
unfolding validate checks first_failure spec_enabled is_mtp is_ngram is_empty ltb_f leb_f eqb_f
    is_nan rank magnitude ◌+ℤ◌
routes_ahead = refl

abbrev nan : Float32
nan = record { bits = 2143289344 }

-- drop_cold_frac is refused when it is not a number,
nan_drop :
    validate (record streaming { moe = record streaming.moe { drop_cold_frac = nan } })
    ≡ some drop_cold_range
unfolding validate checks first_failure spec_enabled is_mtp is_ngram is_empty ltb_f leb_f eqb_f
    is_nan rank magnitude ◌+ℤ◌
nan_drop = refl

-- but top_p is not: its test is no negated range.
nan_top_p :
    validate
      (record default_run { sampling = record default_sampling { temp = one_f; top_p = nan } })
    ≡ none
unfolding validate checks first_failure spec_enabled is_mtp is_ngram is_empty ltb_f leb_f eqb_f
    is_nan rank magnitude ◌+ℤ◌
nan_top_p = refl

speculates : spec_enabled streaming.spec ≡ true
unfolding spec_enabled
speculates = refl

from_text : is_ngram streaming.spec ≡ true
unfolding is_ngram
from_text = refl

greedy : ltb_f zero_f default_sampling.temp ≡ false
unfolding ltb_f is_nan rank magnitude
greedy = refl

validate-Speculates_example : Speculates streaming
validate-Speculates_example = validate-Speculates streaming streaming_accepted speculates

validate-Streams_example : Streams streaming.moe
validate-Streams_example = validate-Streams streaming streaming_accepted refl

abbrev text : List ℤ
text = pos 1 ∷ pos 2 ∷ pos 3 ∷ pos 4 ∷ pos 1 ∷ pos 2 ∷ []

validate-ngram_draft_example :
    let r = ngram_draft text (pos 3) (pos 2) (pos 3) (pos 12) in
    IsDraft text (pos 3) 2 3 12 r ⊎ IsDeclined text (pos 3) 3 12 r
validate-ngram_draft_example =
    validate-ngram_draft text (pos 3) streaming (pos 2) streaming_accepted from_text (omega arith)
