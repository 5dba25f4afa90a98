-- ===== src/Config/Accepted/Inert.antt =====
-- config.cpp, validate(): the settings of a mode that is off.
use franken_mo_e_cuda.Prelude.{ℕ, false, ◌≡◌, refl}
use franken_mo_e_cuda.Prelude.Int.{ℤ}
use franken_mo_e_cuda.Config.Float.{Float32, zero_f, ltb_f}
use franken_mo_e_cuda.Config.{RunConfig, MoeStreamConfig}
use franken_mo_e_cuda.Config.Checks.{validate, checks, first_failure}

-- With greedy decoding the other sampling settings, whatever they are, change nothing of the result.
pub validate-greedy :
    (cfg : RunConfig)
    → (top_k : ℤ) → (top_p : Float32) → (seed : ℕ) → ltb_f zero_f cfg.sampling.temp ≡ false
    → let s = record cfg.sampling { top_k = top_k; top_p = top_p; seed = seed } in
      validate (record cfg { sampling = s }) ≡ validate cfg
unfolding validate checks first_failure
validate-greedy cfg top_k top_p seed off = rw off refl

-- The streaming settings that validate looks at while streaming is off.
abbrev pub with_moe : MoeStreamConfig → MoeStreamConfig → MoeStreamConfig
with_moe m n = record n {
  enabled = false;
  overlap = m.overlap;
  predict_log = m.predict_log;
  predict_prefetch = m.predict_prefetch;
  route_ahead = m.route_ahead;
  row_stream = m.row_stream;
  row_stream_mb = m.row_stream_mb;
}

-- With streaming off its settings, whatever they are, change nothing of the result, but for those
-- that ask for a feature of streaming (overlap, the predictors' two switches, route_ahead and the
-- two of row_stream).
pub validate-unstreamed :
    (cfg : RunConfig)
    → (n : MoeStreamConfig) → cfg.moe.enabled ≡ false
    → validate (record cfg { moe = with_moe cfg.moe n }) ≡ validate cfg
unfolding validate checks first_failure
validate-unstreamed cfg n off = rw off refl
