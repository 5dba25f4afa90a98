-- ===== src/Session/Perplexity.antt =====
-- engine/session.cpp, Session::perplexity: which positions of a text are scored, from which logits, in
-- the two regimes. The sums of the scores are the caller's arithmetic on floats; the trace counters and
-- the choices' own probabilities are left out.
pub mod Wanted
pub mod Rows
pub mod Regimes
use franken_mo_e_cuda.Prelude.{
  ℕ, zero, suc, ◌+◌, ◌-◌, min, max, Bool, true, false, ◌||◌, Option, none, some, List, [], ◌∷◌,
  ◌++◌, ltb, leb, if◌then◌else◌, length, take, drop,
}
use franken_mo_e_cuda.Prelude.Int.{ℤ, pos}
use franken_mo_e_cuda.Config.Float.{Float32}
use franken_mo_e_cuda.Session.{
  Target, Decoded, decoded, aborted, refused, Context, Row, Session, batch_fill, row_at, argmax,
}
use franken_mo_e_cuda.Session.Turn.{with_memory}
use franken_mo_e_cuda.Session.Round.{with_context}

-- A position with the row of logits that scores the token behind it.
pub record Scored : Type 0 where
  pub row : List Float32
  pub position : ℕ

-- The scores so far and the context, or the error.
pub data Pass : Type 0 where
  passed : List Scored → Context → Pass
  no_logits : ℕ → Pass
  decode_error : ℕ → Pass

pub record PplRequest : Type 0 where
  pub skip : ℕ
  pub as_decode : Bool
  pub step : Bool
  pub has_choices : Bool

-- `score`, where a null row is an error.
unfoldable pub score : List Float32 → ℕ → Pass → Pass
score [] position rest = no_logits position
score (x ∷ row) position (passed scores c) =
    passed (record { row = x ∷ row; position = position } ∷ scores) c
score (x ∷ row) position (no_logits p) = no_logits p
score (x ∷ row) position (decode_error p) = decode_error p

module _ (t : Target) (tokens : List ℤ) (skip : ℕ) where
  -- Neither the positions of the skipped start nor the last one are scored.
  unfoldable pub unscored : ℕ → Bool
  unscored position = ltb position skip || leb (length tokens) (position + 1)

  unfoldable pub score_at : List Float32 → ℕ → Pass → Pass
  unfolding unscored
  score_at row position rest = if unscored position then rest else score row position rest

  -- One decode, then `next`.
  abbrev pub after : Decoded × Context → ℕ → (Context → Pass) → Pass
  after (decoded, c) position next = next c
  after (aborted n, c) position next = decode_error position
  after (refused n, c) position next = decode_error position

  -- The decode regime: `k` positions from `position` on, each a decode of its own.
  unfoldable pub step_loop : ℕ → ℕ → Context → Pass
  step_loop zero position c = passed [] c
  step_loop (suc k) position c =
      after
        (t.llama_decode (record c { batch_phase = 1 })
          (batch_fill (take 1 (drop position tokens)) position true))
        position (λ d. score_at (row_at d.outputs 0) position (step_loop k (position + 1) d))

  -- The rows of a chunk: `k` of them from row `j` on, for the positions from `position` on.
  unfoldable pub score_chunk : ℕ → ℕ → ℕ → Context → Pass → Pass
  score_chunk zero j position c rest = rest
  score_chunk (suc k) j position c rest =
      score_at (row_at c.outputs j) position (score_chunk k (j + 1) (position + 1) c rest)

  -- The wide regime: chunks of `n_batch` tokens from token `i` on, as the phase asked for.
  unfoldable pub batch_loop : ℕ → ℕ → ℕ → ℕ → Context → Pass
  batch_loop phase n_batch zero i c = passed [] c
  batch_loop phase n_batch (suc fuel) i c =
      let chunk = take n_batch (drop i tokens) in
      let rest =
        after (t.llama_decode (record c { batch_phase = phase }) (batch_fill chunk i true)) i
          (λ d. score_chunk (length chunk) 0 i d (batch_loop phase n_batch fuel (i + n_batch) d)) in
      if ltb i (length tokens) then rest else passed [] c

-- The phase that as_decode asks for.
unfoldable pub phase_of : PplRequest → ℕ
phase_of req = if req.as_decode then 1 else 0

-- The scoring pass in one of the regimes, on a cleared memory.
unfoldable pub score_text : Target → ℕ → List ℤ → PplRequest → Context → Pass
unfolding phase_of
score_text t n_batch tokens req c =
    let n = length tokens in
    let prefix = max 1 (min req.skip (n - 1)) in
    let last = if req.has_choices then n else n - 1 in
    if req.step
    then after t tokens req.skip
        (t.llama_decode (record c { batch_phase = 0 }) (batch_fill (take prefix tokens) 0 false)) 0
        (step_loop t tokens req.skip (last - prefix) prefix)
    else batch_loop t tokens req.skip (phase_of req) n_batch n 0 c

unfoldable pub clear_memory : Context → Context
clear_memory c = record c { memory = [] }

-- The warm-up graph on a cleared memory, and the pass behind it.
unfoldable pub scoring_pass : Target → ℕ → List ℤ → PplRequest → Context → Pass
unfolding clear_memory
scoring_pass t n_batch tokens req c =
    after t tokens req.skip
      (t.llama_decode (record (clear_memory c) { batch_phase = phase_of req })
        (batch_fill (take 1 tokens) 0 false))
      0 (λ d. score_text t n_batch tokens req (clear_memory d))
