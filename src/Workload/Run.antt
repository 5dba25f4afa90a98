-- ===== src/Workload/Run.antt =====
-- The calls that a run makes of its workload, in their order, and what it gets back.
use franken_mo_e_cuda.Prelude.{ℕ, ◌*◌, take, Bool, true, false, Option, none, some, List, [], ◌∷◌}
use franken_mo_e_cuda.Prelude.Int.{ℤ, pos_part}
use franken_mo_e_cuda.Workload.{
  Workload, capturing, replaying, begin_batch, capture_topk, replay_topk, token,
}

-- A call; what the model computed itself is its last argument.
pub data Call : Type 0 where
  batch : ℤ → ℤ → ℤ → Call
  topk : ℤ → ℤ → ℤ → List ℤ → Call
  tok : ℕ → ℤ → Call

-- What the run goes on with.
pub data Answer : Type 0 where
  went_on : Answer
  routed : List ℤ → Answer
  selected : ℤ → Answer
  stopped : Answer

unfoldable pub answer_ids : Option (List ℤ) × Workload → Answer × Workload
answer_ids (none, w) = (stopped, w)
answer_ids (some ids, w) = (routed ids, w)

unfoldable pub answer_token : Option ℤ × Workload → Answer × Workload
answer_token (none, w) = (stopped, w)
answer_token (some t, w) = (selected t, w)

-- A captured routing stays the one that the model computed.
unfoldable pub answer_captured : List ℤ → Bool × Workload → Answer × Workload
answer_captured ids (false, w) = (stopped, w)
answer_captured ids (true, w) = (routed ids, w)

unfoldable pub step : Call → Workload → Answer × Workload
step (batch base_pos n_tokens phase) w = (went_on, begin_batch base_pos n_tokens phase w)
step (topk layer k n ids) w = elim w.mode [
  | capturing ↦ answer_captured (take (pos_part k * pos_part n) ids) (capture_topk layer k n ids w)
  | replaying ↦ answer_ids (replay_topk layer k n w)
]
step (tok index natural) w = answer_token (token index natural w)

unfoldable pub run : List Call → Workload → List Answer × Workload
run [] w = ([], w)
run (c ∷ cs) w = let r = step c w in let rest = run cs r.1 in (r.0 ∷ rest.0, rest.1)

-- The same calls in the same order with the same shapes; what the model computed may differ.
pub data Alike : List Call → List Call → Type 0 where
  ends : Alike [] []
  batches :
      (b n p : ℤ) {cs ds : List Call} → Alike cs ds → Alike (batch b n p ∷ cs) (batch b n p ∷ ds)
  topks :
      (l k n : ℤ) (ids other : List ℤ) {cs ds : List Call}
      → Alike cs ds
      → Alike (topk l k n ids ∷ cs) (topk l k n other ∷ ds)
  toks :
      (i : ℕ) (t other : ℤ) {cs ds : List Call}
      → Alike cs ds
      → Alike (tok i t ∷ cs) (tok i other ∷ ds)
