-- ===== src/Workload/Tests.antt =====
-- A recording of one batch with a routing and a token, replayed by a run that computed others.
use franken_mo_e_cuda.Prelude.{◌≡◌, refl, List, [], ◌∷◌, length, none, true, inr, arith}
use franken_mo_e_cuda.Prelude.Int.{pos, negsuc}
use franken_mo_e_cuda.Workload.{
  Workload, capturing, finish, capture_topk, route_of, replay_topk, replay_route, same_shape, token,
  begin_batch, prompt, set_static, fresh,
}
use franken_mo_e_cuda.Workload.Run.{
  Call, batch, topk, tok, went_on, routed, selected, run, step, answer_ids, answer_token,
  answer_captured, ends, batches, topks, toks,
}
use franken_mo_e_cuda.Workload.Text.{is_space}
use franken_mo_e_cuda.Workload.Format.{to_size, load, save}
use franken_mo_e_cuda.Workload.Saved.{IsSaveable, load-save}
use franken_mo_e_cuda.Workload.Replay.{recording, replay_of, replay-run}

abbrev calls : List Call
calls =
    batch (pos 0) (pos 1) (pos 1)
    ∷ topk (pos 3) (pos 2) (pos 1) (pos 7 ∷ pos 4 ∷ [])
    ∷ tok 0 (pos 11)
    ∷ []

-- The same, with another routing and another token.
abbrev drifted : List Call
drifted =
    batch (pos 0) (pos 1) (pos 1)
    ∷ topk (pos 3) (pos 2) (pos 1) (pos 5 ∷ pos 4 ∷ [])
    ∷ tok 0 (negsuc 0)
    ∷ []

abbrev start : Workload
start = recording (113 ∷ []) (pos 4) (pos 2) (pos 9 ∷ [])

recorded_clean : (run calls start).1.error ≡ none
unfolding run step answer_ids answer_token answer_captured capture_topk route_of replay_topk
    replay_route same_shape token begin_batch recording replay_of prompt set_static fresh
recorded_clean = refl

replay-run_example :
    ((run drifted (replay_of (run calls start).1)).0 ≡ (run calls start).0)
    × ((finish
          (length (run calls start).1.output_tokens)
          (run drifted (replay_of (run calls start).1)).1).0
        ≡ true)
replay-run_example =
    replay-run (batches _ _ _ (topks _ _ _ _ _ (toks _ _ _ ends))) (113 ∷ []) (pos 4) (pos 2)
      (pos 9 ∷ []) recorded_clean

answers :
    (run drifted (replay_of (run calls start).1)).0
    ≡ went_on ∷ routed (pos 7 ∷ pos 4 ∷ []) ∷ selected (pos 11) ∷ []
unfolding run step answer_ids answer_token answer_captured capture_topk route_of replay_topk
    replay_route same_shape token begin_batch recording replay_of prompt set_static fresh
answers = refl

-- A recording with a negative token, for the file.
abbrev taped : Workload
taped =
    (run
      (batch (pos 0) (pos 1) (pos 1)
        ∷ topk (pos 3) (pos 2) (pos 1) (pos 7 ∷ pos 4 ∷ [])
        ∷ tok 0 (negsuc 11)
        ∷ [])
      start).1

taped-IsSaveable : IsSaveable taped
unfolding run step answer_ids answer_token answer_captured capture_topk route_of replay_topk
    replay_route same_shape token begin_batch recording replay_of prompt set_static fresh is_space
    to_size
taped-IsSaveable = record {
  first = 113;
  others = [];
  arch = refl;
  solid = (refl, tt);
  n_layer = omega arith;
  n_expert_used = omega arith;
  prompt = (omega arith, tt);
  output = (omega arith, tt);
  routes = (
    record {
      phase = omega arith;
      base_pos = omega arith;
      batch_n = omega arith;
      layer = omega arith;
      top_k = omega arith;
      token_n = omega arith;
      ids = (omega arith, (omega arith, tt));
      count = refl;
      size = omega arith;
    },
    tt,
  );
  prompt_size = omega arith;
  output_size = omega arith;
  routes_size = omega arith;
}

taped_mode : taped.mode ≡ capturing
unfolding run step answer_ids answer_token answer_captured capture_topk route_of replay_topk
    replay_route same_shape token begin_batch recording replay_of prompt set_static fresh
taped_mode = refl

load-save_example : load (save true true taped).2 ≡ inr (replay_of taped)
load-save_example = load-save taped taped_mode taped-IsSaveable
