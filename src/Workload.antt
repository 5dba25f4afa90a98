-- ===== src/Workload.antt =====
-- moe/deterministic_workload.h and .cpp: the recording of a run's routings and tokens, and its replay.
-- The texts of the error messages are constructors, and the empty message is `none`.
pub mod Text
pub mod Digits
pub mod Format
pub mod Run
pub mod Steps
pub mod Grows
pub mod Replay
pub mod RoundTrip
pub mod Saved
mod Tests
use franken_mo_e_cuda.Prelude.{
  ℕ, suc, ◌+◌, ◌*◌, Bool, true, false, ◌&&◌, ◌||◌, not, Option, none, some, List, [], ◌∷◌, ◌++◌,
  ◌==◌, ltb, leb, if◌then◌else◌, length, get_elem?, take,
}
use franken_mo_e_cuda.Prelude.Int.{ℤ, pos, pos_part, ◌==ℤ◌}

pub data Mode : Type 0 where
  capturing : Mode
  replaying : Mode

pub record Route : Type 0 where
  pub phase : ℤ
  pub base_pos : ℤ
  pub batch_n : ℤ
  pub layer : ℤ
  pub top_k : ℤ
  pub token_n : ℤ
  pub ids : List ℤ

pub data Error : Type 0 where
  model_mismatch : Error
  prompt_differs : Error
  too_many_routes : Error
  route_mismatch : ℕ → Error
  token_not_sequential : Error
  too_many_tokens : Error
  routes_left : ℕ → ℕ → Error
  tokens_left : ℕ → ℕ → Error
  not_captured : Error
  cannot_write : Error

pub record Workload : Type 0 where
  pub mode : Mode
  pub arch : List ℕ
  pub n_layer : ℤ
  pub n_expert_used : ℤ
  pub prompt_tokens : List ℤ
  pub output_tokens : List ℤ
  pub routes : List Route
  pub route_cursor : ℕ
  pub batch_phase : ℤ
  pub batch_base_pos : ℤ
  pub batch_n : ℤ
  pub error : Option Error

-- The constructor's state.
unfoldable pub fresh : Mode → Workload
fresh mode = record {
  mode = mode;
  arch = [];
  n_layer = pos 0;
  n_expert_used = pos 0;
  prompt_tokens = [];
  output_tokens = [];
  routes = [];
  route_cursor = 0;
  batch_phase = pos 0;
  batch_base_pos = pos 0;
  batch_n = pos 0;
  error = none;
}

-- The first error stays.
unfoldable pub fail : Error → Workload → Workload
fail message w = elim w.error [ none ↦ record w { error = some message } | some e ↦ w ]

unfoldable pub set_static : List ℕ → ℤ → ℤ → Workload → Workload
set_static arch n_layer n_expert_used w = record w {
  arch = arch;
  n_layer = n_layer;
  n_expert_used = n_expert_used;
}

unfoldable pub eq_bytes : List ℕ → List ℕ → Bool
eq_bytes [] [] = true
eq_bytes [] (y ∷ ys) = false
eq_bytes (x ∷ xs) [] = false
eq_bytes (x ∷ xs) (y ∷ ys) = x == y && eq_bytes xs ys

unfoldable pub eq_tokens : List ℤ → List ℤ → Bool
eq_tokens [] [] = true
eq_tokens [] (y ∷ ys) = false
eq_tokens (x ∷ xs) [] = false
eq_tokens (x ∷ xs) (y ∷ ys) = x ==ℤ y && eq_tokens xs ys

unfoldable pub check_static : List ℕ → ℤ → ℤ → Workload → Bool × Workload
check_static arch n_layer n_expert_used w =
    if eq_bytes w.arch arch && w.n_layer ==ℤ n_layer && w.n_expert_used ==ℤ n_expert_used
    then (true, w)
    else (false, fail model_mismatch w)

unfoldable pub prompt : List ℤ → Workload → Bool × Workload
prompt tokens w = elim w.mode [
  | capturing ↦ (true, record w { prompt_tokens = tokens })
  | replaying ↦
      if eq_tokens tokens w.prompt_tokens then (true, w) else (false, fail prompt_differs w)
]

unfoldable pub begin_batch : ℤ → ℤ → ℤ → Workload → Workload
begin_batch base_pos n_tokens phase w = record w {
  batch_base_pos = base_pos;
  batch_n = n_tokens;
  batch_phase = phase;
}

-- The batch's routing, of the ids that the hook gathered.
unfoldable pub route_of : ℤ → ℤ → ℤ → List ℤ → Workload → Route
route_of layer n_expert_used n_tokens ids w = record {
  phase = w.batch_phase;
  base_pos = w.batch_base_pos;
  batch_n = w.batch_n;
  layer = layer;
  top_k = n_expert_used;
  token_n = n_tokens;
  ids = take (pos_part n_expert_used * pos_part n_tokens) ids;
}

unfoldable pub capture_topk : ℤ → ℤ → ℤ → List ℤ → Workload → Bool × Workload
capture_topk layer n_expert_used n_tokens ids w = elim w.error [
  | some e ↦ (false, w)
  | none ↦
      (true, record w { routes = w.routes ++ route_of layer n_expert_used n_tokens ids w ∷ [] })
]

-- Whether a recorded routing has the shape of the one at hand.
unfoldable pub same_shape : Route → ℤ → ℤ → ℤ → Workload → Bool
same_shape r layer n_expert_used n_tokens w =
    r.phase ==ℤ w.batch_phase
    && r.base_pos ==ℤ w.batch_base_pos
    && r.batch_n ==ℤ w.batch_n
    && r.layer ==ℤ layer
    && r.top_k ==ℤ n_expert_used
    && r.token_n ==ℤ n_tokens

-- The record at the cursor, which moves past it also when its shape is wrong.
unfoldable pub replay_route : Route → ℤ → ℤ → ℤ → Workload → Option (List ℤ) × Workload
replay_route r layer n_expert_used n_tokens w =
    let moved = record w { route_cursor = w.route_cursor + 1 } in
    if same_shape r layer n_expert_used n_tokens w
    then (some r.ids, moved)
    else (none, fail (route_mismatch w.route_cursor) moved)

-- The ids to write back, when the answer is true.
unfoldable pub replay_topk : ℤ → ℤ → ℤ → Workload → Option (List ℤ) × Workload
replay_topk layer n_expert_used n_tokens w = elim w.error [
  | some e ↦ (none, w)
  | none ↦ elim (get_elem? w.routes w.route_cursor) [
    | none ↦ (none, fail too_many_routes w)
    | some r ↦ replay_route r layer n_expert_used n_tokens w
  ]
]

-- The token selected, when the answer is true.
unfoldable pub token : ℕ → ℤ → Workload → Option ℤ × Workload
token index natural w = elim w.error [
  | some e ↦ (none, w)
  | none ↦ elim w.mode [
    | capturing ↦
        if index == length w.output_tokens
        then (some natural, record w { output_tokens = w.output_tokens ++ natural ∷ [] })
        else (none, fail token_not_sequential w)
    | replaying ↦ elim (get_elem? w.output_tokens index) [
      | none ↦ (none, fail too_many_tokens w)
      | some t ↦ (some t, w)
    ]
  ]
]

unfoldable pub finish : ℕ → Workload → Bool × Workload
finish emitted_tokens w =
    let routes_done = w.route_cursor == length w.routes in
    let tokens_done = emitted_tokens == length w.output_tokens in
    elim w.error [
      | some e ↦ (false, w)
      | none ↦ elim w.mode [
        | capturing ↦ (true, w)
        | replaying ↦
            if not routes_done
            then (false, fail (routes_left w.route_cursor (length w.routes)) w)
            else if tokens_done
            then (true, w)
            else (false, fail (tokens_left emitted_tokens (length w.output_tokens)) w)
      ]
    ]
