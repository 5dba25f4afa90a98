-- ===== src/Router/Tests.antt =====
-- moe/router_hook.cpp at small inputs: four scores, and a routing of two tokens to two experts.
use franken_mo_e_cuda.Prelude.{
  List, none, ◌++◌, ℕ, ◌+◌, ◌≡◌, refl, true, false, [], ◌∷◌, arith, length, map, if◌then◌else◌,
  ◌==◌,
}
use franken_mo_e_cuda.Prelude.Int.{ℤ, pos, ◌==ℤ◌}
use franken_mo_e_cuda.Config.Float.{Float32, ltb_f, is_nan, magnitude, rank, zero_f, one_f}
use franken_mo_e_cuda.Expert.Sequence.{has}
use franken_mo_e_cuda.Expert.Load
use franken_mo_e_cuda.Expert.Spec
use franken_mo_e_cuda.Expert.Entries
use franken_mo_e_cuda.Expert.Layout
use franken_mo_e_cuda.Expert.Load.{load_layer}
use franken_mo_e_cuda.Expert.Spec.{quiesce_spec}
use franken_mo_e_cuda.Expert.Layout.{entry_id}
use franken_mo_e_cuda.Lru.{lru_push_front, lru_push_back, lru_unlink}
use franken_mo_e_cuda.Expert.Sample.{small, grants, reads_all, fresh, cold-IsValid}
use franken_mo_e_cuda.Router.Loaded.{streaming, apply_drop-resident}
use franken_mo_e_cuda.Router.Chain.{
  Chain, Node, topk, weights, nodes, node, open_layer, close_drop_layer, learn_from, late, load,
  apply, weigh, loaded_layers, due, routed_layers,
}
use franken_mo_e_cuda.Router.Once.{pending, nodes-loaded}
use franken_mo_e_cuda.Router.Rank.{better, scan, picks, rank_top_k}
use franken_mo_e_cuda.Router.TopK.{Ranking}
use franken_mo_e_cuda.Router.Substitute.{
  Tensor, null, tensor, view, argsort, other, Logs, Scores, Routing, walk, scores_of, log_score,
  span_from, widen, is_finite, boost, boosted, had_from, changed, write_picks, place, margin,
  ranking, substitute_token, substitute_tokens, is_resident, all_experts, apply_substitute,
}
use franken_mo_e_cuda.Router.Substituted.{GoesTo, apply_substitute-Retaken}
use franken_mo_e_cuda.Router.Drop.{
  Arithmetic, ExpertSource, Drop, row_from, rows_from, entry, best_from, best_slot, total_from,
  drops, drop_slot, drop_row, scale_slots, renorm, drop_token, drop_tokens, decide, load_ids,
  apply_drop, vector,
}
use franken_mo_e_cuda.Router.Dropped.{Applied, apply_drop-Applied}

-- 0.5, 2, 1 and 2.
abbrev scores : ℕ → Float32
scores e =
    if e == 0
    then record { bits = 1056964608 }
    else if e == 2
    then one_f
    else record { bits = 1073741824 }

source_program : Unit {0}
unfolding load_layer Load.load_bound Load.settle Load.evict_cold Load.stage_all Load.stage_ids
    Load.stage_rest Load.stage_left Load.stage_expert Load.stage_new Load.stage_again Load.stage
    Load.asked Load.read_batch Load.read_inline Load.read_pool Load.account_demand Load.settle_spec
    quiesce_spec Spec.integrate Spec.release_touched Spec.enter_spec Spec.expert_jobs
    Layout.entry_bytes Entries.layer_of Entries.expert_of Entries.touch_entry Entries.touch_hit
    Entries.enter_entry Entries.commit_slices Entries.commit_proj_pages Entries.evict_while
    Entries.may_evict Entries.evict_tail Entries.evict_entry Entries.release_entry_pages
    Entries.release_slices Entries.release_slice Entries.query_residency Entries.residency_of
    lru_unlink lru_push_front lru_push_back
source_program = tt

program : Unit {0}
unfolding better scan picks rank_top_k row_from rows_from entry best_from best_slot total_from drops
    drop_slot drop_row scale_slots renorm drop_token drop_tokens decide load_ids apply_drop has
    ltb_f is_nan magnitude rank
program = tt

rank_state : rank_top_k scores 4 3 ≡ 1 ∷ 3 ∷ 2 ∷ []
unfolding program
rank_state = refl

-- Stand-ins for the arithmetic; the quotient is 1.
abbrev arithmetic : Arithmetic
arithmetic = record {
  add = λ x y. record { bits = x.bits + y.bits };
  mul = λ x y. y;
  div = λ x y. one_f;
  of_nat = λ n. one_f;
}

-- Expert 5 is a miss, and each load succeeds; the state counts the calls.
abbrev source : ExpertSource ℕ
source = record {
  settle_spec = λ s. s;
  query_residency = λ il ids s. map (λ i. if i ==ℤ pos 5 then 0 else 1) ids;
  load_layer = λ il ids s. (true, s + 1);
}

-- Token 0 goes to experts 4 and 5, token 1 to 5 and 6; slot 0 has the weight 2, slot 1 has 0.5.
abbrev routing : Drop
routing = record {
  layer = 3;
  nu = 2;
  nt = 2;
  drop_frac = one_f;
  drop_renorm = false;
  weights = λ t k. if k == 0 then record { bits = 1073741824 } else record { bits = 1056964608 };
  ids = λ t k. pos (4 + t + k);
  drop_ids = λ t k. pos (4 + t + k);
  drop_mask = λ t k. false;
  experts_dropped = 0;
  fatal = false;
  deferred = true;
}

-- The policy over the streaming source of the small model: no expert is resident, expert 1 is below
-- the threshold.
abbrev cold_routing : Drop
cold_routing = record routing { layer = 1; nt = 1; ids = λ t k. pos k; drop_ids = λ t k. pos k }

cold_state :
    (vector (apply_drop arithmetic (streaming grants reads_all small) fresh cold_routing).0.ids 2 1
      ≡ pos 0 ∷ pos 0 ∷ [])
    × ((apply_drop arithmetic (streaming grants reads_all small) fresh cold_routing).0.fatal
        ≡ false)
unfolding program source_program
cold_state = (refl, refl)

apply_drop-resident_example :
    (apply_drop arithmetic (streaming grants reads_all small) fresh cold_routing).1.cache.valid
      (entry_id small 1 0)
    ≡ true
unfolding program source_program
apply_drop-resident_example =
    apply_drop-resident grants reads_all small arithmetic fresh cold_routing 1 cold-IsValid tt
      (λ z. omega (arith, z)) refl (λ t k lt lk. refl) refl 0 1 0 (omega arith) (omega arith) refl

-- Expert 5 is dropped where it has the lower weight.
drop_state :
    (vector (apply_drop arithmetic source 0 routing).0.ids 2 2 ≡ pos 4 ∷ pos 4 ∷ pos 5 ∷ pos 6 ∷ [])
    × ((apply_drop arithmetic source 0 routing).0.weights 0 1 ≡ zero_f)
    × ((apply_drop arithmetic source 0 routing).0.experts_dropped ≡ 1)
    × ((apply_drop arithmetic source 0 routing).1 ≡ 1)
unfolding program
drop_state = (refl, refl, refl, refl)

apply_drop-Applied_example :
    Applied arithmetic source 0 routing
      (apply_drop arithmetic source 0 routing).0
      (apply_drop arithmetic source 0 routing).1
apply_drop-Applied_example = apply_drop-Applied arithmetic source 0 routing

-- Two graphs of two layers. In the second the end of each weight chain is known, so both layers are
-- deferred; the end of layer 1 does not come.
abbrev graph : List Node
graph =
    topk 0 true (pos 4 ∷ [])
    ∷ weights 0 0
    ∷ weights 0 2
    ∷ topk 1 true (pos 5 ∷ [])
    ∷ weights 1 2
    ∷ topk 0 true (pos 6 ∷ [])
    ∷ weights 0 0
    ∷ weights 0 2
    ∷ topk 1 true (pos 7 ∷ [])
    ∷ weights 1 0
    ∷ []

abbrev closed : Chain
closed = record {
  layer = none;
  deferred = false;
  chain_last = none;
  term_variant = λ il. none;
  drop_ids = [];
  loads = [];
}

abbrev as_routed : ℕ → List ℤ → List ℤ
as_routed il ids = ids

chain_program : Unit {0}
unfolding nodes node open_layer close_drop_layer learn_from late load apply weigh loaded_layers due
    routed_layers pending
chain_program = tt

graph_state :
    (loaded_layers (nodes 2 as_routed graph closed).loads ≡ 0 ∷ 1 ∷ 0 ∷ [])
    × (pending (nodes 2 as_routed graph closed) ≡ 1 ∷ [])
    × ((close_drop_layer 2 as_routed (nodes 2 as_routed graph closed)).term_variant 1 ≡ none)
unfolding chain_program
graph_state = (refl, refl, refl)

nodes-loaded_example :
    (loaded_layers (nodes 2 as_routed graph closed).loads
        ++ pending (nodes 2 as_routed graph closed)
      ≡ [] ++ routed_layers graph)
    × (loaded_layers (close_drop_layer 2 as_routed (nodes 2 as_routed graph closed)).loads
        ≡ [] ++ routed_layers graph)
unfolding chain_program
nodes-loaded_example = nodes-loaded 2 as_routed graph closed (λ il ids. refl) refl

-- Expert 1 is a miss, the margin is 1; the token goes to experts 1 and 3.
abbrev sorted_ids : Tensor
sorted_ids =
    tensor view true false 2 1 (λ j e. zero_f)
      (tensor argsort true false 4 1 (λ j e. zero_f)
        (tensor other true true 4 1 (λ j e. scores e) null))

abbrev logs : Logs
logs = record { log = λ x. x; sub = λ x y. one_f }

abbrev missing_one : ExpertSource ℕ
missing_one = record source {
  query_residency = λ il ids s. map (λ i. if i ==ℤ pos 1 then 0 else 1) ids;
}

abbrev two_slots : Routing
two_slots = record {
  ids = λ j k. if k == 0 then pos 1 else pos 3;
  experts_reranked = 0;
  experts_substituted = 0;
}

abbrev row_scores : Scores
row_scores = record { ne = 4; row = λ j e. scores e }

substitute_program : Unit {0}
unfolding program walk scores_of log_score span_from widen is_finite boost boosted had_from changed
    write_picks place substitute_token substitute_tokens is_resident apply_substitute
substitute_program = tt

substitute_state :
    (vector
        (apply_substitute arithmetic logs missing_one 2 one_f 1 2 1 sorted_ids two_slots 0).0.ids
        2
        1
      ≡ pos 3 ∷ pos 2 ∷ [])
    × ((apply_substitute arithmetic logs missing_one 2 one_f 1 2 1 sorted_ids two_slots
          0).0.experts_substituted
        ≡ 1)
unfolding substitute_program
substitute_state = (refl, refl)

apply_substitute-Retaken_example :
    let v = (apply_substitute arithmetic logs missing_one 2 one_f 1 2 1 sorted_ids two_slots 0).0 in
    let resident = is_resident (missing_one.query_residency 1 (all_experts 4) 0) in
    let m = margin arithmetic logs one_f resident row_scores 2 0 in
    let picks = ranking arithmetic logs one_f resident row_scores 2 0 in
    (length picks ≡ 2)
    × Ranking (boosted arithmetic resident m scores) 4 picks
    × (ltb_f zero_f m ≡ true → GoesTo 2 v.ids 0 picks)
    × (ltb_f zero_f m ≡ false → v.ids 0 ≡ two_slots.ids 0)
unfolding substitute_program
apply_substitute-Retaken_example =
    apply_substitute-Retaken arithmetic logs missing_one 2 one_f 1 2 1 sorted_ids two_slots 0
      row_scores (omega arith) (omega arith) (omega arith) refl 0 (omega arith)
