-- ===== src/Router/Chain.antt =====
-- moe/router_hook.cpp, when the routing of a layer is loaded: at its topk node, at the node that ends
-- its weight chain, or when the next layer is opened. Whether a load succeeds, and the predictions and
-- traces around it, play no part here.
use franken_mo_e_cuda.Prelude.{
  ℕ, Bool, true, false, ◌&&◌, not, Option, none, some, List, [], ◌∷◌, ◌++◌, ltb, ◌==◌,
  if◌then◌else◌, update,
}
use franken_mo_e_cuda.Prelude.Int.{ℤ}

-- drop_.layer (`none` for -1) and drop_.deferred, chain_last_, term_variant_ and drop_ids_; `loads` is the
-- sequence of load_layer calls, oldest first.
pub record Chain : Type 0 where
  pub layer : Option ℕ
  pub deferred : Bool
  pub chain_last : Option ℕ
  pub term_variant : ℕ → Option ℕ
  pub drop_ids : List ℤ
  pub loads : List (ℕ × List ℤ)

-- What the hook is called with: a topk node of a layer with the gathered ids, and whether the drop
-- policy is armed; a weight node of a layer, by its place in kWeightNodes.
pub data Node : Type 0 where
  topk : ℕ → Bool → List ℤ → Node
  weights : ℕ → ℕ → Node

-- An empty routing is not loaded.
unfoldable pub load : ℕ → List ℤ → Chain → Chain
load il [] w = w
load il (i ∷ is) w = record w { loads = w.loads ++ (il, i ∷ is) ∷ [] }

-- `decide` is what apply_drop() makes of the routing of a layer before it loads it.
module _ (n_layer : ℕ) (decide : ℕ → List ℤ → List ℤ) where
  abbrev pub known : ℕ → Chain → Bool
  known il w = ltb il n_layer && elim (w.term_variant il) [ none ↦ false | some v ↦ true ]

  -- The end of the weight chain of layer `il` is learned where it was not known.
  unfoldable pub learn_from : Option ℕ → ℕ → Chain → Chain
  learn_from none il w = w
  learn_from (some v) il w =
      if ltb il n_layer && not (known il w)
      then record w { term_variant = update w.term_variant il (some v) }
      else w

  abbrev pub learn : ℕ → Chain → Chain
  learn il w = learn_from w.chain_last il w

  -- A deferral that was not honoured: the routing is loaded, and the end of the chain forgotten.
  unfoldable pub late : ℕ → Chain → Chain
  late il w =
      let loaded = load il w.drop_ids w in
      let forgotten = update w.term_variant il none in
      if w.deferred
      then record loaded {
        term_variant = if ltb il n_layer then forgotten else w.term_variant;
        deferred = false;
      }
      else w

  unfoldable pub close_drop_layer : Chain → Chain
  close_drop_layer w = elim w.layer [
    | none ↦ w
    | some il ↦ record (late il (learn il w)) { layer = none }
  ]

  -- A topk node, after the layer before it is closed.
  unfoldable pub open_layer : ℕ → Bool → List ℤ → Chain → Chain
  open_layer il armed ids w =
      let defer = armed && known il w in
      let opened = record w { layer = some il; deferred = defer; chain_last = none } in
      let loaded = load il ids opened in if defer then record opened { drop_ids = ids } else loaded

  -- A weight node of the open layer; at the end of its chain the policy decides.
  unfoldable pub apply : ℕ → Chain → Chain
  apply il w = record (load il (decide il w.drop_ids) w) { deferred = false }

  abbrev pub ends : ℕ → ℕ → Chain → Bool
  ends il variant w =
      ltb il n_layer && elim (w.term_variant il) [ none ↦ false | some v ↦ v == variant ]

  unfoldable pub weigh : ℕ → ℕ → Chain → Chain
  weigh il variant w =
      let seen = record w { chain_last = some variant } in
      let applied = apply il seen in if w.deferred && ends il variant w then applied else seen

  unfoldable pub node : Node → Chain → Chain
  node (topk il armed ids) w = open_layer il armed ids (close_drop_layer w)
  node (weights il variant) w = elim w.layer [
    | none ↦ w
    | some l ↦ elim (l == il) [ true ↦ weigh il variant w | false ↦ w ]
  ]

  unfoldable pub nodes : List Node → Chain → Chain
  nodes [] w = w
  nodes (n ∷ ns) w = nodes ns (node n w)

-- The layers that were loaded, and those that were routed somewhere, in order.
unfoldable pub loaded_layers : List (ℕ × List ℤ) → List ℕ
loaded_layers [] = []
loaded_layers (l ∷ ls) = l.0 ∷ loaded_layers ls

unfoldable pub due : ℕ → List ℤ → List ℕ
due il [] = []
due il (i ∷ is) = il ∷ []

unfoldable pub routed_layers : List Node → List ℕ
routed_layers [] = []
routed_layers (topk il armed ids ∷ ns) = due il ids ++ routed_layers ns
routed_layers (weights il variant ∷ ns) = routed_layers ns
