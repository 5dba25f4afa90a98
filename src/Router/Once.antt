-- ===== src/Router/Once.antt =====
-- moe/router_hook.cpp: that every routing is loaded once.
use franken_mo_e_cuda.Prelude.{
  ℕ, ◌≡◌, refl, sym, ap, ◌∙◌, Bool, true, false, ◌&&◌, not, Option, none, some, List, [], ◌∷◌, ◌++◌,
  ltb, ◌==◌, if◌then◌else◌, Option-cases, Bool-cases, inl, inr, arith, ==_iff,
}
use mathlib.Core.List.{append-nil, append_assoc}
use franken_mo_e_cuda.Prelude.Int.{ℤ}
use franken_mo_e_cuda.Router.Chain.{
  Chain, Node, topk, weights, load, known, learn, learn_from, late, close_drop_layer, open_layer,
  apply, ends, weigh, node, nodes, loaded_layers, due, routed_layers,
}

-- The layer whose routing is still to be loaded.
unfoldable pub pending : Chain → List ℕ
pending w = elim w.layer [ none ↦ [] | some il ↦ if w.deferred then due il w.drop_ids else [] ]

loaded_layers-snoc :
    (ls : List (ℕ × List ℤ)) (l : ℕ × List ℤ)
    → loaded_layers (ls ++ l ∷ []) ≡ loaded_layers ls ++ l.0 ∷ []
unfolding loaded_layers
loaded_layers-snoc [] l = refl
loaded_layers-snoc (x ∷ xs) l = ap (◌∷◌ x.0) (loaded_layers-snoc xs l)

load-due :
    (il : ℕ) (ids : List ℤ) (w : Chain)
    → loaded_layers (load il ids w).loads ≡ loaded_layers w.loads ++ due il ids
unfolding load due
load-due il [] w = sym (append-nil (loaded_layers w.loads))
load-due il (i ∷ is) w = loaded_layers-snoc w.loads (il, i ∷ is)

load-same :
    (il : ℕ) (ids : List ℤ) (w : Chain) → load il ids w ≡ record w { loads = (load il ids w).loads }
unfolding load
load-same il [] w = refl
load-same il (i ∷ is) w = refl

not_deferred : (w : Chain) → w.deferred ≡ false → pending w ≡ []
unfolding pending
not_deferred w k = elim (Option-cases w.layer) [
  | inl e ↦ simp (e, pending) refl
  | inr (il, e) ↦ simp (e, k, pending) refl
]

module _ (n_layer : ℕ) (decide : ℕ → List ℤ → List ℤ) where
  learn_from-same :
      (o : Option ℕ) (il : ℕ) (w : Chain)
      → learn_from n_layer decide o il w
        ≡ record w { term_variant = (learn_from n_layer decide o il w).term_variant }
  unfolding learn_from
  learn_from-same none il w = refl
  learn_from-same (some v) il w =
      elim (Bool-cases (ltb il n_layer && not (known n_layer decide il w))) [
        | inl k ↦ rw (k, learn_from) refl
        | inr k ↦ rw (k, learn_from) refl
      ]

  late-loads :
      (il : ℕ) (w : Chain)
      → loaded_layers (late n_layer decide il w).loads
        ≡ loaded_layers w.loads ++ (if w.deferred then due il w.drop_ids else [])
  unfolding late
  late-loads il w = elim (Bool-cases w.deferred) [
    | inl k ↦ simp (k, late) (load-due il w.drop_ids w)
    | inr k ↦ simp (k, late) (sym (append-nil (loaded_layers w.loads)))
  ]

  close-loads :
      (w : Chain)
      → loaded_layers (close_drop_layer n_layer decide w).loads ≡ loaded_layers w.loads ++ pending w
  unfolding close_drop_layer pending
  close-loads w = elim (Option-cases w.layer) [
    | inl e ↦ simp (e, close_drop_layer, pending) (sym (append-nil (loaded_layers w.loads)))
    | inr (il, e) ↦
        let u = learn n_layer decide il w in
        let same = learn_from-same w.chain_last il w in
        simp (e, close_drop_layer, pending)
          (late-loads il u
            ∙ ap {A = Chain}
                (λ x. loaded_layers x.loads ++ (if x.deferred then due il x.drop_ids else [])) same)
  ]

  open-loads :
      (il : ℕ) (armed : Bool) (ids : List ℤ) (w : Chain)
      → let v = open_layer n_layer decide il armed ids w in
        loaded_layers v.loads ++ pending v ≡ loaded_layers w.loads ++ due il ids
  unfolding open_layer pending
  open-loads il armed ids w =
      let opened : Chain = record w {
        layer = some il;
        deferred = armed && known n_layer decide il w;
        chain_last = none;
      } in
      elim (Bool-cases (armed && known n_layer decide il w)) [
        | inl k ↦ simp (k, open_layer) refl
        | inr k ↦
            simp (k, open_layer)
              (let shut : Chain = record w {
                layer = some il;
                deferred = false;
                chain_last = none;
              } in
                ap (λ x. loaded_layers (load il ids shut).loads ++ x)
                  (ap pending (load-same il ids shut)
                    ∙ not_deferred (record shut { loads = (load il ids shut).loads }) refl)
                ∙ append-nil _
                ∙ load-due il ids shut)
      ]

  -- The policy loads a routing of a layer if there is one.
  abbrev pub KeepsRouting : Type 0
  KeepsRouting = (il : ℕ) (ids : List ℤ) → due il (decide il ids) ≡ due il ids

  apply-loads :
      (il : ℕ) (w : Chain)
      → KeepsRouting
      → w.deferred ≡ true
      → w.layer ≡ some il
      → loaded_layers (apply n_layer decide il w).loads ++ pending (apply n_layer decide il w)
        ≡ loaded_layers w.loads ++ pending w
  unfolding apply pending
  apply-loads il w keeps k e =
      let done = apply n_layer decide il w in
      ap (λ x. loaded_layers done.loads ++ x) (not_deferred done refl)
      ∙ append-nil _
      ∙ load-due il (decide il w.drop_ids) w
      ∙ ap (λ x. loaded_layers w.loads ++ x) (keeps il w.drop_ids)
      ∙ simp (e, k, pending) refl

  weigh-loads :
      (il variant : ℕ) (w : Chain)
      → KeepsRouting
      → w.layer ≡ some il
      → loaded_layers (weigh n_layer decide il variant w).loads
          ++ pending (weigh n_layer decide il variant w)
        ≡ loaded_layers w.loads ++ pending w
  unfolding weigh pending
  weigh-loads il variant w keeps e =
      let seen : Chain = record w { chain_last = some variant } in
      elim (Bool-cases (w.deferred && ends n_layer decide il variant w)) [
        | inl k ↦ rw (k, weigh) (apply-loads il seen keeps (ground (arith, k)) e)
        | inr k ↦ rw (k, weigh) refl
      ]

  node-loads :
      (n : Node) (w : Chain)
      → KeepsRouting
      → loaded_layers (node n_layer decide n w).loads ++ pending (node n_layer decide n w)
        ≡ loaded_layers w.loads ++ pending w ++ routed_layers (n ∷ [])
  unfolding node routed_layers
  node-loads (topk il armed ids) w keeps =
      let v = close_drop_layer n_layer decide w in
      open-loads il armed ids v
      ∙ ap (λ x. x ++ due il ids) (close-loads w)
      ∙ ap (λ x. loaded_layers w.loads ++ pending w ++ x) (sym (append-nil (due il ids)))
  node-loads (weights il variant) w keeps = elim (Option-cases w.layer) [
    | inl e ↦ simp (e, node) (sym (append-nil _))
    | inr (l, e) ↦ elim (Bool-cases (l == il)) [
      | inl q ↦
          let same : l ≡ il = (==_iff l il).0 q in
          simp (e, q, node) (weigh-loads il variant w keeps (e ∙ ap some same) ∙ sym (append-nil _))
      | inr q ↦ simp (e, q, node) (sym (append-nil _))
    ]
  ]

  routed_layers-cons :
      (n : Node) (ns : List Node)
      → routed_layers (n ∷ ns) ≡ routed_layers (n ∷ []) ++ routed_layers ns
  unfolding routed_layers
  routed_layers-cons (topk il armed ids) ns =
      ap (λ x. x ++ routed_layers ns) (sym (append-nil (due il ids)))
  routed_layers-cons (weights il variant) ns = refl

  nodes-loads :
      (ns : List Node) (w : Chain)
      → KeepsRouting
      → loaded_layers (nodes n_layer decide ns w).loads ++ pending (nodes n_layer decide ns w)
        ≡ loaded_layers w.loads ++ pending w ++ routed_layers ns
  unfolding nodes routed_layers
  nodes-loads [] w keeps = sym (append-nil _)
  nodes-loads (n ∷ ns) w keeps =
      nodes-loads ns (node n_layer decide n w) keeps
      ∙ ap (λ x. x ++ routed_layers ns) (node-loads n w keeps)
      ∙ append_assoc (loaded_layers w.loads ++ pending w) (routed_layers (n ∷ []))
          (routed_layers ns)
      ∙ ap (λ x. loaded_layers w.loads ++ pending w ++ x) (sym (routed_layers-cons n ns))

-- From a state with nothing deferred, whatever the nodes offered, in whatever order, and whichever layers
-- are deferred: the layers loaded are those whose topk node had a routing that is not empty, once
-- each and in the order of the nodes, but for the last of them while it is deferred; closing the open
-- layer loads that one too. The policy makes of a routing that is not empty one that is not, and of an
-- empty one an empty one.
pub nodes-loaded :
    (n_layer : ℕ) (decide : ℕ → List ℤ → List ℤ) (ns : List Node) (w : Chain)
    → KeepsRouting n_layer decide
    → w.deferred ≡ false
    → let v = nodes n_layer decide ns w in
      (loaded_layers v.loads ++ pending v ≡ loaded_layers w.loads ++ routed_layers ns)
      × (loaded_layers (close_drop_layer n_layer decide v).loads
          ≡ loaded_layers w.loads ++ routed_layers ns)
nodes-loaded n_layer decide ns w keeps k =
    let all =
      nodes-loads n_layer decide ns w keeps
      ∙ ap (λ x. loaded_layers w.loads ++ x ++ routed_layers ns) (not_deferred w k)
      ∙ ap (λ x. x ++ routed_layers ns) (append-nil (loaded_layers w.loads)) in
    (all, close-loads n_layer decide (nodes n_layer decide ns w) ∙ all)
