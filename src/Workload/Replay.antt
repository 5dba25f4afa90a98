-- ===== src/Workload/Replay.antt =====
-- moe/deterministic_workload.cpp: replays against recordings.
use franken_mo_e_cuda.Prelude.{
  ℕ, ◌≡◌, true, none, some, List, [], ◌∷◌, ◌++◌, length, get_elem?, refl, sym, ◌∙◌, ap, arith, ◌==◌,
  ==_iff, length-append, subst, Prefix, Prefix-get,
}
use franken_mo_e_cuda.Prelude.Int.{ℤ}
use franken_mo_e_cuda.Workload.{
  Workload, capturing, replaying, begin_batch, route_of, finish, fresh, prompt, set_static,
}
use franken_mo_e_cuda.Workload.Steps.{
  capture_step_topk, same_shape_of, replay_step_topk, capture_step_tok, replay_step_tok,
}
use franken_mo_e_cuda.Workload.Run.{
  Call, topk, tok, Answer, step, run, Alike, ends, batches, topks, toks,
}
use franken_mo_e_cuda.Workload.Grows.{Grows, step-Grows, run-Grows}

-- The replay `r` of the recording `f` is where the recording was at `w`.
pub record Follows (f w r : Workload) : Type 0 where
  pub mode : r.mode ≡ replaying
  pub clean : r.error ≡ none
  pub routes : r.routes ≡ f.routes
  pub tokens : r.output_tokens ≡ f.output_tokens
  pub cursor : r.route_cursor ≡ length w.routes
  pub phase : r.batch_phase ≡ w.batch_phase
  pub base : r.batch_base_pos ≡ w.batch_base_pos
  pub size : r.batch_n ≡ w.batch_n

-- The same answer, and the replay still follows.
Agrees : Workload → Answer × Workload → Answer × Workload → Type 0
Agrees f x y = (y.0 ≡ x.0) × Follows f x.1 y.1

follow_topk :
    (l k n : ℤ) (ids other : List ℤ) (f w r : Workload)
    → w.mode ≡ capturing
    → w.error ≡ none
    → Grows (step (topk l k n ids) w).1 f
    → Follows f w r
    → Agrees f (step (topk l k n ids) w) (step (topk l k n other) r)
unfolding Agrees route_of
follow_topk l k n ids other f w r m h g a =
    let x = route_of l k n ids w in
    let e = capture_step_topk l k n ids w m h in
    let added : Prefix (w.routes ++ x ∷ []) f.routes =
      subst (λ v. Prefix v.1.routes f.routes) e g.routes in
    let at : get_elem? r.routes r.route_cursor ≡ some x =
      ap (λ l. get_elem? l r.route_cursor) a.routes
      ∙ ap (λ i. get_elem? f.routes i) a.cursor
      ∙ Prefix-get w.routes f.routes x added in
    let d =
      replay_step_topk l k n other x r a.mode a.clean at
        (same_shape_of l k n ids w r a.phase a.base a.size) in
    rw e (
      rw d (
        refl,
        record {
          mode = a.mode;
          clean = a.clean;
          routes = a.routes;
          tokens = a.tokens;
          cursor = omega (arith, a.cursor, length-append w.routes (x ∷ []));
          phase = a.phase;
          base = a.base;
          size = a.size;
        },
      ))

follow_tok :
    (i : ℕ) (t other : ℤ) (f w r : Workload)
    → w.mode ≡ capturing
    → w.error ≡ none
    → (step (tok i t) w).1.error ≡ none
    → Grows (step (tok i t) w).1 f
    → Follows f w r
    → Agrees f (step (tok i t) w) (step (tok i other) r)
unfolding Agrees
follow_tok i t other f w r m h ok g a =
    let (here, e) = capture_step_tok i t w m h ok in
    let added : Prefix (w.output_tokens ++ t ∷ []) f.output_tokens =
      subst (λ v. Prefix v.1.output_tokens f.output_tokens) e g.tokens in
    let at : get_elem? r.output_tokens i ≡ some t =
      ap (λ l. get_elem? l i) a.tokens
      ∙ ap (λ j. get_elem? f.output_tokens j) here
      ∙ Prefix-get w.output_tokens f.output_tokens t added in
    let d = replay_step_tok i other t r a.mode a.clean at in
    rw e (
      rw d (
        refl,
        record {
          mode = a.mode;
          clean = a.clean;
          routes = a.routes;
          tokens = a.tokens;
          cursor = a.cursor;
          phase = a.phase;
          base = a.base;
          size = a.size;
        },
      ))

cons_eq : {x y : Answer} {xs ys : List Answer} → x ≡ y → xs ≡ ys → (x ∷ xs) ≡ (y ∷ ys)
cons_eq {y = y} {xs = xs} p q = ap (λ z. z ∷ xs) p ∙ ap (λ l. y ∷ l) q

-- At every call.
follow_run :
    {cs ds : List Call}
    → Alike cs ds
    → (f w r : Workload) → w.mode ≡ capturing
    → f.error ≡ none
    → (run cs w).1 ≡ f
    → Follows f w r
    → ((run ds r).0 ≡ (run cs w).0) × Follows f f (run ds r).1
unfolding run step begin_batch Agrees
follow_run ends f w r m ok e a = (refl, subst (λ v. Follows f v r) e a)
follow_run (batches b n p q) f w r m ok e a =
    let moved : Follows f (begin_batch b n p w) (begin_batch b n p r) = record {
      mode = a.mode;
      clean = a.clean;
      routes = a.routes;
      tokens = a.tokens;
      cursor = a.cursor;
      phase = refl;
      base = refl;
      size = refl;
    } in
    let i = follow_run q f (begin_batch b n p w) (begin_batch b n p r) m ok e moved in
    (cons_eq refl i.0, i.1)
follow_run (topks l k n ids other {cs = cs} q) f w r m ok e a =
    let c = topk l k n ids in
    let g = step-Grows c w m in
    let left : Grows (step c w).1 f =
      subst (λ z. Grows (step c w).1 z) e (run-Grows cs (step c w).1 g.mode) in
    let now = follow_topk l k n ids other f w r m (g.clean (left.clean ok)) left a in
    let i = follow_run q f (step c w).1 (step (topk l k n other) r).1 g.mode ok e now.1 in
    (cons_eq now.0 i.0, i.1)
follow_run (toks i t other {cs = cs} q) f w r m ok e a =
    let c = tok i t in
    let g = step-Grows c w m in
    let left : Grows (step c w).1 f =
      subst (λ z. Grows (step c w).1 z) e (run-Grows cs (step c w).1 g.mode) in
    let now = follow_tok i t other f w r m (g.clean (left.clean ok)) (left.clean ok) left a in
    let i = follow_run q f (step c w).1 (step (tok i other) r).1 g.mode ok e now.1 in
    (cons_eq now.0 i.0, i.1)

finish_end : (f r : Workload) → Follows f f r → (finish (length f.output_tokens) r).0 ≡ true
unfolding finish
finish_end f r a =
    let routes_done : (r.route_cursor == length r.routes) ≡ true =
      (==_iff _ _).1 (a.cursor ∙ ap length (sym a.routes)) in
    let tokens_done : (length f.output_tokens == length r.output_tokens) ≡ true =
      (==_iff _ _).1 (ap length (sym a.tokens)) in
    simp (a.clean, a.mode, routes_done, tokens_done, finish) refl

-- A recording as a session begins it, with the model's numbers and the prompt.
unfoldable pub recording : List ℕ → ℤ → ℤ → List ℤ → Workload
recording arch n_layer n_expert_used tokens =
    (prompt tokens (set_static arch n_layer n_expert_used (fresh capturing))).1

-- The replay of a recording: its data, and nothing consumed.
unfoldable pub replay_of : Workload → Workload
replay_of f = record (fresh replaying) {
  arch = f.arch;
  n_layer = f.n_layer;
  n_expert_used = f.n_expert_used;
  prompt_tokens = f.prompt_tokens;
  output_tokens = f.output_tokens;
  routes = f.routes;
}

-- A run that makes the calls of a recorded one, whatever it computes itself, goes on at every call
-- with the recorded routing or token, and `finish` is content when as many tokens were emitted as
-- recorded. The hypotheses are that the calls have the same shapes in the same order, and that the
-- recording met no error.
pub replay-run :
    {cs ds : List Call}
    → Alike cs ds
    → (arch : List ℕ) → (n_layer n_expert_used : ℤ) → (tokens : List ℤ)
    → let recorded = run cs (recording arch n_layer n_expert_used tokens) in
      let replayed = run ds (replay_of recorded.1) in
      recorded.1.error ≡ none
      → (replayed.0 ≡ recorded.0) × ((finish (length recorded.1.output_tokens) replayed.1).0 ≡ true)
unfolding replay_of recording prompt set_static fresh
replay-run {cs = cs} {ds = ds} q arch n_layer n_expert_used tokens ok =
    let w = recording arch n_layer n_expert_used tokens in
    let f = (run cs w).1 in
    let i = follow_run q f w (replay_of f) refl ok refl (record {
      mode = refl;
      clean = refl;
      routes = refl;
      tokens = refl;
      cursor = refl;
      phase = refl;
      base = refl;
      size = refl;
    }) in
    (i.0, finish_end f (run ds (replay_of f)).1 i.1)
