-- ===== src/Workload/Grows.antt =====
-- moe/deterministic_workload.cpp: what a capture only adds to.
use franken_mo_e_cuda.Prelude.{
  ℕ, ◌*◌, ◌≡◌, none, List, [], ◌∷◌, length, refl, Bool-cases, Option-cases, inl, inr, ◌==◌, take,
  Prefix, Prefix-refl, Prefix-snoc, Prefix-trans,
}
use franken_mo_e_cuda.Prelude.Int.{ℤ, pos_part}
use franken_mo_e_cuda.Workload.{
  Workload, capturing, Error, token_not_sequential, begin_batch, capture_topk, route_of, token,
  fail,
}
use franken_mo_e_cuda.Workload.Run.{
  Call, batch, topk, tok, step, run, answer_token, answer_captured,
}

-- Recording only adds at the ends, and an error stays.
pub record Grows (w v : Workload) : Type 0 where
  pub mode : v.mode ≡ capturing
  pub routes : Prefix w.routes v.routes
  pub tokens : Prefix w.output_tokens v.output_tokens
  pub clean : v.error ≡ none → w.error ≡ none

Grows-refl : (w : Workload) → w.mode ≡ capturing → Grows w w
Grows-refl w m = record {
  mode = m;
  routes = Prefix-refl w.routes;
  tokens = Prefix-refl w.output_tokens;
  clean = λ h. h;
}

Grows-trans : {w v u : Workload} → Grows w v → Grows v u → Grows w u
Grows-trans g h = record {
  mode = h.mode;
  routes = Prefix-trans _ _ _ g.routes h.routes;
  tokens = Prefix-trans _ _ _ g.tokens h.tokens;
  clean = λ e. g.clean (h.clean e);
}

fail-Grows : (e : Error) (w : Workload) → w.mode ≡ capturing → w.error ≡ none → Grows w (fail e w)
unfolding fail
fail-Grows e w m c =
    simp (c, fail)
      (record {
        mode = m;
        routes = Prefix-refl w.routes;
        tokens = Prefix-refl w.output_tokens;
        clean = λ h. c;
      })

topk-Grows :
    (l k n : ℤ) (ids : List ℤ) (w : Workload)
    → w.mode ≡ capturing
    → Grows w (answer_captured (take (pos_part k * pos_part n) ids) (capture_topk l k n ids w)).1
unfolding answer_captured capture_topk
topk-Grows l k n ids w m = elim (Option-cases w.error) [
  | inr (e, h) ↦ simp (h, capture_topk) (Grows-refl w m)
  | inl h ↦
      simp (h, capture_topk)
        (record {
          mode = m;
          routes = Prefix-snoc w.routes (route_of l k n ids w);
          tokens = Prefix-refl w.output_tokens;
          clean = λ q. h;
        })
]

token-Grows :
    (i : ℕ) (t : ℤ) (w : Workload) → w.mode ≡ capturing → Grows w (answer_token (token i t w)).1
unfolding answer_token token
token-Grows i t w m = elim (Option-cases w.error) [
  | inr (e, h) ↦ simp (h, token) (Grows-refl w m)
  | inl h ↦ elim (Bool-cases (i == length w.output_tokens)) [
    | inl b ↦
        simp (h, m, b, token)
          (record {
            mode = refl;
            routes = Prefix-refl w.routes;
            tokens = Prefix-snoc w.output_tokens t;
            clean = λ q. h;
          })
    | inr b ↦ simp (h, m, b, token) (fail-Grows token_not_sequential w m h)
  ]
]

pub step-Grows : (c : Call) (w : Workload) → w.mode ≡ capturing → Grows w (step c w).1
unfolding step begin_batch
step-Grows (batch b n p) w m = record {
  mode = m;
  routes = Prefix-refl w.routes;
  tokens = Prefix-refl w.output_tokens;
  clean = λ h. h;
}
step-Grows (topk l k n ids) w m = simp (m, step) (topk-Grows l k n ids w m)
step-Grows (tok i t) w m = token-Grows i t w m

pub run-Grows : (cs : List Call) (w : Workload) → w.mode ≡ capturing → Grows w (run cs w).1
unfolding run
run-Grows [] w m = Grows-refl w m
run-Grows (c ∷ cs) w m =
    let g = step-Grows c w m in Grows-trans g (run-Grows cs (step c w).1 g.mode)
