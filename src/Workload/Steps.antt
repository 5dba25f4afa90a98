-- ===== src/Workload/Steps.antt =====
-- What one call does to a recording without an error, and to a replay that follows it.
use franken_mo_e_cuda.Prelude.{
  ℕ, ◌+◌, ◌*◌, ◌≡◌, Bool, true, ◌&&◌, none, some, List, [], ◌∷◌, ◌++◌, length, get_elem?, refl, sym,
  Bool-cases, inl, inr, ◌==◌, take, ==_iff,
}
use franken_mo_e_cuda.Prelude.Int.{ℤ, pos_part, eq→==ℤ}
use franken_mo_e_cuda.Workload.{
  Workload, capturing, replaying, Route, capture_topk, replay_topk, replay_route, same_shape,
  route_of, token, fail,
}
use franken_mo_e_cuda.Workload.Run.{
  topk, tok, routed, selected, step, answer_ids, answer_token, answer_captured,
}

pub capture_step_topk :
    (l k n : ℤ) (ids : List ℤ) (w : Workload)
    → w.mode ≡ capturing
    → w.error ≡ none
    → step (topk l k n ids) w ≡ (
      routed (take (pos_part k * pos_part n) ids),
      record w { routes = w.routes ++ route_of l k n ids w ∷ [] },
    )
unfolding step capture_topk answer_captured
capture_step_topk l k n ids w m h = simp (m, h, step, capture_topk) refl

and_true : {a b : Bool} → a ≡ true → b ≡ true → (a && b) ≡ true
and_true h k = simp (h, k) refl

pub same_shape_of :
    (l k n : ℤ) (ids : List ℤ) (w r : Workload)
    → r.batch_phase ≡ w.batch_phase
    → r.batch_base_pos ≡ w.batch_base_pos
    → r.batch_n ≡ w.batch_n
    → same_shape (route_of l k n ids w) l k n r ≡ true
unfolding same_shape route_of
same_shape_of l k n ids w r p b s =
    let same = λ (x : ℤ). eq→==ℤ x x refl in
    let phase = eq→==ℤ w.batch_phase r.batch_phase (sym p) in
    let base = eq→==ℤ w.batch_base_pos r.batch_base_pos (sym b) in
    let size = eq→==ℤ w.batch_n r.batch_n (sym s) in
    and_true (and_true (and_true (and_true (and_true phase base) size) (same l)) (same k)) (same n)

pub replay_step_topk :
    (l k n : ℤ) (ids : List ℤ) (x : Route) (r : Workload)
    → r.mode ≡ replaying
    → r.error ≡ none
    → get_elem? r.routes r.route_cursor ≡ some x
    → same_shape x l k n r ≡ true
    → step (topk l k n ids) r ≡ (routed x.ids, record r { route_cursor = r.route_cursor + 1 })
unfolding step replay_topk answer_ids replay_route
replay_step_topk l k n ids x r m h g s = simp (m, h, g, s, step, replay_topk, replay_route) refl

pub capture_step_tok :
    (i : ℕ) (t : ℤ) (w : Workload)
    → w.mode ≡ capturing
    → w.error ≡ none
    → (step (tok i t) w).1.error ≡ none
    → (i ≡ length w.output_tokens)
      × (step (tok i t) w ≡ (selected t, record w { output_tokens = w.output_tokens ++ t ∷ [] }))
unfolding step token answer_token fail
capture_step_tok i t w m h ok = elim (Bool-cases (i == length w.output_tokens)) [
  | inl b ↦ ((==_iff _ _).0 b, simp (m, h, b, token) refl)
  | inr b ↦ absurd (cc (simp (m, h, b, token, fail) at ok))
]

pub replay_step_tok :
    (i : ℕ) (t u : ℤ) (r : Workload)
    → r.mode ≡ replaying
    → r.error ≡ none
    → get_elem? r.output_tokens i ≡ some u
    → step (tok i t) r ≡ (selected u, r)
unfolding step token answer_token
replay_step_tok i t u r m h g = simp (m, h, g, token) refl
