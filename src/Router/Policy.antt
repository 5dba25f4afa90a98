-- ===== src/Router/Policy.antt =====
-- moe/router_hook.cpp, apply_drop(): what the loop over the tokens does to each of them.
use franken_mo_e_cuda.Prelude.{
  ℕ, zero, suc, ◌+◌, ◌≤◌, ◌<◌, ◌≡◌, ◌≢◌, refl, ap, sym, subst, ◌∙◌, Bool, true, false, arith, ◌==◌,
  if◌then◌else◌, Bool-cases, inl, inr, ◌⊎◌, ==_iff,
}
use franken_mo_e_cuda.Prelude.Int.{ℤ}
use franken_mo_e_cuda.Config.Float.{Float32, zero_f}
use franken_mo_e_cuda.Router.Drop.{
  Arithmetic, Slots, Drop, drops, best_slot, drop_token, drop_tokens,
}
use franken_mo_e_cuda.Router.Renorm.{TokenDone, drop_token-TokenDone}

-- What becomes of the slots of token `t` from `d` to `v`: a slot that the test drops has the id
-- `best_id`, the weight 0 and its mark; another has its id, and its weight, or all of them the product of
-- their weight with one factor if the policy renormalizes.
pub record Policy (a : Arithmetic) (drop : ℕ → Bool) (best_id : ℤ) (t : ℕ) (d v : Drop)
    : Type 0 where
  pub ids : (s : ℕ) → s < d.nu → v.ids t s ≡ (if drop s then best_id else d.ids t s)
  pub drop_ids : (s : ℕ) → s < d.nu → v.drop_ids t s ≡ (if drop s then best_id else d.drop_ids t s)
  pub mask : (s : ℕ) → s < d.nu → d.drop_mask t s ≡ false → v.drop_mask t s ≡ drop s
  pub zeroed : (s : ℕ) → s < d.nu → drop s ≡ true → v.weights t s ≡ zero_f
  pub kept :
      ((s : ℕ) → s < d.nu → drop s ≡ false → v.weights t s ≡ d.weights t s)
      ⊎ ((g : Float32) × (d.drop_renorm ≡ true)
          × ((s : ℕ)
              → s < d.nu
              → drop s ≡ false
              → d.drop_mask t s ≡ false
              → v.weights t s ≡ a.mul (d.weights t s) g))

token-Policy :
    (a : Arithmetic) (drop : ℕ → Bool) (best_id : ℤ) (j : ℕ) (d v : Drop)
    → TokenDone a drop best_id j d v
    → Policy a drop best_id j d v
token-Policy a drop best_id j d v x = record {
  ids = λ s lt. x.ids j s ∙ ground (arith, lt);
  drop_ids = λ s lt. x.drop_ids j s ∙ ground (arith, lt);
  mask = λ s lt m. x.mask j s ∙ ground (arith, lt, m);
  zeroed = x.zeroed;
  kept = x.kept;
}

-- The slots of token `t` are as they were, and so is what the policy reads of the rest.
pub record Same (t : ℕ) (d v : Drop) : Type 0 where
  pub nu : v.nu ≡ d.nu
  pub on : v.drop_renorm ≡ d.drop_renorm
  pub ids : (s : ℕ) → v.ids t s ≡ d.ids t s
  pub drop_ids : (s : ℕ) → v.drop_ids t s ≡ d.drop_ids t s
  pub mask : (s : ℕ) → v.drop_mask t s ≡ d.drop_mask t s
  pub weights : (s : ℕ) → v.weights t s ≡ d.weights t s

token-Same :
    (a : Arithmetic) (drop : ℕ → Bool) (best_id : ℤ) (j t : ℕ) (d v : Drop)
    → t ≢ j
    → TokenDone a drop best_id j d v
    → Same t d v
token-Same a drop best_id j t d v ne x = record {
  nu = ap (λ y. y.nu) x.same;
  on = ap (λ y. y.drop_renorm) x.same;
  ids = λ s. x.ids t s ∙ ground (arith, ne);
  drop_ids = λ s. x.drop_ids t s ∙ ground (arith, ne);
  mask = λ s. x.mask t s ∙ ground (arith, ne);
  weights = λ s. x.elsewhere t s ne;
}

Same-trans : (t : ℕ) (d u v : Drop) → Same t d u → Same t u v → Same t d v
Same-trans t d u v p q = record {
  nu = q.nu ∙ p.nu;
  on = q.on ∙ p.on;
  ids = λ s. q.ids s ∙ p.ids s;
  drop_ids = λ s. q.drop_ids s ∙ p.drop_ids s;
  mask = λ s. q.mask s ∙ p.mask s;
  weights = λ s. q.weights s ∙ p.weights s;
}

-- A later token changes nothing of an earlier one, and an earlier one nothing of a later.
pub Policy-before :
    (a : Arithmetic) (drop : ℕ → Bool) (best_id : ℤ) (t : ℕ) (d u v : Drop)
    → Policy a drop best_id t d u
    → Same t u v
    → Policy a drop best_id t d v
Policy-before a drop best_id t d u v p q = record {
  ids = λ s lt. q.ids s ∙ p.ids s lt;
  drop_ids = λ s lt. q.drop_ids s ∙ p.drop_ids s lt;
  mask = λ s lt m. q.mask s ∙ p.mask s lt m;
  zeroed = λ s lt h. q.weights s ∙ p.zeroed s lt h;
  kept = elim p.kept [
    | inl k ↦ inl (λ s lt h. q.weights s ∙ k s lt h)
    | inr (g, on, k) ↦ inr (g, on, λ s lt h m. q.weights s ∙ k s lt h m)
  ];
}

Policy-after :
    (a : Arithmetic) (drop : ℕ → Bool) (best_id : ℤ) (t : ℕ) (d u v : Drop)
    → Same t d u
    → Policy a drop best_id t u v
    → Policy a drop best_id t d v
Policy-after a drop best_id t d u v q p =
    let below : (s : ℕ) → s < d.nu → s < u.nu = λ s lt. omega (arith, lt, q.nu) in
    record {
      ids = λ s lt. p.ids s (below s lt) ∙ ap (λ x. if drop s then best_id else x) (q.ids s);
      drop_ids = λ s lt.
          p.drop_ids s (below s lt) ∙ ap (λ x. if drop s then best_id else x) (q.drop_ids s);
      mask = λ s lt m. p.mask s (below s lt) (q.mask s ∙ m);
      zeroed = λ s lt h. p.zeroed s (below s lt) h;
      kept = elim p.kept [
        | inl k ↦ inl (λ s lt h. k s (below s lt) h ∙ q.weights s)
        | inr (g, on, k) ↦ inr (
          g,
          sym q.on ∙ on,
          λ s lt h m. k s (below s lt) h (q.mask s ∙ m) ∙ ap (λ x. a.mul x g) (q.weights s),
        )
      ];
    }

-- The test of a token's slots, and the id of its best slot.
abbrev pub test_of : Float32 → Slots Float32 → Slots Bool → ℕ → ℕ → ℕ → Bool
test_of thr w miss nu t = drops thr (w t) (miss t) (best_slot (w t) nu)

pub drop_tokens-Policy :
    (a : Arithmetic) (thr : Float32) (w : Slots Float32) (miss : Slots Bool) (n j : ℕ) (d : Drop)
    → ((t : ℕ)
        → j ≤ t
        → t < j + n
        → Policy a
            (test_of thr w miss d.nu t)
            (d.drop_ids t (best_slot (w t) d.nu))
            t
            d
            (drop_tokens a thr w miss n j d))
      × ((t : ℕ) → t < j → Same t d (drop_tokens a thr w miss n j d))
unfolding drop_tokens
drop_tokens-Policy a thr w miss zero j d = (
  λ t h1 h2. absurd (omega (arith, h1, h2)),
  λ t h. record {
    nu = refl;
    on = refl;
    ids = λ s. refl;
    drop_ids = λ s. refl;
    mask = λ s. refl;
    weights = λ s. refl;
  },
)
drop_tokens-Policy a thr w miss (suc n) j d =
    let u = drop_token a thr w miss j d in
    let v = drop_tokens a thr w miss n (suc j) u in
    let one = drop_token-TokenDone a thr w miss j d in
    let (rest, before) = drop_tokens-Policy a thr w miss n (suc j) u in
    let nu : u.nu ≡ d.nu = ap (λ y. y.nu) one.same in
    (
      λ t h1 h2. elim (Bool-cases (t == j)) [
        | inl e ↦
            let same : t ≡ j = (==_iff t j).0 e in
            rw same
              (Policy-before a _ _ j d u v (token-Policy a _ _ j d u one) (before j (omega arith)))
        | inr e ↦
            let ne : t ≢ j = λ q. absurd (ground (arith, e, q)) in
            let still = token-Same a _ _ j t d u ne one in
            let later = rest t (omega (arith, h1, ne)) (omega (arith, h2)) in
            let ids : u.drop_ids t (best_slot (w t) u.nu) ≡ d.drop_ids t (best_slot (w t) d.nu) =
              still.drop_ids (best_slot (w t) u.nu)
              ∙ ap (λ x. d.drop_ids t (best_slot (w t) x)) nu in
            Policy-after a _ _ t d u v still (
              subst (λ i. Policy a (test_of thr w miss d.nu t) i t u v) ids
                (subst
                  (λ x.
                    Policy a (test_of thr w miss x t) (u.drop_ids t (best_slot (w t) u.nu)) t u v)
                  nu later))
      ],
      λ t h.
          let ne : t ≢ j = λ q. omega (arith, q, h) in
          Same-trans t d u v (token-Same a _ _ j t d u ne one) (before t (omega (arith, h))),
    )
