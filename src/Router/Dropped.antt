-- ===== src/Router/Dropped.antt =====
-- moe/router_hook.cpp, apply_drop(): the whole routing, and what is loaded.
use franken_mo_e_cuda.Prelude.{
  ℕ, zero, suc, ◌+◌, ◌≤◌, ◌<◌, ◌≡◌, refl, ap, sym, ◌∙◌, Bool, false, ◌||◌, not, arith, ◌==◌,
  if◌then◌else◌, Bool-cases, inl, inr, List, [], ◌∷◌, ==_iff,
}
use franken_mo_e_cuda.Prelude.Int.{ℤ}
use franken_mo_e_cuda.Config.Float.{Float32, ltb_f, is_nan}
use franken_mo_e_cuda.Router.Drop.{
  Arithmetic, Slots, Drop, ExpertSource, drops, best_from, best_slot, drop_token, drop_tokens,
  decide, entry, route_miss, vector, row_from, rows_from, load_ids, apply_drop,
}
use franken_mo_e_cuda.Router.TopK.{not_self, ltb_f_trans}
use franken_mo_e_cuda.Router.Renorm.{drop_token-TokenDone}
use franken_mo_e_cuda.Router.Policy.{Policy, Same, Policy-before, test_of, drop_tokens-Policy}

best_from-lt : (w : ℕ → Float32) (m k best n : ℕ) → k + m ≤ n → best < n → best_from w m k best < n
unfolding best_from
best_from-lt w zero k best n le lt = lt
best_from-lt w (suc m) k best n le lt =
    best_from-lt w m (suc k) (if ltb_f (w best) (w k) then k else best) n (omega (arith, le))
      (ground (arith, le, lt))

NotBeaten : (ℕ → Float32) → ℕ → ℕ → Type 0
NotBeaten w best k = (e : ℕ) → e < k → ltb_f (w best) (w e) ≡ false

best_from-NotBeaten :
    (w : ℕ → Float32) (m k best : ℕ)
    → ((e : ℕ) → e < k + m → is_nan (w e) ≡ false)
    → NotBeaten w best k
    → NotBeaten w (best_from w m k best) (k + m)
unfolding best_from NotBeaten
best_from-NotBeaten w zero k best nn h = λ e lt. h e (omega (arith, lt))
best_from-NotBeaten w (suc m) k best nn h = λ e lt.
    let step : NotBeaten w (if ltb_f (w best) (w k) then k else best) (suc k) = λ d ld.
      elim (Bool-cases (ltb_f (w best) (w k))) [
        | inl up ↦ rw up (elim (Bool-cases (d == k)) [
          | inl q ↦ rw ((==_iff d k).0 q) (not_self (w k))
          | inr q ↦
              let less : d < k = ground (arith, ld, q) in
              ltb_f_trans (w best) (w k) (w d) (nn k (omega arith)) (nn d (omega (arith, less))) up
                (h d less)
        ])
        | inr down ↦ rw down (elim (Bool-cases (d == k)) [
          | inl q ↦ rw ((==_iff d k).0 q) down
          | inr q ↦ h d (ground (arith, ld, q))
        ])
      ] in
    best_from-NotBeaten w m (suc k) _ (λ d ld. nn d (omega (arith, ld))) step e (omega (arith, lt))

-- The best slot of a row that is not empty is one of its slots; no weight exceeds its own, where none is a
-- not-a-number; and it is not dropped.
best_slot_lem :
    (thr : Float32) (w : Slots Float32) (miss : Slots Bool) (nu t : ℕ)
    → 0 < nu
    → (best_slot (w t) nu < nu)
      × (test_of thr w miss nu t (best_slot (w t) nu) ≡ false)
      × (((e : ℕ) → e < nu → is_nan (w t e) ≡ false) → NotBeaten (w t) (best_slot (w t) nu) nu)
unfolding best_slot drops NotBeaten
best_slot_lem thr w miss nu t h = (
  best_from-lt (w t) nu 0 0 nu (omega arith) h,
  ground arith,
  λ nn e lt.
      best_from-NotBeaten (w t) nu 0 0 (λ d ld. nn d (omega (arith, ld)))
        (λ d ld. absurd (omega (arith, ld))) e (omega (arith, lt)),
)

module _ {S : Type 0} (a : Arithmetic) (src : ExpertSource S) (s : S) (d : Drop) where
  -- The threshold, the misses that the source reports, and the test of each slot.
  abbrev pub threshold : Float32
  threshold = a.div d.drop_frac (a.of_nat d.nu)

  abbrev pub misses : Slots Bool
  misses j k =
      entry (src.query_residency d.layer (vector d.drop_ids d.nu d.nt) (src.settle_spec s)) d.nu j k
      == route_miss

  abbrev pub best_of : ℕ → ℕ
  best_of t = best_slot (d.weights t) d.nu

  abbrev pub is_dropped : ℕ → ℕ → Bool
  is_dropped = test_of threshold d.weights misses d.nu

  -- What apply_drop() leaves in `v` and in the state `after` of the source.
  pub record Applied (v : Drop) (after : S) : Type 0 where
    pub policy :
        (t : ℕ)
        → t < d.nt
        → Policy a
            (is_dropped t)
            (d.drop_ids t (best_of t))
            t
            (record d { drop_mask = λ j k. false })
            v
    pub live :
        (t : ℕ)
        → 0 < d.nu
        → (best_of t < d.nu)
          × (is_dropped t (best_of t) ≡ false)
          × (((e : ℕ) → e < d.nu → is_nan (d.weights t e) ≡ false)
              → (e : ℕ) → e < d.nu
              → ltb_f (d.weights t (best_of t)) (d.weights t e) ≡ false)
    pub agree :
        ((t k : ℕ) → t < d.nt → k < d.nu → d.ids t k ≡ d.drop_ids t k)
        → (t k : ℕ) → t < d.nt
        → k < d.nu
        → v.ids t k ≡ v.drop_ids t k
    pub loads :
        0 < d.nu
        → 0 < d.nt
        → let r = src.load_layer d.layer (vector v.drop_ids d.nu d.nt) (src.settle_spec s) in
          (after ≡ r.1) × (v.fatal ≡ (d.fatal || not r.0))

-- The parts of the state that the loops leave alone.
record Frame (d v : Drop) : Type 0 where
  layer : v.layer ≡ d.layer
  nu : v.nu ≡ d.nu
  nt : v.nt ≡ d.nt
  fatal : v.fatal ≡ d.fatal

drop_tokens-Frame :
    (a : Arithmetic) (thr : Float32) (w : Slots Float32) (miss : Slots Bool) (n j : ℕ) (d : Drop)
    → Frame d (drop_tokens a thr w miss n j d)
unfolding drop_tokens
drop_tokens-Frame a thr w miss zero j d = record {
  layer = refl;
  nu = refl;
  nt = refl;
  fatal = refl;
}
drop_tokens-Frame a thr w miss (suc n) j d =
    let e = (drop_token-TokenDone a thr w miss j d).same in
    let f = drop_tokens-Frame a thr w miss n (suc j) (drop_token a thr w miss j d) in
    record {
      layer = f.layer ∙ ap (λ y. y.layer) e;
      nu = f.nu ∙ ap (λ y. y.nu) e;
      nt = f.nt ∙ ap (λ y. y.nt) e;
      fatal = f.fatal ∙ ap (λ y. y.fatal) e;
    }

vector-some :
    (f : Slots ℤ) (nu nt : ℕ)
    → 0 < nu
    → 0 < nt
    → (i : ℤ) × (is : List ℤ) × (vector f nu nt ≡ i ∷ is)
unfolding rows_from row_from
vector-some f (suc m) (suc n) h k = (f 0 0, _, refl)
vector-some f zero nt h k = absurd (omega arith)
vector-some f (suc m) zero h k = absurd (omega arith)

-- The load changes nothing of the routing.
load_ids-same :
    {S : Type 0} (src : ExpertSource S) (is : List ℤ) (s : S) (d : Drop)
    → (load_ids src is s d).0 ≡ record d {
      deferred = (load_ids src is s d).0.deferred;
      fatal = (load_ids src is s d).0.fatal;
    }
unfolding load_ids
load_ids-same src [] s d = refl
load_ids-same src (i ∷ is) s d = refl

load_ids-loads :
    {S : Type 0} (src : ExpertSource S) (is : List ℤ) (s : S) (d : Drop)
    → (i : ℤ) × (js : List ℤ) × (is ≡ i ∷ js)
    → let r = src.load_layer d.layer is s in
      ((load_ids src is s d).1 ≡ r.1) × ((load_ids src is s d).0.fatal ≡ (d.fatal || not r.0))
unfolding load_ids
load_ids-loads src [] s d (i, js, e) = absurd (cc)
load_ids-loads src (i ∷ is) s d e = (refl, refl)

load_ids-Same :
    {S : Type 0} (src : ExpertSource S) (is : List ℤ) (s : S) (d : Drop) (t : ℕ)
    → Same t d (load_ids src is s d).0
load_ids-Same src is s d t =
    let e = load_ids-same src is s d in
    record {
      nu = ap (λ y. y.nu) e;
      on = ap (λ y. y.drop_renorm) e;
      ids = λ k. ap (λ y. y.ids t k) e;
      drop_ids = λ k. ap (λ y. y.drop_ids t k) e;
      mask = λ k. ap (λ y. y.drop_mask t k) e;
      weights = λ k. ap (λ y. y.weights t k) e;
    }

-- The cold-drop policy, whatever the source answers and whatever the arithmetic of floats: a slot is
-- dropped if it is not its token's best, its expert is a miss, and its weight is below the
-- threshold; a dropped slot has weight 0 and the id of the best slot, any other its id and its weight, or
-- its weight times one factor for the token if the policy renormalizes. The best slot is
-- never dropped, and no weight exceeds its own where none is a not-a-number. If the node's ids were those
-- gathered, they still are, and exactly these are handed to load_layer, once, where there is a
-- slot; a load that fails is fatal.
pub apply_drop-Applied :
    {S : Type 0} (a : Arithmetic) (src : ExpertSource S) (s : S) (d : Drop)
    → Applied a src s d (apply_drop a src s d).0 (apply_drop a src s d).1
unfolding apply_drop decide NotBeaten
apply_drop-Applied a src s d =
    let settled = src.settle_spec s in
    let res = src.query_residency d.layer (vector d.drop_ids d.nu d.nt) settled in
    let start : Drop = record d { drop_mask = λ j k. false } in
    let thr = threshold a src s d in
    let miss = misses a src s d in
    let u = decide a res d in
    let all = vector u.drop_ids u.nu u.nt in
    let v = (load_ids src all settled u).0 in
    let (rows, _) = drop_tokens-Policy a thr d.weights miss d.nt 0 start in
    let f = drop_tokens-Frame a thr d.weights miss d.nt 0 start in
    let policy : (t : ℕ)
        → t < d.nt
        → Policy a (is_dropped a src s d t) (d.drop_ids t (best_of a src s d t)) t start v =
      λ t lt.
        Policy-before a _ _ t start u v (rows t (omega arith) (omega (arith, lt)))
          (load_ids-Same src all settled u t) in
    let kept : v.drop_ids ≡ u.drop_ids = ap (λ y. y.drop_ids) (load_ids-same src all settled u) in
    record {
      policy = policy;
      live = λ t h. best_slot_lem thr d.weights miss d.nu t h;
      agree = λ same t k lt lk.
          (policy t lt).ids k lk
          ∙ ap (λ x. if is_dropped a src s d t k then d.drop_ids t (best_of a src s d t) else x)
              (same t k lt lk)
          ∙ sym ((policy t lt).drop_ids k lk);
      loads = λ h k.
          let r =
            load_ids-loads src all settled u (
              vector-some u.drop_ids u.nu u.nt (omega (arith, h, f.nu)) (omega (arith, k, f.nt))) in
          let calls : src.load_layer u.layer (vector u.drop_ids u.nu u.nt) settled
              ≡ src.load_layer d.layer (vector v.drop_ids d.nu d.nt) settled =
            rw (kept, f.layer, f.nu, f.nt) refl in
          rw (← calls) (
            r.0,
            r.1
                ∙ ap
                    (λ b. b || not (src.load_layer u.layer (vector u.drop_ids u.nu u.nt) settled).0)
                    f.fatal,
          );
    }
