-- ===== src/Router/Renorm.antt =====
-- moe/router_hook.cpp, apply_drop(): the renormalization, and a token as a whole.
use franken_mo_e_cuda.Prelude.{
  ℕ, zero, suc, ◌+◌, ◌<◌, ◌≡◌, ◌≢◌, refl, ap, sym, ◌∙◌, Bool, true, false, ◌&&◌, not, arith, ltb,
  ◌==◌, if◌then◌else◌, Bool-cases, inl, inr, ◌⊎◌,
}
use franken_mo_e_cuda.Prelude.Int.{ℤ}
use franken_mo_e_cuda.Config.Float.{Float32, ltb_f, zero_f}
use franken_mo_e_cuda.Router.Drop.{
  Arithmetic, Slots, put, Drop, Row, drops, drop_row, scale_slots, best_slot, total_from, renorm,
  drop_token,
}
use franken_mo_e_cuda.Router.Kept.{among, among_miss, among_none, Decided, drop_row-Decided}

record Scaled (a : Arithmetic) (g : Float32) (j k m : ℕ) (d v : Drop) : Type 0 where
  same : v ≡ record d { weights = v.weights }
  weights :
      (t s : ℕ)
      → v.weights t s ≡ (
          if among j k m (λ i. not (d.drop_mask j i)) t s
          then a.mul (d.weights t s) g
          else d.weights t s)

scaled_twice :
    (a : Arithmetic) (g : Float32) (j k m : ℕ) (test : ℕ → Bool) (f : Slots Float32) (t s : ℕ)
    → test k ≡ true
    → (let x = put f j k (a.mul (f j k) g) t s in
        if among j (suc k) m test t s then a.mul x g else x)
      ≡ (if among j k (suc m) test t s then a.mul (f t s) g else f t s)
scaled_twice a g j k m test f t s h = elim (Bool-cases (t == j)) [
  | inr n ↦ ground (arith, n)
  | inl y ↦
      let tj : t ≡ j = ground arith in
      elim (Bool-cases (s == k)) [
        | inl e ↦ let sk : s ≡ k = ground arith in rw (tj, sk) (ground (arith, h))
        | inr e ↦ rw tj (ground (arith, e))
      ]
]

scale_slots-Scaled :
    (a : Arithmetic) (g : Float32) (j m k : ℕ) (d : Drop)
    → Scaled a g j k m d (scale_slots a g j m k d)
unfolding scale_slots
scale_slots-Scaled a g j zero k d = record {
  same = refl;
  weights = λ t s. rw (among_none j k (λ i. not (d.drop_mask j i)) t s) refl;
}
scale_slots-Scaled a g j (suc m) k d = elim (Bool-cases (d.drop_mask j k)) [
  | inl h ↦
      let r = scale_slots-Scaled a g j m (suc k) d in
      let test : ℕ → Bool = λ i. not (d.drop_mask j i) in
      rw (h, scale_slots)
        (record {
          same = r.same;
          weights = λ t s.
              r.weights t s
              ∙ ap (λ b. if b then a.mul (d.weights t s) g else d.weights t s)
                  (among_miss j k m test t s (ground (arith, h)));
        })
  | inr h ↦
      let n : Drop = record d { weights = put d.weights j k (a.mul (d.weights j k) g) } in
      let r = scale_slots-Scaled a g j m (suc k) n in
      let v = scale_slots a g j m (suc k) n in
      let test : ℕ → Bool = λ i. not (d.drop_mask j i) in
      rw (h, scale_slots)
        (record {
          same = r.same;
          weights =
              λ t s. r.weights t s ∙ scaled_twice a g j k m test d.weights t s (ground (arith, h));
        })
]

-- What the loop does for token `j`, with the test `drop` of its slots and the id `best_id`.
pub record TokenDone (a : Arithmetic) (drop : ℕ → Bool) (best_id : ℤ) (j : ℕ) (d v : Drop)
    : Type 0 where
  pub same : v ≡ record d {
    weights = v.weights;
    ids = v.ids;
    drop_ids = v.drop_ids;
    drop_mask = v.drop_mask;
    experts_dropped = v.experts_dropped;
  }
  pub ids : (t s : ℕ) → v.ids t s ≡ (if among j 0 d.nu drop t s then best_id else d.ids t s)
  pub drop_ids :
      (t s : ℕ) → v.drop_ids t s ≡ (if among j 0 d.nu drop t s then best_id else d.drop_ids t s)
  pub mask :
      (t s : ℕ) → v.drop_mask t s ≡ (if among j 0 d.nu drop t s then true else d.drop_mask t s)
  pub elsewhere : (t s : ℕ) → t ≢ j → v.weights t s ≡ d.weights t s
  pub zeroed : (s : ℕ) → s < d.nu → drop s ≡ true → v.weights j s ≡ zero_f
  pub kept :
      ((s : ℕ) → s < d.nu → drop s ≡ false → v.weights j s ≡ d.weights j s)
      ⊎ ((g : Float32) × (d.drop_renorm ≡ true)
          × ((s : ℕ)
              → s < d.nu
              → drop s ≡ false
              → d.drop_mask j s ≡ false
              → v.weights j s ≡ a.mul (d.weights j s) g))

-- Without the scaling.
plain-TokenDone :
    (a : Arithmetic) (drop : ℕ → Bool) (best_id : ℤ) (j n : ℕ) (d : Drop) (r v : Row)
    → d ≡ r.at
    → Decided drop best_id j 0 d.nu r v
    → TokenDone a drop best_id j d (record v.at { experts_dropped = n })
plain-TokenDone a drop best_id j n d r v e x = rw e (record {
  same = ap {A = Drop} (λ y. record y { experts_dropped = n }) x.same;
  ids = rw e at x.ids;
  drop_ids = rw e at x.drop_ids;
  mask = rw e at x.mask;
  elsewhere = λ t s ne. x.weights t s ∙ ground (arith, ne);
  zeroed = λ s lt h. x.weights j s ∙ ground (arith, lt, h, e);
  kept = inl (λ s lt h. x.weights j s ∙ ground (arith, lt, h));
})

not_here :
    (a : Arithmetic) (g : Float32) (j m : ℕ) (test : ℕ → Bool) (t s : ℕ) (x : Float32)
    → t ≢ j
    → (if among j 0 m test t s then a.mul x g else x) ≡ x
not_here a g j m test t s x ne = ground (arith, ne)

after_scale-TokenDone :
    (a : Arithmetic) (g : Float32) (drop : ℕ → Bool) (best_id : ℤ) (j : ℕ) (d u v : Drop)
    → d.drop_renorm ≡ true
    → TokenDone a drop best_id j d u
    → ((s : ℕ) → s < d.nu → drop s ≡ false → u.weights j s ≡ d.weights j s)
    → Scaled a g j 0 u.nu u v
    → TokenDone a drop best_id j d v
after_scale-TokenDone a g drop best_id j d u v on p plain x =
    let nu : u.nu ≡ d.nu = ap (λ y. y.nu) p.same in
    let put_all : Drop → Drop = λ y. record y { weights = v.weights } in
    let at : (t s : ℕ)
        → v.weights t s ≡ (
            if among j 0 d.nu (λ i. not (u.drop_mask j i)) t s
            then a.mul (u.weights t s) g
            else u.weights t s) =
      λ t s. rw (← nu) (x.weights t s) in
    record {
      same =
          x.same
          ∙ ap put_all p.same
          ∙ ap {A = Drop}
              (λ y. record d {
                weights = v.weights;
                ids = y.ids;
                drop_ids = y.drop_ids;
                drop_mask = y.drop_mask;
                experts_dropped = y.experts_dropped;
              })
              (sym x.same);
      ids = λ t s. ap (λ y. y.ids t s) x.same ∙ p.ids t s;
      drop_ids = λ t s. ap (λ y. y.drop_ids t s) x.same ∙ p.drop_ids t s;
      mask = λ t s. ap (λ y. y.drop_mask t s) x.same ∙ p.mask t s;
      elsewhere = λ t s ne.
          at t s
          ∙ not_here a g j d.nu (λ i. not (u.drop_mask j i)) t s (u.weights t s) ne
          ∙ p.elsewhere t s ne;
      zeroed = λ s lt h.
          let masked : u.drop_mask j s ≡ true = p.mask j s ∙ ground (arith, lt, h) in
          at j s ∙ ground (arith, masked) ∙ p.zeroed s lt h;
      kept = inr (
        g,
        on,
        λ s lt h m.
            let open_slot : u.drop_mask j s ≡ false = p.mask j s ∙ ground (arith, h, m) in
            at j s ∙ ground (arith, open_slot, lt) ∙ ap (λ y. a.mul y g) (plain s lt h),
      );
    }

pub drop_token-TokenDone :
    (a : Arithmetic) (thr : Float32) (w : Slots Float32) (miss : Slots Bool) (j : ℕ) (d : Drop)
    → TokenDone a
        (drops thr (w j) (miss j) (best_slot (w j) d.nu))
        (d.drop_ids j (best_slot (w j) d.nu))
        j
        d
        (drop_token a thr w miss j d)
unfolding drop_token renorm
drop_token-TokenDone a thr w miss j d =
    let best = best_slot (w j) d.nu in
    let drop = drops thr (w j) (miss j) best in
    let r : Row = record { at = d; kept = zero_f; n_dropped = 0 } in
    let v = drop_row a (w j) drop (d.drop_ids j best) j d.nu 0 r in
    let x = drop_row-Decided a (w j) drop (d.drop_ids j best) j d.nu 0 r in
    let total = total_from a (w j) d.nu 0 zero_f in
    let u : Drop = record v.at { experts_dropped = v.at.experts_dropped + v.n_dropped } in
    let p =
      plain-TokenDone a drop (d.drop_ids j best) j (v.at.experts_dropped + v.n_dropped) d r v refl
        x in
    let plain : (s : ℕ) → s < d.nu → drop s ≡ false → u.weights j s ≡ d.weights j s =
      λ s lt h. x.weights j s ∙ ground (arith, lt, h) in
    elim (Bool-cases (u.drop_renorm && ltb 0 v.n_dropped && ltb_f zero_f v.kept)) [
      | inr k ↦ rw (k, drop_token, renorm) p
      | inl k ↦
          let on : d.drop_renorm ≡ true =
            ap (λ y. y.drop_renorm) (sym x.same) ∙ ground (arith, k) in
          rw (k, drop_token, renorm)
            (after_scale-TokenDone a (a.div total v.kept) drop (d.drop_ids j best) j d u _ on p
              plain (scale_slots-Scaled a (a.div total v.kept) j u.nu 0 u))
    ]
