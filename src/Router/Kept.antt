-- ===== src/Router/Kept.antt =====
-- moe/router_hook.cpp, apply_drop(): what its loops do to the slots of one token.
use franken_mo_e_cuda.Prelude.{
  ℕ, zero, suc, ◌+◌, ◌≡◌, refl, ap, ◌∙◌, Bool, true, false, ◌&&◌, arith, ltb, leb, ◌==◌,
  if◌then◌else◌, Bool-cases, inl, inr,
}
use franken_mo_e_cuda.Prelude.Int.{ℤ}
use franken_mo_e_cuda.Config.Float.{Float32, zero_f}
use franken_mo_e_cuda.Router.Drop.{Arithmetic, Slots, put, Drop, Row, drop_slot, drop_row}

put_at {ℓ} :
    {A : Type ℓ} (f : Slots A) (j k : ℕ) (v : A) (t s : ℕ)
    → put f j k v t s ≡ (if (t == j) && (s == k) then v else f t s)
put_at f j k v t s = ground arith

-- A slot of token `j` among the `m` from `k` on, for which the test holds.
abbrev pub among : ℕ → ℕ → ℕ → (ℕ → Bool) → ℕ → ℕ → Bool
among j k m test t s = (t == j) && (leb k s && (ltb s (k + m) && test s))

among_hit {ℓ} :
    {A : Type ℓ} (j k m : ℕ) (test : ℕ → Bool) (t s : ℕ) (v x : A)
    → test k ≡ true
    → (if among j (suc k) m test t s then v else (if (t == j) && (s == k) then v else x))
      ≡ (if among j k (suc m) test t s then v else x)
among_hit j k m test t s v x h = elim (Bool-cases (s == k)) [
  | inl e ↦ let same : s ≡ k = ground arith in rw same (ground (arith, h))
  | inr e ↦ ground (arith, e)
]

pub among_miss :
    (j k m : ℕ) (test : ℕ → Bool) (t s : ℕ)
    → test k ≡ false
    → among j (suc k) m test t s ≡ among j k (suc m) test t s
among_miss j k m test t s h = elim (Bool-cases (s == k)) [
  | inl e ↦ let same : s ≡ k = ground arith in rw same (ground (arith, h))
  | inr e ↦ ground (arith, e)
]

-- What the loop over the slots makes of the state `r`.
pub record Decided (drop : ℕ → Bool) (best_id : ℤ) (j k m : ℕ) (r v : Row) : Type 0 where
  pub same : v.at ≡ record r.at {
    weights = v.at.weights;
    ids = v.at.ids;
    drop_ids = v.at.drop_ids;
    drop_mask = v.at.drop_mask;
  }
  pub weights :
      (t s : ℕ) → v.at.weights t s ≡ (if among j k m drop t s then zero_f else r.at.weights t s)
  pub ids : (t s : ℕ) → v.at.ids t s ≡ (if among j k m drop t s then best_id else r.at.ids t s)
  pub drop_ids :
      (t s : ℕ) → v.at.drop_ids t s ≡ (if among j k m drop t s then best_id else r.at.drop_ids t s)
  pub mask :
      (t s : ℕ) → v.at.drop_mask t s ≡ (if among j k m drop t s then true else r.at.drop_mask t s)

pub among_none : (j k : ℕ) (drop : ℕ → Bool) (t s : ℕ) → among j k 0 drop t s ≡ false
among_none j k drop t s = ground arith

drop_slot_hit :
    (a : Arithmetic) (w : ℕ → Float32) (drop : ℕ → Bool) (best_id : ℤ) (j k : ℕ) (r : Row)
    → drop k ≡ true
    → drop_slot a w drop best_id j k r ≡ record r {
      at = record r.at {
        weights = put r.at.weights j k zero_f;
        ids = put r.at.ids j k best_id;
        drop_ids = put r.at.drop_ids j k best_id;
        drop_mask = put r.at.drop_mask j k true;
      };
      n_dropped = r.n_dropped + 1;
    }
unfolding drop_slot
drop_slot_hit a w drop best_id j k r h = rw h refl

pub drop_row-Decided :
    (a : Arithmetic) (w : ℕ → Float32) (drop : ℕ → Bool) (best_id : ℤ) (j m k : ℕ) (r : Row)
    → Decided drop best_id j k m r (drop_row a w drop best_id j m k r)
unfolding drop_row drop_slot
drop_row-Decided a w drop best_id j zero k r = record {
  same = refl;
  weights = λ t s. rw (among_none j k drop t s) refl;
  ids = λ t s. rw (among_none j k drop t s) refl;
  drop_ids = λ t s. rw (among_none j k drop t s) refl;
  mask = λ t s. rw (among_none j k drop t s) refl;
}
drop_row-Decided a w drop best_id j (suc m) k r =
    let n = drop_slot a w drop best_id j k r in
    let v = drop_row a w drop best_id j m (suc k) n in
    let d = drop_row-Decided a w drop best_id j m (suc k) n in
    let put_all : Drop → Drop = λ x. record x {
      weights = v.at.weights;
      ids = v.at.ids;
      drop_ids = v.at.drop_ids;
      drop_mask = v.at.drop_mask;
    } in
    elim (Bool-cases (drop k)) [
      | inl h ↦
          let e = drop_slot_hit a w drop best_id j k r h in
          record {
            same = d.same ∙ ap (λ x. put_all x.at) e;
            weights = λ t s.
                d.weights t s
                ∙ ap (λ x. if among j (suc k) m drop t s then zero_f else x.at.weights t s) e
                ∙ ap (λ x. if among j (suc k) m drop t s then zero_f else x)
                    (put_at r.at.weights j k zero_f t s)
                ∙ among_hit j k m drop t s zero_f (r.at.weights t s) h;
            ids = λ t s.
                d.ids t s
                ∙ ap (λ x. if among j (suc k) m drop t s then best_id else x.at.ids t s) e
                ∙ ap (λ x. if among j (suc k) m drop t s then best_id else x)
                    (put_at r.at.ids j k best_id t s)
                ∙ among_hit j k m drop t s best_id (r.at.ids t s) h;
            drop_ids = λ t s.
                d.drop_ids t s
                ∙ ap (λ x. if among j (suc k) m drop t s then best_id else x.at.drop_ids t s) e
                ∙ ap (λ x. if among j (suc k) m drop t s then best_id else x)
                    (put_at r.at.drop_ids j k best_id t s)
                ∙ among_hit j k m drop t s best_id (r.at.drop_ids t s) h;
            mask = λ t s.
                d.mask t s
                ∙ ap (λ x. if among j (suc k) m drop t s then true else x.at.drop_mask t s) e
                ∙ ap (λ x. if among j (suc k) m drop t s then true else x)
                    (put_at r.at.drop_mask j k true t s)
                ∙ among_hit j k m drop t s true (r.at.drop_mask t s) h;
          }
      | inr h ↦
          let e : n.at ≡ r.at = rw (h, drop_slot) refl in
          let g : (t s : ℕ) → among j (suc k) m drop t s ≡ among j k (suc m) drop t s =
            λ t s. among_miss j k m drop t s h in
          record {
            same = d.same ∙ ap put_all e;
            weights = λ t s. rw (← g t s) (
                d.weights t s
                ∙ ap (λ x. if among j (suc k) m drop t s then zero_f else x.weights t s) e);
            ids = λ t s.
                rw (← g t s) (
                  d.ids t s
                  ∙ ap (λ x. if among j (suc k) m drop t s then best_id else x.ids t s) e);
            drop_ids = λ t s. rw (← g t s) (
                d.drop_ids t s
                ∙ ap (λ x. if among j (suc k) m drop t s then best_id else x.drop_ids t s) e);
            mask = λ t s. rw (← g t s) (
                d.mask t s
                ∙ ap (λ x. if among j (suc k) m drop t s then true else x.drop_mask t s) e);
          }
    ]
