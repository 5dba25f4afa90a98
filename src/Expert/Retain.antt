-- ===== src/Expert/Retain.antt =====
-- moe/expert_stream_source.cpp, retain(): the recency order that it leaves, against sequences.
use franken_mo_e_cuda.Prelude.{
  ℕ, ◌≡◌, refl, sym, ap, ◌∙◌, subst, Bool, true, Option, none, some, List, [], ◌∷◌, ◌++◌,
  Bool-cases, Option-cases, inl, inr, ltb, ◌&&◌, if◌then◌else◌,
}
use franken_mo_e_cuda.Prelude.Int.{ℤ}
use franken_mo_e_cuda.Lru.Ends.{Distinct-Fresh}
use franken_mo_e_cuda.Expert.Layout.{Layout, entry_id}
use franken_mo_e_cuda.Expert.State.{Cache}
use franken_mo_e_cuda.Expert.Sequence.{has-Cut, remove, remove-middle}
use franken_mo_e_cuda.Expert.Invariant.{InvOf, promote}
use franken_mo_e_cuda.Expert.Entries.{
  promote_entry, expert_of, layer_of, retain_one, retain_ids, retain,
}

-- A prediction brought to the front of a recency order: that of an expert of the model that is resident.
unfoldable pub brought : Layout → (ℕ → Bool) → ℕ → ℤ → List ℕ → List ℕ
brought c valid il i xs = elim (expert_of c i) [
  | none ↦ xs
  | some e ↦ if valid (entry_id c il e) then entry_id c il e ∷ remove (entry_id c il e) xs else xs
]

-- The predictions brought to the front one after the other, so that the last of them comes first.
unfoldable pub brought_all : Layout → (ℕ → Bool) → ℕ → List ℤ → List ℕ → List ℕ
brought_all c valid il [] xs = xs
brought_all c valid il (i ∷ is) xs = brought_all c valid il is (brought c valid il i xs)

-- The order after a call: off the cache, without ids and outside the layers as before.
unfoldable pub order_after : Layout → Bool → ℤ → Option (List ℤ) → Cache → List ℕ → List ℕ
order_after c active il none s xs = xs
order_after c active il (some ids) s xs = elim (layer_of c il) [
  | none ↦ xs
  | some l ↦ if active && ltb 0 s.cache_max then brought_all c s.valid l ids xs else xs
]

-- A cache that differs from `s` in its links alone, and lists its entries in the order `xs`.
pub record Reordered (c : Layout) (s t : Cache) (xs : List ℕ) : Type 0 where
  pub others : t ≡ record s { links = t.links }
  pub inv : InvOf c t xs

promote_entry-Reordered :
    (c : Layout) (s : Cache) (id : ℕ) (xs : List ℕ)
    → s.valid id ≡ true
    → InvOf c s xs
    → Reordered c s (promote_entry id s) (id ∷ remove id xs)
promote_entry-Reordered c s id xs h v =
    let cut = has-Cut id xs (sym (v.listed id) ∙ h) in
    let v' = subst (InvOf c s) cut.whole v in
    let rest : remove id xs ≡ cut.before ++ cut.after =
      ap (remove id) cut.whole
      ∙ remove-middle id cut.before cut.after
          (Distinct-Fresh cut.before id cut.after v'.holds.distinct) in
    record {
      others = refl;
      inv =
          subst (λ l. InvOf c (promote_entry id s) (id ∷ l)) (sym rest)
            (promote id cut.before cut.after v');
    }

retain_one-Reordered :
    (c : Layout) (il : ℕ) (i : ℤ) (s : Cache) (xs : List ℕ)
    → InvOf c s xs
    → Reordered c s (retain_one c il i s) (brought c s.valid il i xs)
unfolding retain_one brought
retain_one-Reordered c il i s xs v = elim (Option-cases (expert_of c i)) [
  | inl e ↦ rw (e, retain_one, brought) (record { others = refl; inv = v })
  | inr (x, e) ↦ elim (Bool-cases (s.valid (entry_id c il x))) [
    | inl k ↦ rw (e, retain_one, brought, k) (promote_entry-Reordered c s (entry_id c il x) xs k v)
    | inr k ↦ rw (e, retain_one, brought, k) (record { others = refl; inv = v })
  ]
]

retain_ids-Reordered :
    (c : Layout) (il : ℕ) (ids : List ℤ) (s : Cache) (xs : List ℕ)
    → InvOf c s xs
    → Reordered c s (retain_ids c il ids s) (brought_all c s.valid il ids xs)
unfolding retain_ids brought_all
retain_ids-Reordered c il [] s xs v = record { others = refl; inv = v }
retain_ids-Reordered c il (i ∷ is) s xs v =
    let t = retain_one c il i s in
    let first = retain_one-Reordered c il i s xs v in
    let rest = retain_ids-Reordered c il is t (brought c s.valid il i xs) first.inv in
    let same : t.valid ≡ s.valid = ap (λ u. u.valid) first.others in
    record {
      others =
          rest.others
          ∙ ap (λ (u : Cache). record u { links = (retain_ids c il is t).links }) first.others;
      inv =
          subst
            (λ f.
              InvOf c (retain_ids c il is t) (brought_all c f il is (brought c s.valid il i xs)))
            same rest.inv;
    }

-- retain() on a well-formed cache that lists its entries in the order `xs`: nothing but the links
-- changes, so neither which entries are resident, nor a stamp, a flag or a counter. The links then list
-- the predicted experts of the model that are resident at the recent end, the last of them first, and
-- the other entries behind them in their order. Without ids, outside the layers, or where the source or
-- its cache is off, the order stays `xs`.
pub retain-Reordered :
    (c : Layout) (active : Bool) (il : ℤ) (ids : Option (List ℤ)) (s : Cache) (xs : List ℕ)
    → InvOf c s xs
    → Reordered c s (retain c active il ids s) (order_after c active il ids s xs)
unfolding retain order_after
retain-Reordered c active il none s xs v = record { others = refl; inv = v }
retain-Reordered c active il (some ids) s xs v = elim (Option-cases (layer_of c il)) [
  | inl e ↦ rw (e, retain, order_after) (record { others = refl; inv = v })
  | inr (l, e) ↦ elim (Bool-cases (active && ltb 0 s.cache_max)) [
    | inl k ↦ rw (e, retain, order_after, k) (retain_ids-Reordered c l ids s xs v)
    | inr k ↦ rw (e, retain, order_after, k) (record { others = refl; inv = v })
  ]
]
