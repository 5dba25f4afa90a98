-- ===== src/Expert/Invariant.antt =====
-- When the cache is well formed: the recency list holds exactly the valid entries, once each, and the
-- byte count is theirs; and the four moves from which the operations are made.
use franken_mo_e_cuda.Prelude.{
  ℕ, ◌+◌, ◌-◌, ◌/◌, ◌<◌, ◌≡◌, sym, ◌∙◌, Bool, true, false, List, [], ◌∷◌, ◌++◌, All, All-append,
  arith, ◌==◌, if◌then◌else◌, update, Bool-cases, inl, inr, ==_iff,
}
use franken_mo_e_cuda.Lru.State.{Links}
use franken_mo_e_cuda.Lru.Ends.{Distinct-Fresh}
use franken_mo_e_cuda.Lru.Refine.{Holds, push_front-Holds, push_back-Holds, unlink-Holds}
use franken_mo_e_cuda.Lru.{lru_unlink, lru_push_front, lru_push_back}
use franken_mo_e_cuda.Expert.Layout.{Layout, entry_bytes, n_entry}
use franken_mo_e_cuda.Expert.State.{Cache}
use franken_mo_e_cuda.Expert.Sequence.{has, has-append, has-Fresh, Fresh-has, total, total-append}

pub record Inv (c : Layout) (valid : ℕ → Bool) (resident : ℕ) (links : Links) (xs : List ℕ)
    : Type 0 where
  pub holds : Holds links xs
  pub listed : (id : ℕ) → valid id ≡ has id xs
  pub bytes : resident ≡ total c xs
  pub range : All (λ id. id < n_entry c) xs

abbrev pub InvOf : Layout → Cache → List ℕ → Type 0
InvOf c s xs = Inv c s.valid s.resident s.links xs

pub record IsValid (c : Layout) (s : Cache) : Type 0 where
  pub order : List ℕ
  pub inv : InvOf c s order

All-append_iff : (P : ℕ → Type 0) (xs ys : List ℕ) → All P (xs ++ ys) → All P xs × All P ys
All-append_iff P [] ys h = (tt, h)
All-append_iff P (x ∷ xs) ys h = let r = All-append_iff P xs ys h.1 in ((h.0, r.0), r.1)

leave_listed :
    {b : Bool} (id j : ℕ) (xs ys : List ℕ)
    → b ≡ has j (xs ++ id ∷ ys)
    → has id (xs ++ ys) ≡ false
    → (if j == id then false else b) ≡ has j (xs ++ ys)
unfolding has
leave_listed id j xs ys h gone = elim (Bool-cases (j == id)) [
  | inl e ↦ rw (e, (==_iff j id).0 e) (sym gone)
  | inr e ↦ ground (arith, has-append j xs (id ∷ ys), has-append j xs ys)
]

enter_back_listed :
    {b : Bool} (id j : ℕ) (xs : List ℕ)
    → b ≡ has j xs
    → (if j == id then true else b) ≡ has j (xs ++ id ∷ [])
unfolding has
enter_back_listed id j xs h = ground (arith, has-append j xs (id ∷ []))

promote_listed :
    {b : Bool} (id j : ℕ) (xs ys : List ℕ)
    → b ≡ has j (xs ++ id ∷ ys)
    → b ≡ (if j == id then true else has j (xs ++ ys))
unfolding has
promote_listed id j xs ys h = ground (arith, has-append j xs (id ∷ ys), has-append j xs ys)

module _ {c : Layout} {valid : ℕ → Bool} {resident : ℕ} {links : Links} where
  -- A new entry at the recent end.
  pub enter_front :
      {xs : List ℕ} (id : ℕ)
      → Inv c valid resident links xs
      → valid id ≡ false
      → id < n_entry c
      → Inv c
          (update valid id true)
          (resident + entry_bytes c (id / c.n_expert))
          (lru_push_front id links)
          (id ∷ xs)
  unfolding has total
  enter_front {xs} id v free below = record {
    holds = push_front-Holds id links xs v.holds (has-Fresh id xs (sym (v.listed id) ∙ free));
    listed = λ j. ground (arith, v.listed j);
    bytes = omega (arith, v.bytes);
    range = (below, v.range);
  }

  -- A new entry at the cold end.
  pub enter_back :
      {xs : List ℕ} (id : ℕ)
      → Inv c valid resident links xs
      → valid id ≡ false
      → id < n_entry c
      → Inv c
          (update valid id true)
          (resident + entry_bytes c (id / c.n_expert))
          (lru_push_back id links)
          (xs ++ id ∷ [])
  unfolding has total
  enter_back {xs} id v free below = record {
    holds = push_back-Holds id links xs v.holds (has-Fresh id xs (sym (v.listed id) ∙ free));
    listed = λ j. enter_back_listed id j xs (v.listed j);
    bytes = omega (arith, v.bytes, total-append c xs (id ∷ []));
    range = All-append _ xs (id ∷ []) v.range (below, tt);
  }

  -- An entry of the list moves to the recent end.
  pub promote :
      (id : ℕ) (xs ys : List ℕ)
      → Inv c valid resident links (xs ++ id ∷ ys)
      → Inv c valid resident (lru_push_front id (lru_unlink id links)) (id ∷ xs ++ ys)
  unfolding has total
  promote id xs ys v =
      let out = unlink-Holds id links xs ys v.holds in
      let r = All-append_iff (λ i. i < n_entry c) xs (id ∷ ys) v.range in
      record {
        holds = push_front-Holds id _ (xs ++ ys) out (Distinct-Fresh xs id ys v.holds.distinct);
        listed = λ j. promote_listed id j xs ys (v.listed j);
        bytes = omega (arith, v.bytes, total-append c xs (id ∷ ys), total-append c xs ys);
        range = (r.1.0, All-append _ xs ys r.0 r.1.1);
      }

  -- An entry leaves the list.
  pub leave :
      (id : ℕ) (xs ys : List ℕ)
      → Inv c valid resident links (xs ++ id ∷ ys)
      → Inv c
          (update valid id false)
          (resident - entry_bytes c (id / c.n_expert))
          (lru_unlink id links)
          (xs ++ ys)
  unfolding has total
  leave id xs ys v =
      let gone = Fresh-has id (xs ++ ys) (Distinct-Fresh xs id ys v.holds.distinct) in
      let r = All-append_iff (λ i. i < n_entry c) xs (id ∷ ys) v.range in
      record {
        holds = unlink-Holds id links xs ys v.holds;
        listed = λ j. leave_listed id j xs ys (v.listed j) gone;
        bytes = omega (arith, v.bytes, total-append c xs (id ∷ ys), total-append c xs ys);
        range = All-append _ xs ys r.0 r.1.1;
      }
