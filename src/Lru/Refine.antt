-- ===== src/Lru/Refine.antt =====
-- The recency list of moe/expert_stream_source.cpp against a sequence, most recent first.
use mathlib.Core.Path.{subst₂}
use franken_mo_e_cuda.Prelude.{
  ℕ, ◌≡◌, refl, sym, ◌∙◌, Option, none, some, List, [], ◌∷◌, ◌++◌, update, update_self,
}
use franken_mo_e_cuda.Lru.State.{Links}
use franken_mo_e_cuda.Lru.Segment.{
  Fresh, Distinct, Seg, first_or, last_or, Seg-split, Seg-join, Seg-update_prev, Seg-update_next,
  Seg-update_at_prev, Seg-update_at_next, Seg-relink_end, Seg-relink_start, Distinct-append,
  last-FreshAt, middle-Fresh, last_or-append,
}
use franken_mo_e_cuda.Lru.Ends.{
  update_at_ne, first-FreshAt, end-front, end-back, end-unlink_first, end-unlink_last,
  Distinct-snoc, Distinct-middle, next-FreshAt,
}
use franken_mo_e_cuda.Lru.{lru_unlink, unlink_between, lru_push_front, lru_push_back, empty}

pub record Holds (l : Links) (xs : List ℕ) : Type 0 where
  pub linked : Seg l.prev l.next none xs none
  pub first : l.head ≡ first_or xs none
  pub final : l.tail ≡ last_or none xs
  pub distinct : Distinct xs

pub empty-Holds : Holds empty []
unfolding empty
empty-Holds = record { linked = tt; first = refl; final = refl; distinct = tt }

-- The links around the sequence, with the ends written from it.
abbrev around : (ℕ → Option ℕ) → (ℕ → Option ℕ) → List ℕ → Links
around f g xs = record { prev = f; next = g; head = first_or xs none; tail = last_or none xs }

module _ (f g : ℕ → Option ℕ) (id : ℕ) (xs : List ℕ) where
  push_front-ends :
      Fresh id xs
      → Distinct xs
      → Seg f g none xs none
      → Holds (lru_push_front id (around f g xs)) (id ∷ xs)
  unfolding lru_push_front
  push_front-ends h d s =
      let f' = update f id none in
      let g' = update g id (first_or xs none) in
      let s' =
        Seg-update_prev f g' id none none xs none h (Seg-update_next f g id _ none xs none h s) in
      record {
        linked = (
          update_at_ne f' _ (some id) id [] (first-FreshAt id xs h) ∙ update_self f id none,
          update_self g id _,
          Seg-relink_start f' g' none (some id) xs none d s',
        );
        first = refl;
        final = end-front xs (some id);
        distinct = (h, d);
      }

  push_back-ends :
      Fresh id xs
      → Distinct xs
      → Seg f g none xs none
      → Holds (lru_push_back id (around f g xs)) (xs ++ id ∷ [])
  unfolding lru_push_back
  push_back-ends h d s =
      let f' = update f id (last_or none xs) in
      let g' = update g id none in
      let s' =
        Seg-update_prev f g' id _ none xs none h (Seg-update_next f g id none none xs none h s) in
      let dis = Distinct-snoc xs id h d in
      record {
        linked =
            Seg-join f' _ none xs (id ∷ []) none (Seg-relink_end f' g' xs none (some id) d s') (
              update_self f id _,
              update_at_ne g' _ (some id) id [] (last-FreshAt none xs (id ∷ []) tt dis)
                  ∙ update_self g id none,
              tt,
            );
        first = end-back xs id;
        final = sym (last_or-append none xs (id ∷ []));
        distinct = dis;
      }

module _ (f g : ℕ → Option ℕ) (id : ℕ) (xs ys : List ℕ) where
  unlink-ends :
      Distinct (xs ++ id ∷ ys)
      → Seg f g none (xs ++ id ∷ ys) none
      → Holds
          (unlink_between (last_or none xs) (first_or ys none) id (around f g (xs ++ id ∷ ys)))
          (xs ++ ys)
  unfolding unlink_between
  unlink-ends d s =
      let pv = last_or none xs in
      let nx = first_or ys none in
      let r = Seg-split f g none xs (id ∷ ys) none s in
      let parts = Distinct-append xs (id ∷ ys) d in
      let rest = Distinct-middle xs id ys d in
      let before = middle-Fresh xs id ys d in
      record {
        linked =
            Seg-join _ _ none xs ys none
              (Seg-update_prev _ _ id none none xs nx before (
                Seg-update_at_prev f _ nx pv none xs nx (next-FreshAt xs ys rest) (
                  Seg-update_next f _ id none none xs nx before
                    (Seg-relink_end f g xs (some id) nx parts.0 r.0))))
              (Seg-update_prev _ _ id none pv ys none parts.1.0 (
                Seg-update_next _ _ id none pv ys none parts.1.0 (
                  Seg-update_at_next _ g pv nx pv ys none (last-FreshAt none xs ys tt rest)
                    (Seg-relink_start f g (some id) pv ys none parts.1.1 r.1.2))));
        first = end-unlink_first xs id ys;
        final = end-unlink_last xs id ys;
        distinct = rest;
      }

-- When the links hold a list, lru_push_front of a node that is not in it makes them hold the list with
-- that node first, at the recent end.
pub push_front-Holds :
    (id : ℕ) (l : Links) (xs : List ℕ)
    → Holds l xs
    → Fresh id xs
    → Holds (lru_push_front id l) (id ∷ xs)
push_front-Holds id l xs r h =
    subst₂ (λ a b. Holds (lru_push_front id (record l { head = a; tail = b })) (id ∷ xs))
      (sym r.first) (sym r.final) (push_front-ends l.prev l.next id xs h r.distinct r.linked)

-- When the links hold a list, lru_push_back of a node that is not in it makes them hold the list with
-- that node last, at the cold end.
pub push_back-Holds :
    (id : ℕ) (l : Links) (xs : List ℕ)
    → Holds l xs
    → Fresh id xs
    → Holds (lru_push_back id l) (xs ++ id ∷ [])
push_back-Holds id l xs r h =
    subst₂ (λ a b. Holds (lru_push_back id (record l { head = a; tail = b })) (xs ++ id ∷ []))
      (sym r.first) (sym r.final) (push_back-ends l.prev l.next id xs h r.distinct r.linked)

-- When the links hold a list, lru_unlink of one of its nodes makes them hold the list without that
-- node, the others in their order.
pub unlink-Holds :
    (id : ℕ) (l : Links) (xs ys : List ℕ)
    → Holds l (xs ++ id ∷ ys)
    → Holds (lru_unlink id l) (xs ++ ys)
unfolding lru_unlink
unlink-Holds id l xs ys r =
    let s = Seg-split l.prev l.next none xs (id ∷ ys) none r.linked in
    subst₂ (λ a b. Holds (unlink_between a b id l) (xs ++ ys)) (sym s.1.0) (sym s.1.1)
      (subst₂
        (λ a b.
          Holds
            (unlink_between (last_or none xs) (first_or ys none) id
              (record l { head = a; tail = b }))
            (xs ++ ys))
        (sym r.first) (sym r.final) (unlink-ends l.prev l.next id xs ys r.distinct r.linked))
