-- ===== src/Lru/Ends.antt =====
-- What the writes at the two ends of the list, and the removal of a node, do to its first and last
-- node and to the distinctness of its nodes.
use franken_mo_e_cuda.Prelude.{
  ℕ, ◌≡◌, refl, sym, ◌∙◌, subst, Option, none, some, List, [], ◌∷◌, ◌++◌, update_ne,
}
use franken_mo_e_cuda.Lru.State.{update_at, update_end}
use franken_mo_e_cuda.Lru.Segment.{
  Fresh, FreshAt, Distinct, first_or, last_or, Fresh-append, last_or-some, last_or-append,
}

pub update_at_ne :
    (f : ℕ → Option ℕ) (o v : Option ℕ) (j : ℕ) (ys : List ℕ)
    → FreshAt o (j ∷ ys)
    → update_at f o v j ≡ f j
update_at_ne f none v j ys h = refl
update_at_ne f (some i) v j ys h = update_ne f i j v h.0

pub first-FreshAt : (id : ℕ) (xs : List ℕ) → Fresh id xs → FreshAt (first_or xs none) (id ∷ [])
first-FreshAt id [] h = tt
first-FreshAt id (x ∷ xs) h = ((λ e. h.0 (sym e)), tt)

pub end-front :
    (xs : List ℕ) (v : Option ℕ) → update_end (first_or xs none) (last_or none xs) v ≡ last_or v xs
end-front [] v = refl
end-front (x ∷ xs) v = refl

pub end-back :
    (xs : List ℕ) (id : ℕ)
    → update_end (last_or none xs) (first_or xs none) (some id) ≡ first_or (xs ++ id ∷ []) none
end-back [] id = refl
end-back (x ∷ xs) id =
    subst (λ o. update_end o (some x) (some id) ≡ some x) (sym (last_or-some x xs).1) refl

pub end-unlink_first :
    (xs : List ℕ) (id : ℕ) (ys : List ℕ)
    → update_end (last_or none xs) (first_or (xs ++ id ∷ ys) none) (first_or ys none)
      ≡ first_or (xs ++ ys) none
end-unlink_first [] id ys = refl
end-unlink_first (x ∷ xs) id ys =
    subst (λ o. update_end o (some x) (first_or ys none) ≡ some x) (sym (last_or-some x xs).1) refl

pub end-unlink_last :
    (xs : List ℕ) (id : ℕ) (ys : List ℕ)
    → update_end (first_or ys none) (last_or none (xs ++ id ∷ ys)) (last_or none xs)
      ≡ last_or none (xs ++ ys)
end-unlink_last xs id [] = sym (last_or-append none xs [])
end-unlink_last xs id (y ∷ ys) =
    last_or-append none xs (id ∷ y ∷ ys) ∙ sym (last_or-append none xs (y ∷ ys))

Fresh-join : (x : ℕ) (xs ys : List ℕ) → Fresh x xs → Fresh x ys → Fresh x (xs ++ ys)
Fresh-join x [] ys h k = k
Fresh-join x (a ∷ xs) ys h k = (h.0, Fresh-join x xs ys h.1 k)

pub Distinct-snoc : (xs : List ℕ) (id : ℕ) → Fresh id xs → Distinct xs → Distinct (xs ++ id ∷ [])
Distinct-snoc [] id h d = (tt, tt)
Distinct-snoc (x ∷ xs) id h d =
    (Fresh-join x xs (id ∷ []) d.0 ((λ e. h.0 (sym e)), tt), Distinct-snoc xs id h.1 d.1)

pub Distinct-middle :
    (xs : List ℕ) (id : ℕ) (ys : List ℕ) → Distinct (xs ++ id ∷ ys) → Distinct (xs ++ ys)
Distinct-middle [] id ys d = d.1
Distinct-middle (x ∷ xs) id ys d =
    let r = Fresh-append x xs (id ∷ ys) d.0 in
    (Fresh-join x xs ys r.0 r.1.1, Distinct-middle xs id ys d.1)

-- The removed node is not among the others.
pub Distinct-Fresh :
    (xs : List ℕ) (id : ℕ) (ys : List ℕ) → Distinct (xs ++ id ∷ ys) → Fresh id (xs ++ ys)
Distinct-Fresh [] id ys d = d.0
Distinct-Fresh (x ∷ xs) id ys d =
    ((λ e. (Fresh-append x xs (id ∷ ys) d.0).1.0 (sym e)), Distinct-Fresh xs id ys d.1)

pub next-FreshAt : (xs ys : List ℕ) → Distinct (xs ++ ys) → FreshAt (first_or ys none) xs
next-FreshAt xs [] d = tt
next-FreshAt [] (y ∷ ys) d = tt
next-FreshAt (x ∷ xs) (y ∷ ys) d =
    ((λ e. (Fresh-append x xs (y ∷ ys) d.0).1.0 (sym e)), next-FreshAt xs (y ∷ ys) d.1)
