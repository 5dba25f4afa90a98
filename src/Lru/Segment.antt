-- ===== src/Lru/Segment.antt =====
-- Segments of the doubly linked list: the links of a stretch of nodes, between a predecessor and a
-- successor. A write outside a segment does not touch it.
use franken_mo_e_cuda.Prelude.{
  ℕ, ◌≡◌, ◌≢◌, refl, sym, subst, Option, none, some, ◌∙◌, List, [], ◌∷◌, ◌++◌, All, update,
  update_ne, update_self, arith,
}
use franken_mo_e_cuda.Lru.State.{update_at}

-- No node of the list is `x`; no node stands twice.
abbrev pub Fresh : ℕ → List ℕ → Type 0
Fresh x = All (λ y. y ≢ x)

abbrev pub Distinct : List ℕ → Type 0
Distinct [] = Unit
Distinct (x ∷ xs) = Fresh x xs × Distinct xs

-- The first node of a stretch followed by `n`, and the last of one that follows `p`.
abbrev pub first_or : List ℕ → Option ℕ → Option ℕ
first_or [] n = n
first_or (x ∷ xs) n = some x

abbrev pub last_or : Option ℕ → List ℕ → Option ℕ
last_or p [] = p
last_or p (x ∷ xs) = last_or (some x) xs

module _ (prev next : ℕ → Option ℕ) where
  -- `Seg p xs n`: the nodes `xs` are linked in order, behind `p` and in front of `n`.
  abbrev pub Seg : Option ℕ → List ℕ → Option ℕ → Type 0
  Seg p [] n = Unit
  Seg p (x ∷ xs) n = (prev x ≡ p) × (next x ≡ first_or xs n) × Seg (some x) xs n

pub Fresh-append : (x : ℕ) (xs ys : List ℕ) → Fresh x (xs ++ ys) → Fresh x xs × Fresh x ys
Fresh-append x [] ys h = (tt, h)
Fresh-append x (a ∷ xs) ys h = let r = Fresh-append x xs ys h.1 in ((h.0, r.0), r.1)

-- A part of the list that is cut out leaves the rest distinct.
pub Distinct-append : (xs ys : List ℕ) → Distinct (xs ++ ys) → Distinct xs × Distinct ys
Distinct-append [] ys h = (tt, h)
Distinct-append (x ∷ xs) ys h =
    let r = Distinct-append xs ys h.1 in ((((Fresh-append x xs ys h.0).0), r.0), r.1)

first_or-append :
    (xs ys : List ℕ) (n : Option ℕ) → first_or (xs ++ ys) n ≡ first_or xs (first_or ys n)
first_or-append [] ys n = refl
first_or-append (x ∷ xs) ys n = refl

pub Seg-split :
    (f g : ℕ → Option ℕ) (p : Option ℕ) (xs ys : List ℕ) (n : Option ℕ)
    → Seg f g p (xs ++ ys) n
    → Seg f g p xs (first_or ys n) × Seg f g (last_or p xs) ys n
Seg-split f g p [] ys n h = (tt, h)
Seg-split f g p (x ∷ xs) ys n h =
    let r = Seg-split f g (some x) xs ys n h.2 in ((h.0, h.1 ∙ first_or-append xs ys n, r.0), r.1)

pub Seg-join :
    (f g : ℕ → Option ℕ) (p : Option ℕ) (xs ys : List ℕ) (n : Option ℕ)
    → Seg f g p xs (first_or ys n)
    → Seg f g (last_or p xs) ys n
    → Seg f g p (xs ++ ys) n
Seg-join f g p [] ys n h k = k
Seg-join f g p (x ∷ xs) ys n h k =
    (h.0, h.1 ∙ sym (first_or-append xs ys n), Seg-join f g (some x) xs ys n h.2 k)

module _ (f g : ℕ → Option ℕ) (i : ℕ) (v : Option ℕ) where
  -- A write to a node outside a segment.
  pub Seg-update_prev :
      (p : Option ℕ) (xs : List ℕ) (n : Option ℕ)
      → Fresh i xs
      → Seg f g p xs n
      → Seg (update f i v) g p xs n
  Seg-update_prev p [] n h s = tt
  Seg-update_prev p (x ∷ xs) n h s =
      (update_ne f i x v h.0 ∙ s.0, s.1, Seg-update_prev (some x) xs n h.1 s.2)

  pub Seg-update_next :
      (p : Option ℕ) (xs : List ℕ) (n : Option ℕ)
      → Fresh i xs
      → Seg f g p xs n
      → Seg f (update g i v) p xs n
  Seg-update_next p [] n h s = tt
  Seg-update_next p (x ∷ xs) n h s =
      (s.0, update_ne g i x v h.0 ∙ s.1, Seg-update_next (some x) xs n h.1 s.2)

-- The first node is given another predecessor.
pub Seg-relink_first :
    (f g : ℕ → Option ℕ) (p q : Option ℕ) (x : ℕ) (xs : List ℕ) (n : Option ℕ)
    → Fresh x xs
    → Seg f g p (x ∷ xs) n
    → Seg (update f x q) g q (x ∷ xs) n
Seg-relink_first f g p q x xs n h s =
    (update_self f x q, s.1, Seg-update_prev f g x q (some x) xs n h s.2)

last_or-ne :
    (x a : ℕ) (xs : List ℕ) (p : ℕ) → Fresh x xs → p ≢ x → last_or (some p) xs ≡ some a → a ≢ x
last_or-ne x a [] p h k e = λ q. ground arith
last_or-ne x a (y ∷ ys) p h k e = last_or-ne x a ys y h.1 h.0 e

-- The last node is given another successor.
pub Seg-relink_last :
    (f g : ℕ → Option ℕ) (p : Option ℕ) (x : ℕ) (xs : List ℕ) (a : ℕ) (n m : Option ℕ)
    → Distinct (x ∷ xs)
    → last_or (some x) xs ≡ some a
    → Seg f g p (x ∷ xs) n
    → Seg f (update g a m) p (x ∷ xs) m
Seg-relink_last f g p x [] a n m d e s = let eq : x ≡ a = ground arith in (s.0, ground arith, tt)
Seg-relink_last f g p x (y ∷ ys) a n m d e s =
    let other : a ≢ x = last_or-ne x a ys y d.0.1 d.0.0 e in
    (
      s.0,
      update_ne g a x m (λ q. other (sym q)) ∙ s.1,
      Seg-relink_last f g (some x) y ys a n m d.1 e s.2,
    )

-- The same writes through a link that may be -1.
abbrev pub FreshAt : Option ℕ → List ℕ → Type 0
FreshAt none xs = Unit
FreshAt (some i) xs = Fresh i xs

pub Seg-update_at_prev :
    (f g : ℕ → Option ℕ) (o v p : Option ℕ) (xs : List ℕ) (n : Option ℕ)
    → FreshAt o xs
    → Seg f g p xs n
    → Seg (update_at f o v) g p xs n
Seg-update_at_prev f g none v p xs n h s = s
Seg-update_at_prev f g (some i) v p xs n h s = Seg-update_prev f g i v p xs n h s

pub Seg-update_at_next :
    (f g : ℕ → Option ℕ) (o v p : Option ℕ) (xs : List ℕ) (n : Option ℕ)
    → FreshAt o xs
    → Seg f g p xs n
    → Seg f (update_at g o v) p xs n
Seg-update_at_next f g none v p xs n h s = s
Seg-update_at_next f g (some i) v p xs n h s = Seg-update_next f g i v p xs n h s

-- Of a distinct list cut in two: its last node before the cut is not behind it, and its first node
-- behind the cut is not before it.
pub last-FreshAt :
    (p : Option ℕ) (xs ys : List ℕ) → FreshAt p ys → Distinct (xs ++ ys) → FreshAt (last_or p xs) ys
last-FreshAt p [] ys h d = h
last-FreshAt p (x ∷ xs) ys h d = last-FreshAt (some x) xs ys (Fresh-append x xs ys d.0).1 d.1

pub middle-Fresh : (xs : List ℕ) (y : ℕ) (ys : List ℕ) → Distinct (xs ++ y ∷ ys) → Fresh y xs
middle-Fresh [] y ys d = tt
middle-Fresh (x ∷ xs) y ys d =
    ((λ e. (Fresh-append x xs (y ∷ ys) d.0).1.0 (sym e)), middle-Fresh xs y ys d.1)

pub last_or-some : (x : ℕ) (xs : List ℕ) → (a : ℕ) × (last_or (some x) xs ≡ some a)
last_or-some x [] = (x, refl)
last_or-some x (y ∷ ys) = last_or-some y ys

-- A whole stretch is linked to another successor, or to another predecessor.
pub Seg-relink_end :
    (f g : ℕ → Option ℕ) (xs : List ℕ) (n m : Option ℕ)
    → Distinct xs
    → Seg f g none xs n
    → Seg f (update_at g (last_or none xs) m) none xs m
Seg-relink_end f g [] n m d s = tt
Seg-relink_end f g (x ∷ xs) n m d s =
    let (a, e) = last_or-some x xs in
    subst (λ o. Seg f (update_at g o m) none (x ∷ xs) m) (sym e)
      (Seg-relink_last f g none x xs a n m d e s)

pub Seg-relink_start :
    (f g : ℕ → Option ℕ) (p q : Option ℕ) (xs : List ℕ) (n : Option ℕ)
    → Distinct xs
    → Seg f g p xs n
    → Seg (update_at f (first_or xs none) q) g q xs n
Seg-relink_start f g p q [] n d s = tt
Seg-relink_start f g p q (x ∷ xs) n d s = Seg-relink_first f g p q x xs n d.0 s

pub last_or-append :
    (p : Option ℕ) (xs ys : List ℕ) → last_or p (xs ++ ys) ≡ last_or (last_or p xs) ys
last_or-append p [] ys = refl
last_or-append p (x ∷ xs) ys = last_or-append (some x) xs ys
