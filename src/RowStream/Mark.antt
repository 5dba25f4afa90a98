-- ===== src/RowStream/Mark.antt =====
-- moe/row_stream.cpp, gather(): the generation of the stamps and the list of the needed slabs.
use franken_mo_e_cuda.Prelude.{
  ℕ, zero, suc, ◌+◌, ◌*◌, ◌/◌, ◌%◌, ◌^◌, ◌≤◌, ◌<◌, ◌≡◌, ◌≢◌, refl, ap, ◌∙◌, sym, subst, min, Bool,
  ◌&&◌, List, [], ◌∷◌, ◌++◌, arith, ltb, leb, ◌==◌, if◌then◌else◌, Bool-cases, inl, inr, All,
}
use franken_mo_e_cuda.Prelude.Int.{ℤ, pos, negsuc}
use franken_mo_e_cuda.Expert.Sequence.{has, has-append}
use franken_mo_e_cuda.RowStream.Layout.{slab_bytes, Window, commit_len, n_slabs, Rows}
use franken_mo_e_cuda.RowStream.Invariant.{Stamped}
use franken_mo_e_cuda.RowStream.Fetch.{lacking}
use franken_mo_e_cuda.RowStream.Ops.{next_gen, Marking, mark_slab, mark_span, mark_row, mark_rows}

lacking-snoc :
    (c : Window) (ti : ℕ) (p : ℕ → ℕ → Bool) (ss : List ℕ) (s : ℕ)
    → lacking c ti p (ss ++ s ∷ []) ≡ lacking c ti p ss + (if p ti s then 0 else commit_len c ti s)
unfolding lacking
lacking-snoc c ti p [] s = omega arith
lacking-snoc c ti p (r ∷ rs) s = omega (arith, lacking-snoc c ti p rs s)

-- A new generation is no slab's stamp, also when the 32-bit counter wraps.
pub next_gen-Stamped :
    (w : Rows)
    → Stamped w.stamp w.gen
    → Stamped (next_gen w).stamp (next_gen w).gen
      × ((ti s : ℕ) → (next_gen w).stamp ti s ≢ (next_gen w).gen)
unfolding next_gen
next_gen-Stamped w v = elim (Bool-cases ((w.gen + 1) % 2 ^ 32 == 0)) [
  | inl k ↦
      rw (k, next_gen)
        (record { bound = omega arith; past = λ ti s. omega arith }, λ ti s e. omega arith)
  | inr k ↦
      let g : (w.gen + 1) % 2 ^ 32 ≡ w.gen + 1 = ground (arith, v.bound) in
      rw (k, g, next_gen)
        (
          record { bound = ground (arith, v.bound); past = λ ti s. omega (arith, v.past ti s) },
          λ ti s e. omega (arith, v.past ti s),
        )
]

-- The needed slabs are the stamped ones.
abbrev pub Needs : ℕ → Rows → Type 0
Needs ti w = (s : ℕ) → has s w.need ≡ (w.stamp ti s == w.gen)

-- A move of the marking: it changes stamps and needed slabs alone, and adds to them.
pub record Step (c : Window) (ti : ℕ) (m n : Marking) : Type 0 where
  pub same : n.at ≡ record m.at { stamp = n.at.stamp; need = n.at.need }
  pub more : (s : ℕ) → m.at.stamp ti s ≡ m.at.gen → n.at.stamp ti s ≡ m.at.gen
  pub needs : Needs ti m.at → Needs ti n.at
  pub past : ((t s : ℕ) → m.at.stamp t s ≤ m.at.gen) → (t s : ℕ) → n.at.stamp t s ≤ m.at.gen
  pub counts :
      ((s : ℕ) → commit_len c ti s ≤ slab_bytes)
      → lacking c ti m.at.resident m.at.need ≤ m.missing
      → lacking c ti m.at.resident n.at.need ≤ n.missing

Step-refl : {c : Window} {ti : ℕ} (m : Marking) → Step c ti m m
Step-refl m = record {
  same = refl;
  more = λ s h. h;
  needs = λ h. h;
  past = λ h. h;
  counts = λ h k. k;
}

Step-trans : {c : Window} {ti : ℕ} {l m n : Marking} → Step c ti l m → Step c ti m n → Step c ti l n
Step-trans {c} {ti} {l} {m} {n} a b =
    let g : m.at.gen ≡ l.at.gen = ap (λ w. w.gen) a.same in
    let r : m.at.resident ≡ l.at.resident = ap (λ w. w.resident) a.same in
    let put : Rows → Rows = λ w. record w { stamp = n.at.stamp; need = n.at.need } in
    record {
      same = b.same ∙ ap put a.same;
      more = λ s h. b.more s (a.more s h ∙ sym g) ∙ g;
      needs = λ h. b.needs (a.needs h);
      past = λ h.
          subst (λ x. ((t s : ℕ) → m.at.stamp t s ≤ x) → (t s : ℕ) → n.at.stamp t s ≤ x) g b.past
            (a.past h);
      counts = λ h k.
          subst (λ x. lacking c ti x m.at.need ≤ m.missing → lacking c ti x n.at.need ≤ n.missing) r
            (b.counts h) (a.counts h k);
    }

mark_slab-Step :
    (c : Window) (ti s : ℕ) (m : Marking)
    → Step c ti m (mark_slab ti s m) × ((mark_slab ti s m).at.stamp ti s ≡ m.at.gen)
unfolding mark_slab has
mark_slab-Step c ti s m = elim (Bool-cases (m.at.stamp ti s == m.at.gen)) [
  | inl k ↦ rw (k, mark_slab) (Step-refl m, ground (arith, k))
  | inr k ↦
      rw (k, mark_slab)
        (
          record {
            same = refl;
            more = λ j h. ground (arith, h);
            needs = λ h j. ground (arith, h j, has-append j m.at.need (s ∷ []));
            past = λ h t j. ground (arith, h t j);
            counts = λ h le. ground (arith, h s, le, lacking-snoc c ti m.at.resident m.at.need s);
          },
          ground arith,
        )
]

Step-gen : {c : Window} {ti : ℕ} {m n : Marking} → Step c ti m n → n.at.gen ≡ m.at.gen
Step-gen a = ap (λ w. w.gen) a.same

-- The slabs that hold a byte of the row are stamped.
mark_span-Step :
    (c : Window) (ti b fuel s : ℕ) (m : Marking)
    → Step c ti m (mark_span c ti b fuel s m)
      × ((j : ℕ)
          → s ≤ j
          → j < s + fuel
          → j * slab_bytes < b
          → j < n_slabs c ti
          → (mark_span c ti b fuel s m).at.stamp ti j ≡ m.at.gen)
unfolding mark_span
mark_span-Step c ti b zero s m = (Step-refl m, λ j h1 h2 h3 h4. absurd (omega arith))
mark_span-Step c ti b (suc fuel) s m =
    elim (Bool-cases (ltb (s * slab_bytes) b && ltb s (n_slabs c ti))) [
      | inr k ↦ rw (k, mark_span) (Step-refl m, λ j h1 h2 h3 h4. absurd (ground (arith, k)))
      | inl k ↦
          let (one, here) = mark_slab-Step c ti s m in
          let (rest, later) = mark_span-Step c ti b fuel (suc s) (mark_slab ti s m) in
          let g = Step-gen one in
          rw (k, mark_span)
            (
              Step-trans one rest,
              λ j h1 h2 h3 h4. elim (Bool-cases (j == s)) [
                | inl e ↦ let eq : j ≡ s = ground arith in rw eq (rest.more s (here ∙ sym g) ∙ g)
                | inr ne ↦ later j (ground (arith, ne)) (omega arith) h3 h4 ∙ g
              ],
            )
    ]

-- `P` holds of every slab in which a byte of the row `i` of the table lies. An index outside the table
-- has no bytes.
abbrev pub RowSlabs : Window → ℕ → (ℕ → Type 0) → ℤ → Type 0
RowSlabs c ti P i =
    (r x : ℕ)
    → i ≡ pos r
    → r < (c.tables ti).n_rows
    → r * (c.tables ti).row_bytes ≤ x
    → x < r * (c.tables ti).row_bytes + (c.tables ti).row_bytes
    → x < (c.tables ti).size
    → P (x / slab_bytes)

pub slab-lt : (c : Window) (ti x : ℕ) → x < (c.tables ti).size → x / slab_bytes < n_slabs c ti
unfolding franken_mo_e_cuda.RowStream.Layout.round_up
slab-lt c ti x h = omega arith

mark_row-Step :
    (c : Window) (ti : ℕ) (i : ℤ) (m : Marking)
    → Step c ti m (mark_row c ti i m)
      × RowSlabs c ti (λ j. (mark_row c ti i m).at.stamp ti j ≡ m.at.gen) i
unfolding mark_row
mark_row-Step c ti (negsuc r) m = (Step-refl m, λ r x e h1 h2 h3 h4. absurd (cc))
mark_row-Step c ti (pos r) m =
    let t = c.tables ti in
    let a = r * t.row_bytes in
    let (step, there) =
      mark_span-Step c ti (min (a + t.row_bytes) t.size) (n_slabs c ti) (a / slab_bytes) m in
    elim (Bool-cases (leb t.n_rows r)) [
      | inl k ↦
          rw (k, mark_row) (Step-refl m, λ q x e h1 h2 h3 h4. absurd (ground (arith, e, h1, k)))
      | inr k ↦
          rw (k, mark_row)
            (
              step,
              λ q x e h1 h2 h3 h4.
                  let same : q ≡ r = ground (arith, e) in
                  let lo : a ≤ x = rw (← same) h2 in
                  let hi : x < a + t.row_bytes = rw (← same) h3 in
                  let lt = slab-lt c ti x h4 in
                  there (x / slab_bytes) (omega (arith, lo)) (omega (arith, lt))
                    (omega (arith, hi, h4)) lt,
            )
    ]

pub mark_rows-Step :
    (c : Window) (ti : ℕ) (idx : List ℤ) (m : Marking)
    → Step c ti m (mark_rows c ti idx m)
      × All (RowSlabs c ti (λ j. (mark_rows c ti idx m).at.stamp ti j ≡ m.at.gen)) idx
unfolding mark_rows
mark_rows-Step c ti [] m = (Step-refl m, tt)
mark_rows-Step c ti (i ∷ is) m =
    let (one, here) = mark_row-Step c ti i m in
    let (rest, there) = mark_rows-Step c ti is (mark_row c ti i m) in
    let g = Step-gen one in
    (
      Step-trans one rest,
      (
        λ r x e h1 h2 h3 h4. rest.more (x / slab_bytes) (here r x e h1 h2 h3 h4 ∙ sym g) ∙ g,
        subst (λ y. All (RowSlabs c ti (λ j. (mark_rows c ti (i ∷ is) m).at.stamp ti j ≡ y)) is) g
            there,
      ),
    )
