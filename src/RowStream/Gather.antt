-- ===== src/RowStream/Gather.antt =====
-- moe/row_stream.cpp, gather(): the whole of it, for a table that is served and not whole.
use franken_mo_e_cuda.Prelude.{
  ℕ, ◌+◌, ◌/◌, ◌≤◌, ◌≡◌, ◌≢◌, refl, sym, ap, ◌∙◌, subst, Bool, true, false, List, [], ◌∷◌, arith,
  leb, ◌==◌, if◌then◌else◌, Bool-cases, inl, inr, ◌⊎◌, All, ==_iff, leb→le, length,
}
use franken_mo_e_cuda.Prelude.Int.{ℤ}
use franken_mo_e_cuda.Expert.Sequence.{has}
use franken_mo_e_cuda.RowStream.Layout.{slab_bytes, Window, commit_len, Rows, Os}
use franken_mo_e_cuda.RowStream.Slabs.{sort, insert, has-sort, count}
use franken_mo_e_cuda.RowStream.Invariant.{IsValid, Stamped}
use franken_mo_e_cuda.RowStream.Fetch.{lacking, Fetched, fetch_all-Fetched, fetch_all-IsValid}
use franken_mo_e_cuda.RowStream.Evict.{Evicted, evict_to_budget-Evicted}
use franken_mo_e_cuda.RowStream.Mark.{Needs, RowSlabs, next_gen-Stamped, mark_rows-Step}
use franken_mo_e_cuda.RowStream.Ops.{
  next_gen, Marking, marked, fetch_marked, gather_table, evict_to_budget,
}

lacking-insert :
    (c : Window) (ti : ℕ) (p : ℕ → ℕ → Bool) (s : ℕ) (ss : List ℕ)
    → lacking c ti p (insert s ss) ≡ lacking c ti p (s ∷ ss)
unfolding lacking insert
lacking-insert c ti p s [] = refl
lacking-insert c ti p s (r ∷ rs) = elim (Bool-cases (leb s r)) [
  | inl k ↦ rw (k, insert) refl
  | inr k ↦ rw (k, insert) (omega (arith, lacking-insert c ti p s rs))
]

lacking-sort :
    (c : Window) (ti : ℕ) (p : ℕ → ℕ → Bool) (ss : List ℕ)
    → lacking c ti p (sort ss) ≡ lacking c ti p ss
unfolding lacking sort
lacking-sort c ti p [] = refl
lacking-sort c ti p (s ∷ ss) =
    omega (arith, lacking-insert c ti p s (sort ss), lacking-sort c ti p ss)

lacking-same :
    (c : Window) (ti : ℕ) (p q : ℕ → ℕ → Bool) (ss : List ℕ)
    → ((s : ℕ) → has s ss ≡ true → q ti s ≡ p ti s)
    → lacking c ti q ss ≡ lacking c ti p ss
unfolding lacking has
lacking-same c ti p q [] h = refl
lacking-same c ti p q (s ∷ ss) h =
    let e : q ti s ≡ p ti s = h s (ground arith) in
    let rest = lacking-same c ti p q ss (λ j k. h j (ground (arith, k))) in
    rw e (omega (arith, rest))

-- What the marking leaves for a well-formed window `w`: the stamped slabs of the table are the needed
-- ones and hold every row of `idx`, and `missing` bounds what they lack.
record Ready (c : Window) (ti : ℕ) (idx : List ℤ) (w : Rows) (m : Marking) : Type 0 where
  valid : IsValid c m.at
  same_whole : m.at.whole ≡ w.whole
  same_errors : m.at.io_errors ≡ w.io_errors
  needs : Needs ti m.at
  rows_in : All (RowSlabs c ti (λ j. m.at.stamp ti j ≡ m.at.gen)) idx
  counts :
      ((s : ℕ) → commit_len c ti s ≤ slab_bytes) → lacking c ti m.at.resident m.at.need ≤ m.missing

next_gen-same :
    (w : Rows) → next_gen w ≡ record w { stamp = (next_gen w).stamp; gen = (next_gen w).gen }
unfolding next_gen
next_gen-same w = ground arith

IsValid-same :
    (c : Window) (w v : Rows) (s : ℕ → ℕ → ℕ) (g : ℕ) (ns : List ℕ)
    → v ≡ record w { stamp = s; gen = g; need = ns }
    → Stamped s g
    → IsValid c w
    → IsValid c v
IsValid-same c w v s g ns e st h = subst (IsValid c) (sym e) (record {
  pinned = h.pinned;
  listed = h.listed;
  stamped = st;
  free = h.free;
  wholes = h.wholes;
})

marked-Ready :
    (c : Window) (ti : ℕ) (idx : List ℤ) (w : Rows)
    → IsValid c w
    → Ready c ti idx w (marked c ti idx w)
unfolding marked has lacking
marked-Ready c ti idx w v =
    let m0 : Marking = record { at = record (next_gen w) { need = [] }; missing = 0 } in
    let m = marked c ti idx w in
    let (step, rows) = mark_rows-Step c ti idx m0 in
    let (st, fresh) = next_gen-Stamped w v.stamped in
    let put : Rows → Rows = λ x. record x { stamp = m.at.stamp; need = m.at.need } in
    let e : m.at ≡ record w { stamp = m.at.stamp; gen = (next_gen w).gen; need = m.at.need } =
      step.same ∙ ap put (next_gen-same w) in
    let g : m.at.gen ≡ (next_gen w).gen = ap (λ x. x.gen) e in
    record {
      valid =
          IsValid-same c w m.at m.at.stamp (next_gen w).gen m.at.need e
            (record { bound = st.bound; past = step.past st.past }) v;
      same_whole = ap (λ x. x.whole) e;
      same_errors = ap (λ x. x.io_errors) e;
      needs = step.needs (λ s. ground (arith, fresh ti s));
      rows_in = subst (λ y. All (RowSlabs c ti (λ j. m.at.stamp ti j ≡ y)) idx) (sym g) rows;
      counts = λ small.
          subst (λ p. lacking c ti p m.at.need ≤ m.missing)
            (ap (λ x. x.resident) (next_gen-same w) ∙ sym (ap (λ x. x.resident) e))
            (step.counts small (omega arith));
    }

-- What a gather of the rows `idx` does to a well-formed window `w`. If it succeeds, every slab that
-- holds a byte of a row is resident. It counts one error if it fails. Where no commit
-- is longer than a slab, the window is then within its budget, or all that it could evict is what
-- this gather needs, or no row lies in the table and nothing moved.
pub record Gathered (c : Window) (ti : ℕ) (idx : List ℤ) (w : Rows) (ok : Bool) (v : Rows)
    : Type 0 where
  pub valid : IsValid c v
  pub same_whole : v.whole ≡ w.whole
  pub rows_in : ok ≡ true → All (RowSlabs c ti (λ j. v.resident ti j ≡ true)) idx
  pub errors : v.io_errors ≡ w.io_errors + (if ok then 0 else 1)
  pub within :
      ((s : ℕ) → commit_len c ti s ≤ slab_bytes)
      → (v.need ≡ [])
        ⊎ ((v.resident_bytes ≤ c.budget_bytes)
            ⊎ ((t j : ℕ) → v.resident t j ≡ true → v.whole t ≡ false → v.stamp t j ≡ v.gen))

-- A slab that the eviction could have taken is on the list.
on_list :
    (c : Window) (w : Rows) (t j : ℕ)
    → (v : IsValid c w) → w.resident t j ≡ true
    → w.whole t ≡ false
    → 1 ≤ count (t, j) w.lru
on_list c w t j v h n = ground (arith, v.listed.once t j, v.free t j n, h)

RowSlabs-mono :
    (c : Window) (ti : ℕ) (P Q : ℕ → Type 0) (idx : List ℤ)
    → ((j : ℕ) → P j → Q j)
    → All (RowSlabs c ti P) idx
    → All (RowSlabs c ti Q) idx
RowSlabs-mono c ti P Q [] f h = tt
RowSlabs-mono c ti P Q (i ∷ is) f h = (
  λ r x e h1 h2 h3 h4. f (x / slab_bytes) (h.0 r x e h1 h2 h3 h4),
  RowSlabs-mono c ti P Q is f h.1,
)

List-cases : (xs : List ℕ) → (xs ≡ []) ⊎ ((y : ℕ) × (ys : List ℕ) × (xs ≡ y ∷ ys))
List-cases [] = inl refl
List-cases (x ∷ xs) = inr (x, xs, refl)

no_need :
    (ti : ℕ) (m : Marking) → m.at.need ≡ [] → Needs ti m.at → (j : ℕ) → m.at.stamp ti j ≢ m.at.gen
unfolding has
no_need ti m e h j s = absurd (ground (arith, ap (has j) e, h j, s))

-- The needed slabs have been fetched: from the marking `m`, the room made `e` and the fetches `f`.
after_fetch-Gathered :
    (c : Window) (ti : ℕ) (idx : List ℤ) (w : Rows) (m : Marking) (room : Rows) (ok : Bool)
    (v : Rows)
    → Ready c ti idx w m
    → Evicted c m.missing m.at room
    → Fetched c ti (sort room.need) ok (record room { need = sort room.need }) v
    → IsValid c v
    → Gathered c ti idx w ok v
after_fetch-Gathered c ti idx w m room ok v r e f valid =
    let needed : (j : ℕ) → has j (sort room.need) ≡ (m.at.stamp ti j == m.at.gen) =
      λ j. has-sort j room.need ∙ ap (has j) e.same_need ∙ r.needs j in
    let now : (t j : ℕ) → m.at.stamp t j ≡ m.at.gen → v.stamp t j ≡ v.gen =
      λ t j h. ap (λ g. g t j) (f.same_stamp ∙ e.same_stamp) ∙ h ∙ sym (f.same_gen ∙ e.same_gen) in
    let lack : lacking c ti room.resident (sort room.need) ≡ lacking c ti m.at.resident m.at.need =
      lacking-sort c ti room.resident room.need
      ∙ ap (lacking c ti room.resident) e.same_need
      ∙ lacking-same c ti m.at.resident room.resident m.at.need
          (λ j h. e.spared ti j ((==_iff _ _).0 (sym (r.needs j) ∙ h))) in
    record {
      valid = valid;
      same_whole = f.same_whole ∙ e.same_whole ∙ r.same_whole;
      rows_in = λ good.
          RowSlabs-mono c ti _ _ idx (λ j h. f.got good j (needed j ∙ (==_iff _ _).1 h)) r.rows_in;
      errors = omega (arith, f.errors, e.same_errors, r.same_errors);
      within = λ small. inr (elim e.stops [
        | inl fit ↦ inl (omega (arith, f.bytes, lack, r.counts small, leb→le _ _ fit))
        | inr mine ↦ inr (λ t j h n. elim (Bool-cases (room.resident t j)) [
          | inl k ↦
              let here = on_list c room t j e.valid k (sym (ap (λ g. g t) f.same_whole) ∙ n) in
              ap (λ g. g t j) f.same_stamp ∙ mine t j here ∙ sym f.same_gen
          | inr k ↦
              let same : t ≡ ti = ground (arith, f.fewer t j h) in
              let want : has j (sort room.need) ≡ true = ground (arith, f.fewer t j h) in
              now t j (rw same ((==_iff _ _).0 (sym (needed j) ∙ want)))
        ])
      ]);
    }

fetch_marked-Gathered :
    (os : Os) (c : Window) (ti : ℕ) (idx : List ℤ) (w : Rows) (m : Marking)
    → w.whole ti ≡ false
    → Ready c ti idx w m
    → Gathered c ti idx w (fetch_marked os c ti m).0 (fetch_marked os c ti m).1
unfolding fetch_marked
fetch_marked-Gathered os c ti idx w m n r = elim (List-cases m.at.need) [
  | inl e ↦
      rw (e, fetch_marked)
        (record {
          valid = r.valid;
          same_whole = r.same_whole;
          rows_in = λ good.
              RowSlabs-mono c ti (λ j. m.at.stamp ti j ≡ m.at.gen) (λ j. m.at.resident ti j ≡ true)
                idx (λ j h. absurd (no_need ti m e r.needs j h)) r.rows_in;
          errors = omega (arith, r.same_errors);
          within = λ small. inl e;
        })
  | inr (s, ss, e) ↦
      let room = evict_to_budget c m.missing m.at in
      let made = evict_to_budget-Evicted c m.missing m.at r.valid in
      let ready : Rows = record room { need = sort room.need } in
      let valid : IsValid c ready = record {
        pinned = made.valid.pinned;
        listed = made.valid.listed;
        stamped = made.valid.stamped;
        free = made.valid.free;
        wholes = made.valid.wholes;
      } in
      let n' : room.whole ti ≡ false = ap (λ g. g ti) (made.same_whole ∙ r.same_whole) ∙ n in
      rw (e, fetch_marked)
        (after_fetch-Gathered c ti idx w m room _ _ r made
          (fetch_all-Fetched os c ti (sort room.need) ready)
          (fetch_all-IsValid os c ti (sort room.need) ready n' valid))
]

-- A gather of a table that is not whole, in a well-formed window, does what `Gathered` says,
-- whatever the rows and whatever the commits and the reads answer.
pub gather_table-Gathered :
    (os : Os) (c : Window) (ti : ℕ) (idx : List ℤ) (w : Rows)
    → w.whole ti ≡ false
    → IsValid c w
    → Gathered c ti idx w (gather_table os c ti idx w).0 (gather_table os c ti idx w).1
unfolding gather_table
gather_table-Gathered os c ti idx w n v =
    let counted : Rows = record w { rows = w.rows + length idx } in
    let valid : IsValid c counted = record {
      pinned = v.pinned;
      listed = v.listed;
      stamped = v.stamped;
      free = v.free;
      wholes = v.wholes;
    } in
    let g =
      fetch_marked-Gathered os c ti idx counted (marked c ti idx counted) n
        (marked-Ready c ti idx counted valid) in
    record {
      valid = g.valid;
      same_whole = g.same_whole;
      rows_in = g.rows_in;
      errors = g.errors;
      within = g.within;
    }
