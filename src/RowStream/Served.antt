-- ===== src/RowStream/Served.antt =====
-- moe/row_stream.cpp, gather() as its callers see it.
use franken_mo_e_cuda.Prelude.{
  ℕ, ◌+◌, ◌-◌, ◌*◌, ◌/◌, ◌%◌, ◌≤◌, ◌<◌, ◌≡◌, refl, sym, ◌∙◌, min, Bool, true, false, Option, none,
  some, List, [], ◌∷◌, arith, if◌then◌else◌, Bool-cases, Option-cases, inl, inr, ◌⊎◌, All,
}
use franken_mo_e_cuda.Prelude.Int.{ℤ}
use native.Mathlib.Nat.{div-add-mod, div-mul-le_self}
use franken_mo_e_cuda.RowStream.Layout.{
  slab_bytes, Window, commit_len, Rows, Os, round_up, slab_len,
}
use franken_mo_e_cuda.RowStream.Invariant.{IsValid, Whole}
use franken_mo_e_cuda.RowStream.Mark.{RowSlabs, slab-lt}
use franken_mo_e_cuda.RowStream.Gather.{gather_table-Gathered}
use franken_mo_e_cuda.RowStream.Ops.{find, gather, gather_rows}

-- Rounding up to a divisor of the slab does not pass the slab.
round_up-le_slab :
    (page len slab : ℕ) → 0 < page → slab % page ≡ 0 → len ≤ slab → round_up len page ≤ slab
unfolding round_up
round_up-le_slab page len slab h e le =
    let d = (len + page - 1) / page in
    let q = slab / page in
    let below : d * page ≤ len + page - 1 = div-mul-le_self (len + page - 1) page in
    let whole = div-add-mod slab page in grind (arith, below, whole)

commit_len-le :
    (c : Window) (ti s : ℕ) → 0 < c.page → slab_bytes % c.page ≡ 0 → commit_len c ti s ≤ slab_bytes
unfolding commit_len slab_len
commit_len-le c ti s h e =
    let size = (c.tables ti).size in
    let le =
      round_up-le_slab c.page (min slab_bytes (size - s * slab_bytes)) slab_bytes h e
        (omega arith) in
    omega (arith, le)

-- The window is within its budget, or all that it could evict is needed by the current gather, or no
-- slab is.
abbrev pub Within : Window → Rows → Type 0
Within c v =
    (v.need ≡ [])
    ⊎ ((v.resident_bytes ≤ c.budget_bytes)
        ⊎ ((t j : ℕ) → v.resident t j ≡ true → v.whole t ≡ false → v.stamp t j ≡ v.gen))

record Answered (c : Window) (tensor : ℕ) (idx : Option (List ℤ)) (w : Rows) (ok : Bool) (v : Rows)
    : Type 0 where
  valid : IsValid c v
  errors : v.io_errors ≡ w.io_errors + (if ok then 0 else 1)
  rows_in :
      ok ≡ true
      → (ti : ℕ) (is : List ℤ) → find c tensor ≡ some ti
      → idx ≡ some is
      → All (RowSlabs c ti (λ j. v.resident ti j ≡ true)) is
  within :
      (ti : ℕ) (i : ℤ) (is : List ℤ)
      → 0 < c.page
      → slab_bytes % c.page ≡ 0
      → find c tensor ≡ some ti
      → w.whole ti ≡ false
      → idx ≡ some (i ∷ is)
      → Within c v

counted-IsValid :
    (c : Window) (w : Rows) (n : ℕ) → IsValid c w → IsValid c (record w { gathers = n })
counted-IsValid c w n v = record {
  pinned = v.pinned;
  listed = v.listed;
  stamped = v.stamped;
  free = v.free;
  wholes = v.wholes;
}

resident_rows :
    (c : Window) (ti : ℕ) (resident spot : ℕ → ℕ → Bool) (is : List ℤ)
    → Whole c resident spot ti
    → All (RowSlabs c ti (λ j. resident ti j ≡ true)) is
resident_rows c ti resident spot [] w = tt
resident_rows c ti resident spot (i ∷ is) w = (
  λ r x e h1 h2 h3 h4. w.here (x / slab_bytes) (slab-lt c ti x h4),
  resident_rows c ti resident spot is w,
)

some-injective {ℓ} : {A : Type ℓ} (x y : A) → some x ≡ some y → x ≡ y
some-injective x y h = cc

gather_rows-Answered :
    (os : Os) (c : Window) (tensor ti : ℕ) (idx : Option (List ℤ)) (w : Rows) (n : ℕ)
    → find c tensor ≡ some ti
    → w.whole ti ≡ false
    → IsValid c w
    → let g = gather_rows os c ti idx (record w { gathers = n }) in Answered c tensor idx w g.0 g.1
unfolding gather_rows
gather_rows-Answered os c tensor ti none w n e k v = record {
  valid = counted-IsValid c w n v;
  errors = omega arith;
  rows_in = λ good t is f p. absurd (cc);
  within = λ t i is h1 h2 f m p. absurd (cc);
}
gather_rows-Answered os c tensor ti (some []) w n e k v = record {
  valid = counted-IsValid c w n v;
  errors = omega arith;
  rows_in = λ good t is f p. rw (← some-injective _ _ p) tt;
  within = λ t i is h1 h2 f m p. absurd (cc);
}
gather_rows-Answered os c tensor ti (some (r ∷ rs)) w n e k v =
    let counted : Rows = record w { gathers = n } in
    let g = gather_table-Gathered os c ti (r ∷ rs) counted k (counted-IsValid c w n v) in
    record {
      valid = g.valid;
      errors = g.errors;
      rows_in = λ good t is f p.
          let same : ti ≡ t = some-injective ti t (sym e ∙ f) in
          let list : r ∷ rs ≡ is = some-injective _ _ p in rw (← same, ← list) (g.rows_in good);
      within = λ t i is h1 h2 f m p. g.within (λ s. commit_len-le c ti s h1 h2);
    }

gather-Answered :
    (os : Os) (c : Window) (tensor : ℕ) (idx : Option (List ℤ)) (w : Rows)
    → IsValid c w
    → Answered c tensor idx w (gather os c tensor idx w).0 (gather os c tensor idx w).1
unfolding gather
gather-Answered os c tensor idx w v = elim (Option-cases (find c tensor)) [
  | inl e ↦
      rw (e, gather)
        (record {
          valid = v;
          errors = omega arith;
          rows_in = λ good ti is f. absurd (cc);
          within = λ ti i is h1 h2 f. absurd (cc);
        })
  | inr (ti, e) ↦
      let valid = counted-IsValid c w (w.gathers + 1) v in
      elim (Bool-cases (w.whole ti)) [
        | inl k ↦
            rw (e, k, gather)
              (record {
                valid = valid;
                errors = omega arith;
                rows_in = λ good t is f p.
                    let same : ti ≡ t = some-injective ti t (sym e ∙ f) in
                    rw (← same) (resident_rows c ti w.resident w.spot is (v.wholes ti k));
                within = λ t i is h1 h2 f m p.
                    let same : ti ≡ t = some-injective ti t (sym e ∙ f) in
                    absurd (ground (arith, rw (← same) at m, k));
              })
        | inr k ↦
            rw (e, k, gather) (gather_rows-Answered os c tensor ti idx w (w.gathers + 1) e k v)
      ]
]

-- A gather keeps a well-formed window well formed, on every branch and whatever the commits and the
-- reads answer: the list of eviction and the slabs of whole tables are exactly the resident slabs, once
-- each, the byte count is theirs, and no stamp is from a later generation. It counts one I/O error if it
-- answers false and none if it answers true.
pub gather-IsValid :
    (os : Os) (c : Window) (tensor : ℕ) (idx : Option (List ℤ)) (w : Rows)
    → IsValid c w
    → IsValid c (gather os c tensor idx w).1
      × ((gather os c tensor idx w).1.io_errors
          ≡ w.io_errors + (if (gather os c tensor idx w).0 then 0 else 1))
gather-IsValid os c tensor idx w v =
    let a = gather-Answered os c tensor idx w v in (a.valid, a.errors)

-- When a gather of a served table in a well-formed window succeeds, every slab in which a byte of a
-- requested row of the table lies is resident.
pub gather-resident :
    (os : Os) (c : Window) (tensor ti : ℕ) (is : List ℤ) (w : Rows)
    → IsValid c w
    → find c tensor ≡ some ti
    → (gather os c tensor (some is) w).0 ≡ true
    → All (RowSlabs c ti (λ j. (gather os c tensor (some is) w).1.resident ti j ≡ true)) is
gather-resident os c tensor ti is w v e good =
    (gather-Answered os c tensor (some is) w v).rows_in good ti is e refl

-- After a gather of at least one index from a served table that is not whole, in a well-formed
-- window whose page size is not 0 and divides the slab, the resident bytes are within the budget; or every
-- resident slab of a table that is not whole carries the stamp of the current gather; or no slab was needed.
pub gather-Within :
    (os : Os) (c : Window) (tensor ti : ℕ) (i : ℤ) (is : List ℤ) (w : Rows)
    → IsValid c w
    → 0 < c.page
    → slab_bytes % c.page ≡ 0
    → find c tensor ≡ some ti
    → w.whole ti ≡ false
    → Within c (gather os c tensor (some (i ∷ is)) w).1
gather-Within os c tensor ti i is w v h1 h2 e k =
    (gather-Answered os c tensor (some (i ∷ is)) w v).within ti i is h1 h2 e k refl
