-- ===== src/RowStream/Materialize.antt =====
-- moe/row_stream.cpp, materialize(): a table that a node reads whole.
use franken_mo_e_cuda.Prelude.{
  ℕ, zero, suc, ◌+◌, ◌≤◌, ◌<◌, ◌≡◌, ◌≢◌, refl, sym, ap, ◌∙◌, Bool, true, false, some, List, [], ◌∷◌,
  arith, ◌==◌, if◌then◌else◌, Bool-cases, inl, inr, ltb, Option-cases,
}
use franken_mo_e_cuda.Expert.Sequence.{has}
use franken_mo_e_cuda.RowStream.Layout.{Window, SlabId, n_slabs, Rows, Os}
use franken_mo_e_cuda.RowStream.Slabs.{count}
use franken_mo_e_cuda.RowStream.Invariant.{IsValid, Listed, Whole, pin-Listed}
use franken_mo_e_cuda.RowStream.Fetch.{fetch_all-Fetched, fetch_all-IsValid}
use franken_mo_e_cuda.RowStream.Ops.{
  drop_slab, drop_slabs, pull_table, materialize, slabs_from, fetch_all, find, fail,
}

has-slabs_from : (k s j : ℕ) → s ≤ j → j < s + k → has j (slabs_from k s) ≡ true
unfolding has
has-slabs_from zero s j h1 h2 = absurd (omega arith)
has-slabs_from (suc k) s j h1 h2 = elim (Bool-cases (j == s)) [
  | inl e ↦ rw e refl
  | inr e ↦ rw e (has-slabs_from k (suc s) j (ground (arith, e)) (omega arith))
]

-- What taking the slabs `ss` of a table off the list does.
record Dropped (c : Window) (ti : ℕ) (ss : List ℕ) (pinned : List SlabId) (w v : Rows)
    : Type 0 where
  pins : List SlabId
  listed : Listed c v.resident v.spot v.resident_bytes v.lru pins
  elsewhere : (t j : ℕ) → t ≢ ti → count (t, j) pins ≡ count (t, j) pinned
  gone : (j : ℕ) → has j ss ≡ true → v.spot ti j ≡ false
  fewer : (t j : ℕ) → w.spot t j ≡ false → v.spot t j ≡ false
  same_resident : v.resident ≡ w.resident
  same_stamp : v.stamp ≡ w.stamp
  same_gen : v.gen ≡ w.gen
  same_whole : v.whole ≡ w.whole
  same_errors : v.io_errors ≡ w.io_errors
  same_bytes : v.resident_bytes ≡ w.resident_bytes

count-elsewhere :
    (t ti j s : ℕ) (ks : List SlabId) → t ≢ ti → count (t, j) ((ti, s) ∷ ks) ≡ count (t, j) ks
unfolding count
count-elsewhere t ti j s ks n = ground arith

drop_slabs-Dropped :
    (c : Window) (ti : ℕ) (ss : List ℕ) (pinned : List SlabId) (w : Rows)
    → Listed c w.resident w.spot w.resident_bytes w.lru pinned
    → Dropped c ti ss pinned w (drop_slabs ti ss w)
unfolding drop_slabs drop_slab has
drop_slabs-Dropped c ti [] pinned w v = record {
  pins = pinned;
  listed = v;
  elsewhere = λ t j n. refl;
  gone = λ j h. absurd (cc);
  fewer = λ t j h. h;
  same_resident = refl;
  same_stamp = refl;
  same_gen = refl;
  same_whole = refl;
  same_errors = refl;
  same_bytes = refl;
}
drop_slabs-Dropped c ti (s ∷ ss) pinned w v = elim (Bool-cases (w.spot ti s)) [
  | inr k ↦
      let r = drop_slabs-Dropped c ti ss pinned w v in
      rw (k, drop_slabs, drop_slab)
        (record {
          pins = r.pins;
          listed = r.listed;
          elsewhere = r.elsewhere;
          gone = λ j h. elim (Bool-cases (j == s)) [
            | inl e ↦ r.fewer ti j (ground (arith, k))
            | inr e ↦ r.gone j (ground (arith, h))
          ];
          fewer = r.fewer;
          same_resident = r.same_resident;
          same_stamp = r.same_stamp;
          same_gen = r.same_gen;
          same_whole = r.same_whole;
          same_errors = r.same_errors;
          same_bytes = r.same_bytes;
        })
  | inl k ↦
      let le : 1 ≤ count (ti, s) w.lru = ground (arith, v.placed ti s) in
      let l = pin-Listed ti s le v in
      let r = drop_slabs-Dropped c ti ss ((ti, s) ∷ pinned) _ l in
      rw (k, drop_slabs, drop_slab)
        (record {
          pins = r.pins;
          listed = r.listed;
          elsewhere = λ t j n. r.elsewhere t j n ∙ count-elsewhere t ti j s pinned n;
          gone = λ j h. elim (Bool-cases (j == s)) [
            | inl e ↦ r.fewer ti j (ground (arith, k))
            | inr e ↦ r.gone j (ground (arith, h))
          ];
          fewer = λ t j h. r.fewer t j (ground (arith, h));
          same_resident = r.same_resident;
          same_stamp = r.same_stamp;
          same_gen = r.same_gen;
          same_whole = r.same_whole;
          same_errors = r.same_errors;
          same_bytes = r.same_bytes;
        })
]

-- What materialize() does to a well-formed window: it stays well formed; an error is counted if it
-- fails. A success leaves the table, if it is served, whole, with every slab resident and none that an
-- eviction could take. A table larger than the budget is refused with nothing else changed.
pub record Materialized (c : Window) (tensor : ℕ) (w : Rows) (ok : Bool) (v : Rows) : Type 0 where
  pub valid : IsValid c v
  pub errors : v.io_errors ≡ w.io_errors + (if ok then 0 else 1)
  pub whole_in :
      ok ≡ true
      → (ti : ℕ) → find c tensor ≡ some ti
      → (v.whole ti ≡ true) × Whole c v.resident v.spot ti
  pub refused :
      (ti : ℕ)
      → find c tensor ≡ some ti
      → w.whole ti ≡ false
      → c.budget_bytes < (c.tables ti).size
      → (ok ≡ false) × (v ≡ fail w)

-- A table that is not whole and within the budget.
record Pulled (c : Window) (ti : ℕ) (w : Rows) (ok : Bool) (v : Rows) : Type 0 where
  valid : IsValid c v
  errors : v.io_errors ≡ w.io_errors + (if ok then 0 else 1)
  whole_in : ok ≡ true → v.whole ti ≡ true

pull_table-Pulled :
    (os : Os) (c : Window) (ti : ℕ) (w : Rows)
    → w.whole ti ≡ false
    → IsValid c w
    → Pulled c ti w (pull_table os c ti w).0 (pull_table os c ti w).1
unfolding pull_table
pull_table-Pulled os c ti w n v =
    let all = slabs_from (n_slabs c ti) 0 in
    let f = fetch_all-Fetched os c ti all w in
    let u = (fetch_all os c ti all w).1 in
    let valid : IsValid c u = fetch_all-IsValid os c ti all w n v in
    let d = drop_slabs-Dropped c ti all valid.pinned u valid.listed in
    elim (Bool-cases (fetch_all os c ti all w).0) [
      | inr k ↦
          rw (k, pull_table)
            (record { valid = valid; errors = rw k at f.errors; whole_in = λ h. absurd (cc) })
      | inl k ↦
          rw (k, pull_table)
            (record {
              valid = record {
                pinned = d.pins;
                listed = d.listed;
                stamped = rw (d.same_stamp, d.same_gen) valid.stamped;
                free = λ t j h.
                    let ne : t ≢ ti = λ e. absurd (ground (arith, h)) in
                    d.elsewhere t j ne
                    ∙ valid.free t j (ground (arith, h, ap (λ g. g t) d.same_whole));
                wholes = λ t h. elim (Bool-cases (t == ti)) [
                  | inl e ↦
                      let same : t ≡ ti = ground arith in
                      rw same (record {
                        here = λ j lt.
                            ap (λ g. g ti j) d.same_resident
                            ∙ f.got k j (
                                has-slabs_from (n_slabs c ti) 0 j (omega arith)
                                  (omega (arith, lt)));
                        kept = λ j lt.
                            d.gone j
                              (has-slabs_from (n_slabs c ti) 0 j (omega arith) (omega (arith, lt)));
                      })
                  | inr e ↦
                      let was : u.whole t ≡ true = ground (arith, h, ap (λ g. g t) d.same_whole) in
                      record {
                        here = λ j lt.
                            ap (λ g. g t j) d.same_resident ∙ (valid.wholes t was).here j lt;
                        kept = λ j lt. d.fewer t j ((valid.wholes t was).kept j lt);
                      }
                ];
              };
              errors = ground (arith, d.same_errors, f.errors, k);
              whole_in = λ h. ground arith;
            })
    ]

-- A materialize in a well-formed window does what `Materialized` says, on every branch and
-- whatever the commits and the reads answer.
pub materialize-Materialized :
    (os : Os) (c : Window) (tensor : ℕ) (w : Rows)
    → IsValid c w
    → Materialized c tensor w (materialize os c tensor w).0 (materialize os c tensor w).1
unfolding materialize fail
materialize-Materialized os c tensor w v = elim (Option-cases (find c tensor)) [
  | inl e ↦
      rw (e, materialize)
        (record {
          valid = v;
          errors = omega arith;
          whole_in = λ h ti f. absurd (cc);
          refused = λ ti f. absurd (cc);
        })
  | inr (ti, e) ↦ elim (Bool-cases (w.whole ti)) [
    | inl k ↦
        rw (e, k, materialize)
          (record {
            valid = v;
            errors = omega arith;
            whole_in = λ h t f.
                let same : ti ≡ t = ground (arith, sym e ∙ f) in rw (← same) (k, v.wholes ti k);
            refused = λ t f n le.
                let same : ti ≡ t = ground (arith, sym e ∙ f) in
                absurd (ground (arith, rw (← same) at n, k));
          })
    | inr n ↦ elim (Bool-cases (ltb c.budget_bytes (c.tables ti).size)) [
      | inl big ↦
          rw (e, n, big, materialize)
            (record {
              valid = record {
                pinned = v.pinned;
                listed = v.listed;
                stamped = v.stamped;
                free = v.free;
                wholes = v.wholes;
              };
              errors = omega arith;
              whole_in = λ h. absurd (cc);
              refused = λ t f m le. (refl, refl);
            })
      | inr small ↦
          let p = pull_table-Pulled os c ti w n v in
          rw (e, n, small, materialize)
            (record {
              valid = p.valid;
              errors = p.errors;
              whole_in = λ h t f.
                  let same : ti ≡ t = ground (arith, sym e ∙ f) in
                  rw (← same) (p.whole_in h, p.valid.wholes ti (p.whole_in h));
              refused = λ t f m le.
                  let same : ti ≡ t = ground (arith, sym e ∙ f) in
                  absurd (ground (arith, small, rw (← same) at le));
            })
    ]
  ]
]
