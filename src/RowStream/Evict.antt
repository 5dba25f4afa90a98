-- ===== src/RowStream/Evict.antt =====
-- moe/row_stream.cpp, evict_to_budget(): what the loop over the list takes and leaves.
use franken_mo_e_cuda.Prelude.{
  ℕ, ◌≤◌, ◌<◌, ◌≡◌, refl, true, false, List, [], ◌∷◌, arith, ◌==◌, Bool-cases, inl, inr, ◌⊎◌,
}
use franken_mo_e_cuda.RowStream.Layout.{Window, SlabId, Rows}
use franken_mo_e_cuda.RowStream.Slabs.{count, count-erase_self, count-erase_other, ◌==ₛ◌}
use franken_mo_e_cuda.RowStream.Invariant.{IsValid, leave-Listed}
use franken_mo_e_cuda.RowStream.Ops.{evict_slab, evict_walk, evict_to_budget, fits}

-- The slabs of `ks` are still on the list, and what else is on it is needed by the current gather.
record Ahead (ks : List SlabId) (w : Rows) : Type 0 where
  below : (ti s : ℕ) → count (ti, s) ks ≤ count (ti, s) w.lru
  behind : (ti s : ℕ) → count (ti, s) ks < count (ti, s) w.lru → w.stamp ti s ≡ w.gen

-- What making room for `headroom` bytes does: it takes no slab of the current gather, and ends with
-- room or with such slabs only on the list.
pub record Evicted (c : Window) (headroom : ℕ) (w v : Rows) : Type 0 where
  pub valid : IsValid c v
  pub same_stamp : v.stamp ≡ w.stamp
  pub same_gen : v.gen ≡ w.gen
  pub same_whole : v.whole ≡ w.whole
  pub same_need : v.need ≡ w.need
  pub same_errors : v.io_errors ≡ w.io_errors
  pub fewer : (t j : ℕ) → v.resident t j ≡ true → w.resident t j ≡ true
  pub spared : (t j : ℕ) → w.stamp t j ≡ w.gen → v.resident t j ≡ w.resident t j
  pub stops :
      (fits c headroom v ≡ true) ⊎ ((t j : ℕ) → 1 ≤ count (t, j) v.lru → v.stamp t j ≡ v.gen)

Evicted-refl :
    (c : Window) (headroom : ℕ) (w : Rows)
    → IsValid c w
    → ((fits c headroom w ≡ true) ⊎ ((t j : ℕ) → 1 ≤ count (t, j) w.lru → w.stamp t j ≡ w.gen))
    → Evicted c headroom w w
Evicted-refl c headroom w v stop = record {
  valid = v;
  same_stamp = refl;
  same_gen = refl;
  same_whole = refl;
  same_need = refl;
  same_errors = refl;
  fewer = λ t j h. h;
  spared = λ t j h. refl;
  stops = stop;
}

evict_slab-IsValid :
    (c : Window) (ti s : ℕ) (w : Rows)
    → 1 ≤ count (ti, s) w.lru
    → IsValid c w
    → IsValid c (evict_slab c (ti, s) w)
unfolding evict_slab
evict_slab-IsValid c ti s w le v = record {
  pinned = v.pinned;
  listed = leave-Listed ti s le v.listed;
  stamped = v.stamped;
  free = v.free;
  wholes = λ tj h. record {
    here = λ j lt.
        ground
          (arith, (v.wholes tj h).here j lt, (v.wholes tj h).kept j lt, v.listed.placed tj j, le);
    kept = λ j lt. ground (arith, (v.wholes tj h).kept j lt);
  };
}

evict_slab-Ahead :
    (c : Window) (ti s : ℕ) (ks : List SlabId) (w : Rows)
    → Ahead ((ti, s) ∷ ks) w
    → Ahead ks (evict_slab c (ti, s) w)
unfolding evict_slab count
evict_slab-Ahead c ti s ks w a =
    let le : 1 ≤ count (ti, s) w.lru = ground (arith, a.below ti s) in
    let self = count-erase_self (ti, s) w.lru le in
    record {
      below = λ t j. elim (Bool-cases ((t, j) ==ₛ (ti, s))) [
        | inl k ↦ ground (arith, a.below t j, self)
        | inr k ↦ ground (arith, a.below t j, count-erase_other (t, j) (ti, s) w.lru k)
      ];
      behind = λ t j h. elim (Bool-cases ((t, j) ==ₛ (ti, s))) [
        | inl k ↦ ground (arith, a.behind t j, self)
        | inr k ↦ ground (arith, a.behind t j, count-erase_other (t, j) (ti, s) w.lru k)
      ];
    }

-- One more slab goes first.
Evicted-more :
    (c : Window) (headroom ti s : ℕ) (w v : Rows)
    → (w.stamp ti s == w.gen) ≡ false
    → Evicted c headroom (evict_slab c (ti, s) w) v
    → Evicted c headroom w v
unfolding evict_slab
Evicted-more c headroom ti s w v out r = record {
  valid = r.valid;
  same_stamp = r.same_stamp;
  same_gen = r.same_gen;
  same_whole = r.same_whole;
  same_need = r.same_need;
  same_errors = r.same_errors;
  fewer = λ t j h. ground (arith, r.fewer t j h);
  spared = λ t j h. ground (arith, r.spared t j h);
  stops = r.stops;
}

evict_walk-Evicted :
    (c : Window) (headroom : ℕ) (ks : List SlabId) (w : Rows)
    → IsValid c w
    → Ahead ks w
    → Evicted c headroom w (evict_walk c headroom ks w)
unfolding evict_walk count
evict_walk-Evicted c headroom [] w v a =
    Evicted-refl c headroom w v (inr (λ t j h. a.behind t j (omega arith)))
evict_walk-Evicted c headroom (k ∷ ks) w v a = elim (Bool-cases (fits c headroom w)) [
  | inl room ↦ rw (room, evict_walk) (Evicted-refl c headroom w v (inl room))
  | inr full ↦ elim (Bool-cases (w.stamp k.0 k.1 == w.gen)) [
    | inl mine ↦
        rw (full, mine, evict_walk)
          (evict_walk-Evicted c headroom ks w v (record {
            below = λ t j. omega (arith, a.below t j);
            behind = λ t j h. ground (arith, a.behind t j);
          }))
    | inr old ↦
        let le : 1 ≤ count k w.lru = ground (arith, a.below k.0 k.1) in
        rw (full, old, evict_walk)
          (Evicted-more c headroom k.0 k.1 w _ old (
            evict_walk-Evicted c headroom ks (evict_slab c k w)
              (evict_slab-IsValid c k.0 k.1 w le v) (evict_slab-Ahead c k.0 k.1 ks w a)))
  ]
]

-- Making room in a well-formed window takes no slab that the current gather has stamped, leaves the
-- window well formed, and stops with room for the headroom or with only such slabs on the list.
pub evict_to_budget-Evicted :
    (c : Window) (headroom : ℕ) (w : Rows)
    → IsValid c w
    → Evicted c headroom w (evict_to_budget c headroom w)
unfolding evict_to_budget
evict_to_budget-Evicted c headroom w v = elim (Bool-cases (fits c headroom w)) [
  | inl room ↦ rw (room, evict_to_budget) (Evicted-refl c headroom w v (inl room))
  | inr full ↦
      rw (full, evict_to_budget)
        (evict_walk-Evicted c headroom w.lru w v
          (record { below = λ t j. omega arith; behind = λ t j h. absurd (omega arith) }))
]
