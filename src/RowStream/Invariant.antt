-- ===== src/RowStream/Invariant.antt =====
-- When the window is well formed, and the moves of one slab that keep it so.
use franken_mo_e_cuda.Prelude.{
  ℕ, ◌+◌, ◌-◌, ◌^◌, ◌≤◌, ◌<◌, ◌≡◌, Bool, true, false, List, [], ◌∷◌, ◌++◌, arith, if◌then◌else◌,
  Bool-cases, inl, inr,
}
use franken_mo_e_cuda.RowStream.Layout.{Window, SlabId, commit_len, n_slabs, Rows, update_at}
use franken_mo_e_cuda.RowStream.Slabs.{
  erase, count, total, count-renew, count-append, total-append, count-erase_self, count-erase_other,
  total-erase, ◌==ₛ◌,
}

-- 1 for a flag that is set.
abbrev pub bit : Bool → ℕ
bit b = if b then 1 else 0

-- The flags against the list `xs` of eviction and the slabs `pinned` of materialized tables: a
-- resident slab stands in one of the two, once, and a slab has a position if it stands in the list.
pub record Listed (c : Window) (resident spot : ℕ → ℕ → Bool) (bytes : ℕ) (xs pinned : List SlabId)
    : Type 0 where
  pub once : (ti s : ℕ) → bit (resident ti s) ≡ count (ti, s) xs + count (ti, s) pinned
  pub placed : (ti s : ℕ) → bit (spot ti s) ≡ count (ti, s) xs
  pub bytes_of : bytes ≡ total c xs + total c pinned

-- The stamps are those of past gathers or of the current one.
pub record Stamped (stamp : ℕ → ℕ → ℕ) (gen : ℕ) : Type 0 where
  pub bound : gen < 2 ^ 32
  pub past : (ti s : ℕ) → stamp ti s ≤ gen

-- A whole table has every slab, none of them on the list.
pub record Whole (c : Window) (resident spot : ℕ → ℕ → Bool) (ti : ℕ) : Type 0 where
  pub here : (s : ℕ) → s < n_slabs c ti → resident ti s ≡ true
  pub kept : (s : ℕ) → s < n_slabs c ti → spot ti s ≡ false

pub record IsValid (c : Window) (w : Rows) : Type 0 where
  pub pinned : List SlabId
  pub listed : Listed c w.resident w.spot w.resident_bytes w.lru pinned
  pub stamped : Stamped w.stamp w.gen
  pub free : (ti s : ℕ) → w.whole ti ≡ false → count (ti, s) pinned ≡ 0
  pub wholes : (ti : ℕ) → w.whole ti ≡ true → Whole c w.resident w.spot ti

module _ {c : Window} {resident spot : ℕ → ℕ → Bool} {bytes : ℕ} {xs pinned : List SlabId} where
  -- A slab that is read comes in as the newest.
  pub arrive-Listed :
      (ti s : ℕ)
      → resident ti s ≡ false
      → Listed c resident spot bytes xs pinned
      → (spot ti s ≡ false)
        × Listed c
            (update_at resident ti s true)
            (update_at spot ti s true)
            (bytes + commit_len c ti s)
            (xs ++ (ti, s) ∷ [])
            pinned
  unfolding count total
  arrive-Listed ti s e v = (
    ground (arith, v.once ti s, v.placed ti s),
    record {
      once = λ t j. ground (arith, v.once t j, v.once ti s, count-append (t, j) xs ((ti, s) ∷ []));
      placed = λ t j.
          ground (
            arith,
            v.once ti s,
            v.placed t j,
            v.placed ti s,
            count-append (t, j) xs ((ti, s) ∷ []),
          );
      bytes_of = omega (arith, v.bytes_of, total-append c xs ((ti, s) ∷ []));
    },
  )

  -- A resident slab of a table that is not whole becomes the newest.
  pub renew-Listed :
      (ti s : ℕ)
      → resident ti s ≡ true
      → count (ti, s) pinned ≡ 0
      → Listed c resident spot bytes xs pinned
      → (spot ti s ≡ true)
        × Listed c resident
            (update_at spot ti s true)
            bytes
            (erase (ti, s) xs ++ (ti, s) ∷ [])
            pinned
  unfolding count total
  renew-Listed ti s e free v =
      let one : count (ti, s) xs ≡ 1 = ground (arith, v.once ti s) in
      let same : (t j : ℕ) → count (t, j) (erase (ti, s) xs ++ (ti, s) ∷ []) ≡ count (t, j) xs =
        λ t j. count-renew (t, j) (ti, s) xs one in
      (
        ground (arith, v.placed ti s),
        record {
          once = λ t j. omega (arith, v.once t j, same t j);
          placed = λ t j. ground (arith, v.placed t j, v.placed ti s, same t j);
          bytes_of = omega (
            arith,
            v.bytes_of,
            total-append c (erase (ti, s) xs) ((ti, s) ∷ []),
            total-erase c (ti, s) xs,
          );
        },
      )

  -- A slab on the list leaves the window.
  pub leave-Listed :
      (ti s : ℕ)
      → 1 ≤ count (ti, s) xs
      → Listed c resident spot bytes xs pinned
      → Listed c
          (update_at resident ti s false)
          (update_at spot ti s false)
          (bytes - commit_len c ti s)
          (erase (ti, s) xs)
          pinned
  unfolding count total
  leave-Listed ti s le v = record {
    once = λ t j. elim (Bool-cases ((t, j) ==ₛ (ti, s))) [
      | inl k ↦ ground (arith, v.once t j, count-erase_self (ti, s) xs le)
      | inr k ↦ ground (arith, v.once t j, count-erase_other (t, j) (ti, s) xs k)
    ];
    placed = λ t j. elim (Bool-cases ((t, j) ==ₛ (ti, s))) [
      | inl k ↦ ground (arith, v.once t j, v.placed t j, count-erase_self (ti, s) xs le)
      | inr k ↦ ground (arith, v.placed t j, count-erase_other (t, j) (ti, s) xs k)
    ];
    bytes_of = omega (arith, v.bytes_of, total-erase c (ti, s) xs le);
  }

  -- A slab on the list leaves the list and stays in the window.
  pub pin-Listed :
      (ti s : ℕ)
      → 1 ≤ count (ti, s) xs
      → Listed c resident spot bytes xs pinned
      → Listed c resident (update_at spot ti s false) bytes (erase (ti, s) xs) ((ti, s) ∷ pinned)
  unfolding count total
  pin-Listed ti s le v = record {
    once = λ t j. elim (Bool-cases ((t, j) ==ₛ (ti, s))) [
      | inl k ↦ ground (arith, v.once t j, count-erase_self (ti, s) xs le)
      | inr k ↦ ground (arith, v.once t j, count-erase_other (t, j) (ti, s) xs k)
    ];
    placed = λ t j. elim (Bool-cases ((t, j) ==ₛ (ti, s))) [
      | inl k ↦ ground (arith, v.once t j, v.placed t j, count-erase_self (ti, s) xs le)
      | inr k ↦ ground (arith, v.placed t j, count-erase_other (t, j) (ti, s) xs k)
    ];
    bytes_of = omega (arith, v.bytes_of, total-erase c (ti, s) xs le);
  }
