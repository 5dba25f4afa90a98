-- ===== src/Expert/Touch.antt =====
-- touch_entry(), retain() and the order of the entries that they leave.
use franken_mo_e_cuda.Prelude.{
  ℕ, ◌+◌, ◌/◌, ◌<◌, ◌≡◌, sym, ◌∙◌, subst, Bool, true, false, Option, ◌∷◌, ◌++◌, arith, update,
  Bool-cases, inl, inr,
}
use franken_mo_e_cuda.Lru.{lru_push_front}
use franken_mo_e_cuda.Expert.Layout.{Layout, entry_bytes, entry_id, n_entry, projections}
use franken_mo_e_cuda.Expert.State.{Cache, Commits}
use franken_mo_e_cuda.Expert.Sequence.{has-Cut}
use franken_mo_e_cuda.Expert.Invariant.{Inv, InvOf, IsValid, promote, enter_front}
use franken_mo_e_cuda.Expert.Entries.{
  promote_entry, touch_hit, enter_entry, touch_entry, commit_slices,
}

pub entry_id-lt :
    (c : Layout) (il e : ℕ) → il < c.n_layer → e < c.n_expert → entry_id c il e < n_entry c
entry_id-lt c il e p q = grind arith

pub entry_id-layer : (c : Layout) (il e : ℕ) → e < c.n_expert → entry_id c il e / c.n_expert ≡ il
entry_id-layer c il e q = grind arith

-- Moving a resident entry to the recent end keeps the cache well formed.
pub promote_entry-IsValid :
    (c : Layout) (s : Cache) (id : ℕ)
    → s.valid id ≡ true
    → IsValid c s
    → IsValid c (promote_entry id s)
promote_entry-IsValid c s id h v =
    let cut = has-Cut id v.order (sym (v.inv.listed id) ∙ h) in
    record {
      order = id ∷ cut.before ++ cut.after;
      inv = promote id cut.before cut.after (subst (InvOf c s) cut.whole v.inv);
    }

enter_entry-IsValid :
    (c : Layout) (il e : ℕ) (s : Cache)
    → il < c.n_layer
    → e < c.n_expert
    → s.valid (entry_id c il e) ≡ false
    → IsValid c s
    → IsValid c (enter_entry c il (entry_id c il e) s)
unfolding enter_entry
enter_entry-IsValid c il e s p q free v =
    let id = entry_id c il e in
    record {
      order = id ∷ v.order;
      inv =
          subst
            (λ l.
              Inv c (update s.valid id true) (s.resident + entry_bytes c l)
                (lru_push_front id s.links) (id ∷ v.order))
            (entry_id-layer c il e q) (enter_front id v.inv free (entry_id-lt c il e p q));
    }

touch_hit-IsValid :
    (c : Layout) (id : ℕ) (go : Bool) (s : Cache)
    → s.valid id ≡ true
    → IsValid c s
    → IsValid c (touch_hit id go s)
unfolding touch_hit
touch_hit-IsValid c id true s h v =
    promote_entry-IsValid c _ id h (record { order = v.order; inv = v.inv })
touch_hit-IsValid c id false s h v = record { order = v.order; inv = v.inv }

-- A lookup of an expert of the model keeps a well-formed cache well formed: on a hit, on a miss, and
-- when a commit is refused.
pub touch_entry-IsValid :
    (os : Commits) (c : Layout) (il e : ℕ) (go : Bool) (only : Option ℕ) (s : Cache)
    → il < c.n_layer
    → e < c.n_expert
    → IsValid c s
    → IsValid c (touch_entry os c il e go only s).cache
unfolding touch_entry
touch_entry-IsValid os c il e go only s p q v = elim (Bool-cases (s.valid (entry_id c il e))) [
  | inl hit ↦
      rw (hit, touch_entry)
        (touch_hit-IsValid c (entry_id c il e) go _ hit (record { order = v.order; inv = v.inv }))
  | inr miss ↦ elim (Bool-cases (commit_slices os c il e only projections s.vm).0) [
    | inl fits ↦
        rw (miss, touch_entry, fits)
          (enter_entry-IsValid c il e _ p q miss (record { order = v.order; inv = v.inv }))
    | inr full ↦ rw (miss, touch_entry, full) (record { order = v.order; inv = v.inv })
  ]
]

-- What a lookup that succeeds leaves: the entry is resident and stamped with the current
-- generation, no other entry has gone, and no other stamp has moved.
pub touch_entry-resident :
    (os : Commits) (c : Layout) (il e : ℕ) (go : Bool) (only : Option ℕ) (s : Cache)
    → let t = touch_entry os c il e go only s in
      t.done ≡ true
      → (t.cache.valid (entry_id c il e) ≡ true)
        × ((j : ℕ) → s.valid j ≡ true → t.cache.valid j ≡ true)
        × ((j : ℕ) → t.cache.stamp j ≡ update s.stamp (entry_id c il e) s.gen j)
unfolding touch_entry touch_hit enter_entry
touch_entry-resident os c il e go only s h = (ground arith, λ j k. ground arith, λ j. ground arith)

-- A lookup never changes the generation or the budget.
pub touch_entry-gen :
    (os : Commits) (c : Layout) (il e : ℕ) (go : Bool) (only : Option ℕ) (s : Cache)
    → ((touch_entry os c il e go only s).cache.gen ≡ s.gen)
      × ((touch_entry os c il e go only s).cache.cache_max ≡ s.cache_max)
unfolding touch_entry touch_hit enter_entry
touch_entry-gen os c il e go only s = (ground arith, ground arith)

-- A hit is what the flag says, whatever the commits would have answered.
pub touch_entry-hit :
    (os : Commits) (c : Layout) (il e : ℕ) (go : Bool) (only : Option ℕ) (s : Cache)
    → (touch_entry os c il e go only s).hit ≡ s.valid (entry_id c il e)
unfolding touch_entry
touch_entry-hit os c il e go only s = ground arith
