-- ===== src/Expert/Staged.antt =====
-- moe/expert_stream_source.cpp, load_layer(): the staging of one expert.
use franken_mo_e_cuda.Prelude.{
  ℕ, ◌<◌, ◌≡◌, ◌≢◌, refl, sym, ◌∙◌, true, false, none, arith, ◌==◌, update, Bool-cases, inl, inr,
  ==_iff, ◌⊎◌, update_self,
}
use franken_mo_e_cuda.Expert.Layout.{Layout, entry_id}
use franken_mo_e_cuda.Expert.State.{Cache, Commits}
use franken_mo_e_cuda.Expert.Invariant.{IsValid}
use franken_mo_e_cuda.Expert.Entries.{touch_entry}
use franken_mo_e_cuda.Expert.Touch.{
  touch_entry-IsValid, touch_entry-resident, touch_entry-gen, promote_entry-IsValid,
}
use franken_mo_e_cuda.Expert.Load.{Staging, stage, stage_new, stage_again, stage_expert, stage_left}

-- Resident, and not to be evicted by the load of generation `gen`.
abbrev pub IsHeld : Cache → ℕ → ℕ → Type 0
IsHeld s gen id = (s.valid id ≡ true) × (s.stamp id ≡ gen)

-- A staging in progress, over a cache that is on.
pub record IsStaged (c : Layout) (il gen : ℕ) (st : Staging) : Type 0 where
  pub is_valid : IsValid c st.cache
  pub at_gen : st.cache.gen ≡ gen
  pub is_on : st.cache.cache_max ≢ 0
  pub held : (e : ℕ) → st.seen e ≡ true → IsHeld st.cache gen (entry_id c il e)

-- What was held stays held by a move that keeps the valid entries and sets stamps only to `gen`.
IsHeld-mono :
    (s t : Cache) (gen id : ℕ)
    → ((j : ℕ) → s.valid j ≡ true → t.valid j ≡ true)
    → (t.stamp id ≡ gen) ⊎ (t.stamp id ≡ s.stamp id)
    → IsHeld s gen id
    → IsHeld t gen id
IsHeld-mono s t gen id stays (inl e) h = (stays id h.0, e)
IsHeld-mono s t gen id stays (inr e) h = (stays id h.0, e ∙ h.1)

update-cases : (f : ℕ → ℕ) (i v j : ℕ) → (update f i v j ≡ v) ⊎ (update f i v j ≡ f j)
update-cases f i v j = elim (Bool-cases (j == i)) [ inl e ↦ inl (rw e) | inr e ↦ inr (rw e) ]

module _ (os : Commits) (c : Layout) (il gen : ℕ) (inside : il < c.n_layer) where
  touched-IsHeld :
      (e : ℕ) (s : Cache) (j : ℕ)
      → s.gen ≡ gen
      → (touch_entry os c il e true none s).done ≡ true
      → ((j == e) ≡ true) ⊎ IsHeld s gen (entry_id c il j)
      → IsHeld (touch_entry os c il e true none s).cache gen (entry_id c il j)
  touched-IsHeld e s j g d (inl same) =
      let r = touch_entry-resident os c il e true none s d in
      let k = entry_id c il e in
      rw ((==_iff j e).0 same) (r.0, r.2 k ∙ update_self s.stamp k s.gen ∙ g)
  touched-IsHeld e s j g d (inr h) =
      let r = touch_entry-resident os c il e true none s d in
      let k = entry_id c il j in
      IsHeld-mono s (touch_entry os c il e true none s).cache gen k r.1
        (elim (update-cases s.stamp (entry_id c il e) s.gen k) [
          | inl a ↦ inl (r.2 k ∙ a ∙ g)
          | inr a ↦ inr (r.2 k ∙ a)
        ])
        h

  stage_new-IsStaged :
      (e : ℕ) (st : Staging)
      → e < c.n_expert
      → IsStaged c il gen st
      → (stage_new os c il e st).0 ≡ true
      → IsStaged c il gen (stage_new os c il e st).1
        × ((stage_new os c il e st).1.seen ≡ update st.seen e true)
  unfolding stage_new stage
  stage_new-IsStaged e st below k h =
      let t = touch_entry os c il e true none st.cache in
      let same = touch_entry-gen os c il e true none st.cache in
      let on : (st.cache.cache_max == 0) ≡ false = ground (arith, k.is_on) in
      let d : t.done ≡ true = ground arith in
      rw (on, d)
        (
          record {
            is_valid = touch_entry-IsValid os c il e true none st.cache inside below k.is_valid;
            at_gen = same.0 ∙ k.at_gen;
            is_on = λ z. k.is_on (sym same.1 ∙ z);
            held = λ j m. touched-IsHeld e st.cache j k.at_gen d (elim (Bool-cases (j == e)) [
              | inl a ↦ inl a
              | inr a ↦ inr (k.held j (ground arith))
            ]);
          },
          refl,
        )

  stage_new-IsValid :
      (e : ℕ) (st : Staging)
      → e < c.n_expert
      → IsValid c st.cache
      → IsValid c (stage_new os c il e st).1.cache
  unfolding stage_new stage
  stage_new-IsValid e st below v =
      let v' = touch_entry-IsValid os c il e true none st.cache inside below v in
      elim (Bool-cases (st.cache.cache_max == 0)) [
        | inl off ↦ rw off v
        | inr on ↦ elim (Bool-cases (touch_entry os c il e true none st.cache).done) [
          | inl d ↦ rw (on, d) v'
          | inr d ↦ rw (on, d) v'
        ]
      ]

  stage_again-IsStaged :
      (e : ℕ) (st : Staging)
      → st.seen e ≡ true
      → IsStaged c il gen st
      → IsStaged c il gen (stage_again os c il e st)
  unfolding stage_again
  stage_again-IsStaged e st m k =
      let on : (st.cache.cache_max == 0) ≡ false = ground (arith, k.is_on) in
      rw on (record {
        is_valid = promote_entry-IsValid c st.cache (entry_id c il e) (k.held e m).0 k.is_valid;
        at_gen = k.at_gen;
        is_on = k.is_on;
        held = k.held;
      })

  stage_again-seen : (e : ℕ) (st : Staging) → (stage_again os c il e st).seen ≡ st.seen
  unfolding stage_again
  stage_again-seen e st = ground arith

  -- One expert of the batch.
  pub stage_expert-IsStaged :
      (e : ℕ) (st : Staging)
      → e < c.n_expert
      → IsStaged c il gen st
      → (stage_expert os c il e st).0 ≡ true
      → IsStaged c il gen (stage_expert os c il e st).1
        × ((stage_expert os c il e st).1.seen e ≡ true)
        × ((j : ℕ) → st.seen j ≡ true → (stage_expert os c il e st).1.seen j ≡ true)
  unfolding stage_expert
  stage_expert-IsStaged e st below k h = elim (Bool-cases (st.seen e)) [
    | inl m ↦ rw m (
      stage_again-IsStaged e st m k,
      rw (stage_again-seen e st) m,
      λ j n. rw (stage_again-seen e st) n,
    )
    | inr m ↦
        let r = stage_new-IsStaged e st below k (rw (m, stage_expert) at h) in
        rw m (r.0, rw r.1 (update_self st.seen e true), λ j n. rw r.1 (ground arith))
  ]

  pub stage_expert-IsValid :
      (e : ℕ) (st : Staging)
      → e < c.n_expert
      → IsStaged c il gen st
      → IsValid c (stage_expert os c il e st).1.cache
  unfolding stage_expert
  stage_expert-IsValid e st below k = elim (Bool-cases (st.seen e)) [
    | inl m ↦ rw m (stage_again-IsStaged e st m k).is_valid
    | inr m ↦ rw m (stage_new-IsValid e st below k.is_valid)
  ]

  pub stage_left-IsStaged :
      (e : ℕ) (st : Staging)
      → e < c.n_expert
      → IsStaged c il gen st
      → (stage_left os c il e st).0 ≡ true
      → IsStaged c il gen (stage_left os c il e st).1
        × ((stage_left os c il e st).1.seen e ≡ true)
        × ((j : ℕ) → st.seen j ≡ true → (stage_left os c il e st).1.seen j ≡ true)
  unfolding stage_left
  stage_left-IsStaged e st below k h = elim (Bool-cases (st.seen e)) [
    | inl m ↦ rw m (k, m, λ j n. n)
    | inr m ↦
        let r = stage_new-IsStaged e st below k (rw (m, stage_left) at h) in
        rw m (r.0, rw r.1 (update_self st.seen e true), λ j n. rw r.1 (ground arith))
  ]

  pub stage_left-IsValid :
      (e : ℕ) (st : Staging)
      → e < c.n_expert
      → IsStaged c il gen st
      → IsValid c (stage_left os c il e st).1.cache
  unfolding stage_left
  stage_left-IsValid e st below k = elim (Bool-cases (st.seen e)) [
    | inl m ↦ rw m k.is_valid
    | inr m ↦ rw m (stage_new-IsValid e st below k.is_valid)
  ]
