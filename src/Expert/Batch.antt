-- ===== src/Expert/Batch.antt =====
-- moe/expert_stream_source.cpp, load_layer(): the staging of the routed experts.
use franken_mo_e_cuda.Prelude.{
  ℕ, zero, suc, ◌+◌, ◌<◌, ◌≤◌, ◌≡◌, Bool, true, ◌&&◌, some, List, [], ◌∷◌, arith, ◌==◌, Bool-cases,
  Option-cases, inl, inr, ==_iff, ◌⊎◌,
}
use franken_mo_e_cuda.Prelude.Int.{ℤ, pos, negsuc}
use franken_mo_e_cuda.Expert.Layout.{Layout}
use franken_mo_e_cuda.Expert.State.{Commits}
use franken_mo_e_cuda.Expert.Invariant.{IsValid}
use franken_mo_e_cuda.Expert.Entries.{expert_of}
use franken_mo_e_cuda.Expert.Load.{
  Staging, stage_expert, asked, stage_ids, stage_left, stage_rest, stage_all,
}
use franken_mo_e_cuda.Expert.Staged.{
  IsStaged, stage_expert-IsStaged, stage_expert-IsValid, stage_left-IsStaged, stage_left-IsValid,
}

-- The experts that the batch asks for from position `i` on, and those that a load must leave resident.
abbrev pub Asks : Layout → ℕ → List ℤ → ℕ → Type 0
Asks c i [] e = ⊥
Asks c i (id ∷ ids) e = (asked c i id ≡ some e) ⊎ Asks c (i + 1) ids e

abbrev pub Wants : Layout → List ℤ → ℕ → Type 0
Wants c ids e = Asks c 0 ids e ⊎ ((c.load_all ≡ true) × (e < c.n_expert))

module _ (os : Commits) (c : Layout) (il gen : ℕ) (inside : il < c.n_layer) where
  asked-lt : (i : ℕ) (id : ℤ) (e : ℕ) → asked c i id ≡ some e → e < c.n_expert
  unfolding asked expert_of
  asked-lt i (pos n) e h = ground arith
  asked-lt i (negsuc n) e h = ground arith

  -- What a staging loop leaves: well formed in any case, and if it ran to its end everything seen
  -- before is still seen.
  pub record Ran (st : Staging) (r : Bool × Staging) : Type 0 where
    pub is_valid : IsValid c r.1.cache
    pub staged : r.0 ≡ true → IsStaged c il gen r.1
    pub seen : r.0 ≡ true → (j : ℕ) → st.seen j ≡ true → r.1.seen j ≡ true

  pub stage_ids-Ran :
      (i : ℕ) (ids : List ℤ) (st : Staging)
      → IsStaged c il gen st
      → Ran st (stage_ids os c il i ids st)
        × (((stage_ids os c il i ids st).0 ≡ true)
            → (e : ℕ) → Asks c i ids e
            → (stage_ids os c il i ids st).1.seen e ≡ true)
  unfolding stage_ids
  stage_ids-Ran i [] st k =
      (record { is_valid = k.is_valid; staged = λ _. k; seen = λ _ j h. h }, λ _ e a. elim a [ ])
  stage_ids-Ran i (id ∷ ids) st k = elim (Option-cases (asked c i id)) [
    | inl n ↦
        let r = stage_ids-Ran (i + 1) ids st k in
        rw (n, stage_ids) (r.0, λ d e a. elim a [ inl x ↦ absurd (cc) | inr x ↦ r.1 d e x ])
    | inr (e, n) ↦ elim (Bool-cases (stage_expert os c il e st).0) [
      | inl d ↦
          let here = stage_expert-IsStaged os c il gen inside e st (asked-lt i id e n) k d in
          let r = stage_ids-Ran (i + 1) ids (stage_expert os c il e st).1 here.0 in
          rw (n, stage_ids, d)
            (
              record {
                is_valid = r.0.is_valid;
                staged = r.0.staged;
                seen = λ t j m. r.0.seen t j (here.2 j m);
              },
              λ t x a. elim a [ inl y ↦ r.0.seen t x (ground (arith, here.1)) | inr y ↦ r.1 t x y ],
            )
      | inr d ↦
          rw (n, stage_ids, d)
            (
              record {
                is_valid = stage_expert-IsValid os c il gen inside e st (asked-lt i id e n) k;
                staged = λ t. absurd (cc);
                seen = λ t. absurd (cc);
              },
              λ t. absurd (cc),
            )
    ]
  ]

  pub stage_rest-Ran :
      (n e : ℕ) (st : Staging)
      → e + n ≤ c.n_expert
      → IsStaged c il gen st
      → Ran st (stage_rest os c il n e st)
        × (((stage_rest os c il n e st).0 ≡ true)
            → (j : ℕ) → e ≤ j
            → j < e + n
            → (stage_rest os c il n e st).1.seen j ≡ true)
  unfolding stage_rest
  stage_rest-Ran zero e st h k = (
    record { is_valid = k.is_valid; staged = λ _. k; seen = λ _ j m. m },
    λ _ j lo hi. absurd (omega arith),
  )
  stage_rest-Ran (suc n) e st h k = elim (Bool-cases (stage_left os c il e st).0) [
    | inl d ↦
        let here = stage_left-IsStaged os c il gen inside e st (omega arith) k d in
        let r = stage_rest-Ran n (e + 1) (stage_left os c il e st).1 (omega arith) here.0 in
        rw (d, stage_rest)
          (
            record {
              is_valid = r.0.is_valid;
              staged = r.0.staged;
              seen = λ t j q. r.0.seen t j (here.2 j q);
            },
            λ t j lo hi. elim (Bool-cases (j == e)) [
              | inl a ↦ r.0.seen t j (rw ((==_iff j e).0 a) here.1)
              | inr a ↦ r.1 t j (ground arith) (omega arith)
            ],
          )
    | inr d ↦
        rw (d, stage_rest)
          (
            record {
              is_valid = stage_left-IsValid os c il gen inside e st (omega arith) k;
              staged = λ t. absurd (cc);
              seen = λ t. absurd (cc);
            },
            λ t. absurd (cc),
          )
  ]

  pub stage_all-Ran :
      (ids : List ℤ) (st : Staging)
      → IsStaged c il gen st
      → Ran st (stage_all os c il ids st)
        × (((stage_all os c il ids st).0 ≡ true)
            → (e : ℕ) → Wants c ids e
            → (stage_all os c il ids st).1.seen e ≡ true)
  unfolding stage_all
  stage_all-Ran ids st k =
      let r = stage_ids-Ran 0 ids st k in
      elim (Bool-cases ((stage_ids os c il 0 ids st).0 && c.load_all)) [
        | inr n ↦
            rw n (r.0, λ t e w. elim w [ inl a ↦ r.1 t e a | inr a ↦ absurd (ground (arith, a.0)) ])
        | inl y ↦
            let d : (stage_ids os c il 0 ids st).0 ≡ true = ground arith in
            let q =
              stage_rest-Ran c.n_expert 0 (stage_ids os c il 0 ids st).1 (omega arith)
                (r.0.staged d) in
            rw y (
              record {
                is_valid = q.0.is_valid;
                staged = q.0.staged;
                seen = λ t j m. q.0.seen t j (r.0.seen d j m);
              },
              λ t e w. elim w [
                | inl a ↦ q.0.seen t e (r.1 d e a)
                | inr a ↦ q.1 t e (omega arith) (omega (arith, a.1))
              ],
            )
      ]
