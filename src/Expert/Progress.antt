-- ===== src/Expert/Progress.antt =====
-- moe/expert_stream_source.cpp, load_layer(): loads to which commits and reads are granted.
use franken_mo_e_cuda.Prelude.{
  ℕ, zero, suc, ◌+◌, ◌≡◌, Bool, true, false, Option, none, some, List, [], ◌∷◌, arith, Bool-cases,
  Option-cases, inl, inr, refl, ◌==◌,
}
use franken_mo_e_cuda.Prelude.Int.{ℤ}
use franken_mo_e_cuda.Expert.Layout.{Layout, IoJob, projections, slice_bytes, entry_id}
use franken_mo_e_cuda.Expert.State.{Cache, Commits, VmCall}
use franken_mo_e_cuda.Expert.Entries.{commit_proj_pages, commit_slices, touch_entry, layer_of}
use franken_mo_e_cuda.Expert.Load.{
  Source, Staging, Reads, asked, stage, stage_new, stage_expert, stage_ids, stage_left, stage_rest,
  stage_all, read_inline, read_pool, read_batch, uses_pool, settle, bump_gen, load_bound,
  load_layer,
}

-- Every commit and every read is granted.
abbrev pub Grants : Commits → Type 0
Grants os = (vm : List VmCall) (a n : ℕ) → os vm a n ≡ true

abbrev pub ReadsAll : Reads → Type 0
ReadsAll rd = (log : List IoJob) (j : IoJob) → rd log j ≡ true

module _ (os : Commits) (granted : Grants os) (c : Layout) where
  commit_proj_pages_ok :
      (il e p : ℕ) (vm : List VmCall) → (commit_proj_pages os c il e p vm).0 ≡ true
  unfolding commit_proj_pages
  commit_proj_pages_ok il e p vm = elim (Bool-cases (slice_bytes c il p == 0)) [
    | inl h ↦ simp (h, commit_proj_pages) refl
    | inr h ↦ simp (h, commit_proj_pages) (granted vm _ _)
  ]

  commit_slices_ok :
      (il e : ℕ) (only : Option ℕ) (ps : List ℕ) (vm : List VmCall)
      → (commit_slices os c il e only ps vm).0 ≡ true
  unfolding commit_slices
  commit_slices_ok il e only [] vm = refl
  commit_slices_ok il e only (p ∷ ps) vm =
      let here = commit_proj_pages_ok il e p vm in
      let past = commit_slices_ok il e only ps vm in
      let after = commit_slices_ok il e only ps (commit_proj_pages os c il e p vm).1 in
      ground (arith, here, past, after)

  touch_entry_ok :
      (il e : ℕ) (go : Bool) (only : Option ℕ) (s : Cache)
      → (touch_entry os c il e go only s).done ≡ true
  unfolding touch_entry
  touch_entry_ok il e go only s = elim (Bool-cases (s.valid (entry_id c il e))) [
    | inl h ↦ simp (h, touch_entry) refl
    | inr h ↦ simp (h, commit_slices_ok il e only projections s.vm, touch_entry) refl
  ]

  stage_ok : (il e : ℕ) (st : Staging) → (stage os c il e st).0 ≡ true
  unfolding stage
  stage_ok il e st = elim (Bool-cases (st.cache.cache_max == 0)) [
    | inl h ↦ simp (h, stage) refl
    | inr h ↦ simp (h, touch_entry_ok il e true none st.cache, stage) refl
  ]

  stage_expert_ok : (il e : ℕ) (st : Staging) → (stage_expert os c il e st).0 ≡ true
  unfolding stage_expert stage_new
  stage_expert_ok il e st = elim (Bool-cases (st.seen e)) [
    | inl h ↦ simp (h, stage_expert) refl
    | inr h ↦ simp (h, stage_expert) (stage_ok il e _)
  ]

  stage_left_ok : (il e : ℕ) (st : Staging) → (stage_left os c il e st).0 ≡ true
  unfolding stage_left stage_new
  stage_left_ok il e st = elim (Bool-cases (st.seen e)) [
    | inl h ↦ simp (h, stage_left) refl
    | inr h ↦ simp (h, stage_left) (stage_ok il e _)
  ]

  stage_ids_ok : (il i : ℕ) (ids : List ℤ) (st : Staging) → (stage_ids os c il i ids st).0 ≡ true
  unfolding stage_ids
  stage_ids_ok il i [] st = refl
  stage_ids_ok il i (id ∷ ids) st = elim (Option-cases (asked c i id)) [
    | inl h ↦ simp (h, stage_ids) (stage_ids_ok il (i + 1) ids st)
    | inr (e, h) ↦ simp (h, stage_expert_ok il e st, stage_ids) (stage_ids_ok il (i + 1) ids _)
  ]

  stage_rest_ok : (il n e : ℕ) (st : Staging) → (stage_rest os c il n e st).0 ≡ true
  unfolding stage_rest
  stage_rest_ok il zero e st = refl
  stage_rest_ok il (suc n) e st =
      simp (stage_left_ok il e st, stage_rest) (stage_rest_ok il n (e + 1) _)

  stage_all_ok : (il : ℕ) (ids : List ℤ) (st : Staging) → (stage_all os c il ids st).0 ≡ true
  unfolding stage_all
  stage_all_ok il ids st =
      let r = stage_ids_ok il 0 ids st in
      let q = stage_rest_ok il c.n_expert 0 (stage_ids os c il 0 ids st).1 in ground (arith, r, q)

module _ (rd : Reads) (all : ReadsAll rd) where
  read_inline_ok : (js done : List IoJob) → (read_inline rd js done).0 ≡ true
  unfolding read_inline
  read_inline_ok [] done = refl
  read_inline_ok (j ∷ js) done = simp (all done j, read_inline) (read_inline_ok js (j ∷ done))

  read_pool_ok : (js done : List IoJob) → (read_pool rd js done).0 ≡ true
  unfolding read_pool
  read_pool_ok [] done = refl
  read_pool_ok (j ∷ js) done = simp (all done j, read_pool) (read_pool_ok js (j ∷ done))

  read_batch_ok : (c : Layout) (js done : List IoJob) → (read_batch rd c js done).0 ≡ true
  unfolding read_batch
  read_batch_ok c js done = elim (Bool-cases (uses_pool c js)) [
    | inl h ↦ simp (h, read_batch) (read_pool_ok js done)
    | inr h ↦ simp (h, read_batch) (read_inline_ok js done)
  ]

load_bound_ok :
    (os : Commits) (rd : Reads) (c : Layout) (il : ℕ) (ids : List ℤ) (x : Source)
    → Grants os
    → ReadsAll rd
    → (load_bound os rd c il ids x).0 ≡ true
unfolding load_bound
load_bound_ok os rd c il ids x granted all =
    let s = settle c (bump_gen x.cache) x.spec in
    let st : Staging = record { cache = s.0; jobs = []; seen = λ _. false; n_unique = 0 } in
    let staged = stage_all_ok os granted c il ids st in
    let done = read_batch_ok rd all c (stage_all os c il ids st).1.jobs x.reads in
    simp (staged, done, load_bound) refl

-- A load of an active source, of a layer that is there and with at least one id, succeeds when every
-- commit and every read is granted.
pub load_layer_succeeds :
    (os : Commits) (rd : Reads) (c : Layout) (il : ℤ) (l : ℕ) (i : ℤ) (ids : List ℤ) (x : Source)
    → Grants os
    → ReadsAll rd
    → layer_of c il ≡ some l
    → x.active ≡ true
    → (load_layer os rd c il (some (i ∷ ids)) x).0 ≡ true
unfolding load_layer
load_layer_succeeds os rd c il l i ids x granted all e a =
    rw (e, load_layer) (simp a (load_bound_ok os rd c l (i ∷ ids) x granted all))
