-- ===== src/Expert/Pages.antt =====
-- Page arithmetic: what a commit covers and what a release may touch.
use franken_mo_e_cuda.Prelude.{
  ℕ, ◌+◌, ◌-◌, ◌*◌, ◌/◌, ◌%◌, ◌<◌, ◌≤◌, ◌≡◌, ◌≢◌, false, List, ◌∷◌, arith, ◌==◌, ltb, ◌⊎◌, inl, inr,
  Bool-cases, ltb→lt,
}
use native.Mathlib.Nat.{div-add-mod, mul-mod_right, mod-lt}
use franken_mo_e_cuda.Expert.Layout.{Layout, slice_bytes}
use franken_mo_e_cuda.Expert.State.{VmCall, vm_commit, vm_evict, Commits}
use franken_mo_e_cuda.Expert.Entries.{
  page_floor, page_ceil, slice_at, release_slice, commit_proj_pages,
}

floor-le : (page x : ℕ) → page_floor page x ≤ x
floor-le page x = omega arith

floor-aligned : (page x : ℕ) → page_floor page x % page ≡ 0
floor-aligned page x =
    let e : page_floor page x ≡ page * (x / page) = omega (arith, div-add-mod x page) in
    rw e (mul-mod_right page (x / page))

ceil-ge : (page x : ℕ) → 0 < page → x ≤ page_ceil page x
ceil-ge page x h = omega (arith, mod-lt (x + page - 1) h)

-- The pages from `lo` down to a boundary, up to `hi` and on to a boundary.
span-covers :
    (page lo hi : ℕ)
    → 0 < page
    → lo ≤ hi
    → let a = page_floor page lo in
      let n = page_ceil page hi - a in
      (a ≤ lo) × (hi ≤ a + n) × (a % page ≡ 0) × ((a + n) % page ≡ 0)
span-covers page lo hi h le =
    let a = page_floor page lo in
    let up : hi ≤ page_ceil page hi = ceil-ge page hi h in
    let e : a + (page_ceil page hi - a) ≡ page_ceil page hi = omega (arith, floor-le page lo) in
    (floor-le page lo, rw e up, floor-aligned page lo, rw e (floor-aligned page (hi + page - 1)))

-- A commit of a slice that is not empty asks the operating system once, for whole pages that cover the
-- slice, and answers as it does. The page size is not 0.
pub commit-covers :
    (os : Commits) (c : Layout) (il e p : ℕ) (vm : List VmCall)
    → 0 < c.page
    → slice_bytes c il p ≢ 0
    → (a : ℕ) × (n : ℕ) × (commit_proj_pages os c il e p vm ≡ (os vm a n, vm_commit a n ∷ vm))
      × (a ≤ slice_at c il e p)
      × (slice_at c il e p + slice_bytes c il p ≤ a + n)
      × (a % c.page ≡ 0)
      × ((a + n) % c.page ≡ 0)
unfolding commit_proj_pages
commit-covers os c il e p vm h nz =
    let lo = slice_at c il e p in
    let hi = lo + slice_bytes c il p in
    let a = page_floor c.page lo in
    let r = span-covers c.page lo hi h (omega arith) in
    let some_bytes : (slice_bytes c il p == 0) ≡ false = ground (arith, nz) in
    (a, page_ceil c.page hi - a, simp some_bytes, r.0, r.1, r.2, r.3)

-- The whole pages between `lo` and `hi`, if there is one.
pub span-inside :
    (page lo hi : ℕ)
    → 0 < page
    → page_ceil page lo < page_floor page hi
    → let a = page_ceil page lo in
      let n = page_floor page hi - a in
      (lo ≤ a) × (a + n ≤ hi) × (a % page ≡ 0) × ((a + n) % page ≡ 0)
span-inside page lo hi h lt =
    let a = page_ceil page lo in
    let e : a + (page_floor page hi - a) ≡ page_floor page hi = omega arith in
    (
      ceil-ge page lo h,
      rw e (floor-le page hi),
      floor-aligned page (lo + page - 1),
      rw e (floor-aligned page hi),
    )

-- A release gives back nothing, or whole pages that lie within the expert's own slice: never a page
-- that it shares with a neighbour. The page size is not 0.
pub release-inside :
    (c : Layout) (il e p : ℕ) (vm : List VmCall)
    → 0 < c.page
    → (release_slice c il e p vm ≡ vm)
      ⊎ ((a : ℕ) × (n : ℕ) × (release_slice c il e p vm ≡ vm_evict a n ∷ vm)
          × (slice_at c il e p ≤ a)
          × (a + n ≤ slice_at c il e p + slice_bytes c il p)
          × (a % c.page ≡ 0)
          × ((a + n) % c.page ≡ 0))
unfolding release_slice
release-inside c il e p vm h =
    let lo = slice_at c il e p in
    let hi = lo + slice_bytes c il p in
    let a = page_ceil c.page lo in
    elim (Bool-cases (slice_bytes c il p == 0)) [
      | inl z ↦ inl (simp z)
      | inr z ↦ elim (Bool-cases (ltb a (page_floor c.page hi))) [
        | inr k ↦ inl (simp (z, k))
        | inl k ↦
            let r = span-inside c.page lo hi h (ltb→lt _ _ k) in
            inr (a, page_floor c.page hi - a, simp (z, k), r.0, r.1, r.2, r.3)
      ]
    ]
