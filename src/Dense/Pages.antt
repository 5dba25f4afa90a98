-- ===== src/Dense/Pages.antt =====
-- moe/dense_weights.cpp, addr_of() and the page rounding of the calls that drop or advise pages.
use franken_mo_e_cuda.Prelude.{
  ℕ, ◌+◌, ◌-◌, ◌%◌, ◌≤◌, ◌<◌, ◌≡◌, refl, some, ◌∷◌, ltb, Bool-cases, Option-cases, inl, inr, ◌⊎◌,
  ltb→lt,
}
use franken_mo_e_cuda.Expert.Entries.{page_floor, page_ceil}
use franken_mo_e_cuda.Expert.Pages.{span-inside}
use franken_mo_e_cuda.RowStream.TakeOver.{TensorRef}
use franken_mo_e_cuda.Dense.State.{Dense, PageCall, inner_pages, page_call, addr_of}

-- A call for pages leaves the state alone, or makes one call: for whole pages that lie within the bytes
-- of the tensor where its shard is mapped, so never for a page that it shares with a neighbour. The page
-- size is not 0.
page_call-inside :
    (call : ℕ → ℕ → PageCall) (page : ℕ) (d : TensorRef) (w : Dense)
    → 0 < page
    → (page_call call page d w ≡ w)
      ⊎ ((a : ℕ) × (s : ℕ) × (n : ℕ) × (addr_of w d.file_idx d.file_off ≡ some a)
          × (page_call call page d w ≡ record w { page_calls = call s n ∷ w.page_calls })
          × (a ≤ s)
          × (s + n ≤ a + d.size)
          × (s % page ≡ 0)
          × ((s + n) % page ≡ 0))
unfolding page_call inner_pages
page_call-inside call page d w h = elim (Option-cases (addr_of w d.file_idx d.file_off)) [
  | inl e ↦ rw (e, page_call) (inl refl)
  | inr (a, e) ↦
      let hi = page_floor page (a + d.size) in
      let lo = page_ceil page a in
      elim (Bool-cases (ltb lo hi)) [
        | inr k ↦ inl (rw (e, page_call) (rw (k, inner_pages) refl))
        | inl k ↦
            let r = span-inside page a (a + d.size) h (ltb→lt _ _ k) in
            inr
              (a, lo, hi - lo, e, rw (e, page_call) (rw (k, inner_pages) refl), r.0, r.1, r.2, r.3)
      ]
]
