-- ===== src/Ngram.antt =====
-- engine/ngram_draft.cpp: the prompt-lookup draft source. Tokens are signed; the position arithmetic
-- is on sizes that fit their types. `int` arguments may be negative and are read as the code reads them.
pub mod Suffix
pub mod Best
pub mod Drafts
mod Tests
use franken_mo_e_cuda.Prelude.{
  ℕ, zero, suc, ◌+◌, ◌-◌, min, Bool, true, false, ◌&&◌, ◌||◌, Option, none, some, List, [], ◌∷◌,
  ltb, leb, ◌==◌, if◌then◌else◌, length, get_elem?,
}
use franken_mo_e_cuda.Prelude.Int.{ℤ, pos, ltb_ℤ, leb_ℤ, ◌==ℤ◌, pos_part}

-- The best match so far: its length, 0 for none, and its last position.
pub record Match : Type 0 where
  pub m : ℕ
  pub j : ℕ

-- The corpus is ctx ++ [last]; its last position is the length of ctx.
unfoldable pub at : List ℤ → ℤ → ℕ → ℤ
at ctx last i = elim (get_elem? ctx i) [ none ↦ last | some t ↦ t ]

module _ (ctx : List ℤ) (last : ℤ) where
  -- `while (m < lim && at(j - m) == at(end - m)) ++m`, with `k` = lim - m rounds left.
  unfoldable pub grow : ℕ → ℕ → ℕ → ℕ
  grow zero j m = m
  grow (suc k) j m = elim (at ctx last (j - m) ==ℤ at ctx last (length ctx - m)) [
    | true ↦ grow k j (m + 1)
    | false ↦ m
  ]

  -- One round of the scan: the best match after it, and whether it breaks off.
  unfoldable pub consider : ℕ → ℕ → Match → Match × Bool
  consider max_match j best =
      let m = grow (min max_match (j + 1) - 1) j 1 in
      if at ctx last j ==ℤ at ctx last (length ctx)
      then (if ltb best.m m then (record { m = m; j = j }, m == max_match) else (best, false))
      else (best, false)

  -- The scan from position `j` down to `j_min`.
  unfoldable pub scan : ℕ → ℕ → ℕ → Match → Match
  scan max_match j_min zero best = (consider max_match zero best).0
  scan max_match j_min (suc j) best =
      let r = consider max_match (suc j) best in
      elim (r.1 || leb (suc j) j_min) [ true ↦ r.0 | false ↦ scan max_match j_min j r.0 ]

  unfoldable pub copy : ℕ → ℕ → List ℤ
  copy zero i = []
  copy (suc n) i = at ctx last i ∷ copy n (i + 1)

  -- The part behind the clamping of the arguments: the count returned, and the draft.
  unfoldable pub draft : ℕ → ℕ → ℕ → ℕ × List ℤ
  draft n_max min_match max_match =
      let end = length ctx in
      let best = scan max_match (min_match - 1) (end - 1) (record { m = 0; j = 0 }) in
      let n = min n_max (end - best.j) in
      if ltb (end + 1) (min_match + 1)
      then (0, [])
      else if ltb best.m min_match
      then (0, [])
      else (n, copy n (best.j + 1))

  unfoldable pub ngram_draft : ℤ → ℤ → ℤ → ℕ × List ℤ
  ngram_draft n_max min_match max_match =
      let floor = if ltb_ℤ min_match (pos 1) then pos 1 else min_match in
      if leb_ℤ n_max (pos 0)
      then (0, [])
      else if ltb_ℤ max_match floor
      then (0, [])
      else draft (pos_part n_max) (pos_part floor) (pos_part max_match)
