-- ===== src/Lru/State.antt =====
-- The state of the recency list, and writes through a link that may be -1.
use franken_mo_e_cuda.Prelude.{ℕ, Option, none, some, update}

pub record Links : Type 0 where
  pub prev : ℕ → Option ℕ
  pub next : ℕ → Option ℕ
  pub head : Option ℕ
  pub tail : Option ℕ

-- A write through a link that may be -1: `if (i != -1) f[i] = v`.
abbrev pub update_at : (ℕ → Option ℕ) → Option ℕ → Option ℕ → ℕ → Option ℕ
update_at f none v = f
update_at f (some i) v = update f i v

-- The end of the list that stands for a missing neighbour: `else end = v`.
abbrev pub update_end : Option ℕ → Option ℕ → Option ℕ → Option ℕ
update_end none end v = v
update_end (some i) end v = end
