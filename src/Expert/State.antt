-- ===== src/Expert/State.antt =====
-- The LRU cache of ExpertStreamSource: the flags and stamps of the entries, the recency list and the
-- counters. Arrays are functions of the entry id. `vm` is the sequence of calls into the
-- virtual-memory layer, newest first; whether a commit succeeds is the operating system's answer.
use franken_mo_e_cuda.Prelude.{ℕ, Bool, List}
use franken_mo_e_cuda.Lru.State.{Links}

-- pio::vm_commit(address, length) and pio::vm_evict(address, length).
pub data VmCall : Type 0 where
  vm_commit vm_evict : ℕ → ℕ → VmCall

pub record Cache : Type 0 where
  pub links : Links
  pub valid : ℕ → Bool
  pub spec : ℕ → Bool
  pub ever_evicted : ℕ → Bool
  pub stamp : ℕ → ℕ
  pub gen : ℕ
  pub resident : ℕ
  pub cache_max : ℕ
  pub hits : ℕ
  pub lookups : ℕ
  pub evictions : ℕ
  pub rereads : ℕ
  pub spec_useful : ℕ
  pub vm : List VmCall

-- The answer to a commit, from the calls so far, the address and the length.
abbrev pub Commits : Type 0
Commits = List VmCall → ℕ → ℕ → Bool
