-- ===== src/Expert/Tests.antt =====
-- The cache on a small model: two layers of four experts, slices of 40 bytes and pages of 16.
use franken_mo_e_cuda.Prelude.{
  ℕ, ◌+◌, ◌-◌, ◌%◌, ◌≤◌, ◌≡◌, refl, ◌⊎◌, true, false, ◌&&◌, ◌||◌, ◌==◌, none, some, [], ◌∷◌, arith,
}
use franken_mo_e_cuda.Prelude.Int.{pos, negsuc}
use franken_mo_e_cuda.Expert.Load
use franken_mo_e_cuda.Expert.Spec
use franken_mo_e_cuda.Expert.Entries
use franken_mo_e_cuda.Expert.Layout
use franken_mo_e_cuda.Lru.State.{Links}
use franken_mo_e_cuda.Lru.Refine.{
  Holds, empty-Holds, push_front-Holds, push_back-Holds, unlink-Holds,
}
use franken_mo_e_cuda.Lru.{empty, lru_push_front, lru_push_back, lru_unlink}
use franken_mo_e_cuda.Expert.Layout.{Layout, ExpertTensorRef, entry_id, n_entry, slice_bytes}
use franken_mo_e_cuda.Expert.State.{Cache, vm_commit, vm_evict}
use franken_mo_e_cuda.Expert.Sequence.{has}
use franken_mo_e_cuda.Expert.Invariant.{IsValid}
use franken_mo_e_cuda.Expert.Entries.{
  touch_entry, retain, evict_while, may_evict, commit_proj_pages, release_slice, slice_at,
}
use franken_mo_e_cuda.Expert.Pages.{commit-covers, release-inside}
use franken_mo_e_cuda.Expert.Evict.{Evicted, Untouched, evict_cold-Evicted}
use franken_mo_e_cuda.Expert.Touch.{touch_entry-IsValid}
use franken_mo_e_cuda.Expert.Retain.{Reordered, order_after, retain-Reordered}
use franken_mo_e_cuda.Expert.Spec.{Spec, quiesce_spec}
use franken_mo_e_cuda.Expert.Settle.{InRange, quiesce_spec-Integrates}
use franken_mo_e_cuda.Expert.Batch.{Wants}
use franken_mo_e_cuda.Expert.Progress.{load_layer_succeeds}
use franken_mo_e_cuda.Expert.Entries.{layer_of}
use franken_mo_e_cuda.Expert.Budget.{Resized, set_cache_budget-Resized}
use franken_mo_e_cuda.Expert.Load.{set_cache_budget, Source, Reads, load_layer}
use franken_mo_e_cuda.Expert.Loaded.{Fits, load_layer-IsValid, load_layer-resident}
use franken_mo_e_cuda.Expert.Sample.{small, grants, reads_all, quiet, fresh, cold-IsValid}

-- What a run of the model computes with.
program : Unit {0}
unfolding load_layer Load.load_bound Load.settle Load.evict_cold Load.stage_all Load.stage_ids
    Load.stage_rest Load.stage_left Load.stage_expert Load.stage_new Load.stage_again Load.stage
    Load.asked Load.read_batch Load.read_inline Load.read_pool Load.account_demand quiesce_spec
    Spec.integrate Spec.release_touched Spec.enter_spec Spec.expert_jobs Layout.entry_bytes
    Entries.layer_of Entries.expert_of touch_entry Entries.touch_hit Entries.enter_entry
    Entries.commit_slices commit_proj_pages evict_while may_evict Entries.evict_tail
    Entries.evict_entry Entries.release_entry_pages Entries.release_slices release_slice lru_unlink
    lru_push_front lru_push_back
program = tt

-- Two experts of layer 1 fill the cache.
abbrev warm : Source
warm = (load_layer grants reads_all small (pos 1) (some (pos 0 ∷ pos 1 ∷ [])) fresh).1

warm-IsValid : IsValid small warm.cache
warm-IsValid =
    load_layer-IsValid grants reads_all small fresh cold-IsValid tt (omega arith) (pos 1)
      (some (pos 0 ∷ pos 1 ∷ []))

-- The next load, of layer 0, drops the expert of layer 1 that was used longest ago.
abbrev after : Source
after = (load_layer grants reads_all small (pos 0) (some (pos 3 ∷ pos 3 ∷ [])) warm).1

after_state :
    (after.cache.valid 3 ≡ true)
    × (after.cache.valid 4 ≡ false)
    × (after.cache.valid 5 ≡ true)
    × (after.cache.resident ≡ 240)
    × (after.cache.evictions ≡ 1)
    × (after.cache.lookups ≡ 3)
unfolding program
after_state = (refl, refl, refl, refl, refl, refl)

load_layer-IsValid_example :
    IsValid small
      (load_layer grants reads_all small
        (pos 0)
        (some (pos 1 ∷ negsuc 4 ∷ pos 2 ∷ []))
        fresh).1.cache
load_layer-IsValid_example =
    load_layer-IsValid grants reads_all small fresh cold-IsValid tt (omega arith) (pos 0)
      (some (pos 1 ∷ negsuc 4 ∷ pos 2 ∷ []))

load_layer-resident_example :
    ((e : ℕ) → Wants small (pos 3 ∷ pos 3 ∷ []) e → after.cache.valid (entry_id small 0 e) ≡ true)
    × Fits after.cache
unfolding program
load_layer-resident_example =
    load_layer-resident grants reads_all small warm warm-IsValid tt (λ z. cc) (pos 0) 0
      (pos 3 ∷ pos 3 ∷ []) refl refl

-- An eviction with the budget lowered to one entry.
abbrev tight : Cache
tight = record warm.cache { cache_max = 120; gen = 7 }

evict_cold-Evicted_example :
    Evicted small
      (Untouched tight.stamp 7)
      may_evict
      tight
      (evict_while may_evict small 8 tight)
      warm-IsValid.order
evict_cold-Evicted_example = evict_cold-Evicted small tight warm-IsValid.order (record {
  holds = warm-IsValid.inv.holds;
  listed = warm-IsValid.inv.listed;
  bytes = warm-IsValid.inv.bytes;
  range = warm-IsValid.inv.range;
})

one : Links
one = lru_push_front 5 empty

one-Holds : Holds one (5 ∷ [])
unfolding one
one-Holds = push_front-Holds 5 empty [] empty-Holds tt

push_front-Holds_example : Holds (lru_push_front 2 one) (2 ∷ 5 ∷ [])
push_front-Holds_example = push_front-Holds 2 one (5 ∷ []) one-Holds ((λ e. omega arith), tt)

push_back-Holds_example : Holds (lru_push_back 2 one) (5 ∷ 2 ∷ [])
push_back-Holds_example = push_back-Holds 2 one (5 ∷ []) one-Holds ((λ e. omega arith), tt)

unlink-Holds_example : Holds (lru_unlink 5 (lru_push_front 2 one)) (2 ∷ [])
unlink-Holds_example = unlink-Holds 5 (lru_push_front 2 one) (2 ∷ []) [] push_front-Holds_example

touch_entry-IsValid_example :
    IsValid small (touch_entry grants small 0 2 true none warm.cache).cache
touch_entry-IsValid_example =
    touch_entry-IsValid grants small 0 2 true none warm.cache (omega arith) (omega arith)
      warm-IsValid

retain-Reordered_example :
    Reordered small warm.cache
      (retain small true (pos 1) (some (pos 0 ∷ [])) warm.cache)
      (order_after small true (pos 1) (some (pos 0 ∷ [])) warm.cache warm-IsValid.order)
retain-Reordered_example =
    retain-Reordered small true (pos 1) (some (pos 0 ∷ [])) warm.cache warm-IsValid.order
      warm-IsValid.inv

-- A speculation of entry 6 that has completed, and one of entry 7 that has not.
abbrev guessed : Spec
guessed = record quiet { done = 6 ∷ []; touched = 6 ∷ 7 ∷ []; remaining = λ id. id - 6 }

quiesce_spec-Integrates_example :
    IsValid small (quiesce_spec small warm.cache guessed).0
    × ((id : ℕ)
        → (quiesce_spec small warm.cache guessed).0.valid id
          ≡ (warm.cache.valid id || (has id (6 ∷ []) && guessed.remaining id == 0)))
quiesce_spec-Integrates_example =
    quiesce_spec-Integrates small warm.cache guessed (omega arith) (tt, tt) warm-IsValid

commit-covers_example :
    (a : ℕ) × (n : ℕ) × (commit_proj_pages grants small 0 1 0 [] ≡ (true, vm_commit a n ∷ []))
    × (a ≤ slice_at small 0 1 0)
    × (slice_at small 0 1 0 + slice_bytes small 0 0 ≤ a + n)
    × (a % 16 ≡ 0)
    × ((a + n) % 16 ≡ 0)
commit-covers_example = commit-covers grants small 0 1 0 [] (omega arith) (λ z. omega arith)

release-inside_example :
    (release_slice small 0 1 0 [] ≡ [])
    ⊎ ((a : ℕ) × (n : ℕ) × (release_slice small 0 1 0 [] ≡ vm_evict a n ∷ [])
        × (slice_at small 0 1 0 ≤ a)
        × (a + n ≤ slice_at small 0 1 0 + slice_bytes small 0 0)
        × (a % 16 ≡ 0)
        × ((a + n) % 16 ≡ 0))
release-inside_example = release-inside small 0 1 0 [] (omega arith)

warm_fits : (warm.cache.resident ≤ 480) × (warm.cache.resident ≤ warm.cache.cache_max)
unfolding program
warm_fits = (omega arith, omega arith)

warm_done : InRange small warm.spec.done
unfolding program
warm_done = tt

set_cache_budget-Resized_example :
    Resized small warm warm-IsValid warm_done 100 480 (set_cache_budget small 480 100 warm)
set_cache_budget-Resized_example =
    set_cache_budget-Resized small warm warm-IsValid warm_done 100 480 (omega arith) warm_fits.0
      warm_fits.1

layer_there : layer_of small (pos 1) ≡ some 1
unfolding program
layer_there = refl

load_layer_succeeds_example :
    (load_layer grants reads_all small (pos 1) (some (pos 0 ∷ pos 1 ∷ [])) fresh).0 ≡ true
load_layer_succeeds_example =
    load_layer_succeeds grants reads_all small (pos 1) 1 (pos 0) (pos 1 ∷ []) fresh (λ vm a n. refl)
      (λ log j. refl) layer_there refl
