-- ===== src/Expert/Spec.antt =====
-- Speculative reads: the queue that prefetch() fills, what a lane does with a job, and the quiesce
-- that a load runs first. This is the destructive quiesce of the guessing predictors; the adoption
-- of route-ahead (spec_adopt_) and the test path prefetch_sync are left out.
use franken_mo_e_cuda.Prelude.{
  ℕ, ◌+◌, ◌-◌, ◌*◌, ◌/◌, Bool, true, ◌&&◌, ◌||◌, not, Option, none, some, List, [], ◌∷◌, ◌++◌, ltb,
  ◌==◌, if◌then◌else◌, update, length, get_elem?,
}
use franken_mo_e_cuda.Prelude.Int.{ℤ}
use franken_mo_e_cuda.Lru.{lru_push_back}
use franken_mo_e_cuda.Expert.Layout.{Layout, IoJob, projections, slice_bytes, entry_id, entry_bytes}
use franken_mo_e_cuda.Expert.State.{Cache, VmCall, Commits}
use franken_mo_e_cuda.Expert.Entries.{commit_slices, release_entry_pages, expert_of, layer_of}

-- `jobs` is spec_jobs_, of which the first `next` are taken; `remaining` counts an entry's reads
-- still pending.
pub record Spec : Type 0 where
  pub jobs : List IoJob
  pub next : ℕ
  pub gen : ℕ
  pub inflight : ℕ
  pub done : List ℕ
  pub touched : List ℕ
  pub remaining : ℕ → ℕ
  pub read_bytes : ℕ
  pub experts : ℕ

-- The read of a projection of an expert into the buffer that starts at `base p`.
abbrev pub job_at : Layout → (ℕ → ℕ) → ℕ → ℕ → Option ℕ → Bool → ℕ → IoJob
job_at c base il e flag spec p = record {
  dst = base p + e * slice_bytes c il p;
  off = ((c.layers il).proj p).file_off + e * slice_bytes c il p;
  nbytes = slice_bytes c il p;
  flag = flag;
  file = ((c.layers il).proj p).file_idx;
  expert = e;
  layer = il;
  proj = p;
  spec = spec;
}

-- The reads of an expert, absent projections left out.
unfoldable pub expert_jobs : Layout → (ℕ → ℕ) → ℕ → ℕ → Option ℕ → Bool → List ℕ → List IoJob
expert_jobs c base il e flag spec [] = []
expert_jobs c base il e flag spec (p ∷ ps) =
    let rest = expert_jobs c base il e flag spec ps in
    if slice_bytes c il p == 0 then rest else job_at c base il e flag spec p ∷ rest

-- The filter of prefetch(): experts neither resident nor queued.
unfoldable pub candidates : Layout → ℕ → Cache → Spec → List ℤ → List ℕ
candidates c il s q [] = []
candidates c il s q (i ∷ is) =
    let rest = candidates c il s q is in
    elim (expert_of c i) [
      | none ↦ rest
      | some e ↦
          let id = entry_id c il e in
          if s.valid id || not (q.remaining id == 0) then rest else e ∷ rest
    ]

-- What prefetch() stages before it takes the mutex.
pub record Staged : Type 0 where
  pub vm : List VmCall
  pub rereads : ℕ
  pub jobs : List IoJob
  pub counts : List (ℕ × ℕ)

-- An entry is queued whole or not at all: a refused commit hands its pages back and ends the loop.
unfoldable pub stage_spec : Commits → Layout → ℕ → Cache → List ℕ → Staged → Staged
stage_spec os c il s [] st = st
stage_spec os c il s (e ∷ es) st =
    let id = entry_id c il e in
    let r = commit_slices os c il e none projections st.vm in
    let js = expert_jobs c (λ p. c.lbuf p il) il e (some id) true projections in
    let next : Staged = record {
      vm = r.1;
      rereads = if s.ever_evicted id then st.rereads + 1 else st.rereads;
      jobs = st.jobs ++ js;
      counts = st.counts ++ (id, length js) ∷ [];
    } in
    let skipped = stage_spec os c il s es (record st { vm = r.1 }) in
    let queued = stage_spec os c il s es next in
    let refused = record st { vm = release_entry_pages c id r.1 } in
    if r.0 then (if length js == 0 then skipped else queued) else refused

unfoldable pub publish_counts : List (ℕ × ℕ) → Spec → Spec
publish_counts [] q = q
publish_counts ((id, n) ∷ rest) q =
    publish_counts rest
      (record q { remaining = update q.remaining id n; touched = q.touched ++ id ∷ [] })

unfoldable pub prefetch_layer : Commits → Layout → ℕ → List ℤ → Cache → Spec → Cache × Spec
prefetch_layer os c il ids s q =
    let st =
      stage_spec os c il s (candidates c il s q ids)
        (record { vm = s.vm; rereads = s.rereads; jobs = []; counts = [] }) in
    let q' = publish_counts st.counts q in
    (record s { vm = st.vm; rereads = st.rereads }, record q' { jobs = q'.jobs ++ st.jobs })

-- prefetch(): `none` for the ids is the null pointer.
unfoldable pub prefetch :
    Commits → Layout → Bool → ℤ → Option (List ℤ) → Cache → Spec → Cache × Spec
prefetch os c active il none s q = (s, q)
prefetch os c active il (some ids) s q = elim (layer_of c il) [
  | none ↦ (s, q)
  | some l ↦ if active && ltb 0 s.cache_max then prefetch_layer os c l ids s q else (s, q)
]

-- drain_spec(), the critical section that takes a job: its generation and the job.
unfoldable pub take_spec : Spec → Option (ℕ × IoJob × Spec)
take_spec q = elim (get_elem? q.jobs q.next) [
  | none ↦ none
  | some j ↦ some (q.gen, j, record q { next = q.next + 1; inflight = q.inflight + 1 })
]

-- The critical section behind the read: only a read of the current generation counts.
unfoldable pub count_read : ℕ → IoJob → Spec → Spec
count_read id j q =
    let left = q.remaining id in
    record q {
      read_bytes = q.read_bytes + j.nbytes;
      remaining = if ltb 0 left then update q.remaining id (left - 1) else q.remaining;
      done = if left == 1 then q.done ++ id ∷ [] else q.done;
    }

unfoldable pub finish_spec : Bool → ℕ → IoJob → Spec → Spec
finish_spec ok g j q = elim j.flag [
  | none ↦ record q { inflight = q.inflight - 1 }
  | some id ↦
      let q' = if ok && (g == q.gen) then count_read id j q else q in
      record q' { inflight = q'.inflight - 1 }
]

-- The integration of one completed entry, at the cold end.
unfoldable pub enter_spec : Layout → ℕ → Cache → Cache
enter_spec c id s = record s {
  valid = update s.valid id true;
  spec = update s.spec id true;
  stamp = update s.stamp id 0;
  resident = s.resident + entry_bytes c (id / c.n_expert);
  links = lru_push_back id s.links;
}

unfoldable pub integrate : Layout → List ℕ → Cache → Spec → Cache × Spec
integrate c [] s q = (s, q)
integrate c (id ∷ ids) s q =
    let taken = not (q.remaining id == 0) || s.valid id in
    let s' = if taken then s else enter_spec c id s in
    let q' =
      if taken
      then record q { remaining = update q.remaining id 0 }
      else record q { experts = q.experts + 1 } in
    integrate c ids s' q'

unfoldable pub release_touched : Layout → List ℕ → Cache → Spec → Cache × Spec
release_touched c [] s q = (s, q)
release_touched c (id ∷ ids) s q =
    let settled = q.remaining id == 0 in
    let s' = if settled then s else record s { vm = release_entry_pages c id s.vm } in
    let q' = if settled then q else record q { remaining = update q.remaining id 0 } in
    release_touched c ids s' q'

-- quiesce_spec(-1). The new generation disowns the reads in flight, so the wait for them leaves
-- nothing of the state changed but the count of those reads.
unfoldable pub quiesce_spec : Layout → Cache → Spec → Cache × Spec
quiesce_spec c s q =
    let cancelled = record q {
      gen = q.gen + 1;
      jobs = [];
      next = 0;
      inflight = 0;
      done = [];
      touched = [];
    } in
    let (s', q') = integrate c q.done s cancelled in release_touched c q.touched s' q'
