-- ===== src/Expert/Load.antt =====
-- load_layer() in serial mode (overlap_ off): stage the routed experts, read the batch, evict.
use franken_mo_e_cuda.Prelude.{
  ℕ, zero, suc, ◌+◌, ◌*◌, ◌%◌, ◌^◌, min, max, Bool, true, false, ◌&&◌, ◌||◌, not, Option, none,
  some, List, [], ◌∷◌, ◌++◌, ltb, leb, ◌==◌, if◌then◌else◌, update, length,
}
use franken_mo_e_cuda.Prelude.Int.{ℤ, pos, leb_ℤ}
use franken_mo_e_cuda.Expert.Layout.{Layout, IoJob, projections, entry_id, n_entry, entry_bytes}
use franken_mo_e_cuda.Expert.State.{Cache, Commits}
use franken_mo_e_cuda.Expert.Entries.{
  promote_entry, touch_entry, expert_of, layer_of, evict_while, may_evict, over_budget,
}
use franken_mo_e_cuda.Expert.Spec.{Spec, expert_jobs, quiesce_spec}

-- The demand counters of account_demand(); `last_il` is -1 before the first load.
pub record Demand : Type 0 where
  pub last_il : ℤ
  pub accum : ℕ
  pub layer_accum : ℕ
  pub token : ℕ
  pub layer : ℕ

unfoldable pub account_demand : Layout → ℕ → ℕ → Demand → Demand
account_demand c il n_unique d =
    let wrapped = leb_ℤ (pos il) d.last_il in
    let bytes = n_unique * entry_bytes c il in
    record {
      last_il = pos il;
      accum = (if wrapped then 0 else d.accum) + bytes;
      layer_accum = max (if wrapped then 0 else d.layer_accum) bytes;
      token = if wrapped then d.accum else d.token;
      layer = if wrapped then d.layer_accum else d.layer;
    }

-- The source as the eval thread sees it. `reads` are the slice reads so far, newest first; `tick` is
-- dense_probe_tick_.
pub record Source : Type 0 where
  pub active : Bool
  pub cache : Cache
  pub spec : Spec
  pub demand : Demand
  pub tick : ℕ
  pub batch_gen : ℕ
  pub resizes : ℕ
  pub reads : List IoJob

-- Whether a slice read succeeds, from the reads before it.
abbrev pub Reads : Type 0
Reads = List IoJob → IoJob → Bool

-- The locals of a load while it stages.
pub record Staging : Type 0 where
  pub cache : Cache
  pub jobs : List IoJob
  pub seen : ℕ → Bool
  pub n_unique : ℕ

-- The expert that the i-th position of the batch asks for.
unfoldable pub asked : Layout → ℕ → ℤ → Option ℕ
asked c i id = if c.load_all then (if ltb i c.n_expert then some i else none) else expert_of c id

module _ (os : Commits) (c : Layout) (il : ℕ) where
  -- The lambda `stage`.
  unfoldable pub stage : ℕ → Staging → Bool × Staging
  stage e st =
      let t = touch_entry os c il e true none st.cache in
      let fresh = expert_jobs c c.slot il e none false projections in
      let missed = expert_jobs c (λ p. c.lbuf p il) il e none false projections in
      if st.cache.cache_max == 0
      then (true, record st { jobs = st.jobs ++ fresh })
      else if t.done
      then (
        true,
        record st { cache = t.cache; jobs = if t.hit then st.jobs else st.jobs ++ missed },
      )
      else (false, record st { cache = t.cache })

  -- An expert not seen in this batch, and one that was.
  unfoldable pub stage_new : ℕ → Staging → Bool × Staging
  stage_new e st = stage e (record st { seen = update st.seen e true; n_unique = st.n_unique + 1 })

  unfoldable pub stage_again : ℕ → Staging → Staging
  stage_again e st =
      if st.cache.cache_max == 0
      then st
      else record st { cache = promote_entry (entry_id c il e) st.cache }

  unfoldable pub stage_expert : ℕ → Staging → Bool × Staging
  stage_expert e st = if st.seen e then (true, stage_again e st) else stage_new e st

  unfoldable pub stage_ids : ℕ → List ℤ → Staging → Bool × Staging
  stage_ids i [] st = (true, st)
  stage_ids i (id ∷ ids) st = elim (asked c i id) [
    | none ↦ stage_ids (i + 1) ids st
    | some e ↦
        let r = stage_expert e st in
        elim r.0 [ true ↦ stage_ids (i + 1) ids r.1 | false ↦ (false, r.1) ]
  ]

  unfoldable pub stage_left : ℕ → Staging → Bool × Staging
  stage_left e st = if st.seen e then (true, st) else stage_new e st

  -- load_all: the experts from `e` on that the batch left out, `n` of them to look at.
  unfoldable pub stage_rest : ℕ → ℕ → Staging → Bool × Staging
  stage_rest zero e st = (true, st)
  stage_rest (suc n) e st =
      let r = stage_left e st in elim r.0 [ true ↦ stage_rest n (e + 1) r.1 | false ↦ (false, r.1) ]

  unfoldable pub stage_all : List ℤ → Staging → Bool × Staging
  stage_all ids st =
      let r = stage_ids 0 ids st in if r.0 && c.load_all then stage_rest c.n_expert 0 r.1 else r

-- Reads in the calling thread: the first failure ends the load.
unfoldable pub read_inline : Reads → List IoJob → List IoJob → Bool × List IoJob
read_inline rd [] done = (true, done)
read_inline rd (j ∷ js) done =
    let rest = read_inline rd js (j ∷ done) in if rd done j then rest else (false, j ∷ done)

-- Reads by the pool: every job is read, and a failure is seen at the end. The log shows them in the
-- order of the batch.
unfoldable pub read_pool : Reads → List IoJob → List IoJob → Bool × List IoJob
read_pool rd [] done = (true, done)
read_pool rd (j ∷ js) done = let rest = read_pool rd js (j ∷ done) in (rd done j && rest.0, rest.1)

abbrev pub uses_pool : Layout → List IoJob → Bool
uses_pool c jobs = not (leb c.io_threads 1 || leb (length jobs) 1)

unfoldable pub read_batch : Reads → Layout → List IoJob → List IoJob → Bool × List IoJob
read_batch rd c jobs done =
    if uses_pool c jobs then read_pool rd jobs done else read_inline rd jobs done

abbrev pub bump_gen : Cache → Cache
bump_gen s = record s { gen = (s.gen + 1) % 2 ^ 32 }

-- The quiesce at the head of a load, where there is a cache.
unfoldable pub settle : Layout → Cache → Spec → Cache × Spec
settle c s q = if s.cache_max == 0 then (s, q) else quiesce_spec c s q

unfoldable pub evict_cold : Layout → Cache → Cache
evict_cold c s = if s.cache_max == 0 then s else evict_while may_evict c (n_entry c) s

-- The part of load_layer() behind its guard.
unfoldable pub load_bound : Commits → Reads → Layout → ℕ → List ℤ → Source → Bool × Source
load_bound os rd c il ids x =
    let (s, q) = settle c (bump_gen x.cache) x.spec in
    let r =
      stage_all os c il ids (record { cache = s; jobs = []; seen = λ _. false; n_unique = 0 }) in
    let st = r.1 in
    let staged = record x { cache = st.cache; spec = q } in
    let b = read_batch rd c st.jobs x.reads in
    let counted = record staged {
      demand = account_demand c il st.n_unique x.demand;
      tick = (x.tick + 1) % 2 ^ 32;
      batch_gen = if uses_pool c st.jobs then x.batch_gen + 1 else x.batch_gen;
      reads = b.1;
    } in
    if r.0
    then (if b.0
        then (true, record counted { cache = evict_cold c st.cache })
        else (false, counted))
    else (false, staged)

-- load_layer(): refused when the stream is off, the layer is not there or not bound, or no ids come.
unfoldable pub load_layer : Commits → Reads → Layout → ℤ → Option (List ℤ) → Source → Bool × Source
load_layer os rd c il none x = (false, x)
load_layer os rd c il (some []) x = (false, x)
load_layer os rd c il (some (i ∷ is)) x = elim (layer_of c il) [
  | none ↦ (false, x)
  | some l ↦ if x.active then load_bound os rd c l (i ∷ is) x else (false, x)
]

-- set_cache_budget(): growing needs no quiesce; shrinking evicts, and never reaches zero.
unfoldable pub shrink : Layout → ℕ → Cache → Cache
shrink c bytes s = evict_while over_budget c (n_entry c) (record s { cache_max = max 1 bytes })

unfoldable pub set_cache_budget : Layout → ℕ → ℕ → Source → Source
set_cache_budget c total_expert_bytes bytes x =
    let m = x.cache.cache_max in
    let counted = record x { resizes = x.resizes + 1 } in
    let grown = record counted {
      cache = record x.cache { cache_max = min bytes total_expert_bytes };
    } in
    let (s, q) = quiesce_spec c x.cache x.spec in
    let shrunk = record counted { cache = shrink c bytes s; spec = q } in
    if m == 0 then x else if ltb m bytes then grown else if bytes == m then x else shrunk

-- settle_spec(), with spec_adopt_ off.
unfoldable pub settle_spec : Layout → Source → Source
settle_spec c x =
    let (s, q) = quiesce_spec c x.cache x.spec in
    if not x.active || (x.cache.cache_max == 0) then x else record x { cache = s; spec = q }
