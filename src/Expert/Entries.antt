-- ===== src/Expert/Entries.antt =====
-- Entry-level operations of moe/expert_stream_source.cpp: page arithmetic, eviction, lookup,
-- retention and the residency query.
use franken_mo_e_cuda.Prelude.{
  ℕ, zero, suc, ◌+◌, ◌-◌, ◌*◌, ◌/◌, ◌%◌, Bool, true, false, ◌&&◌, not, Option, none, some, List, [],
  ◌∷◌, ltb, ◌==◌, map, if◌then◌else◌, update,
}
use franken_mo_e_cuda.Prelude.Int.{ℤ, pos, negsuc}
use franken_mo_e_cuda.Lru.{lru_unlink, lru_push_front}
use franken_mo_e_cuda.Expert.Layout.{Layout, projections, slice_bytes, entry_id, entry_bytes}
use franken_mo_e_cuda.Expert.State.{Cache, VmCall, vm_commit, vm_evict, Commits}

-- `x & ~(page - 1)`, for a page size that is a power of two.
abbrev pub page_floor : ℕ → ℕ → ℕ
page_floor page x = x - x % page

abbrev pub page_ceil : ℕ → ℕ → ℕ
page_ceil page x = page_floor page (x + page - 1)

-- The address of an expert's slice of a projection.
abbrev pub slice_at : Layout → ℕ → ℕ → ℕ → ℕ
slice_at c il e p = c.lbuf p il + e * slice_bytes c il p

-- The vm_evict call for one slice, if a whole page lies in it.
unfoldable pub release_slice : Layout → ℕ → ℕ → ℕ → List VmCall → List VmCall
release_slice c il e p vm =
    let slice = slice_bytes c il p in
    let s = slice_at c il e p in
    let a0 = page_ceil c.page s in
    let a1 = page_floor c.page (s + slice) in
    if slice == 0 then vm else if ltb a0 a1 then vm_evict a0 (a1 - a0) ∷ vm else vm

unfoldable pub release_slices : Layout → ℕ → ℕ → List ℕ → List VmCall → List VmCall
release_slices c il e [] vm = vm
release_slices c il e (p ∷ ps) vm = release_slices c il e ps (release_slice c il e p vm)

unfoldable pub release_entry_pages : Layout → ℕ → List VmCall → List VmCall
release_entry_pages c id vm = release_slices c (id / c.n_expert) (id % c.n_expert) projections vm

-- The body of evict_tail(), for the entry that ctail_ names.
unfoldable pub evict_entry : Layout → ℕ → Cache → Cache
evict_entry c id s = record s {
  evictions = s.evictions + 1;
  ever_evicted = update s.ever_evicted id true;
  vm = release_entry_pages c id s.vm;
  valid = update s.valid id false;
  spec = update s.spec id false;
  resident = s.resident - entry_bytes c (id / c.n_expert);
  links = lru_unlink id s.links;
}

unfoldable pub evict_tail : Layout → Cache → Cache
evict_tail c s = elim s.links.tail [ none ↦ s | some id ↦ evict_entry c id s ]

-- The tests of the two eviction loops: that of a load spares the entries of the current generation.
unfoldable pub may_evict : Cache → Bool
may_evict s = elim s.links.tail [
  | none ↦ false
  | some id ↦ ltb s.cache_max s.resident && not (s.stamp id == s.gen)
]

unfoldable pub over_budget : Cache → Bool
over_budget s = elim s.links.tail [ none ↦ false | some id ↦ ltb s.cache_max s.resident ]

-- `while (test) evict_tail()`; each round takes one entry off the list, so n_entry rounds suffice.
unfoldable pub evict_while : (Cache → Bool) → Layout → ℕ → Cache → Cache
evict_while test c zero s = s
evict_while test c (suc fuel) s = elim (test s) [
  | true ↦ evict_while test c fuel (evict_tail c s)
  | false ↦ s
]

-- commit_proj_pages(): the pages that cover a slice. The answer, and the calls made.
unfoldable pub commit_proj_pages : Commits → Layout → ℕ → ℕ → ℕ → List VmCall → Bool × List VmCall
commit_proj_pages os c il e p vm =
    let slice = slice_bytes c il p in
    let dst = slice_at c il e p in
    let a0 = page_floor c.page dst in
    let a1 = page_floor c.page (dst + slice + c.page - 1) in
    if slice == 0 then (true, vm) else (os vm a0 (a1 - a0), vm_commit a0 (a1 - a0) ∷ vm)

-- The loop over the projections, or the one projection `only`; the first refusal ends it.
unfoldable pub commit_slices :
    Commits → Layout → ℕ → ℕ → Option ℕ → List ℕ → List VmCall → Bool × List VmCall
commit_slices os c il e only [] vm = (true, vm)
commit_slices os c il e only (p ∷ ps) vm =
    let here = commit_proj_pages os c il e p vm in
    let skip : Bool = elim only [ none ↦ false | some q ↦ not (p == q) ] in
    let after = commit_slices os c il e only ps here.1 in
    let past = commit_slices os c il e only ps vm in
    if skip then past else if here.0 then after else here

pub record Touched : Type 0 where
  pub done : Bool
  pub hit : Bool
  pub cache : Cache

abbrev pub promote_entry : ℕ → Cache → Cache
promote_entry id s = record s { links = lru_push_front id (lru_unlink id s.links) }

-- A lookup that finds the entry resident.
unfoldable pub touch_hit : ℕ → Bool → Cache → Cache
touch_hit id promote s =
    let counted = record s {
      hits = s.hits + 1;
      spec_useful = if s.spec id then s.spec_useful + 1 else s.spec_useful;
      spec = if s.spec id then update s.spec id false else s.spec;
    } in
    if promote then promote_entry id counted else counted

-- A miss whose pages are committed: the entry becomes resident.
unfoldable pub enter_entry : Layout → ℕ → ℕ → Cache → Cache
enter_entry c il id s = record s {
  rereads = if s.ever_evicted id then s.rereads + 1 else s.rereads;
  valid = update s.valid id true;
  spec = update s.spec id false;
  resident = s.resident + entry_bytes c il;
  links = lru_push_front id s.links;
}

unfoldable pub touch_entry : Commits → Layout → ℕ → ℕ → Bool → Option ℕ → Cache → Touched
touch_entry os c il e promote only s =
    let id = entry_id c il e in
    let looked = record s { lookups = s.lookups + 1; stamp = update s.stamp id s.gen } in
    let committed = commit_slices os c il e only projections s.vm in
    let missed = record looked { vm = committed.1 } in
    if s.valid id
    then record { done = true; hit = true; cache = touch_hit id promote looked }
    else if committed.0
    then record { done = true; hit = false; cache = enter_entry c il id missed }
    else record { done = false; hit = false; cache = missed }

-- An id of a routing, if it names an expert: `e < 0 || e >= n_expert` is skipped.
unfoldable pub expert_of : Layout → ℤ → Option ℕ
expert_of c (pos e) = if ltb e c.n_expert then some e else none
expert_of c (negsuc e) = none

-- The layer, if the index is inside the model and the layer was bound.
unfoldable pub layer_of : Layout → ℤ → Option ℕ
layer_of c (pos il) = if ltb il c.n_layer && (c.layers il).bound then some il else none
layer_of c (negsuc il) = none

-- retain(): predicted entries that are resident move to the recent end.
unfoldable pub retain_one : Layout → ℕ → ℤ → Cache → Cache
retain_one c il i s = elim (expert_of c i) [
  | none ↦ s
  | some e ↦ if s.valid (entry_id c il e) then promote_entry (entry_id c il e) s else s
]

unfoldable pub retain_ids : Layout → ℕ → List ℤ → Cache → Cache
retain_ids c il [] s = s
retain_ids c il (i ∷ is) s = retain_ids c il is (retain_one c il i s)

-- `active` is active_; `none` for the ids is the null pointer.
unfoldable pub retain : Layout → Bool → ℤ → Option (List ℤ) → Cache → Cache
retain c active il none s = s
retain c active il (some ids) s = elim (layer_of c il) [
  | none ↦ s
  | some l ↦ if active && ltb 0 s.cache_max then retain_ids c l ids s else s
]

-- query_residency(): 0 is a miss, 1 resident, 2 resident by speculation.
unfoldable pub residency_of : Layout → ℕ → Cache → ℤ → ℕ
residency_of c il s i = elim (expert_of c i) [
  | none ↦ 0
  | some e ↦ if s.valid (entry_id c il e) then (if s.spec (entry_id c il e) then 2 else 1) else 0
]

unfoldable pub query_residency : Layout → Bool → ℤ → List ℤ → Cache → List ℕ
query_residency c active il ids s = elim (layer_of c il) [
  | none ↦ map (λ _. 0) ids
  | some l ↦ if active && ltb 0 s.cache_max then map (residency_of c l s) ids else map (λ _. 0) ids
]
