-- ===== src/Expert/Loaded.antt =====
-- moe/expert_stream_source.cpp, load_layer(): the cache after a load.
use franken_mo_e_cuda.Prelude.{
  ℕ, ◌<◌, ◌≤◌, ◌≡◌, ◌≢◌, refl, sym, ap, ◌∙◌, true, false, Option, none, some, List, [], ◌∷◌, ◌++◌,
  All, arith, ◌==◌, Bool-cases, Option-cases, inl, inr, ==_iff, subst, ◌⊎◌,
}
use franken_mo_e_cuda.Prelude.Int.{ℤ, pos, negsuc}
use franken_mo_e_cuda.Expert.Layout.{Layout, entry_id}
use franken_mo_e_cuda.Expert.State.{Cache, Commits}
use franken_mo_e_cuda.Expert.Sequence.{has, has-append, total}
use franken_mo_e_cuda.Lru.Segment.{last_or-some}
use franken_mo_e_cuda.Expert.Invariant.{InvOf, IsValid}
use franken_mo_e_cuda.Expert.Entries.{layer_of, may_evict}
use franken_mo_e_cuda.Expert.Evict.{Untouched, evict_cold-Evicted}
use franken_mo_e_cuda.Expert.Spec.{Spec}
use franken_mo_e_cuda.Expert.Settle.{InRange, Settled, Settled-refl, quiesce_spec-Settled}
use franken_mo_e_cuda.Expert.Staged.{IsStaged, IsHeld}
use franken_mo_e_cuda.Expert.Batch.{Wants, stage_all-Ran}
use franken_mo_e_cuda.Expert.Load.{
  Source, Staging, Reads, stage_all, settle, bump_gen, evict_cold, load_bound, load_layer,
  read_batch,
}

evicted-kept :
    (id : ℕ) (xs kept dropped : List ℕ)
    → xs ≡ kept ++ dropped
    → has id xs ≡ true
    → has id dropped ≡ false
    → has id kept ≡ true
evicted-kept id xs kept dropped w h d = ground (arith, ap (has id) w, has-append id kept dropped)

Untouched-has :
    (stamp : ℕ → ℕ) (gen id : ℕ) (xs : List ℕ)
    → All (Untouched stamp gen) xs
    → stamp id ≡ gen
    → has id xs ≡ false
unfolding has
Untouched-has stamp gen id [] h p = refl
Untouched-has stamp gen id (x ∷ xs) h p = elim (Bool-cases (id == x)) [
  | inl e ↦ absurd (h.0 (subst (λ j. stamp j ≡ gen) ((==_iff id x).0 e) p))
  | inr e ↦ rw e (Untouched-has stamp gen id xs h.1 p)
]

-- Within the budget, or the coldest entry belongs to the load itself.
abbrev pub Fits : Cache → Type 0
Fits s = (s.resident ≤ s.cache_max) ⊎ ((id : ℕ) × (s.links.tail ≡ some id) × (s.stamp id ≡ s.gen))

stopped-Fits : (c : Layout) (s : Cache) (xs : List ℕ) → InvOf c s xs → may_evict s ≡ false → Fits s
unfolding may_evict total
stopped-Fits c s [] v h = inl (omega (arith, v.bytes))
stopped-Fits c s (x ∷ xs) v h =
    let (id, e) = last_or-some x xs in
    let at = v.holds.final ∙ e in
    elim (Bool-cases (s.stamp id == s.gen)) [
      | inl k ↦ inr (id, at, (==_iff _ _).0 k)
      | inr k ↦ inl (ground arith)
    ]

-- What the eviction of a load does: well formed, within the budget as far as it may go, and the
-- entries of the load all kept.
evict_cold_lem :
    (c : Layout) (s : Cache)
    → IsValid c s
    → s.cache_max ≢ 0
    → IsValid c (evict_cold c s)
      × Fits (evict_cold c s)
      × ((id : ℕ) → IsHeld s s.gen id → (evict_cold c s).valid id ≡ true)
unfolding evict_cold
evict_cold_lem c s v on =
    let off : (s.cache_max == 0) ≡ false = ground (arith, on) in
    let r = evict_cold-Evicted c s v.order v.inv in
    rw off (
      record { order = r.kept; inv = r.inv },
      stopped-Fits c _ r.kept r.inv r.stopped,
      λ id h.
          r.inv.listed id
          ∙ evicted-kept id v.order r.kept r.dropped r.whole (sym (v.inv.listed id) ∙ h.0)
              (Untouched-has s.stamp s.gen id r.dropped r.allowed h.1),
    )

settle-Settled :
    (c : Layout) (s : Cache) (q : Spec)
    → InRange c q.done
    → IsValid c s
    → Settled c s (settle c s q).0
unfolding settle
settle-Settled c s q r v = elim (Bool-cases (s.cache_max == 0)) [
  | inl e ↦ rw e (Settled-refl s v)
  | inr e ↦ rw e (quiesce_spec-Settled c s q r v)
]

bump_gen-IsValid : (c : Layout) (s : Cache) → IsValid c s → IsValid c (bump_gen s)
bump_gen-IsValid c s v = record { order = v.order; inv = v.inv }

module _ (os : Commits) (rd : Reads) (c : Layout) (il : ℕ) (inside : il < c.n_layer) (ids : List ℤ)
    (x : Source) (v : IsValid c x.cache) (r : InRange c x.spec.done)
    (on : x.cache.cache_max ≢ 0) where
  start : Staging
  start = record {
    cache = (settle c (bump_gen x.cache) x.spec).0;
    jobs = [];
    seen = λ _. false;
    n_unique = 0;
  }

  start-IsStaged : IsStaged c il start.cache.gen start
  unfolding start
  start-IsStaged =
      let s = settle-Settled c (bump_gen x.cache) x.spec r (bump_gen-IsValid c x.cache v) in
      record {
        is_valid = s.is_valid;
        at_gen = refl;
        is_on = λ z. on (sym s.same_max ∙ z);
        held = λ e m. absurd (cc);
      }

  -- The load behind its guard.
  load_bound_lem :
      let y = load_bound os rd c il ids x in
      IsValid c y.1.cache
      × ((y.0 ≡ true)
          → Fits y.1.cache × ((e : ℕ) → Wants c ids e → y.1.cache.valid (entry_id c il e) ≡ true))
  unfolding load_bound start
  load_bound_lem =
      let w = stage_all-Ran os c il start.cache.gen inside ids start start-IsStaged in
      elim (Bool-cases (stage_all os c il ids start).0) [
        | inr d ↦ rw d (w.0.is_valid, λ t. absurd (cc))
        | inl d ↦
            let st = w.0.staged d in
            elim (Bool-cases (read_batch rd c (stage_all os c il ids start).1.jobs x.reads).0) [
              | inr b ↦ rw (d, b) (w.0.is_valid, λ t. absurd (cc))
              | inl b ↦
                  let r =
                    evict_cold_lem c (stage_all os c il ids start).1.cache w.0.is_valid st.is_on in
                  rw (d, b)
                    (
                      r.0,
                      λ t. (
                        r.1,
                        λ e a.
                            r.2 (entry_id c il e)
                              (let h = st.held e (w.1 d e a) in (h.0, h.1 ∙ sym st.at_gen)),
                      ),
                    )
            ]
      ]

layer_of-lt : (c : Layout) (i : ℤ) (l : ℕ) → layer_of c i ≡ some l → l < c.n_layer
unfolding layer_of
layer_of-lt c (pos i) l h = ground arith
layer_of-lt c (negsuc i) l h = absurd (cc)

module _ (os : Commits) (rd : Reads) (c : Layout) (x : Source) (v : IsValid c x.cache)
    (r : InRange c x.spec.done) (on : x.cache.cache_max ≢ 0) where
  -- A load keeps the cache well formed whatever happens: refused, a commit or a read that fails, or
  -- success. The hypotheses are a well-formed cache that is on, and completed speculation that
  -- names entries.
  pub load_layer-IsValid :
      (il : ℤ) (ids : Option (List ℤ)) → IsValid c (load_layer os rd c il ids x).1.cache
  unfolding load_layer
  load_layer-IsValid il none = v
  load_layer-IsValid il (some []) = v
  load_layer-IsValid il (some (i ∷ is)) = elim (Option-cases (layer_of c il)) [
    | inl e ↦ rw (e, load_layer) v
    | inr (l, e) ↦
        rw (e, load_layer)
          (elim (Bool-cases x.active) [
            | inl a ↦ simp a (load_bound_lem os rd c l (layer_of-lt c il l e) (i ∷ is) x v r on).0
            | inr a ↦ simp a v
          ])
  ]

  -- A load that succeeds leaves every expert that it was asked for resident (every expert of the layer
  -- under load_all), and the cache within its budget, unless the coldest entry left is one of this
  -- generation. The hypotheses are a well-formed cache that is on, completed speculation that names
  -- entries, and a layer that is there.
  pub load_layer-resident :
      (il : ℤ) (l : ℕ) (ids : List ℤ)
      → layer_of c il ≡ some l
      → (load_layer os rd c il (some ids) x).0 ≡ true
      → let y = (load_layer os rd c il (some ids) x).1.cache in
        ((e : ℕ) → Wants c ids e → y.valid (entry_id c l e) ≡ true) × Fits y
  unfolding load_layer
  load_layer-resident il l [] e h = absurd (cc)
  load_layer-resident il l (i ∷ is) e h =
      let a : x.active ≡ true = ground arith in
      let d : (load_bound os rd c l (i ∷ is) x).0 ≡ true = ground arith in
      let r' = (load_bound_lem os rd c l (layer_of-lt c il l e) (i ∷ is) x v r on).1 d in
      rw (e, load_layer) (simp a (r'.1, r'.0))
