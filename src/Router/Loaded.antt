-- ===== src/Router/Loaded.antt =====
-- moe/router_hook.cpp, apply_drop() over moe/expert_stream_source.cpp: that the experts which the layer
-- will read are in memory.
use franken_mo_e_cuda.Prelude.{
  ℕ, zero, suc, ◌+◌, ◌≤◌, ◌<◌, ◌≡◌, ◌≢◌, refl, ap, sym, subst, ◌∙◌, true, false, ◌||◌, not, some,
  List, [], ◌∷◌, All, All-split, arith, ◌==◌, Bool-cases, inl, inr, ==_iff,
}
use franken_mo_e_cuda.Prelude.Int.{ℤ, pos, negsuc}
use franken_mo_e_cuda.Expert.Layout.{Layout, entry_id}
use franken_mo_e_cuda.Expert.State.{Commits, Cache}
use franken_mo_e_cuda.Expert.Entries.{layer_of, expert_of, query_residency}
use franken_mo_e_cuda.Expert.Invariant.{IsValid}
use franken_mo_e_cuda.Expert.Spec.{Spec, integrate, release_touched, quiesce_spec}
use franken_mo_e_cuda.Expert.Settle.{InRange, Settled, Settled-refl, quiesce_spec-Settled}
use franken_mo_e_cuda.Expert.Batch.{Asks, Wants}
use franken_mo_e_cuda.Expert.Load.{Source, Reads, asked, load_layer, settle_spec}
use franken_mo_e_cuda.Expert.Loaded.{load_layer-resident}
use franken_mo_e_cuda.Router.Drop.{
  Arithmetic, Slots, Drop, ExpertSource, vector, row_from, rows_from, apply_drop,
}
use franken_mo_e_cuda.Router.Dropped.{apply_drop-Applied}

-- The streaming source as the hook calls it.
abbrev pub streaming : Commits → Reads → Layout → ExpertSource Source
streaming os rd c = record {
  settle_spec = settle_spec c;
  query_residency = λ il ids x. query_residency c x.active (pos il) ids x.cache;
  load_layer = λ il ids x. load_layer os rd c (pos il) (some ids) x;
}

integrate-done :
    (c : Layout) (ids : List ℕ) (s : Cache) (q : Spec) → (integrate c ids s q).1.done ≡ q.done
unfolding integrate
integrate-done c [] s q = refl
integrate-done c (id ∷ ids) s q = integrate-done c ids _ _ ∙ ground arith

release_touched-done :
    (c : Layout) (ids : List ℕ) (s : Cache) (q : Spec) → (release_touched c ids s q).1.done ≡ q.done
unfolding release_touched
release_touched-done c [] s q = refl
release_touched-done c (id ∷ ids) s q = release_touched-done c ids _ _ ∙ ground arith

-- A settled source is as well formed as before, and has no speculation to integrate.
settle_spec-Settled :
    (c : Layout) (x : Source)
    → IsValid c x.cache
    → InRange c x.spec.done
    → Settled c x.cache (settle_spec c x).cache × InRange c (settle_spec c x).spec.done
unfolding settle_spec quiesce_spec
settle_spec-Settled c x v r = elim (Bool-cases (not x.active || (x.cache.cache_max == 0))) [
  | inl k ↦ rw (k, settle_spec) (Settled-refl x.cache v, r)
  | inr k ↦
      let none_left : (quiesce_spec c x.cache x.spec).1.done ≡ [] =
        release_touched-done c x.spec.touched _ _ ∙ integrate-done c x.spec.done x.cache _ in
      rw (k, settle_spec)
        (quiesce_spec-Settled c x.cache x.spec r v, subst (InRange c) (sym none_left) tt)
]

-- What is true of every element of a vector is true of every slot.
row_from-All :
    (P : ℤ → Type 0) (f : ℕ → ℤ) (m k i : ℕ) → All P (row_from f m k) → k ≤ i → i < k + m → P (f i)
unfolding row_from
row_from-All P f zero k i h h1 h2 = absurd (omega (arith, h1, h2))
row_from-All P f (suc m) k i h h1 h2 = elim (Bool-cases (i == k)) [
  | inl e ↦ rw ((==_iff i k).0 e) h.0
  | inr e ↦ row_from-All P f m (suc k) i h.1 (ground (arith, e, h1)) (omega (arith, h2))
]

rows_from-All :
    (P : ℤ → Type 0) (f : Slots ℤ) (m n j t k : ℕ)
    → All P (rows_from f m n j)
    → j ≤ t
    → t < j + n
    → k < m
    → P (f t k)
unfolding rows_from
rows_from-All P f m zero j t k h h1 h2 h3 = absurd (omega (arith, h1, h2))
rows_from-All P f m (suc n) j t k h h1 h2 h3 =
    let r = All-split P (row_from (f j) m 0) (rows_from f m n (suc j)) h in
    elim (Bool-cases (t == j)) [
      | inl e ↦
          rw ((==_iff t j).0 e) (row_from-All P (f j) m 0 k r.0 (omega arith) (omega (arith, h3)))
      | inr e ↦ rows_from-All P f m n (suc j) t k r.1 (ground (arith, e, h1)) (omega (arith, h2)) h3
    ]

-- An expert that is named by an id of the list is asked for.
each_asked :
    (c : Layout) (P : ℕ → Type 0) (i : ℕ) (ids : List ℤ)
    → c.load_all ≡ false
    → ((e : ℕ) → Asks c i ids e → P e)
    → All (λ id. (e : ℕ) → expert_of c id ≡ some e → P e) ids
unfolding asked
each_asked c P i [] off h = tt
each_asked c P i (id ∷ ids) off h =
    (λ e q. h e (inl (ground (arith, off, q))), each_asked c P (i + 1) ids off (λ e q. h e (inr q)))

each_named :
    (c : Layout) (P : ℕ → Type 0) (ids : List ℤ)
    → ((e : ℕ) → e < c.n_expert → P e)
    → All (λ id. (e : ℕ) → expert_of c id ≡ some e → P e) ids
unfolding expert_of
each_named c P [] h = tt
each_named c P (pos n ∷ ids) h = (λ e q. h e (ground (arith, q)), each_named c P ids h)
each_named c P (negsuc n ∷ ids) h = (λ e q. absurd (cc), each_named c P ids h)

each_wanted :
    (c : Layout) (P : ℕ → Type 0) (ids : List ℤ)
    → ((e : ℕ) → Wants c ids e → P e)
    → All (λ id. (e : ℕ) → expert_of c id ≡ some e → P e) ids
each_wanted c P ids h = elim (Bool-cases c.load_all) [
  | inl on ↦ each_named c P ids (λ e lt. h e (inr (on, lt)))
  | inr off ↦ each_asked c P 0 ids off (λ e q. h e (inl q))
]

-- The cold-drop policy over the streaming source: if it is not fatal, then every expert of the model that
-- the node of the ids names afterwards, for a token and a slot of the batch, is resident, dropped slots
-- included. The hypotheses are a source with a well-formed cache that is on, and completed
-- speculation that names entries; a layer that is there; and ids gathered from the node.
pub apply_drop-resident :
    (os : Commits) (rd : Reads) (c : Layout) (a : Arithmetic) (x : Source) (d : Drop) (l : ℕ)
    → IsValid c x.cache
    → InRange c x.spec.done
    → x.cache.cache_max ≢ 0
    → layer_of c (pos d.layer) ≡ some l
    → ((t k : ℕ) → t < d.nt → k < d.nu → d.ids t k ≡ d.drop_ids t k)
    → let r = apply_drop a (streaming os rd c) x d in
      r.0.fatal ≡ false
      → (t k e : ℕ) → t < d.nt
      → k < d.nu
      → expert_of c (r.0.ids t k) ≡ some e
      → r.1.cache.valid (entry_id c l e) ≡ true
apply_drop-resident os rd c a x d l v r on there same ok t k e lt lk named =
    let p = apply_drop-Applied a (streaming os rd c) x d in
    let w = (apply_drop a (streaming os rd c) x d).0 in
    let s = settle_spec-Settled c x v r in
    let x' = settle_spec c x in
    let ids = vector w.drop_ids d.nu d.nt in
    let loads = p.loads (omega (arith, lk)) (omega (arith, lt)) in
    let done : (load_layer os rd c (pos d.layer) (some ids) x').0 ≡ true =
      ground (arith, loads.1, ok) in
    let still_on : x'.cache.cache_max ≢ 0 = λ z. on (sym s.0.same_max ∙ z) in
    let all =
      load_layer-resident os rd c x' s.0.is_valid s.1 still_on (pos d.layer) l ids there done in
    let at =
      each_wanted c
        (λ i.
          (load_layer os rd c (pos d.layer) (some ids) x').1.cache.valid (entry_id c l i) ≡ true)
        ids all.0 in
    let got = rows_from-All _ w.drop_ids d.nu d.nt 0 t k at (omega arith) (omega (arith, lt)) lk in
    ap (λ y. y.cache.valid (entry_id c l e)) loads.0
    ∙ got e (ap (expert_of c) (sym (p.agree same t k lt lk)) ∙ named)
