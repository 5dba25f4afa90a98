-- ===== src/Expert/Settle.antt =====
-- moe/expert_stream_source.cpp, quiesce_spec(): the cache after a quiesce.
use franken_mo_e_cuda.Prelude.{
  ℕ, ◌+◌, ◌<◌, ◌≡◌, refl, ap, ◌∙◌, true, false, ◌&&◌, update, ◌||◌, not, List, [], ◌∷◌, ◌++◌, All,
  arith, ◌==◌, Bool-cases, inl, inr, ==_iff,
}
use franken_mo_e_cuda.Expert.Layout.{Layout, n_entry}
use franken_mo_e_cuda.Expert.State.{Cache}
use franken_mo_e_cuda.Lru.Segment.{Distinct}
use franken_mo_e_cuda.Expert.Sequence.{has, Fresh-has}
use franken_mo_e_cuda.Expert.Invariant.{IsValid, enter_back}
use franken_mo_e_cuda.Expert.Spec.{Spec, enter_spec, integrate, release_touched, quiesce_spec}

-- The ids that the speculation names are entries.
abbrev pub InRange : Layout → List ℕ → Type 0
InRange c = All (λ id. id < n_entry c)

enter_spec-IsValid :
    (c : Layout) (id : ℕ) (s : Cache)
    → s.valid id ≡ false
    → id < n_entry c
    → IsValid c s
    → IsValid c (enter_spec c id s)
unfolding enter_spec
enter_spec-IsValid c id s free below v = record {
  order = v.order ++ id ∷ [];
  inv = enter_back id v.inv free below;
}

-- What a step of the settling keeps.
pub record Settled (c : Layout) (s t : Cache) : Type 0 where
  pub is_valid : IsValid c t
  pub stays : (j : ℕ) → s.valid j ≡ true → t.valid j ≡ true
  pub same_gen : t.gen ≡ s.gen
  pub same_max : t.cache_max ≡ s.cache_max

Settled-trans : {c : Layout} (s t u : Cache) → Settled c s t → Settled c t u → Settled c s u
Settled-trans s t u h k = record {
  is_valid = k.is_valid;
  stays = λ j v. k.stays j (h.stays j v);
  same_gen = k.same_gen ∙ h.same_gen;
  same_max = k.same_max ∙ h.same_max;
}

pub Settled-refl : {c : Layout} (s : Cache) → IsValid c s → Settled c s s
Settled-refl s v = record { is_valid = v; stays = λ j h. h; same_gen = refl; same_max = refl }

enter_spec-Settled :
    (c : Layout) (id : ℕ) (s : Cache)
    → s.valid id ≡ false
    → id < n_entry c
    → IsValid c s
    → Settled c s (enter_spec c id s)
unfolding enter_spec
enter_spec-Settled c id s free below v = record {
  is_valid = enter_spec-IsValid c id s free below v;
  stays = λ j h. ground arith;
  same_gen = refl;
  same_max = refl;
}

pub integrate-Settled :
    (c : Layout) (ids : List ℕ) (s : Cache) (q : Spec)
    → InRange c ids
    → IsValid c s
    → Settled c s (integrate c ids s q).0
unfolding integrate
integrate-Settled c [] s q r v = Settled-refl s v
integrate-Settled c (id ∷ ids) s q r v =
    elim (Bool-cases (not (q.remaining id == 0) || s.valid id)) [
      | inl taken ↦ rw (taken, integrate) (integrate-Settled c ids s _ r.1 v)
      | inr free ↦
          let first = enter_spec-Settled c id s (ground arith) r.0 v in
          rw (free, integrate)
            (Settled-trans s (enter_spec c id s) _ first
              (integrate-Settled c ids (enter_spec c id s) _ r.1 first.is_valid))
    ]

release_touched-Settled :
    (c : Layout) (ids : List ℕ) (s : Cache) (q : Spec)
    → IsValid c s
    → Settled c s (release_touched c ids s q).0
unfolding release_touched
release_touched-Settled c [] s q v = Settled-refl s v
release_touched-Settled c (id ∷ ids) s q v = elim (Bool-cases (q.remaining id == 0)) [
  | inl done ↦ rw (done, release_touched) (release_touched-Settled c ids s q v)
  | inr open' ↦
      rw (open', release_touched)
        (Settled-trans s _ _
          (record {
            is_valid = record { order = v.order; inv = v.inv };
            stays = λ j h. h;
            same_gen = refl;
            same_max = refl;
          })
          (release_touched-Settled c ids _ _ (record { order = v.order; inv = v.inv })))
]

-- The quiesce keeps a well-formed cache well formed: what was resident stays so, and the generation and
-- the budget do not change. The completed speculation must name entries.
pub quiesce_spec-Settled :
    (c : Layout) (s : Cache) (q : Spec)
    → InRange c q.done
    → IsValid c s
    → Settled c s (quiesce_spec c s q).0
unfolding quiesce_spec
quiesce_spec-Settled c s q r v =
    let first = integrate-Settled c q.done s _ r v in
    Settled-trans s _ _ first (release_touched-Settled c q.touched _ _ first.is_valid)

-- What the integration makes resident: the completed entries with no read pending.
integrate-valid :
    (c : Layout) (ids : List ℕ) (s : Cache) (q : Spec) (id : ℕ)
    → Distinct ids
    → (integrate c ids s q).0.valid id ≡ (s.valid id || (has id ids && q.remaining id == 0))
unfolding integrate enter_spec has
integrate-valid c [] s q id d = ground arith
integrate-valid c (x ∷ ids) s q id d = elim (Bool-cases (not (q.remaining x == 0) || s.valid x)) [
  | inl taken ↦
      let ih = integrate-valid c ids s (record q { remaining = update q.remaining x 0 }) id d.1 in
      rw (taken, integrate)
        (elim (Bool-cases (id == x)) [
          | inl here ↦
              let e = (==_iff id x).0 here in
              let gone : has id ids ≡ false = rw e (Fresh-has x ids d.0) in
              rw (ih, gone, e) (ground arith)
          | inr there ↦ rw ih (ground arith)
        ])
  | inr free ↦
      let ih =
        integrate-valid c ids (enter_spec c x s) (record q { experts = q.experts + 1 }) id d.1 in
      rw (free, integrate)
        (elim (Bool-cases (id == x)) [
          | inl here ↦ let e = (==_iff id x).0 here in rw ih (ground arith)
          | inr there ↦ rw ih (ground arith)
        ])
]

release_touched-valid :
    (c : Layout) (ids : List ℕ) (s : Cache) (q : Spec)
    → (release_touched c ids s q).0.valid ≡ s.valid
unfolding release_touched
release_touched-valid c [] s q = refl
release_touched-valid c (id ∷ ids) s q = elim (Bool-cases (q.remaining id == 0)) [
  | inl done ↦ rw (done, release_touched) (release_touched-valid c ids s q)
  | inr open' ↦ rw (open', release_touched) (release_touched-valid c ids _ _)
]

-- quiesce_spec() on a well-formed cache, with completed speculation that names entries, each once: the
-- cache stays well formed, and afterwards an entry is resident just if it was before, or is among the
-- completed ones and has no read pending; a half-read one is not.
pub quiesce_spec-Integrates :
    (c : Layout) (s : Cache) (q : Spec)
    → InRange c q.done
    → Distinct q.done
    → IsValid c s
    → IsValid c (quiesce_spec c s q).0
      × ((id : ℕ)
          → (quiesce_spec c s q).0.valid id
            ≡ (s.valid id || (has id q.done && q.remaining id == 0)))
unfolding quiesce_spec
quiesce_spec-Integrates c s q r d v = (
  (quiesce_spec-Settled c s q r v).is_valid,
  λ id. ap (λ f. f id) (release_touched-valid c q.touched _ _) ∙ integrate-valid c q.done s _ id d,
)
