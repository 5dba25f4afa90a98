-- ===== src/Router/Substituted.antt =====
-- moe/router_hook.cpp, apply_substitute(): which experts a token goes to afterwards.
use franken_mo_e_cuda.Prelude.{
  ℕ, zero, suc, ◌+◌, ◌≤◌, ◌<◌, ◌≡◌, ◌≢◌, refl, ap, sym, ◌∙◌, subst, Bool, true, false, ◌||◌, not,
  some, List, [], ◌∷◌, All, arith, ltb, ◌==◌, length, Bool-cases, inl, inr, ==_iff,
}
use franken_mo_e_cuda.Prelude.Int.{ℤ, pos, ◌==ℤ◌, eq→==ℤ}
use franken_mo_e_cuda.Config.Float.{Float32, ltb_f, zero_f}
use franken_mo_e_cuda.Router.TopK.{Ranking, rank_top_k-Ranking}
use franken_mo_e_cuda.Router.Drop.{Arithmetic, ExpertSource, Slots, put}
use franken_mo_e_cuda.Router.Substitute.{
  Tensor, tensor, null, Logs, Scores, Routing, walk, scores_of, had_from, changed, write_picks,
  place, margin, ranking, boosted, substitute_token, substitute_tokens, is_resident, all_experts,
  apply_substitute,
}

or_true : (b : Bool) → (b || true) ≡ true
or_true b = ground arith

had_from-slot :
    (row : ℕ → ℤ) (m k q e : ℕ) → k ≤ q → q < k + m → row q ≡ pos e → had_from row m k e ≡ true
unfolding had_from
had_from-slot row zero k q e h1 h2 r = absurd (omega (arith, h1, h2))
had_from-slot row (suc m) k q e h1 h2 r = elim (Bool-cases (q == k)) [
  | inl same ↦
      let here : (row k ==ℤ pos e) ≡ true =
        eq→==ℤ (row k) (pos e) (ap row (sym ((==_iff q k).0 same)) ∙ r) in
      rw here refl
  | inr ne ↦
      let later = had_from-slot row m (suc k) q e (ground (arith, ne, h1)) (omega (arith, h2)) r in
      rw later (or_true (row k ==ℤ pos e))
]

write_picks-elsewhere :
    (j t : ℕ) (es : List ℕ) (k : ℕ) (ids : Slots ℤ) → t ≢ j → write_picks j es k ids t ≡ ids t
unfolding write_picks
write_picks-elsewhere j t [] k ids ne = refl
write_picks-elsewhere j t (e ∷ es) k ids ne =
    write_picks-elsewhere j t es (suc k) (put ids j k (pos e)) ne ∙ ground (arith, ne)

write_picks-before :
    (j q : ℕ) (es : List ℕ) (k : ℕ) (ids : Slots ℤ) → q < k → write_picks j es k ids j q ≡ ids j q
unfolding write_picks
write_picks-before j q [] k ids lt = refl
write_picks-before j q (e ∷ es) k ids lt =
    write_picks-before j q es (suc k) (put ids j k (pos e)) (omega (arith, lt)) ∙ ground (arith, lt)

-- The token goes to every expert of a list.
abbrev pub GoesTo : ℕ → Slots ℤ → ℕ → List ℕ → Type 0
GoesTo nu ids j = All (λ e. had_from (ids j) nu 0 e ≡ true)

write_picks-GoesTo :
    (nu j : ℕ) (es : List ℕ) (k : ℕ) (ids : Slots ℤ)
    → k + length es ≤ nu
    → GoesTo nu (write_picks j es k ids) j es
unfolding write_picks
write_picks-GoesTo nu j [] k ids le = tt
write_picks-GoesTo nu j (e ∷ es) k ids le =
    let start = put ids j k (pos e) in
    let here : write_picks j es (suc k) start j k ≡ pos e =
      write_picks-before j k es (suc k) start (omega arith) ∙ ground arith in
    (
      had_from-slot (write_picks j es (suc k) start j) nu 0 k e (omega arith) (omega (arith, le))
          here,
      write_picks-GoesTo nu j es (suc k) start (omega (arith, le)),
    )

changed-none :
    (row : ℕ → ℤ) (nu : ℕ) (es : List ℕ)
    → changed row nu es ≡ 0
    → All (λ e. had_from row nu 0 e ≡ true) es
unfolding changed
changed-none row nu [] h = tt
changed-none row nu (e ∷ es) h = (ground (arith, h), changed-none row nu es (omega (arith, h)))

place-GoesTo :
    (nu j : ℕ) (picks : List ℕ) (r : Routing)
    → length picks ≡ nu
    → GoesTo nu (place nu j picks r).ids j picks
      × ((t : ℕ) → t ≢ j → (place nu j picks r).ids t ≡ r.ids t)
unfolding place
place-GoesTo nu j picks r full =
    let enough : (length picks == nu) ≡ true = (==_iff _ _).1 full in
    elim (Bool-cases (changed (r.ids j) nu picks == 0)) [
      | inl k ↦
          rw (enough, k, place) (changed-none (r.ids j) nu picks ((==_iff _ _).0 k), λ t ne. refl)
      | inr k ↦
          rw (enough, k, place)
            (
              write_picks-GoesTo nu j picks 0 r.ids (omega (arith, full)),
              λ t ne. write_picks-elsewhere j t picks 0 r.ids ne,
            )
    ]

module _ (a : Arithmetic) (l : Logs) (lambda : Float32) (resident : ℕ → Bool) (s : Scores) (nu : ℕ)
    (more : nu < s.ne) where
  -- Token `t` from `r` to `v`: with a margin above 0 it goes to every expert of the new ranking; without
  -- one its slots are as they were.
  pub record Retaken (r v : Slots ℤ) (t : ℕ) : Type 0 where
    pub raised :
        ltb_f zero_f (margin a l lambda resident s nu t) ≡ true
        → GoesTo nu v t (ranking a l lambda resident s nu t)
    pub same : ltb_f zero_f (margin a l lambda resident s nu t) ≡ false → v t ≡ r t

  substitute_token-Retaken :
      (j : ℕ) (r : Routing)
      → let v = substitute_token a l lambda resident s nu j r in
        Retaken r.ids v.ids j × ((t : ℕ) → t ≢ j → v.ids t ≡ r.ids t)
  unfolding substitute_token
  substitute_token-Retaken j r =
      let full : length (ranking a l lambda resident s nu j) ≡ nu =
        (rank_top_k-Ranking (boosted a resident (margin a l lambda resident s nu j) (s.row j)) s.ne
          nu).1
        ∙ omega (arith, more) in
      let p = place-GoesTo nu j (ranking a l lambda resident s nu j) r full in
      elim (Bool-cases (ltb_f zero_f (margin a l lambda resident s nu j))) [
        | inl k ↦
            rw (k, substitute_token) (record { raised = λ y. p.0; same = λ y. absurd (cc) }, p.1)
        | inr k ↦
            rw (k, substitute_token)
              (record { raised = λ y. absurd (cc); same = λ y. refl }, λ t ne. refl)
      ]

  substitute_tokens-Retaken :
      (n j : ℕ) (r : Routing)
      → let v = substitute_tokens a l lambda resident s nu n j r in
        ((t : ℕ) → j ≤ t → t < j + n → Retaken r.ids v.ids t)
        × ((t : ℕ) → t < j → v.ids t ≡ r.ids t)
  unfolding substitute_tokens
  substitute_tokens-Retaken zero j r = (λ t h1 h2. absurd (omega (arith, h1, h2)), λ t h. refl)
  substitute_tokens-Retaken (suc n) j r =
      let u = substitute_token a l lambda resident s nu j r in
      let v = substitute_tokens a l lambda resident s nu n (suc j) u in
      let (one, others) = substitute_token-Retaken j r in
      let (rest, before) = substitute_tokens-Retaken n (suc j) u in
      (
        λ t h1 h2. elim (Bool-cases (t == j)) [
          | inl e ↦
              let kept = before j (omega arith) in
              rw ((==_iff t j).0 e) (record {
                raised = λ y.
                    subst
                      (λ f.
                        All (λ x. had_from f nu 0 x ≡ true) (ranking a l lambda resident s nu j))
                      (sym kept) (one.raised y);
                same = λ y. kept ∙ one.same y;
              })
          | inr e ↦
              let ne : t ≢ j = λ q. absurd (ground (arith, e, q)) in
              let later = rest t (omega (arith, h1, ne)) (omega (arith, h2)) in
              record { raised = later.raised; same = λ y. later.same y ∙ others t ne }
        ],
        λ t h. before t (omega (arith, h)) ∙ others t (λ q. omega (arith, q, h)),
      )

-- A score is taken for more experts than the routing has slots.
scores_of-more :
    (l : Logs) (nu nt : ℕ) (t : Tensor) (s : Scores) → scores_of l nu nt t ≡ some s → nu < s.ne
unfolding scores_of
scores_of-more l nu nt null s h = absurd (cc)
scores_of-more l nu nt (tensor op d f ne0 ne1 values src) s h = ground (arith, h)

-- For a layer of the model and a routing that is not empty, whose ids lead to scores of more experts than a
-- token has slots: a token whose margin is above 0 goes afterwards to each of the experts with the best
-- boosted scores, as many as it has slots and all different; every other token goes where it did. The boosted
-- score of an expert is its score, plus the margin of the token if the expert is resident and its score is
-- finite.
pub apply_substitute-Retaken :
    {S : Type 0} (a : Arithmetic) (l : Logs) (src : ExpertSource S) (n_layer : ℕ) (lambda : Float32)
    (il nu nt : ℕ) (t : Tensor) (r : Routing) (x : S) (s : Scores)
    → il < n_layer
    → 0 < nu
    → 0 < nt
    → scores_of l nu nt (walk t) ≡ some s
    → let resident = is_resident (src.query_residency il (all_experts s.ne) (src.settle_spec x)) in
      (j : ℕ)
      → j < nt
      → let picks = ranking a l lambda resident s nu j in
        (length picks ≡ nu)
        × Ranking (boosted a resident (margin a l lambda resident s nu j) (s.row j)) s.ne picks
        × (ltb_f zero_f (margin a l lambda resident s nu j) ≡ true
            → GoesTo nu (apply_substitute a l src n_layer lambda il nu nt t r x).0.ids j picks)
        × (ltb_f zero_f (margin a l lambda resident s nu j) ≡ false
            → (apply_substitute a l src n_layer lambda il nu nt t r x).0.ids j ≡ r.ids j)
unfolding apply_substitute
apply_substitute-Retaken a l src n_layer lambda il nu nt t r x s in_model some_slots some_tokens e j
      lt =
    let resident = is_resident (src.query_residency il (all_experts s.ne) (src.settle_spec x)) in
    let more = scores_of-more l nu nt (walk t) s e in
    let ranked =
      rank_top_k-Ranking (boosted a resident (margin a l lambda resident s nu j) (s.row j)) s.ne
        nu in
    let go : (not (ltb il n_layer) || ((nu == 0) || (nt == 0))) ≡ false =
      ground (arith, in_model, some_slots, some_tokens) in
    let v =
      (substitute_tokens-Retaken a l lambda resident s nu more nt 0 r).0 j (omega arith)
        (omega (arith, lt)) in
    (
      ranked.1 ∙ omega (arith, more),
      ranked.0,
      rw (go, e, apply_substitute) v.raised,
      rw (go, e, apply_substitute) v.same,
    )
