-- ===== src/Session/Finished.antt =====
-- engine/session.cpp, Session::generate: the end of a group, and the steps before its emission.
use franken_mo_e_cuda.Prelude.{
  ℕ, ◌+◌, ◌≡◌, ◌≤◌, refl, ap, ◌∙◌, subst, false, ◌&&◌, inl, inr, List, [], ◌∷◌, ◌++◌, ltb, length,
  take, if◌then◌else◌, arith, Bool-cases, length-append,
}
use mathlib.Core.List.{append_assoc}
use franken_mo_e_cuda.Prelude.Int.{ℤ}
use franken_mo_e_cuda.Config.{spec_enabled}
use franken_mo_e_cuda.Config.Float.{Float32}
use franken_mo_e_cuda.Session.{Target, argmax, row_at, last_row}
use franken_mo_e_cuda.Session.Round.{
  Setup, Run, Step, go, stop, cancelled, failed, ◌>>=◌, Accepted, pick, advance, emit,
}
use franken_mo_e_cuda.Session.Spoken.{Behind, Says}
use franken_mo_e_cuda.Session.Accept.{one_if}
use franken_mo_e_cuda.Session.Accepts.{Accepts}
use franken_mo_e_cuda.Session.Tracked.{Works, Tracks, Ends}
use franken_mo_e_cuda.Session.Emitted.{grown, emit-eq-grown}
use franken_mo_e_cuda.Session.Settled.{
  Batched, grown-Holds, grown_corpus, ended-Delivers, all_held, spoken_group,
}

counted_plain :
    (a : Accepted)
    → a.eog_hit ≡ false
    → a.n_acc ≡ length a.confirmed + one_if a.eog_hit
    → a.n_acc ≡ length a.confirmed
counted_plain a none e = e ∙ ap (λ h. length a.confirmed + one_if h) none ∙ omega arith

-- A step that goes on in `P`, or fails in a call of llama.cpp.
abbrev pub Reaches : Target → (Run → Type 0) → Step → Type 0
Reaches t P (go q) = P q
Reaches t P (stop q) = ⊥
Reaches t P (cancelled q) = ⊥
Reaches t P (failed e q) = ¬ Works t

pub Reaches-bind :
    (t : Target) (P Q : Run → Type 0) (m : Step) (f : Run → Step)
    → Reaches t P m
    → ((q : Run) → P q → Reaches t Q (f q))
    → Reaches t Q (m >>= f)
Reaches-bind t P Q (go q) f h k = k q h
Reaches-bind t P Q (stop q) f h k = absurd h
Reaches-bind t P Q (cancelled q) f h k = absurd h
Reaches-bind t P Q (failed e q) f h k = h

module _ (cfg : Setup) (t : Target) (prompt : List ℤ) (n_predict : ℕ) where
  pub Ends-bind :
      (r : Run) (P : Run → Type 0) (m : Step) (f : Run → Step)
      → Reaches t P m
      → ((q : Run) → P q → Ends cfg t prompt n_predict r (f q))
      → Ends cfg t prompt n_predict r (m >>= f)
  Ends-bind r P (go q) f h k = k q h
  Ends-bind r P (stop q) f h k = absurd h
  Ends-bind r P (cancelled q) f h k = absurd h
  Ends-bind r P (failed e q) f h k = h

  -- The settling of the next token changes that token alone, and the sampler.
  pub pick-Tracks :
      (r : Run) (row : List Float32)
      → ((tok : ℤ)
          → (cfg.sampling ≡ false → tok ≡ argmax row)
          → Tracks cfg t prompt n_predict (record r { tok = tok }))
      → Tracks cfg t prompt n_predict (pick cfg t row r) × ((pick cfg t row r).n_gen ≡ r.n_gen)
  unfolding pick
  pick-Tracks r row h = elim (Bool-cases cfg.sampling) [
    | inl on ↦
        let k = h (t.sample r.session.sampler row).0 (λ e. cc) in
        simp (on, pick)
          (
            record {
              reached = k.reached;
              memory = k.memory;
              n_past = k.n_past;
              n_gen = k.n_gen;
              within = k.within;
              corpus = k.corpus;
              kv = k.kv;
              draft = k.draft;
              settled = λ e. cc;
              spoken = λ e. cc;
            },
            refl,
          )
    | inr off ↦ simp (off, pick) (h (argmax row) (λ e. refl), refl)
  ]

  module _ (r q : Run) (x : ℤ) (ds : List ℤ) (n_draft : ℕ) (a : Accepted)
      (b : Batched cfg t prompt n_predict
        (prompt ++ q.emitted ++ x ∷ take a.n_acc ds)
        (prompt ++ q.emitted ++ x ∷ take a.n_acc ds)
        q)
      (c : Accepts t (prompt ++ q.emitted ++ x ∷ []) ds a)
      (room : q.n_gen + 1 + length ds ≤ n_predict)
      (plain : spec_enabled cfg.spec ≡ false → length ds ≡ 0) (same : q.n_gen ≡ r.n_gen)
      (settled : cfg.sampling ≡ false → Says t (prompt ++ q.emitted) x) (more : t.is_eog x ≡ false)
      (row : Behind t (prompt ++ q.emitted ++ x ∷ take a.n_acc ds) (
        if spec_enabled cfg.spec && ltb 0 n_draft
        then row_at q.session.context.outputs a.n_acc
        else last_row q.session.context.outputs)) where
    abbrev taken_row : List Float32
    taken_row =
        if spec_enabled cfg.spec && ltb 0 n_draft
        then row_at q.session.context.outputs a.n_acc
        else last_row q.session.context.outputs

    next-Tracks :
        a.eog_hit ≡ false
        → (tok : ℤ) → (cfg.sampling ≡ false → tok ≡ argmax taken_row)
        → Tracks cfg t prompt n_predict (record (grown cfg (x ∷ a.confirmed) q) {
          n_past = q.n_past + (1 + a.n_acc);
          tok = tok;
        })
    next-Tracks none tok h =
        let hold = grown-Holds cfg t prompt n_predict q x ds a b c room in
        let held = all_held cfg t prompt n_predict q x ds a b c room none in
        record {
          reached = b.reached;
          memory = b.memory ∙ held;
          n_past = omega (
            arith,
            b.n_past,
            counted_plain a none c.counted,
            length-append {0} (prompt ++ q.emitted) (x ∷ a.confirmed),
            ap (λ l. length l) (append_assoc prompt q.emitted (x ∷ a.confirmed)),
          );
          n_gen = hold.n_gen;
          within = hold.within;
          corpus = grown_corpus cfg t prompt n_predict q x ds a b c room;
          kv = hold.kv;
          draft = λ on. b.draft on ∙ held;
          settled = λ g. (taken_row, subst (λ l. Behind t l taken_row) held row, h g);
          spoken = λ g. spoken_group cfg t prompt n_predict q x ds a b c room g (settled g) more;
        }

    pub advance-Ends :
        Ends cfg t prompt n_predict r
          (advance cfg t n_draft a (emit cfg t n_predict (x ∷ a.confirmed) q))
    unfolding advance
    advance-Ends =
        let whole : emit cfg t n_predict (x ∷ a.confirmed) q ≡ grown cfg (x ∷ a.confirmed) q =
          emit-eq-grown cfg t n_predict (x ∷ a.confirmed) q (omega (arith, c.counted, c.fits)) in
        elim (Bool-cases a.eog_hit) [
          | inl hit ↦
              simp (whole, hit, advance)
                (ended-Delivers cfg t prompt n_predict q x ds a b c room hit plain settled more)
          | inr none ↦
              let r' = record (grown cfg (x ∷ a.confirmed) q) {
                n_past = q.n_past + (1 + a.n_acc);
              } in
              let p = pick-Tracks r' taken_row (next-Tracks none) in
              simp (whole, none, advance) (p.0, omega (arith, p.1, same))
        ]
