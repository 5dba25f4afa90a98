-- ===== src/Session/GroupEnd.antt =====
-- engine/session.cpp, Session::generate: a group from the decode of its batch to its end.
use franken_mo_e_cuda.Prelude.{
  ℕ, ◌+◌, ◌≡◌, ◌≤◌, sym, ap, ◌∙◌, subst, false, ◌&&◌, inl, inr, List, [], ◌∷◌, ◌++◌, ltb, length,
  take, if◌then◌else◌, arith, Bool-cases, take_all,
}
use franken_mo_e_cuda.Prelude.Int.{ℤ}
use franken_mo_e_cuda.Config.{spec_enabled}
use franken_mo_e_cuda.Config.Float.{Float32}
use franken_mo_e_cuda.Session.{Target, row_at, last_row}
use franken_mo_e_cuda.Session.Round.{
  Setup, Run, ◌>>=◌, Accepted, accept, advance, emit, catch_up, roll_back, settle_group,
  count_accepted,
}
use franken_mo_e_cuda.Session.Spoken.{Behind, Says}
use franken_mo_e_cuda.Session.Accepts.{Accepts}
use franken_mo_e_cuda.Session.Tracked.{Ends}
use franken_mo_e_cuda.Session.Settled.{Batched}
use franken_mo_e_cuda.Session.Finished.{Reaches-bind, Ends-bind, advance-Ends}
use franken_mo_e_cuda.Session.Grouped.{
  Stands, clash, spec_enabled_of_mtp, catch_up-Reaches, roll_back-Reaches,
}

module _ (cfg : Setup) (t : Target) (prompt : List ℤ) (n_predict : ℕ) where
  module _ (before : List ℤ) (outs : List (List Float32)) (n : ℕ) where
    -- The group's end, where the run stands with all of the group in its memories.
    Stands-Ends :
        (r q : Run) (x : ℤ) (ds : List ℤ) (n_draft : ℕ) (a : Accepted)
        → n ≡ r.n_gen
        → Accepts t (prompt ++ before ++ x ∷ []) ds a
        → n + 1 + length ds ≤ n_predict
        → (spec_enabled cfg.spec ≡ false → length ds ≡ 0)
        → (cfg.sampling ≡ false → Says t (prompt ++ before) x)
        → t.is_eog x ≡ false
        → Behind t
            (prompt ++ before ++ x ∷ take a.n_acc ds)
            (if spec_enabled cfg.spec && ltb 0 n_draft then row_at outs a.n_acc else last_row outs)
        → Stands cfg t prompt n_predict before outs n
            (prompt ++ before ++ x ∷ take a.n_acc ds)
            (prompt ++ before ++ x ∷ take a.n_acc ds)
            q
        → Ends cfg t prompt n_predict r
            (advance cfg t n_draft a (emit cfg t n_predict (x ∷ a.confirmed) q))
    Stands-Ends r q x ds n_draft a start c room plain settled more row s =
        let e = sym s.emitted in
        advance-Ends cfg t prompt n_predict r q x ds n_draft a
          (subst
            (λ l.
              Batched cfg t prompt n_predict (prompt ++ l ++ x ∷ take a.n_acc ds)
                (prompt ++ l ++ x ∷ take a.n_acc ds) q)
            e s.batched)
          (subst (λ l. Accepts t (prompt ++ l ++ x ∷ []) ds a) e c) (omega (arith, s.n_gen)) plain
          (s.n_gen ∙ start) (subst (λ l. cfg.sampling ≡ false → Says t (prompt ++ l) x) e settled)
          more
          (subst
            (λ o.
              Behind t (prompt ++ q.emitted ++ x ∷ take a.n_acc ds)
                (if spec_enabled cfg.spec && ltb 0 n_draft then row_at o a.n_acc else last_row o))
            (sym s.outputs)
            (subst
              (λ l. Behind t (prompt ++ l ++ x ∷ take a.n_acc ds) (
                if spec_enabled cfg.spec && ltb 0 n_draft
                then row_at outs a.n_acc
                else last_row outs))
              e row))

    count_accepted-Stands :
        (q : Run) (mem dm : List ℤ) (k : ℕ)
        → Stands cfg t prompt n_predict before outs n mem dm q
        → Stands cfg t prompt n_predict before outs n mem dm (count_accepted cfg t k q)
    unfolding count_accepted
    count_accepted-Stands q mem dm k s =
        let b = s.batched in
        record {
          batched = record {
            reached = b.reached;
            memory = b.memory;
            draft = b.draft;
            n_past = b.n_past;
            n_gen = b.n_gen;
            corpus = b.corpus;
            kv = b.kv;
            spoken = b.spoken;
          };
          emitted = s.emitted;
          outputs = s.outputs;
          n_gen = s.n_gen;
        }

    plain-Stands :
        (q : Run) (x : ℤ) (ds : List ℤ) (k : ℕ)
        → spec_enabled cfg.spec ≡ false
        → length ds ≤ k
        → Stands cfg t prompt n_predict before outs n
            (prompt ++ before ++ x ∷ ds)
            (prompt ++ before)
            q
        → Stands cfg t prompt n_predict before outs n
            (prompt ++ before ++ x ∷ take k ds)
            (prompt ++ before ++ x ∷ take k ds)
            q
    plain-Stands q x ds k off le s =
        let b = s.batched in
        record {
          batched = record {
            reached = b.reached;
            memory = b.memory ∙ ap (λ l. prompt ++ before ++ x ∷ l) (sym (take_all k ds le));
            draft = λ head. absurd (clash off (spec_enabled_of_mtp cfg.spec head));
            n_past = b.n_past;
            n_gen = b.n_gen;
            corpus = b.corpus;
            kv = b.kv;
            spoken = b.spoken;
          };
          emitted = s.emitted;
          outputs = s.outputs;
          n_gen = s.n_gen;
        }

    -- How a round ends, from the decode of its batch on.
    pub settle_group-Ends :
        (r q : Run) (ds : List ℤ) (n_draft : ℕ)
        → n ≡ r.n_gen
        → length ds ≤ n_draft
        → (spec_enabled cfg.spec ≡ false → n_draft ≡ 0)
        → Accepts t (prompt ++ before ++ q.tok ∷ []) ds (accept t outs 0 ds)
        → n + 1 + length ds ≤ n_predict
        → (cfg.sampling ≡ false → Says t (prompt ++ before) q.tok)
        → t.is_eog q.tok ≡ false
        → ((k : ℕ)
            → k ≤ length ds
            → Behind t
                (prompt ++ before ++ q.tok ∷ take k ds)
                (if spec_enabled cfg.spec && ltb 0 n_draft then row_at outs k else last_row outs))
        → Stands cfg t prompt n_predict before outs n
            (prompt ++ before ++ q.tok ∷ ds)
            (prompt ++ before)
            q
        → Ends cfg t prompt n_predict r (settle_group cfg t n_predict n_draft ds q)
    unfolding settle_group
    settle_group-Ends r q ds n_draft start le off c room settled more row s =
        let a = accept t outs 0 ds in
        let x = q.tok in
        elim (Bool-cases (spec_enabled cfg.spec)) [
          | inr plain ↦
              simp (s.outputs, plain, settle_group)
                (Stands-Ends r q x ds n_draft a start c room (λ e. omega (arith, le, off e)) settled
                  more (row a.n_acc c.fits)
                  (plain-Stands q x ds a.n_acc plain (omega (arith, off plain)) s))
          | inl on ↦
              let kept = prompt ++ before ++ x ∷ take a.n_acc ds in
              let whole = prompt ++ before ++ x ∷ ds in
              let first = catch_up cfg t (x ∷ take a.n_acc ds) (count_accepted cfg t a.n_acc q) in
              simp (s.outputs, on, settle_group)
                (Ends-bind cfg t prompt n_predict r
                  (Stands cfg t prompt n_predict before outs n kept kept)
                  (first >>= roll_back cfg t n_draft a.n_acc)
                  (λ u. advance cfg t n_draft a (emit cfg t n_predict (x ∷ a.confirmed) u))
                  (Reaches-bind t (Stands cfg t prompt n_predict before outs n whole kept)
                    (Stands cfg t prompt n_predict before outs n kept kept) first
                    (roll_back cfg t n_draft a.n_acc)
                    (catch_up-Reaches cfg t prompt n_predict before outs n
                      (count_accepted cfg t a.n_acc q) whole (x ∷ take a.n_acc ds)
                      (count_accepted-Stands q whole (prompt ++ before) a.n_acc s))
                    (λ q1 s1.
                      roll_back-Reaches cfg t prompt n_predict before outs n q1 x ds kept n_draft
                        a.n_acc le s1))
                  (λ q2 s2.
                    Stands-Ends r q2 x ds n_draft a start c room (λ e. omega (arith, le, off e))
                      settled more (row a.n_acc c.fits) s2))
        ]
