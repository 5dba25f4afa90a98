-- ===== src/Session/Grouped.antt =====
-- engine/session.cpp, Session::generate: the catching up of the draft context, and the rollback of the
-- rejected tail.
use franken_mo_e_cuda.Prelude.{
  ℕ, suc, ◌+◌, ◌≡◌, ◌≤◌, sym, ap, ◌∙◌, subst, Bool, true, false, inl, inr, List, ◌∷◌, ◌++◌, ltb,
  length, take, arith, Bool-cases, take-add_append, take_all,
}
use franken_mo_e_cuda.Prelude.Int.{ℤ}
use franken_mo_e_cuda.Config.{SpecConfig, spec_enabled, is_mtp}
use franken_mo_e_cuda.Config.Float.{Float32}
use franken_mo_e_cuda.Session.{Target, batch_fill}
use franken_mo_e_cuda.Session.Round.{Setup, Run, catch_up, roll_back}
use franken_mo_e_cuda.Session.Spoken.{cut_Reached}
use franken_mo_e_cuda.Session.Verified.{process-batch_fill}
use franken_mo_e_cuda.Session.Settled.{Batched}
use franken_mo_e_cuda.Session.Finished.{Reaches}

-- The head is a source of drafts.
pub spec_enabled_of_mtp : (s : SpecConfig) → is_mtp s ≡ true → spec_enabled s ≡ true
unfolding is_mtp spec_enabled
spec_enabled_of_mtp s h = ground arith

pub clash : {b : Bool} → b ≡ false → b ≡ true → ⊥
clash e f = cc

module _ (cfg : Setup) (t : Target) (prompt : List ℤ) (n_predict : ℕ) where
  -- A batched run, by what it has emitted and the rows of its decode.
  pub record Stands (before : List ℤ) (outs : List (List Float32)) (n : ℕ) (mem dm : List ℤ)
      (q : Run) : Type 0 where
    pub batched : Batched cfg t prompt n_predict mem dm q
    pub emitted : q.emitted ≡ before
    pub outputs : q.session.context.outputs ≡ outs
    pub n_gen : q.n_gen ≡ n

  module _ (before : List ℤ) (outs : List (List Float32)) (n : ℕ) where
    pub catch_up-Reaches :
        (q : Run) (mem toks : List ℤ)
        → Stands before outs n mem (prompt ++ before) q
        → Reaches t (Stands before outs n mem (prompt ++ before ++ toks)) (catch_up cfg t toks q)
    unfolding catch_up
    catch_up-Reaches q mem toks s =
        let b = s.batched in
        let dm = q.session.draft_memory in
        elim (Bool-cases (is_mtp cfg.spec)) [
          | inr text ↦
              simp (text, catch_up)
                (record {
                  batched = record {
                    reached = b.reached;
                    memory = b.memory;
                    draft = λ e. cc;
                    n_past = b.n_past;
                    n_gen = b.n_gen;
                    corpus = b.corpus;
                    kv = b.kv;
                    spoken = b.spoken;
                  };
                  emitted = s.emitted;
                  outputs = s.outputs;
                  n_gen = s.n_gen;
                })
          | inl head ↦
              let past : q.n_past ≡ length dm =
                b.n_past
                ∙ ap (λ l. length (prompt ++ l)) s.emitted
                ∙ ap (λ l. length l) (sym (b.draft head)) in
              let rows = batch_fill toks q.n_past false in
              let walked = process-batch_fill t dm toks q.n_past past in
              elim (Bool-cases (t.processes dm rows)) [
                | inr fails ↦ simp (head, fails, catch_up) (λ w. cc (w.processes dm rows walked.0))
                | inl done ↦
                    simp (head, done, catch_up)
                      (record {
                        batched = record {
                          reached = b.reached;
                          memory = b.memory;
                          draft = λ e. walked.1 done ∙ ap (λ l. l ++ toks) (b.draft head);
                          n_past = b.n_past;
                          n_gen = b.n_gen;
                          corpus = b.corpus;
                          kv = b.kv;
                          spoken = b.spoken;
                        };
                        emitted = s.emitted;
                        outputs = s.outputs;
                        n_gen = s.n_gen;
                      })
              ]
        ]

    cut_memory :
        (mem dm mem' : List ℤ) (q : Run)
        → Stands before outs n mem dm q
        → mem' ≡ mem
        → Stands before outs n mem' dm q
    cut_memory mem dm mem' q s e = subst (λ m. Stands before outs n m dm q) (sym e) s

    pub roll_back-Reaches :
        (q : Run) (x : ℤ) (ds dm : List ℤ) (n_draft n_acc : ℕ)
        → length ds ≤ n_draft
        → Stands before outs n (prompt ++ before ++ x ∷ ds) dm q
        → Reaches t
            (Stands before outs n (prompt ++ before ++ x ∷ take n_acc ds) dm)
            (roll_back cfg t n_draft n_acc q)
    unfolding roll_back
    roll_back-Reaches q x ds dm n_draft n_acc le s =
        let b = s.batched in
        let mem = q.session.context.memory in
        let keep = q.n_past + 1 + n_acc in
        elim (Bool-cases (ltb n_acc n_draft)) [
          | inr all ↦
              simp (all, roll_back)
                (cut_memory _ dm _ q s
                  (ap (λ l. prompt ++ before ++ x ∷ l) (take_all n_acc ds (ground arith))))
          | inl some_rejected ↦ elim (Bool-cases (t.removes mem keep)) [
            | inr fails ↦ simp (some_rejected, fails, roll_back) (λ w. cc (w.removes mem keep))
            | inl done ↦
                let at : keep ≡ length (prompt ++ before) + suc n_acc =
                  omega (arith, b.n_past, ap (λ l. length (prompt ++ l)) s.emitted) in
                simp (some_rejected, done, roll_back)
                  (record {
                    batched = record {
                      reached =
                          cut_Reached t q.session.context _ keep (t.seq_rm_effect mem keep done)
                            b.reached;
                      memory =
                          t.seq_rm_effect mem keep done
                          ∙ ap (λ k. take k mem) at
                          ∙ ap (take (length (prompt ++ before) + suc n_acc)) b.memory
                          ∙ take-add_append (prompt ++ before) (x ∷ ds) (suc n_acc);
                      draft = b.draft;
                      n_past = b.n_past;
                      n_gen = b.n_gen;
                      corpus = b.corpus;
                      kv = b.kv;
                      spoken = b.spoken;
                    };
                    emitted = s.emitted;
                    outputs = s.outputs;
                    n_gen = s.n_gen;
                  })
          ]
        ]
