-- ===== src/Session/Settled.antt =====
-- engine/session.cpp, Session::generate: how a round ends once its batch is decoded.
use franken_mo_e_cuda.Prelude.{
  ℕ, ◌+◌, ◌≡◌, ◌≤◌, sym, ap, ◌∙◌, subst, Bool, true, false, inr, List, [], ◌∷◌, ◌++◌, length, take,
  arith, length-append, Prefix, Prefix-take, Prefix-under,
}
use mathlib.Core.List.{append_assoc}
use franken_mo_e_cuda.Prelude.Int.{ℤ}
use franken_mo_e_cuda.Config.{spec_enabled, is_mtp}
use franken_mo_e_cuda.Session.{Target}
use franken_mo_e_cuda.Session.Round.{Setup, Run, Accepted}
use franken_mo_e_cuda.Session.Spoken.{Reached, Says, Spoken, Closes, Spoken-append}
use franken_mo_e_cuda.Session.Accept.{one_if}
use franken_mo_e_cuda.Session.Accepts.{Accepts}
use franken_mo_e_cuda.Session.Tracked.{Holds, Delivers}
use franken_mo_e_cuda.Session.Emitted.{append_if, grown}

module _ (cfg : Setup) (t : Target) (prompt : List ℤ) (n_predict : ℕ) where
  -- A run between its decode and its emission: the group's tokens lie in the memories, `mem` and `dm`,
  -- and are not emitted.
  pub record Batched (mem dm : List ℤ) (q : Run) : Type 0 where
    pub reached : Reached t q.session.context
    pub memory : q.session.context.memory ≡ mem
    pub draft : is_mtp cfg.spec ≡ true → q.session.draft_memory ≡ dm
    pub n_past : q.n_past ≡ length (prompt ++ q.emitted)
    pub n_gen : q.n_gen ≡ length q.emitted
    pub corpus : spec_enabled cfg.spec ≡ true → q.mtp_ctx ≡ prompt ++ q.emitted
    pub kv : cfg.chat_on ≡ true → q.session.kv_tokens ≡ prompt ++ q.emitted
    pub spoken : cfg.sampling ≡ false → Spoken t prompt q.emitted

  module _ (q : Run) (x : ℤ) (ds : List ℤ) (a : Accepted)
      (b : Batched
        (prompt ++ q.emitted ++ x ∷ take a.n_acc ds)
        (prompt ++ q.emitted ++ x ∷ take a.n_acc ds)
        q)
      (c : Accepts t (prompt ++ q.emitted ++ x ∷ []) ds a)
      (room : q.n_gen + 1 + length ds ≤ n_predict) where
    confirmed_Prefix : Prefix a.confirmed (take a.n_acc ds)
    confirmed_Prefix =
        subst (λ l. Prefix l (take a.n_acc ds)) c.drafted
          (Prefix-take (length a.confirmed) a.n_acc ds (omega (arith, c.counted)))

    group_Prefix :
        Prefix
          (prompt ++ (q.emitted ++ x ∷ a.confirmed))
          (prompt ++ q.emitted ++ x ∷ take a.n_acc ds)
    group_Prefix =
        subst (λ l. Prefix l (prompt ++ q.emitted ++ x ∷ take a.n_acc ds))
          (append_assoc prompt q.emitted (x ∷ a.confirmed))
          (Prefix-under (prompt ++ q.emitted) (x ∷ a.confirmed) (x ∷ take a.n_acc ds)
            (Prefix-under (x ∷ []) a.confirmed (take a.n_acc ds) confirmed_Prefix))

    length-confirmed : length a.confirmed ≤ length ds
    length-confirmed = omega (arith, c.counted, c.fits)

    pub grown_kv :
        cfg.chat_on ≡ true
        → append_if cfg.chat_on q.session.kv_tokens (x ∷ a.confirmed)
          ≡ prompt ++ (q.emitted ++ x ∷ a.confirmed)
    grown_kv on =
        rw on (
          ap (λ l. l ++ x ∷ a.confirmed) (b.kv on)
          ∙ append_assoc prompt q.emitted (x ∷ a.confirmed))

    pub grown_corpus :
        spec_enabled cfg.spec ≡ true
        → append_if (spec_enabled cfg.spec) q.mtp_ctx (x ∷ a.confirmed)
          ≡ prompt ++ (q.emitted ++ x ∷ a.confirmed)
    grown_corpus on = rw on (
        ap (λ l. l ++ x ∷ a.confirmed) (b.corpus on)
        ∙ append_assoc prompt q.emitted (x ∷ a.confirmed))

    pub grown-Holds : Holds cfg t prompt n_predict (grown cfg (x ∷ a.confirmed) q)
    grown-Holds = record {
      memory =
          subst (Prefix (prompt ++ (q.emitted ++ x ∷ a.confirmed))) (sym b.memory) group_Prefix;
      n_gen = omega (arith, b.n_gen, length-append {0} q.emitted (x ∷ a.confirmed));
      within = omega (arith, length-confirmed);
      kv = grown_kv;
      draft = λ on.
          subst (Prefix (prompt ++ (q.emitted ++ x ∷ a.confirmed))) (sym (b.draft on)) group_Prefix;
    }

    -- The group is said by the target behind what was emitted.
    pub spoken_group :
        cfg.sampling ≡ false
        → Says t (prompt ++ q.emitted) x
        → t.is_eog x ≡ false
        → Spoken t prompt (q.emitted ++ x ∷ a.confirmed)
    spoken_group g says more =
        Spoken-append t prompt q.emitted (x ∷ a.confirmed) (b.spoken g) (says, more, c.spoken)

    pub ended-Delivers :
        a.eog_hit ≡ true
        → (spec_enabled cfg.spec ≡ false → length ds ≡ 0)
        → (cfg.sampling ≡ false → Says t (prompt ++ q.emitted) x)
        → t.is_eog x ≡ false
        → Delivers cfg t prompt n_predict (grown cfg (x ∷ a.confirmed) q)
    ended-Delivers hit plain e more = record {
      reached = b.reached;
      holds = grown-Holds;
      exact = λ off. absurd (omega (arith, plain off, c.fits, c.counted, ap one_if hit));
      greedily = λ g. (
        spoken_group g (e g) more,
        inr (
            subst (Closes t)
              (append_assoc (prompt ++ q.emitted) (x ∷ []) a.confirmed
                ∙ append_assoc prompt q.emitted (x ∷ a.confirmed))
              (c.ended hit)),
      );
    }

    -- Without an end of generation the memories hold the group and nothing else.
    taken : a.eog_hit ≡ false → take a.n_acc ds ≡ a.confirmed
    taken none =
        let e : a.n_acc ≡ length a.confirmed = c.counted ∙ plain_count none in
        ap (λ k. take k ds) e ∙ c.drafted
      where
        plain_count : {k : ℕ} {h : Bool} → h ≡ false → k + one_if h ≡ k
        plain_count {k} e = rw e (omega arith)

    pub all_held :
        a.eog_hit ≡ false
        → prompt ++ q.emitted ++ x ∷ take a.n_acc ds ≡ prompt ++ (q.emitted ++ x ∷ a.confirmed)
    all_held none =
        ap (λ l. prompt ++ q.emitted ++ x ∷ l) (taken none)
        ∙ append_assoc prompt q.emitted (x ∷ a.confirmed)
