-- ===== src/Session/Turn/Served.antt =====
-- engine/session.cpp, Session::generate: what a turn answers, and the state it leaves.
use franken_mo_e_cuda.Prelude.{
  ℕ, ◌+◌, ◌≡◌, ◌≤◌, ◌<◌, refl, sym, ap, ◌∙◌, subst, Bool, true, false, inl, inr, List, [], ◌∷◌,
  ◌++◌, ltb, length, take, if◌then◌else◌, arith, Bool-cases, length-append,
}
use franken_mo_e_cuda.Prelude.Int.{ℤ}
use franken_mo_e_cuda.Config.{spec_enabled, is_mtp}
use franken_mo_e_cuda.Session.{Target, Session, Message}
use franken_mo_e_cuda.Session.Round.{Setup, Run, Step, go, stop, cancelled, failed, generate_loop}
use franken_mo_e_cuda.Session.Spoken.{Reached, Answered}
use franken_mo_e_cuda.Session.Turn.Reaching.{reuse-Reached, trim-Reached}
use franken_mo_e_cuda.Session.Tracked.{Works, Delivers}
use franken_mo_e_cuda.Session.Framed.{Frame, Framed, generate_loop-Framed, pick-Frame}
use franken_mo_e_cuda.Session.Grouped.{spec_enabled_of_mtp, clash}
use franken_mo_e_cuda.Session.Rounds.{Result, generate_loop-Result}
use franken_mo_e_cuda.Session.Turn.{
  Answer, answered, Prefill, prefilled, interrupted, broken, is_none, with_memory, cut_draft, reuse,
  prefill, start_run, trim, conclude, after_prefill, turn,
}
use franken_mo_e_cuda.Session.Turn.Reused.{IsSynced, Reuses, reuse-Reuses}
use franken_mo_e_cuda.Session.Turn.Prefilled.{Walked, Fills, prefill-Fills}
use franken_mo_e_cuda.Session.Turn.Started.{take_of_Prefix, start_run-Tracks}

module _ (cfg : Setup) (t : Target) (tokens : List ℤ) (n_predict : ℕ) where
  module _ (w : Works t) where
    -- What a normal end leaves, once it is trimmed.
    pub record Trimmed (emitted : List ℤ) (s : Session) : Type 0 where
      pub memory : s.context.memory ≡ tokens ++ emitted
      pub kv : cfg.chat_on ≡ true → s.kv_tokens ≡ tokens ++ emitted
      pub draft : is_mtp cfg.spec ≡ true → s.draft_memory ≡ tokens ++ emitted

    trim-Trimmed :
        (q : Run)
        → Delivers cfg t tokens n_predict q
        → Trimmed q.emitted (trim cfg t (length tokens + q.n_gen) q.session)
          × Frame q.session (trim cfg t (length tokens + q.n_gen) q.session)
    unfolding trim cut_draft with_memory
    trim-Trimmed q d =
        let h = d.holds in
        let e = length tokens + q.n_gen in
        let end : e ≡ length (tokens ++ q.emitted) =
          omega (arith, h.n_gen, length-append {0} tokens q.emitted) in
        let mem = q.session.context.memory in
        let dm = q.session.draft_memory in
        let cut =
          t.seq_rm_effect mem e (w.removes mem e)
          ∙ take_of_Prefix (tokens ++ q.emitted) mem e end h.memory in
        elim (Bool-cases (spec_enabled cfg.spec)) [
          | inr off ↦
              simp (off, trim)
                (
                  record {
                    memory = d.exact off;
                    kv = h.kv;
                    draft = λ m. absurd (clash off (spec_enabled_of_mtp cfg.spec m));
                  },
                  (refl, refl),
                )
          | inl on ↦ elim (Bool-cases (is_mtp cfg.spec)) [
            | inr text ↦
                simp (on, text, w.removes q.session.context.memory e, trim, cut_draft)
                  (record { memory = cut; kv = h.kv; draft = λ m. cc }, (refl, refl))
            | inl head ↦
                simp
                  (
                    on,
                    head,
                    w.removes q.session.context.memory e,
                    w.draft_removes q.session.draft_memory e,
                    trim,
                    cut_draft,
                  )
                  (
                    record {
                      memory = cut;
                      kv = h.kv;
                      draft = λ m.
                          t.draft_seq_rm_effect dm e (w.draft_removes dm e)
                          ∙ take_of_Prefix (tokens ++ q.emitted) dm e end (h.draft m);
                    },
                    (refl, refl),
                  )
          ]
        ]

    -- A turn that is answered, as the state after it shows.
    pub record Answers (reply : List ℤ → Message) (before : Session) (r : Answer × Session)
        : Type 0 where
      pub emitted : List ℤ
      pub reached : Reached t r.1.context
      pub answer : r.0 ≡ answered emitted
      pub at_most : length emitted ≤ n_predict
      pub greedily : cfg.sampling ≡ false → Answered t tokens n_predict emitted
      pub memory : r.1.context.memory ≡ tokens ++ emitted
      pub kv : cfg.chat_on ≡ true → r.1.kv_tokens ≡ tokens ++ emitted
      pub draft : is_mtp cfg.spec ≡ true → r.1.draft_memory ≡ tokens ++ emitted
      pub chat_history :
          r.1.chat_history
          ≡ (if cfg.chat_on then before.chat_history ++ reply emitted ∷ [] else before.chat_history)
      pub turn : r.1.turn ≡ before.turn + 1

    module _ (reply : List ℤ → Message) (before : Session) (n : ℕ) (pushed : Bool) where
      conclude-Answers :
          (s : Step)
          → Result cfg t tokens n_predict s
          → Framed before s
          → Answers reply before (conclude cfg t reply tokens n pushed s)
      unfolding conclude
      conclude-Answers (go r) h f = absurd h
      conclude-Answers (cancelled r) h f = absurd (h.broke w)
      conclude-Answers (failed e r) h f = absurd (h w)
      conclude-Answers (stop r) h f =
          let (kept, frame) = trim-Trimmed r h in
          record {
            emitted = r.emitted;
            reached = trim-Reached cfg t (length tokens + r.n_gen) r.session h.reached;
            answer = refl;
            at_most = omega (arith, h.holds.n_gen, h.holds.within);
            greedily = h.greedily;
            memory = kept.memory;
            kv = kept.kv;
            draft = kept.draft;
            chat_history =
                ap (λ l. if cfg.chat_on then l ++ reply r.emitted ∷ [] else l) (frame.0 ∙ f.0);
            turn = ap (λ k. k + 1) (frame.1 ∙ f.1);
          }

      after_prefill-Answers :
          (p : Prefill)
          → (cfg.chat_on ≡ true → before.kv_tokens ≡ take n tokens)
          → Fills cfg t tokens n before (length tokens) p
          → Answers reply before (after_prefill cfg t reply tokens n_predict n pushed p)
      unfolding after_prefill start_run
      after_prefill-Answers (prefilled s) kv f =
          let r = start_run cfg t tokens n s in
          conclude-Answers (generate_loop cfg t (n_predict + 1) n_predict r)
            (generate_loop-Result cfg t tokens n_predict (n_predict + 1) r (omega arith)
              (start_run-Tracks cfg t tokens n_predict n before s kv f))
            (generate_loop-Framed cfg t before (n_predict + 1) n_predict r
              (pick-Frame cfg t before _ _ (f.chat_history, f.turn)))
      after_prefill-Answers (interrupted s) kv f = absurd (f.broke w)
      after_prefill-Answers (broken e s) kv f = absurd (f w)

pub not_none : (xs : List ℤ) → 0 < length xs → is_none xs ≡ false
unfolding is_none
not_none [] h = absurd (omega arith)
not_none (x ∷ xs) h = refl

-- What is reused is where the prefill starts from.
pub Reuses-Walked :
    (cfg : Setup) (t : Target) (tokens : List ℤ) (s0 : Session) (n : ℕ) (s : Session)
    → n < length tokens
    → Reached t s.context
    → Reuses cfg tokens s0 n s
    → Walked cfg t tokens n s n s
Reuses-Walked cfg t tokens s0 n s lt alive r = record {
  reached = alive;
  from = omega arith;
  memory = r.memory;
  draft = r.draft;
  chat_history = refl;
  turn = refl;
  kv_tokens = refl;
  row = λ h. absurd (omega arith);
}

-- Past its two guards a turn is its prefill and what follows.
pub turn-after_prefill :
    (cfg : Setup) (t : Target) (reply : List ℤ → Message) (tokens : List ℤ) (n_predict : ℕ)
    (pushed : Bool) (s : Session)
    → 0 < length tokens
    → length tokens + n_predict + 8 ≤ cfg.n_ctx
    → let d = reuse cfg t tokens s in
      turn cfg t reply tokens n_predict pushed s
      ≡ after_prefill cfg t reply tokens n_predict d.0 pushed
          (prefill cfg t (length tokens) tokens d.0 d.1)
unfolding turn
turn-after_prefill cfg t reply tokens n_predict pushed s some_tokens room =
    let fits : ltb cfg.n_ctx (length tokens + n_predict + 8) ≡ false = ground arith in
    simp (not_none tokens some_tokens, fits, turn)

-- In a session whose memories are those of kv_tokens, and empty off the chat path, and whose context is
-- one that it can come to, a prompt of at
-- least one token that leaves room in n_ctx, decoded in chunks of at least one token, is answered
-- where all calls of llama.cpp succeed, with at most n_predict tokens. Without a sampling chain each of
-- them is the most likely token of a row of logits that a decode in such a context was asked for and
-- returned behind just the prompt and the tokens before it, whatever was reused and drafted, and none ends the
-- generation; if they are fewer than n_predict, the row behind all of them says a token that does.
-- Afterwards the memory holds the prompt and the answer and nothing else, and so do the draft
-- head's memory, and on the chat path kv_tokens; there the history has gained the answer's message.
pub turn-Answers :
    (cfg : Setup) (t : Target) (reply : List ℤ → Message) (tokens : List ℤ) (n_predict : ℕ)
    (pushed : Bool) (s : Session) (w : Works t)
    → IsSynced cfg s
    → Reached t s.context
    → 0 < cfg.n_batch
    → 0 < length tokens
    → length tokens + n_predict + 8 ≤ cfg.n_ctx
    → Answers cfg t tokens n_predict w reply s (turn cfg t reply tokens n_predict pushed s)
turn-Answers cfg t reply tokens n_predict pushed s w y alive width some_tokens room =
    let d = reuse cfg t tokens s in
    let r = reuse-Reuses cfg t w.draft_removes tokens s y in
    let a =
      after_prefill-Answers cfg t tokens n_predict w reply d.1 d.0 pushed
        (prefill cfg t (length tokens) tokens d.0 d.1) r.0.kv
        (prefill-Fills cfg t tokens d.0 d.1 width (omega (arith, r.1)) (length tokens) d.0 d.1
          (omega arith)
          (Reuses-Walked cfg t tokens s d.0 d.1 (omega (arith, r.1))
            (reuse-Reached cfg t tokens s alive) r.0)) in
    subst (Answers cfg t tokens n_predict w reply s)
      (sym (turn-after_prefill cfg t reply tokens n_predict pushed s some_tokens room))
      (record {
        emitted = a.emitted;
        reached = a.reached;
        answer = a.answer;
        at_most = a.at_most;
        greedily = a.greedily;
        memory = a.memory;
        kv = a.kv;
        draft = a.draft;
        chat_history =
            a.chat_history
            ∙ ap (λ l. if cfg.chat_on then l ++ reply a.emitted ∷ [] else l) r.0.chat_history;
        turn = a.turn ∙ ap (λ k. k + 1) r.0.turn;
      })
