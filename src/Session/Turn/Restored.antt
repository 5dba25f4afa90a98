-- ===== src/Session/Turn/Restored.antt =====
-- engine/session.cpp, Session::generate: what a cancelled turn leaves.
use franken_mo_e_cuda.Prelude.{
  ℕ, ◌+◌, ◌≡◌, ◌≤◌, ◌<◌, sym, ap, ◌∙◌, subst, Bool, true, false, List, [], length, take,
  if◌then◌else◌, arith, eq-Prefix,
}
use franken_mo_e_cuda.Prelude.Int.{ℤ}
use franken_mo_e_cuda.Session.{Target, Session, Message}
use franken_mo_e_cuda.Session.Round.{Setup, Step, go, stop, cancelled, failed, generate_loop}
use franken_mo_e_cuda.Session.Spoken.{Reached, Spoken}
use franken_mo_e_cuda.Session.Turn.Reaching.{reuse-Reached}
use franken_mo_e_cuda.Session.Framed.{Framed, generate_loop-Framed, pick-Frame}
use franken_mo_e_cuda.Session.Rounds.{Result, generate_loop-Result}
use franken_mo_e_cuda.Session.Turn.{
  Answer, was_cancelled, Prefill, prefilled, interrupted, broken, pop_history, rollback_turn, reuse,
  prefill, start_run, conclude, after_prefill, turn,
}
use franken_mo_e_cuda.Session.Turn.Reused.{IsSynced, reuse-Reuses}
use franken_mo_e_cuda.Session.Turn.Prefilled.{Fills, prefill-Fills}
use franken_mo_e_cuda.Session.Turn.Started.{start_run-Tracks}
use franken_mo_e_cuda.Session.Turn.Served.{Reuses-Walked, turn-after_prefill}
use franken_mo_e_cuda.Session.Turn.RolledBack.{
  Restores, Starts, trim-Starts, rollback_turn-Restores,
}

-- A cancelled turn, by its answer and the state it leaves.
pub record Cancels (cfg : Setup) (t : Target) (tokens : List ℤ) (n n_predict : ℕ)
    (history : List Message) (emitted : List ℤ) (s : Session) : Type 0 where
  pub inside : n < length tokens
  pub restores : Restores cfg tokens n history s
  pub at_most : length emitted ≤ n_predict
  pub greedily : cfg.sampling ≡ false → Spoken t tokens emitted

module _ (cfg : Setup) (t : Target) (chat : cfg.chat_on ≡ true)
    (removes : (m : List ℤ) (n : ℕ) → t.removes m n ≡ true)
    (draft_removes : (m : List ℤ) (n : ℕ) → t.draft_removes m n ≡ true) (tokens : List ℤ) (n : ℕ)
    (inside : n < length tokens) where
  module _ (reply : List ℤ → Message) (n_predict : ℕ) (before : Session) (pushed : Bool) where
    abbrev history : List Message
    history = if pushed then pop_history cfg t before.chat_history else before.chat_history

    restored :
        (s : Session)
        → Starts cfg t chat removes draft_removes tokens n inside s
        → s.chat_history ≡ before.chat_history
        → Restores cfg tokens n history (rollback_turn cfg t n pushed s)
    restored s p e =
        subst (λ l. Restores cfg tokens n l (rollback_turn cfg t n pushed s))
          (ap (λ l. if pushed then pop_history cfg t l else l) e)
          (rollback_turn-Restores cfg t chat removes draft_removes tokens n inside pushed s p)

    conclude-Cancels :
        (r : Step) (emitted : List ℤ)
        → Result cfg t tokens n_predict r
        → Framed before r
        → (conclude cfg t reply tokens n pushed r).0 ≡ was_cancelled emitted
        → Cancels cfg t tokens n n_predict history emitted
            (conclude cfg t reply tokens n pushed r).1
    unfolding conclude
    conclude-Cancels (go q) emitted h f e = absurd h
    conclude-Cancels (stop q) emitted h f e = absurd (cc)
    conclude-Cancels (failed x q) emitted h f e = absurd (cc)
    conclude-Cancels (cancelled q) emitted h f e =
        let (p, frame) =
          trim-Starts cfg t chat removes draft_removes tokens n inside n_predict q h.holds in
        let same : q.emitted ≡ emitted = cc in
        record {
          inside = inside;
          restores =
              restored _ (record { memory = p.memory; kv = p.kv; draft = p.draft }) (frame.0 ∙ f.0);
          at_most = omega (arith, ap (λ l. length l) same, h.holds.n_gen, h.holds.within);
          greedily = λ g. subst (Spoken t tokens) same (h.greedily g);
        }

    pub after_prefill-Cancels :
        (p : Prefill) (emitted : List ℤ)
        → before.kv_tokens ≡ take n tokens
        → Fills cfg t tokens n before (length tokens) p
        → (after_prefill cfg t reply tokens n_predict n pushed p).0 ≡ was_cancelled emitted
        → Cancels cfg t tokens n n_predict history emitted
            (after_prefill cfg t reply tokens n_predict n pushed p).1
    unfolding after_prefill start_run
    after_prefill-Cancels (prefilled s) emitted kv f e =
        let r = start_run cfg t tokens n s in
        conclude-Cancels (generate_loop cfg t (n_predict + 1) n_predict r) emitted
          (generate_loop-Result cfg t tokens n_predict (n_predict + 1) r (omega arith)
            (start_run-Tracks cfg t tokens n_predict n before s (λ _. kv) f))
          (generate_loop-Framed cfg t before (n_predict + 1) n_predict r
            (pick-Frame cfg t before _ _ (f.chat_history, f.turn)))
          e
    after_prefill-Cancels (interrupted s) emitted kv f e =
        let none : [] ≡ emitted = cc in
        record {
          inside = inside;
          restores =
              restored s
                (record { memory = f.memory; kv = eq-Prefix (f.kv_tokens ∙ kv); draft = f.draft })
                f.chat_history;
          at_most = omega (arith, ap (λ l. length l) (sym none));
          greedily = λ g. subst (Spoken t tokens) none tt;
        }
    after_prefill-Cancels (broken x s) emitted kv f e = absurd (cc)

-- A chat turn that cancel() ends, in a session whose memories are those of kv_tokens and whose context is one that it can come to, on a prompt of
-- at least one token that leaves room in n_ctx, decoded in chunks of at least one token, where both
-- contexts can drop a tail: the memories and kv_tokens hold the first tokens of the prompt that the
-- turn reused and nothing else, the history is without the message that the turn pushed, if it did,
-- at most n_predict tokens were emitted, and without a sampling chain each was the most likely one of
-- a row of logits that a decode in such a context was asked for and returned behind just the prompt and the tokens
-- before it.
pub turn-Cancels :
    (cfg : Setup) (t : Target) (reply : List ℤ → Message) (tokens : List ℤ) (n_predict : ℕ)
    (pushed : Bool) (s : Session) (emitted : List ℤ) (chat : cfg.chat_on ≡ true)
    (removes : (m : List ℤ) (n : ℕ) → t.removes m n ≡ true)
    (draft_removes : (m : List ℤ) (n : ℕ) → t.draft_removes m n ≡ true)
    → IsSynced cfg s
    → Reached t s.context
    → 0 < cfg.n_batch
    → (some_tokens : 0 < length tokens) → length tokens + n_predict + 8 ≤ cfg.n_ctx
    → (turn cfg t reply tokens n_predict pushed s).0 ≡ was_cancelled emitted
    → Cancels cfg t tokens
        (reuse cfg t tokens s).0
        n_predict
        (if pushed then pop_history cfg t s.chat_history else s.chat_history)
        emitted
        (turn cfg t reply tokens n_predict pushed s).1
turn-Cancels cfg t reply tokens n_predict pushed s emitted chat removes draft_removes y alive width
      p room e =
    let d = reuse cfg t tokens s in
    let r = reuse-Reuses cfg t draft_removes tokens s y in
    let inside : d.0 < length tokens = omega (arith, r.1) in
    let fill = prefill cfg t (length tokens) tokens d.0 d.1 in
    let same = turn-after_prefill cfg t reply tokens n_predict pushed s p room in
    let c =
      after_prefill-Cancels cfg t chat removes draft_removes tokens d.0 inside reply n_predict d.1
        pushed fill emitted (r.0.kv chat)
        (prefill-Fills cfg t tokens d.0 d.1 width (omega arith) (length tokens) d.0 d.1
          (omega arith)
          (Reuses-Walked cfg t tokens s d.0 d.1 inside (reuse-Reached cfg t tokens s alive) r.0))
        (ap (λ a. a.0) (sym same) ∙ e) in
    subst
      (λ (a : Answer × Session).
        Cancels cfg t tokens d.0 n_predict
          (if pushed then pop_history cfg t s.chat_history else s.chat_history) emitted a.1)
      (sym same)
      (subst
        (λ l.
          Cancels cfg t tokens d.0 n_predict (if pushed then pop_history cfg t l else l) emitted
            (after_prefill cfg t reply tokens n_predict d.0 pushed fill).1)
        r.0.chat_history c)
