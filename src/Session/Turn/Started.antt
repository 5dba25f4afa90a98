-- ===== src/Session/Turn/Started.antt =====
-- engine/session.cpp, Session::generate: the first state of a turn's loop.
use franken_mo_e_cuda.Prelude.{
  ℕ, ◌≡◌, refl, sym, ap, ◌∙◌, subst, true, List, [], ◌++◌, length, take, drop, if◌then◌else◌, arith,
  take_all, take-length_append, take-append_drop, Prefix,
}
use mathlib.Core.List.{append-nil}
use franken_mo_e_cuda.Prelude.Int.{ℤ, pos}
use franken_mo_e_cuda.Config.{spec_enabled}
use franken_mo_e_cuda.Session.{Target, Session, last_row}
use franken_mo_e_cuda.Session.Round.{Setup}
use franken_mo_e_cuda.Session.Spoken.{Behind}
use franken_mo_e_cuda.Session.Tracked.{Tracks}
use franken_mo_e_cuda.Session.Finished.{pick-Tracks}
use franken_mo_e_cuda.Session.Turn.{start_run}
use franken_mo_e_cuda.Session.Turn.Prefilled.{Walked}

pub take_of_Prefix : (xs ys : List ℤ) (n : ℕ) → n ≡ length xs → Prefix xs ys → take n ys ≡ xs
take_of_Prefix xs ys n e (zs, p) =
    ap (λ k. take k ys) e ∙ ap (take (length xs)) p ∙ take-length_append xs zs

module _ (cfg : Setup) (t : Target) (tokens : List ℤ) (n_predict : ℕ) where
  -- The first state of the loop keeps the loop's invariant.
  pub start_run-Tracks :
      (n : ℕ) (before s : Session)
      → (cfg.chat_on ≡ true → before.kv_tokens ≡ take n tokens)
      → Walked cfg t tokens n before (length tokens) s
      → Tracks cfg t tokens n_predict (start_run cfg t tokens n s)
  unfolding start_run
  start_run-Tracks n before s kv w =
      let all : take (length tokens) tokens ≡ tokens =
        take_all (length tokens) tokens (omega arith) in
      let e : tokens ≡ tokens ++ [] = sym (append-nil tokens) in
      let held : (cfg.chat_on ≡ true)
          → (if cfg.chat_on then s.kv_tokens ++ drop n tokens else s.kv_tokens) ≡ tokens ++ [] =
        λ on.
          rw on
            (ap (λ l. l ++ drop n tokens) (w.kv_tokens ∙ kv on) ∙ take-append_drop n tokens ∙ e) in
      let first =
        pick-Tracks cfg t tokens n_predict
          (record {
            session = record s {
              kv_tokens = if cfg.chat_on then s.kv_tokens ++ drop n tokens else s.kv_tokens;
            };
            n_gen = 0;
            n_past = length tokens;
            tok = pos 0;
            mtp_ctx = if spec_enabled cfg.spec then tokens else [];
            emitted = [];
          })
          (last_row s.context.outputs)
          (λ tok settled. record {
            reached = w.reached;
            memory = w.memory ∙ all ∙ e;
            n_past = ap (λ l. length l) e;
            n_gen = refl;
            within = omega arith;
            corpus = λ on. rw on e;
            kv = held;
            draft = λ on. w.draft on ∙ all ∙ e;
            settled = λ g. (
              last_row s.context.outputs,
              subst (λ l. Behind t l (last_row s.context.outputs)) e (w.row (omega arith)),
              settled g,
            );
            spoken = λ g. tt;
          }) in
      first.0
