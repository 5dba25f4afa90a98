-- ===== src/Session/Turn/RolledBack.antt =====
-- engine/session.cpp, Session::generate: the rollback of a turn.
use franken_mo_e_cuda.Prelude.{
  ℕ, ◌+◌, ◌-◌, ◌≡◌, ◌≤◌, ◌<◌, refl, sym, ap, ◌∙◌, subst, Bool, true, inl, inr, List, ◌++◌, length,
  take, if◌then◌else◌, arith, Bool-cases, take_all, length-append, length-take, Prefix, Prefix-take,
  Prefix-trans, Prefix-append,
}
use mathlib.Core.List.{append-nil}
use franken_mo_e_cuda.Prelude.Int.{ℤ}
use franken_mo_e_cuda.Config.{spec_enabled, is_mtp}
use franken_mo_e_cuda.Session.{Target, Session, Message}
use franken_mo_e_cuda.Session.Round.{Setup, Run}
use franken_mo_e_cuda.Session.Tracked.{Holds}
use franken_mo_e_cuda.Session.Framed.{Frame}
use franken_mo_e_cuda.Session.Turn.{
  zeros, resize, with_memory, cut_draft, pop_history, rollback_turn, trim,
}
use franken_mo_e_cuda.Session.Turn.Started.{take_of_Prefix}

resize-take : (n : ℕ) (xs : List ℤ) → n ≤ length xs → resize n xs ≡ take n xs
unfolding resize zeros
resize-take n xs h =
    let none : n - length xs ≡ 0 = omega arith in
    ap (λ k. take n xs ++ zeros k) none ∙ append-nil (take n xs)

longer : (xs ys : List ℤ) → Prefix xs ys → length xs ≤ length ys
longer xs ys (zs, e) = omega (arith, ap (λ l. length l) e, length-append {0} xs zs)

-- The first `n` tokens of the prompt are held, and nothing else, and the history is `history`.
pub record Restores (cfg : Setup) (tokens : List ℤ) (n : ℕ) (history : List Message) (s : Session)
    : Type 0 where
  pub memory : s.context.memory ≡ take n tokens
  pub kv : s.kv_tokens ≡ take n tokens
  pub draft : is_mtp cfg.spec ≡ true → s.draft_memory ≡ take n tokens
  pub chat_history : s.chat_history ≡ history

module _ (cfg : Setup) (t : Target) (chat : cfg.chat_on ≡ true)
    (removes : (m : List ℤ) (n : ℕ) → t.removes m n ≡ true)
    (draft_removes : (m : List ℤ) (n : ℕ) → t.draft_removes m n ≡ true) (tokens : List ℤ) (n : ℕ)
    (inside : n < length tokens) where
  -- All that a turn reused is still at the start of what it leaves behind.
  pub record Starts (s : Session) : Type 0 where
    pub memory : Prefix (take n tokens) s.context.memory
    pub kv : Prefix (take n tokens) s.kv_tokens
    pub draft : is_mtp cfg.spec ≡ true → Prefix (take n tokens) s.draft_memory

  size : n ≡ length (take n tokens)
  size = sym (length-take n tokens (omega arith))

  pub rollback_turn-Restores :
      (pushed : Bool) (s : Session)
      → Starts s
      → Restores cfg tokens n
          (if pushed then pop_history cfg t s.chat_history else s.chat_history)
          (rollback_turn cfg t n pushed s)
  unfolding rollback_turn cut_draft with_memory
  rollback_turn-Restores pushed s p =
      let mem = s.context.memory in
      let dm = s.draft_memory in
      let m =
        t.seq_rm_effect mem n (removes mem n)
        ∙ take_of_Prefix (take n tokens) s.context.memory n size p.memory in
      let k =
        resize-take n s.kv_tokens (omega (arith, longer _ _ p.kv, size))
        ∙ take_of_Prefix (take n tokens) s.kv_tokens n size p.kv in
      elim (Bool-cases (is_mtp cfg.spec)) [
        | inr text ↦
            simp (chat, text, removes s.context.memory n, rollback_turn, cut_draft)
              (record { memory = m; kv = k; draft = λ e. cc; chat_history = refl })
        | inl head ↦
            simp
              (
                chat,
                head,
                removes s.context.memory n,
                draft_removes s.draft_memory n,
                rollback_turn,
                cut_draft,
              )
              (record {
                memory = m;
                kv = k;
                draft = λ e.
                    t.draft_seq_rm_effect dm n (draft_removes dm n)
                    ∙ take_of_Prefix (take n tokens) dm n size (p.draft e);
                chat_history = refl;
              })
      ]

  part : (xs : List ℤ) → Prefix (take n tokens) (tokens ++ xs)
  part xs =
      Prefix-trans (take n tokens) tokens (tokens ++ xs)
        (subst (Prefix (take n tokens)) (take_all (length tokens) tokens (omega arith))
          (Prefix-take n (length tokens) tokens (omega arith)))
        (Prefix-append tokens xs)

  pub trim-Starts :
      (n_predict : ℕ) (q : Run)
      → Holds cfg t tokens n_predict q
      → Starts (trim cfg t (length tokens + q.n_gen) q.session)
        × Frame q.session (trim cfg t (length tokens + q.n_gen) q.session)
  unfolding trim cut_draft with_memory
  trim-Starts n_predict q h =
      let e = length tokens + q.n_gen in
      let end : e ≡ length (tokens ++ q.emitted) =
        omega (arith, h.n_gen, length-append {0} tokens q.emitted) in
      let p = part q.emitted in
      let mem = q.session.context.memory in
      let cut =
        t.seq_rm_effect mem e (removes mem e)
        ∙ take_of_Prefix (tokens ++ q.emitted) mem e end h.memory in
      let kv = subst (Prefix (take n tokens)) (sym (h.kv chat)) p in
      elim (Bool-cases (spec_enabled cfg.spec)) [
        | inr off ↦
            simp (off, trim)
              (
                record {
                  memory = Prefix-trans _ _ _ p h.memory;
                  kv = kv;
                  draft = λ m. Prefix-trans _ _ _ p (h.draft m);
                },
                (refl, refl),
              )
        | inl on ↦ elim (Bool-cases (is_mtp cfg.spec)) [
          | inr text ↦
              simp (on, text, removes q.session.context.memory e, trim, cut_draft)
                (
                  record {
                    memory = subst (Prefix (take n tokens)) (sym cut) p;
                    kv = kv;
                    draft = λ m. cc;
                  },
                  (refl, refl),
                )
          | inl head ↦
              let dm =
                t.draft_seq_rm_effect q.session.draft_memory e
                  (draft_removes q.session.draft_memory e)
                ∙ take_of_Prefix (tokens ++ q.emitted) q.session.draft_memory e end
                    (h.draft head) in
              simp
                (
                  on,
                  head,
                  removes q.session.context.memory e,
                  draft_removes q.session.draft_memory e,
                  trim,
                  cut_draft,
                )
                (
                  record {
                    memory = subst (Prefix (take n tokens)) (sym cut) p;
                    kv = kv;
                    draft = λ m. subst (Prefix (take n tokens)) (sym dm) p;
                  },
                  (refl, refl),
                )
        ]
      ]
