-- ===== src/Session/Turn/Reused.antt =====
-- engine/session.cpp, Session::generate: what a turn reuses of the memory.
use franken_mo_e_cuda.Prelude.{
  ℕ, zero, suc, ◌+◌, ◌-◌, ◌≡◌, ◌≤◌, refl, sym, ap, ◌∙◌, true, inl, inr, List, [], ◌∷◌, ltb, length,
  take, if◌then◌else◌, arith, Bool-cases, take_all,
}
use franken_mo_e_cuda.Prelude.Int.{ℤ, ◌==ℤ◌, ==ℤ→eq}
use franken_mo_e_cuda.Config.{is_mtp}
use franken_mo_e_cuda.Session.{Target, Session}
use franken_mo_e_cuda.Session.Round.{Setup}
use franken_mo_e_cuda.Session.Turn.{
  common_prefix, is_none, with_memory, cut_draft, drop_tail, reuse,
}

pub record IsCommon (limit : ℕ) (kv tokens : List ℤ) (n : ℕ) : Type 0 where
  pub shared : take n kv ≡ take n tokens
  pub below : n ≤ limit
  pub inside : n ≤ length kv

pub common_prefix-IsCommon :
    (limit : ℕ) (kv tokens : List ℤ) → IsCommon limit kv tokens (common_prefix limit kv tokens)
unfolding common_prefix
common_prefix-IsCommon zero kv tokens = record {
  shared = refl;
  below = omega arith;
  inside = omega arith;
}
common_prefix-IsCommon (suc limit) [] tokens = record {
  shared = refl;
  below = omega arith;
  inside = omega arith;
}
common_prefix-IsCommon (suc limit) (k ∷ kv) [] = record {
  shared = refl;
  below = omega arith;
  inside = omega arith;
}
common_prefix-IsCommon (suc limit) (k ∷ kv) (x ∷ tokens) =
    let ih = common_prefix-IsCommon limit kv tokens in
    elim (Bool-cases (k ==ℤ x)) [
      | inr differs ↦
          rw (differs, common_prefix)
            (record { shared = refl; below = omega arith; inside = omega arith })
      | inl same ↦
          let n = common_prefix limit kv tokens in
          let e : n + 1 ≡ suc n = omega arith in
          rw (same, common_prefix)
            (record {
              shared = rw e (cc (==ℤ→eq k x same, ih.shared));
              below = omega (arith, ih.below);
              inside = omega (arith, ih.inside);
            })
    ]

module _ (cfg : Setup) where
  -- The tokens that the memory holds for the next turn: off the chat path none.
  abbrev pub held_tokens : Session → List ℤ
  held_tokens s = if cfg.chat_on then s.kv_tokens else []

  -- Between two turns kv_tokens mirrors the memory, and the draft memory does too.
  pub record IsSynced (s : Session) : Type 0 where
    pub memory : s.context.memory ≡ held_tokens s
    pub draft : is_mtp cfg.spec ≡ true → s.draft_memory ≡ held_tokens s

  -- The first `n` tokens are in the memories, and the rest of the session is as in `before`.
  pub record Reuses (tokens : List ℤ) (before : Session) (n : ℕ) (s : Session) : Type 0 where
    pub memory : s.context.memory ≡ take n tokens
    pub kv : cfg.chat_on ≡ true → s.kv_tokens ≡ take n tokens
    pub draft : is_mtp cfg.spec ≡ true → s.draft_memory ≡ take n tokens
    pub chat_history : s.chat_history ≡ before.chat_history
    pub turn : s.turn ≡ before.turn

  module _ (t : Target) (cuts : (m : List ℤ) (n : ℕ) → t.draft_removes m n ≡ true)
      (chat : cfg.chat_on ≡ true) (tokens : List ℤ) (before : Session) where
    cut_draft-Reuses :
        (n : ℕ) (s : Session)
        → s.context.memory ≡ take n tokens
        → s.kv_tokens ≡ take n tokens
        → (is_mtp cfg.spec ≡ true → take n s.draft_memory ≡ take n tokens)
        → s.chat_history ≡ before.chat_history
        → s.turn ≡ before.turn
        → Reuses tokens before n (cut_draft cfg t n s)
    unfolding cut_draft
    cut_draft-Reuses n s m kv d h u = elim (Bool-cases (is_mtp cfg.spec)) [
      | inl head ↦
          simp (head, cuts s.draft_memory n, cut_draft)
            (record {
              memory = m;
              kv = λ _. kv;
              draft = λ _. t.draft_seq_rm_effect s.draft_memory n (cuts s.draft_memory n) ∙ d head;
              chat_history = h;
              turn = u;
            })
      | inr text ↦
          simp (text, cut_draft)
            (record { memory = m; kv = λ _. kv; draft = λ e. cc; chat_history = h; turn = u })
    ]

    dropped-Reuses :
        IsSynced before
        → (n : ℕ) → IsCommon (length tokens - 1) before.kv_tokens tokens n
        → let d = drop_tail cfg t n before in
          Reuses tokens before d.0 (cut_draft cfg t d.0 d.1) × (d.0 ≤ n)
    unfolding drop_tail with_memory
    dropped-Reuses y n c =
        let mem = before.context.memory in
        let held : mem ≡ before.kv_tokens = y.memory ∙ rw chat refl in
        let dm : is_mtp cfg.spec ≡ true → before.draft_memory ≡ before.kv_tokens =
          λ e. y.draft e ∙ rw chat refl in
        elim (Bool-cases (ltb n (length before.kv_tokens))) [
          | inr whole ↦
              let all : take n before.kv_tokens ≡ before.kv_tokens =
                take_all n before.kv_tokens (ground arith) in
              simp (whole, drop_tail)
                (
                  cut_draft-Reuses n before (held ∙ sym all ∙ c.shared) (sym all ∙ c.shared)
                      (λ e. ap (take n) (dm e) ∙ c.shared) refl refl,
                  omega arith,
                )
          | inl more ↦ elim (Bool-cases (t.removes mem n)) [
            | inl cut ↦
                simp (more, cut, drop_tail)
                  (
                    cut_draft-Reuses n _ (t.seq_rm_effect mem n cut ∙ ap (take n) held ∙ c.shared)
                        c.shared (λ e. ap (take n) (dm e) ∙ c.shared) refl refl,
                    omega arith,
                  )
            | inr fails ↦
                simp (more, fails, drop_tail)
                  (cut_draft-Reuses 0 _ refl refl (λ e. refl) refl refl, omega arith)
          ]
        ]

module _ (cfg : Setup) (t : Target) (cuts : (m : List ℤ) (n : ℕ) → t.draft_removes m n ≡ true)
    (tokens : List ℤ) (s : Session) (y : IsSynced cfg s) where
  nothing_held :
      held_tokens cfg s ≡ [] → (cfg.chat_on ≡ true → s.kv_tokens ≡ []) → Reuses cfg tokens s 0 s
  nothing_held e kv = record {
    memory = y.memory ∙ e;
    kv = kv;
    draft = λ h. y.draft h ∙ e;
    chat_history = refl;
    turn = refl;
  }

  none_of_is_none : (xs : List ℤ) → is_none xs ≡ true → xs ≡ []
  unfolding is_none
  none_of_is_none [] h = refl
  none_of_is_none (x ∷ xs) h = absurd (cc)

  -- What is reused are the first tokens of the prompt, not all of them, and nothing else is in the
  -- memories.
  pub reuse-Reuses :
      let d = reuse cfg t tokens s in Reuses cfg tokens s d.0 d.1 × (d.0 ≤ length tokens - 1)
  unfolding reuse
  reuse-Reuses =
      let n = common_prefix (length tokens - 1) s.kv_tokens tokens in
      let c = common_prefix-IsCommon (length tokens - 1) s.kv_tokens tokens in
      elim (Bool-cases cfg.chat_on) [
        | inr plain ↦
            simp (plain, reuse) (nothing_held (rw plain refl) (λ e. absurd (cc)), omega arith)
        | inl chat ↦ elim (Bool-cases (is_none s.kv_tokens)) [
          | inl none ↦
              let e = none_of_is_none s.kv_tokens none in
              simp (chat, none, reuse) (nothing_held (rw chat e) (λ _. e), omega arith)
          | inr some_held ↦
              let r = dropped-Reuses cfg t cuts chat tokens s y n c in
              simp (chat, some_held, reuse) (r.0, omega (arith, r.1, c.below))
        ]
      ]
