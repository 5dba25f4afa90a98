-- ===== src/Session/Drafting.antt =====
-- engine/session.cpp, Session::generate: what drafting leaves of a round's state.
use franken_mo_e_cuda.Prelude.{
  ℕ, ◌≡◌, ◌≤◌, refl, ap, ◌∙◌, true, false, inl, inr, List, ◌++◌, ltb, length, take, arith,
  Bool-cases, length-take_le, take-length_append,
}
use franken_mo_e_cuda.Prelude.Int.{ℤ, pos, pos_part}
use franken_mo_e_cuda.Config.{spec_enabled, is_mtp}
use franken_mo_e_cuda.Ngram.Drafts.{ngram_draft_bounds}
use franken_mo_e_cuda.Session.{Target, Session}
use franken_mo_e_cuda.Session.Round.{
  Setup, Run, Drafted, drafted, not_rewound, min_ℤ, draft_head, draft_ngram, draft_step,
}
use franken_mo_e_cuda.Session.Tracked.{Works}

min_room : (a : ℤ) (room : ℕ) → pos_part (min_ℤ a (pos room)) ≤ room
min_room a room = ground arith

module _ (cfg : Setup) (t : Target) (base : List ℤ) where
  -- The draft fits in the room, and the memories are as before it.
  pub record Keeps (r : Run) (room n : ℕ) (s : Session) : Type 0 where
    pub fits : n ≤ room
    pub plain : spec_enabled cfg.spec ≡ false → n ≡ 0
    pub context : s.context ≡ r.session.context
    pub kv_tokens : s.kv_tokens ≡ r.session.kv_tokens
    pub draft : is_mtp cfg.spec ≡ true → s.draft_memory ≡ base

  abbrev pub Drafts : Run → ℕ → Drafted → Type 0
  Drafts r room (drafted n s) = Keeps r room n s
  Drafts r room (not_rewound s) = ¬ Works t

  module _ (r : Run) (room : ℕ) (past : r.n_past ≡ length base)
      (draft : is_mtp cfg.spec ≡ true → r.session.draft_memory ≡ base) where
    draft_head-Drafts :
        is_mtp cfg.spec ≡ true
        → spec_enabled cfg.spec ≡ true
        → Drafts r room (draft_head cfg t room r)
    unfolding draft_head
    draft_head-Drafts head on =
        let d =
          t.head_draft r.session.draft_memory r.mtp_ctx r.tok
            (min_ℤ cfg.spec.draft_max (pos room)) in
        let written = r.session.draft_memory ++ d.1 in
        elim (Bool-cases (t.draft_removes written r.n_past)) [
          | inl e ↦
              rw (e, draft_head)
                (record {
                  fits = length-take_le room d.0;
                  plain = λ h. cc;
                  context = refl;
                  kv_tokens = refl;
                  draft = λ _.
                      t.draft_seq_rm_effect written r.n_past e
                      ∙ ap (λ k. take k written) past
                      ∙ ap (λ m. take (length base) (m ++ d.1)) (draft head)
                      ∙ take-length_append base d.1;
                })
          | inr e ↦ rw (e, draft_head) (λ w. cc (w.draft_removes written r.n_past))
        ]

    draft_ngram-Drafts :
        is_mtp cfg.spec ≡ false
        → spec_enabled cfg.spec ≡ true
        → Drafts r room (draft_ngram cfg t room r)
    unfolding draft_ngram
    draft_ngram-Drafts plain on =
        let n_max = min_ℤ cfg.spec.draft_max (pos room) in
        let b =
          ngram_draft_bounds r.mtp_ctx r.tok n_max cfg.spec.ngram_min_match
            cfg.spec.ngram_max_match in
        record {
          fits = omega (arith, b.1, min_room cfg.spec.draft_max room);
          plain = λ h. cc;
          context = refl;
          kv_tokens = refl;
          draft = λ h. cc;
        }

    none-Keeps : Keeps r room 0 r.session
    none-Keeps = record {
      fits = omega arith;
      plain = λ _. refl;
      context = refl;
      kv_tokens = refl;
      draft = draft;
    }

    pub draft_step-Drafts : Drafts r room (draft_step cfg t room r)
    unfolding draft_step
    draft_step-Drafts = elim (Bool-cases (spec_enabled cfg.spec)) [
      | inr off ↦ rw (off, draft_step) none-Keeps
      | inl on ↦ elim (Bool-cases (ltb 0 room)) [
        | inr full ↦ rw (on, full, draft_step) none-Keeps
        | inl free ↦ elim (Bool-cases (is_mtp cfg.spec)) [
          | inl head ↦ rw (on, free, head, draft_step) (draft_head-Drafts head on)
          | inr text ↦ rw (on, free, text, draft_step) (draft_ngram-Drafts text on)
        ]
      ]
    ]
