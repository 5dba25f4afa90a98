-- ===== src/Session/Turn/Reaching.antt =====
-- engine/session.cpp, Session::generate: the context behind the cuts of a turn is one of the session.
use franken_mo_e_cuda.Prelude.{ℕ, ◌-◌, refl, ◌&&◌, not, inl, inr, List, ltb, length, Bool-cases}
use franken_mo_e_cuda.Prelude.Int.{ℤ}
use franken_mo_e_cuda.Config.{spec_enabled, is_mtp}
use franken_mo_e_cuda.Session.{Target, Session}
use franken_mo_e_cuda.Session.Round.{Setup}
use franken_mo_e_cuda.Session.Spoken.{Reached, cut_Reached}
use franken_mo_e_cuda.Session.Turn.{
  common_prefix, is_none, with_memory, cut_draft, drop_tail, reuse, trim,
}

module _ (cfg : Setup) (t : Target) where
  cut_draft-Reached :
      (n : ℕ) (s : Session) → Reached t s.context → Reached t (cut_draft cfg t n s).context
  unfolding cut_draft
  cut_draft-Reached n s r = elim (Bool-cases (is_mtp cfg.spec)) [
    | inl e ↦ simp (e, cut_draft) r
    | inr e ↦ simp (e, cut_draft) r
  ]

  drop_tail-Reached :
      (n : ℕ) (s : Session) → Reached t s.context → Reached t (drop_tail cfg t n s).1.context
  unfolding drop_tail with_memory
  drop_tail-Reached n s r =
      let m = s.context.memory in
      elim (Bool-cases (ltb n (length s.kv_tokens))) [
        | inr e ↦ simp (e, drop_tail) r
        | inl e ↦ elim (Bool-cases (t.removes m n)) [
          | inl f ↦ simp (e, f, drop_tail) (cut_Reached t s.context _ n (t.seq_rm_effect m n f) r)
          | inr f ↦ simp (e, f, drop_tail) (cut_Reached t s.context _ 0 refl r)
        ]
      ]

  pub reuse-Reached :
      (tokens : List ℤ) (s : Session)
      → Reached t s.context
      → Reached t (reuse cfg t tokens s).1.context
  unfolding reuse
  reuse-Reached tokens s r =
      let d = drop_tail cfg t (common_prefix (length tokens - 1) s.kv_tokens tokens) s in
      elim (Bool-cases (cfg.chat_on && not (is_none s.kv_tokens))) [
        | inl e ↦
            simp (e, reuse)
              (cut_draft-Reached d.0 d.1
                (drop_tail-Reached (common_prefix (length tokens - 1) s.kv_tokens tokens) s r))
        | inr e ↦ simp (e, reuse) r
      ]

  pub trim-Reached :
      (n : ℕ) (s : Session) → Reached t s.context → Reached t (trim cfg t n s).context
  unfolding trim with_memory
  trim-Reached n s r =
      let m = s.context.memory in
      elim (Bool-cases (spec_enabled cfg.spec)) [
        | inr e ↦ simp (e, trim) r
        | inl e ↦ elim (Bool-cases (t.removes m n)) [
          | inl f ↦
              simp (e, f, trim)
                (cut_draft-Reached n _ (cut_Reached t s.context _ n (t.seq_rm_effect m n f) r))
          | inr f ↦ simp (e, f, trim) (cut_draft-Reached n _ (cut_Reached t s.context _ 0 refl r))
        ]
      ]
