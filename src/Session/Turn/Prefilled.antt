-- ===== src/Session/Turn/Prefilled.antt =====
-- engine/session.cpp, Session::generate: the prompt's decode in chunks.
use franken_mo_e_cuda.Prelude.{
  ℕ, zero, suc, ◌+◌, ◌≡◌, ◌≤◌, ◌<◌, refl, sym, ap, ◌∙◌, subst, true, false, inl, inr, List, [], ◌∷◌,
  ◌++◌, ltb, length, take, drop, arith, Bool-cases, take_all, take-drop, length-take, Prefix,
  Prefix-take, Prefix-trans, Prefix-append,
}
use franken_mo_e_cuda.Prelude.Int.{ℤ}
use franken_mo_e_cuda.Config.{is_mtp}
use franken_mo_e_cuda.Session.{
  Target, Decoded, decoded, aborted, refused, Context, Session, batch_fill, tokens_of, memory_after,
  get_one, row_at, last_row,
}
use franken_mo_e_cuda.Session.Round.{Setup}
use franken_mo_e_cuda.Session.Spoken.{
  Reached, by_decode, by_phase, Behind, tokens_of-batch_fill, batch_in_order, batch_row-Behind,
  batch_last,
}
use franken_mo_e_cuda.Session.Tracked.{Works}
use franken_mo_e_cuda.Session.Verified.{process-batch_fill}
use franken_mo_e_cuda.Session.Turn.{
  Prefill, prefilled, interrupted, broken, chunk_batch, walk_draft, after_chunk, prefill_chunk,
  then_prefill, prefill,
}

pub first_of_chunk :
    (b i : ℕ) (xs : List ℤ)
    → 0 < b
    → i < length xs
    → (x : ℤ) × (ys : List ℤ) × (take b (drop i xs) ≡ x ∷ ys)
first_of_chunk zero i xs hb hi = absurd (omega arith)
first_of_chunk (suc b) zero [] hb hi = absurd (omega arith)
first_of_chunk (suc b) zero (x ∷ xs) hb hi = (x, take b xs, refl)
first_of_chunk (suc b) (suc i) [] hb hi = absurd (omega arith)
first_of_chunk (suc b) (suc i) (x ∷ xs) hb hi = first_of_chunk (suc b) i xs hb (omega arith)

module _ (cfg : Setup) (t : Target) (tokens : List ℤ) (start : ℕ) (before : Session) where
  -- The first `i` tokens are decoded, and when these are all a row of logits behind them is at hand.
  pub record Walked (i : ℕ) (s : Session) : Type 0 where
    pub reached : Reached t s.context
    pub from : start ≤ i
    pub memory : s.context.memory ≡ take i tokens
    pub draft : is_mtp cfg.spec ≡ true → s.draft_memory ≡ take i tokens
    pub chat_history : s.chat_history ≡ before.chat_history
    pub turn : s.turn ≡ before.turn
    pub kv_tokens : s.kv_tokens ≡ before.kv_tokens
    pub row : length tokens ≤ i → Behind t tokens (last_row s.context.outputs)

  -- A prefill that broke off: the memories still start with what the turn started from.
  pub record Halted (s : Session) : Type 0 where
    pub broke : ¬ Works t
    pub memory : Prefix (take start tokens) s.context.memory
    pub draft : is_mtp cfg.spec ≡ true → Prefix (take start tokens) s.draft_memory
    pub chat_history : s.chat_history ≡ before.chat_history
    pub turn : s.turn ≡ before.turn
    pub kv_tokens : s.kv_tokens ≡ before.kv_tokens

  -- How the prefill may end.
  abbrev pub Fills : ℕ → Prefill → Type 0
  Fills i (prefilled s) = Walked i s
  Fills i (interrupted s) = Halted s
  Fills i (broken e s) = ¬ Works t

  module _ (i : ℕ) (s : Session) (w : Walked i s) (wanted : i < length tokens)
      (width : 0 < cfg.n_batch) where
    abbrev chunk : List ℤ
    chunk = take cfg.n_batch (drop i tokens)

    joined : take i tokens ++ chunk ≡ take (i + cfg.n_batch) tokens
    joined = take-drop i cfg.n_batch tokens

    at_end : i ≡ length s.context.memory
    at_end = sym (ap (λ l. length l) w.memory ∙ length-take i tokens (omega arith))

    walk_draft-Fills :
        (c : Context)
        → Reached t c
        → c.memory ≡ take (i + cfg.n_batch) tokens
        → (length tokens ≤ i + cfg.n_batch → Behind t tokens (last_row c.outputs))
        → Fills (i + cfg.n_batch) (walk_draft cfg t chunk i (record s { context = c }))
    unfolding walk_draft
    walk_draft-Fills c alive m row =
        let dm = s.draft_memory in
        elim (Bool-cases (is_mtp cfg.spec)) [
          | inr text ↦
              simp (text, walk_draft)
                (record {
                  reached = alive;
                  from = omega (arith, w.from);
                  memory = m;
                  draft = λ e. cc;
                  chat_history = w.chat_history;
                  turn = w.turn;
                  kv_tokens = w.kv_tokens;
                  row = row;
                })
          | inl head ↦
              let past : i ≡ length dm =
                sym (ap (λ l. length l) (w.draft head) ∙ length-take i tokens (omega arith)) in
              let rows = batch_fill chunk i false in
              let walked = process-batch_fill t dm chunk i past in
              elim (Bool-cases (t.processes dm rows)) [
                | inr fails ↦
                    simp (head, fails, walk_draft) (λ h. cc (h.processes dm rows walked.0))
                | inl done ↦
                    simp (head, done, walk_draft)
                      (record {
                        reached = alive;
                        from = omega (arith, w.from);
                        memory = m;
                        draft = λ e. walked.1 done ∙ ap (λ l. l ++ chunk) (w.draft head) ∙ joined;
                        chat_history = w.chat_history;
                        turn = w.turn;
                        kv_tokens = w.kv_tokens;
                        row = row;
                      })
              ]
        ]

    -- The context that the chunk is decoded in.
    abbrev asked : Context
    asked = record s.context { batch_phase = 0 }

    asked-Reached : Reached t asked
    asked-Reached = by_phase s.context 0 w.reached

    decoded-Fills :
        (p : ℕ) (d : Decoded) (e : Context)
        → p ≡ length s.context.memory
        → (t.llama_decode asked (batch_fill chunk p false)).0 ≡ d
        → e.memory ≡ memory_after s.context.memory (batch_fill chunk p false) d
        → (t.llama_decode asked (batch_fill chunk p false)).1 ≡ e
        → Fills (i + cfg.n_batch) (after_chunk cfg t chunk i s (d, e))
    unfolding after_chunk memory_after
    decoded-Fills p decoded e at done m same =
        let (x, xs, shape) = first_of_chunk cfg.n_batch i tokens width wanted in
        let last : suc (length xs) ≡ length chunk = ap (λ l. length l) (sym shape) in
        let mem : e.memory ≡ take (i + cfg.n_batch) tokens =
          m
          ∙ ap (λ l. s.context.memory ++ l) (tokens_of-batch_fill chunk p false)
          ∙ ap (λ l. l ++ chunk) w.memory
          ∙ joined in
        let alive : Reached t e =
          subst (Reached t) same (by_decode asked (batch_fill chunk p false) asked-Reached) in
        walk_draft-Fills e alive mem (λ all.
          let whole : s.context.memory ++ take (suc (length xs)) chunk ≡ tokens =
            ap (λ l. s.context.memory ++ l) (take_all (suc (length xs)) chunk (omega arith))
            ∙ ap (λ l. l ++ chunk) w.memory
            ∙ joined
            ∙ take_all (i + cfg.n_batch) tokens all in
          let row =
            batch_row-Behind t asked chunk p false at asked-Reached done (length xs) (omega arith)
              (inr last) in
          subst (λ (c : Context). Behind t tokens (last_row c.outputs)) same
            (subst (Behind t tokens)
              (sym (batch_last t asked chunk p false at asked-Reached done (length xs) last))
              (subst
                (λ l.
                  Behind t l (
                    row_at (t.llama_decode asked (batch_fill chunk p false)).1.outputs (length xs)))
                whole row)))
    decoded-Fills p (aborted n) e at done m same =
        let o = batch_in_order t asked chunk p false at asked-Reached in
        record {
          broke = λ h. cc (h.decodes asked (batch_fill chunk p false) o);
          memory =
              subst (Prefix (take start tokens))
                (ap (λ l. l ++ take n (tokens_of (batch_fill chunk p false))) (sym w.memory)
                  ∙ sym m)
                (Prefix-trans _ _ _ (Prefix-take start i tokens w.from) (Prefix-append _ _));
          draft = λ h.
              subst (Prefix (take start tokens)) (sym (w.draft h))
                (Prefix-take start i tokens w.from);
          chat_history = w.chat_history;
          turn = w.turn;
          kv_tokens = w.kv_tokens;
        }
    decoded-Fills p (refused n) e at done m same =
        let o = batch_in_order t asked chunk p false at asked-Reached in
        λ h. cc (h.decodes asked (batch_fill chunk p false) o)

    batch-Fills :
        (p : ℕ)
        → p ≡ length s.context.memory
        → Fills
            (i + cfg.n_batch)
            (after_chunk cfg t chunk i s (t.llama_decode asked (batch_fill chunk p false)))
    batch-Fills p e =
        let rows = batch_fill chunk p false in
        let res = t.llama_decode asked rows in
        decoded-Fills p res.0 res.1 e refl
          (t.decode_effect asked rows (batch_in_order t asked chunk p false e asked-Reached)) refl

    pub prefill_chunk-Fills : Fills (i + cfg.n_batch) (prefill_chunk cfg t tokens i s)
    unfolding prefill_chunk chunk_batch get_one
    prefill_chunk-Fills = elim (Bool-cases (is_mtp cfg.spec)) [
      | inl head ↦ simp (head, prefill_chunk, chunk_batch) (batch-Fills i at_end)
      | inr text ↦
          simp (text, prefill_chunk, chunk_batch) (batch-Fills (length s.context.memory) refl)
    ]

  then-Fills :
      (i j : ℕ) (p : Prefill) (f : Session → Prefill)
      → Fills i p
      → ((s : Session) → Walked i s → Fills j (f s))
      → Fills j (then_prefill cfg t p f)
  then-Fills i j (prefilled s) f h k = k s h
  then-Fills i j (interrupted s) f h k = h
  then-Fills i j (broken e s) f h k = h

  all_Walked :
      start ≤ length tokens
      → (i : ℕ) (s : Session) → length tokens ≤ i
      → Walked i s
      → Walked (length tokens) s
  all_Walked inside i s h w =
      let all : take i tokens ≡ take (length tokens) tokens =
        take_all i tokens h ∙ sym (take_all (length tokens) tokens (omega arith)) in
      record {
        reached = w.reached;
        from = inside;
        memory = w.memory ∙ all;
        draft = λ e. w.draft e ∙ all;
        chat_history = w.chat_history;
        turn = w.turn;
        kv_tokens = w.kv_tokens;
        row = λ _. w.row h;
      }

  -- A chunk for each token is enough: the whole prompt is decoded, or a call of llama.cpp fails.
  pub prefill-Fills :
      0 < cfg.n_batch
      → start ≤ length tokens
      → (fuel i : ℕ) (s : Session) → length tokens ≤ i + fuel
      → Walked i s
      → Fills (length tokens) (prefill cfg t fuel tokens i s)
  unfolding prefill
  prefill-Fills width inside zero i s m w = all_Walked inside i s (omega arith) w
  prefill-Fills width inside (suc fuel) i s m w = elim (Bool-cases (ltb i (length tokens))) [
    | inr all ↦ simp (all, prefill) (all_Walked inside i s (ground arith) w)
    | inl more ↦
        let wanted : i < length tokens = ground arith in
        simp (more, prefill)
          (then-Fills (i + cfg.n_batch) (length tokens) (prefill_chunk cfg t tokens i s)
            (prefill cfg t fuel tokens (i + cfg.n_batch)) (prefill_chunk-Fills i s w wanted width)
            (λ q wq. prefill-Fills width inside fuel (i + cfg.n_batch) q (omega arith) wq))
  ]
