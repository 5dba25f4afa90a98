-- ===== src/Session/Verified.antt =====
-- engine/session.cpp, Session::generate: the decode of a round's batch.
use franken_mo_e_cuda.Prelude.{
  ℕ, ◌+◌, ◌≡◌, ◌≤◌, refl, sym, ap, ◌∙◌, subst, Bool, true, false, ◌&&◌, inl, inr, List, [], ◌∷◌,
  ◌++◌, ltb, length, take, if◌then◌else◌, arith, Bool-cases, Prefix, take_all,
}
use mathlib.Core.List.{append_assoc}
use franken_mo_e_cuda.Prelude.Int.{ℤ}
use franken_mo_e_cuda.Config.{spec_enabled}
use franken_mo_e_cuda.Config.Float.{Float32}
use franken_mo_e_cuda.Session.{
  Target, Decoded, decoded, aborted, refused, Context, Row, batch_fill, tokens_of, in_order,
  memory_after, get_one, row_at, last_row,
}
use franken_mo_e_cuda.Session.Round.{Setup, Run, accept, verify_batch}
use franken_mo_e_cuda.Session.Spoken.{
  Reached, by_decode, by_phase, Behind, tokens_of-batch_fill, in_order-batch_fill, batch_in_order,
  batch_memory, batch_row-Behind, batch_last,
}
use franken_mo_e_cuda.Session.Accepts.{Accepts, accept-Accepts}
use franken_mo_e_cuda.Session.Tracked.{Works}

-- The draft context takes a batch that starts where its memory ends.
pub process-batch_fill :
    (t : Target) (m toks : List ℤ) (p : ℕ)
    → p ≡ length m
    → let rows = batch_fill toks p false in
      (in_order (length m) rows ≡ true) × (t.processes m rows ≡ true → t.process m rows ≡ m ++ toks)
process-batch_fill t m toks p e =
    let rows = batch_fill toks p false in
    let ordered : in_order (length m) rows ≡ true =
      subst (λ k. in_order k rows ≡ true) e (in_order-batch_fill toks p false) in
    (
      ordered,
      λ h. t.process_effect m rows ordered h ∙ ap (λ l. m ++ l) (tokens_of-batch_fill toks p false),
    )

module _ (cfg : Setup) (t : Target) (base : List ℤ) (tok : ℤ) (ds : List ℤ) (n_draft : ℕ) where
  -- The row that the next token is taken from.
  abbrev pub next_row : Context → ℕ → List Float32
  next_row c n_acc =
      if spec_enabled cfg.spec && ltb 0 n_draft then row_at c.outputs n_acc else last_row c.outputs

  -- The batch stands behind the memory, and its logits are the target's.
  pub record Verified (c : Context) : Type 0 where
    pub reached : Reached t c
    pub memory : c.memory ≡ base ++ tok ∷ ds
    pub accepts : Accepts t (base ++ tok ∷ []) ds (accept t c.outputs 0 ds)
    pub row :
        (n_acc : ℕ) → n_acc ≤ length ds → Behind t (base ++ tok ∷ take n_acc ds) (next_row c n_acc)

  abbrev pub Decodes : Decoded × Context → Type 0
  Decodes (decoded, c) = Verified c
  Decodes (aborted n, c) = Prefix base c.memory × (¬ Works t)
  Decodes (refused n, c) = ¬ Works t

module _ (cfg : Setup) (t : Target) (c : Context) (tok : ℤ) (ds : List ℤ) (n_draft : ℕ)
    (l : Reached t c) where
  wide-Verified :
      (p : ℕ) (e : p ≡ length c.memory)
      → (spec_enabled cfg.spec && ltb 0 n_draft) ≡ true
      → (t.llama_decode c (batch_fill (tok ∷ ds) p true)).0 ≡ decoded
      → Verified cfg t c.memory tok ds n_draft (t.llama_decode c (batch_fill (tok ∷ ds) p true)).1
  wide-Verified p e wide done =
      let outs = (t.llama_decode c (batch_fill (tok ∷ ds) p true)).1.outputs in
      let row : (k : ℕ) → k ≤ length ds → Behind t (c.memory ++ tok ∷ take k ds) (row_at outs k) =
        λ k le. batch_row-Behind t c (tok ∷ ds) p true e l done k (omega arith) (inl refl) in
      record {
        reached = by_decode c (batch_fill (tok ∷ ds) p true) l;
        memory = batch_memory t c (tok ∷ ds) p true e l done;
        accepts = accept-Accepts t outs 0 (c.memory ++ tok ∷ []) ds (λ k lt.
            subst (λ l. Behind t l (row_at outs (0 + k)))
              (sym (append_assoc c.memory (tok ∷ []) (take k ds)))
              (subst (λ j. Behind t (c.memory ++ tok ∷ take k ds) (row_at outs j)) (omega arith)
                (row k (omega arith))));
        row = λ n_acc le. rw wide (row n_acc le);
      }

  plain-Verified :
      (p : ℕ) (e : p ≡ length c.memory)
      → (spec_enabled cfg.spec && ltb 0 n_draft) ≡ false
      → ds ≡ []
      → (t.llama_decode c (batch_fill (tok ∷ []) p false)).0 ≡ decoded
      → Verified cfg t c.memory tok ds n_draft (t.llama_decode c (batch_fill (tok ∷ []) p false)).1
  plain-Verified p e plain none done =
      let d = (t.llama_decode c (batch_fill (tok ∷ []) p false)).1 in
      let last = batch_last t c (tok ∷ []) p false e l done 0 refl in
      let row = batch_row-Behind t c (tok ∷ []) p false e l done 0 (omega arith) (inr refl) in
      subst (λ (l : List ℤ). Verified cfg t c.memory tok l n_draft d) (sym none)
        (record {
          reached = by_decode c (batch_fill (tok ∷ []) p false) l;
          memory = batch_memory t c (tok ∷ []) p false e l done;
          accepts =
              accept-Accepts t d.outputs 0 (c.memory ++ tok ∷ []) [] (λ k lt. absurd (omega arith));
          row = λ n_acc le. rw plain (
              subst (Behind t (c.memory ++ tok ∷ take n_acc [])) (sym last) (
                subst (λ l. Behind t (c.memory ++ tok ∷ l) (row_at d.outputs 0))
                  (sym (take_all n_acc [] (omega arith))) row));
        })

  -- The three answers of llama_decode to a batch whose positions are in order.
  decode-Decodes :
      (rows : List Row) (d : Decoded) (e : Context)
      → in_order (length c.memory) rows ≡ true
      → (t.llama_decode c rows).0 ≡ d
      → e.memory ≡ memory_after c.memory rows d
      → (d ≡ decoded → Verified cfg t c.memory tok ds n_draft e)
      → Decodes cfg t c.memory tok ds n_draft (d, e)
  unfolding memory_after
  decode-Decodes rows decoded e o a m v = v refl
  decode-Decodes rows (aborted n) e o a m v =
      ((take n (tokens_of rows), m), λ w. cc (w.decodes c rows o))
  decode-Decodes rows (refused n) e o a m v = λ w. cc (w.decodes c rows o)

  batch-Decodes :
      (toks : List ℤ) (p : ℕ) (all_logits : Bool)
      → p ≡ length c.memory
      → ((t.llama_decode c (batch_fill toks p all_logits)).0 ≡ decoded
          → Verified cfg t c.memory tok ds n_draft
              (t.llama_decode c (batch_fill toks p all_logits)).1)
      → Decodes cfg t c.memory tok ds n_draft (t.llama_decode c (batch_fill toks p all_logits))
  batch-Decodes toks p all_logits e v =
      let rows = batch_fill toks p all_logits in
      let r = t.llama_decode c rows in
      let o = batch_in_order t c toks p all_logits e l in
      decode-Decodes rows r.0 r.1 o refl (t.decode_effect c rows o) v

empty_of_length : (xs : List ℤ) → length xs ≤ 0 → xs ≡ []
empty_of_length [] h = refl
empty_of_length (x ∷ xs) h = absurd (omega arith)

-- The decode of a round's batch.
pub verify_batch-Decodes :
    (cfg : Setup) (t : Target) (r : Run) (ds : List ℤ) (n_draft : ℕ)
    → Reached t r.session.context
    → r.n_past ≡ length r.session.context.memory
    → (spec_enabled cfg.spec ≡ false → n_draft ≡ 0)
    → length ds ≤ n_draft
    → Decodes cfg t r.session.context.memory r.tok ds n_draft (
        t.llama_decode
          (record r.session.context { batch_phase = 1 })
          (verify_batch cfg t n_draft ds r))
unfolding verify_batch get_one
verify_batch-Decodes cfg t r ds n_draft alive past off le =
    let c = record r.session.context { batch_phase = 1 } in
    let l = by_phase r.session.context 1 alive in
    elim (Bool-cases (spec_enabled cfg.spec && ltb 0 n_draft)) [
      | inl wide ↦
          rw (wide, verify_batch)
            (batch-Decodes cfg t c r.tok ds n_draft l (r.tok ∷ ds) r.n_past true past
              (wide-Verified cfg t c r.tok ds n_draft l r.n_past past wide))
      | inr plain ↦
          let zero_drafts : n_draft ≡ 0 = ground (arith, off) in
          rw (plain, verify_batch)
            (batch-Decodes cfg t c r.tok ds n_draft l (r.tok ∷ []) (length c.memory) false refl (
              plain-Verified cfg t c r.tok ds n_draft l (length c.memory) refl plain
                (empty_of_length ds (omega arith))))
    ]
