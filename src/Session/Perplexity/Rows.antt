-- ===== src/Session/Perplexity/Rows.antt =====
-- engine/session.cpp, Session::perplexity: the rows of a decode, and the score of one.
use franken_mo_e_cuda.Prelude.{
  ℕ, zero, suc, ◌+◌, ◌≡◌, ◌≤◌, ◌<◌, min, refl, sym, ap, ◌∙◌, subst, Bool, true, inl, inr, List, [],
  ◌∷◌, ◌++◌, length, take, drop, arith, Bool-cases, take-drop, length-take,
}
use franken_mo_e_cuda.Prelude.Int.{ℤ}
use franken_mo_e_cuda.Config.Float.{Float32}
use franken_mo_e_cuda.Session.{Target, decoded, Context, Row, batch_fill, in_order, row_at}
use franken_mo_e_cuda.Session.Spoken.{Reached, Behind, batch_in_order, batch_memory, batch_row}
use franken_mo_e_cuda.Session.Perplexity.{Scored, Pass, passed, score, unscored, score_at, after}
use franken_mo_e_cuda.Session.Perplexity.Wanted.{wanted}

take-take : {A : Type 0} (n m : ℕ) (xs : List A) → n ≤ m → take n (take m xs) ≡ take n xs
take-take zero m xs h = refl
take-take (suc n) zero xs h = absurd (omega arith)
take-take (suc n) (suc m) [] h = refl
take-take (suc n) (suc m) (x ∷ xs) h = ap (λ l. x ∷ l) (take-take n m xs (omega arith))

pub length-take-min : {A : Type 0} (n : ℕ) (xs : List A) → length (take n xs) ≡ min n (length xs)
length-take-min zero xs = ground arith
length-take-min (suc n) [] = ground arith
length-take-min (suc n) (x ∷ xs) = ground (arith, length-take-min n xs)

module _ (t : Target) (tokens : List ℤ) (phase : ℕ) where
  -- A row that a decode in the given phase returned behind the tokens up to `position`.
  abbrev pub RowOf : ℕ → List Float32 → Type 0
  RowOf position row =
      (b : Behind t (take (position + 1) tokens) row) × (b.context.batch_phase ≡ phase)

  -- The scores of these positions, in their order, each from such a row.
  abbrev pub ScoresAt : List Scored → List ℕ → Type 0
  ScoresAt [] [] = Unit
  ScoresAt [] (p ∷ ps) = ⊥
  ScoresAt (s ∷ ss) [] = ⊥
  ScoresAt (s ∷ ss) (p ∷ ps) = (s.position ≡ p) × RowOf p s.row × ScoresAt ss ps

  -- A pass that ends with the scores of these positions.
  abbrev pub Passes : List ℕ → Pass → Type 0
  Passes ps r = (l : List Scored) × (d : Context) × (r ≡ passed l d) × ScoresAt l ps

  module _ (skip : ℕ) (rows : (m : List ℤ) (row : List Float32) → Behind t m row → 0 < length row)
      (decodes : (c : Context) (rows : List Row)
        → in_order (length c.memory) rows ≡ true
        → (t.llama_decode c rows).0 ≡ decoded) where
    score-Passes :
        (row : List Float32) (position : ℕ) (rest : Pass) (ps : List ℕ)
        → 0 < length row
        → RowOf position row
        → Passes ps rest
        → Passes (position ∷ ps) (score row position rest)
    unfolding score
    score-Passes [] position rest ps h b k = absurd (omega arith)
    score-Passes (x ∷ row) position rest ps h b k =
        let s : Scored = record { row = x ∷ row; position = position } in
        (s ∷ k.0, k.1, ap (score (x ∷ row) position) k.2, (refl, b, k.3))

    pub score_at-Passes :
        (k position : ℕ) (row : List Float32) (rest : Pass) (ps : List ℕ)
        → RowOf position row
        → Passes (wanted t tokens skip k (position + 1) ++ ps) rest
        → Passes
            (wanted t tokens skip (suc k) position ++ ps)
            (score_at t tokens skip row position rest)
    unfolding score_at wanted
    score_at-Passes k position row rest ps b q =
        elim (Bool-cases (unscored t tokens skip position)) [
          | inl out ↦ rw (out, score_at, wanted) q
          | inr counts ↦
              rw (counts, score_at, wanted)
                (score-Passes row position rest (wanted t tokens skip k (position + 1) ++ ps)
                  (rows (take (position + 1) tokens) row b.0) b q)
        ]

    -- A decode that continues the memory succeeds, and `next` goes on from its context.
    pub after-Passes :
        (c : Context) (toks : List ℤ) (p position : ℕ) (all_logits : Bool) (ps : List ℕ)
        (next : Context → Pass)
        → p ≡ length c.memory
        → Reached t c
        → Passes ps (next (t.llama_decode c (batch_fill toks p all_logits)).1)
        → Passes ps
            (after t tokens skip (t.llama_decode c (batch_fill toks p all_logits)) position next)
    after-Passes c toks p position all_logits ps next e r q =
        let res = t.llama_decode c (batch_fill toks p all_logits) in
        let done =
          decodes c (batch_fill toks p all_logits) (batch_in_order t c toks p all_logits e r) in
        subst (λ d. Passes ps (after t tokens skip (d, res.1) position next)) (sym done) q

    pub memory-next :
        (c : Context) (toks : List ℤ) (p : ℕ) (all_logits : Bool)
        → p ≡ length c.memory
        → Reached t c
        → (t.llama_decode c (batch_fill toks p all_logits)).1.memory ≡ c.memory ++ toks
    memory-next c toks p all_logits e r =
        batch_memory t c toks p all_logits e r
          (decodes c (batch_fill toks p all_logits) (batch_in_order t c toks p all_logits e r))

    -- Row `j` of a chunk stands behind the tokens up to position i + j.
    pub row-RowOf :
        (c : Context) (i b j : ℕ)
        → c.memory ≡ take i tokens
        → i ≡ length c.memory
        → Reached t c
        → c.batch_phase ≡ phase
        → j < length (take b (drop i tokens))
        → j < b
        → RowOf
            (i + j)
            (row_at (t.llama_decode c (batch_fill (take b (drop i tokens)) i true)).1.outputs j)
    row-RowOf c i b j m at alive ph h lt =
        let toks = take b (drop i tokens) in
        let e : i + suc j ≡ i + j + 1 = omega arith in
        let done = decodes c (batch_fill toks i true) (batch_in_order t c toks i true at alive) in
        let outs = (t.llama_decode c (batch_fill toks i true)).1.outputs in
        let r = batch_row t c toks i true at alive done j h (inl refl) in
        let whole : c.memory ++ take (suc j) toks ≡ take (i + j + 1) tokens =
          ap (λ l. l ++ take (suc j) toks) m
          ∙ ap (λ l. take i tokens ++ l) (take-take (suc j) b (drop i tokens) (omega arith))
          ∙ take-drop i (suc j) tokens
          ∙ ap (λ k. take k tokens) e in
        let s = subst (λ l. (x : Behind t l (row_at outs j)) × (x.context ≡ c)) whole r in
        (s.0, ap (λ x. x.batch_phase) s.1 ∙ ph)

    pub at_end :
        (c : Context) (i : ℕ) → c.memory ≡ take i tokens → i ≤ length tokens → i ≡ length c.memory
    at_end c i m h = sym (ap (λ l. length l) m ∙ length-take i tokens h)
