-- ===== src/Session/Spoken.antt =====
-- engine/session.cpp, Session::generate: what it means that the target says a text. A token is the most
-- likely one of a row of logits that a decode returned behind just the tokens before it.
use franken_mo_e_cuda.Prelude.{
  ℕ, zero, suc, ◌+◌, ◌⊎◌, ◌≡◌, ◌<◌, refl, sym, ap, ◌∙◌, subst, Bool, true, false, inl, inr, List,
  [], ◌∷◌, ◌++◌, length, take, arith,
}
use mathlib.Core.List.{append_assoc, append-nil}
use franken_mo_e_cuda.Prelude.Int.{ℤ}
use franken_mo_e_cuda.Config.Float.{Float32}
use franken_mo_e_cuda.Session.{
  Target, decoded, Context, Row, batch_fill, is_last, tokens_of, in_order, memory_after, row_at,
  last_row, argmax,
}

-- The contexts that a session can come to: as it is opened, behind a decode of any batch, with a phase told
-- to the router hook, and with the tail of the memory removed.
pub data Reached (t : Target) : Context → Type 0 where
  as_opened : Reached t t.opened
  by_decode : (c : Context) (rows : List Row) → Reached t c → Reached t (t.llama_decode c rows).1
  by_phase : (c : Context) (p : ℕ) → Reached t c → Reached t (record c { batch_phase = p })
  by_cut : (c : Context) (n : ℕ) → Reached t c → Reached t (record c { memory = take n c.memory })

-- Whether row `i` of a batch asks for its logits.
unfoldable pub wants_at : List Row → ℕ → Bool
wants_at [] i = false
wants_at (r ∷ rs) zero = r.wants_logits
wants_at (r ∷ rs) (suc i) = wants_at rs i

-- A row of logits that a decode of the run was asked for and returned, behind a memory and the first tokens of its
-- batch that together are `tokens`.
pub record Behind (t : Target) (tokens : List ℤ) (row : List Float32) : Type 0 where
  pub context : Context
  pub rows : List Row
  pub index : ℕ
  pub reached : Reached t context
  pub follows : in_order (length context.memory) rows ≡ true
  pub wants : wants_at rows index ≡ true
  pub done : (t.llama_decode context rows).0 ≡ decoded
  pub stands : context.memory ++ take (suc index) (tokens_of rows) ≡ tokens
  pub returned : row_at (t.llama_decode context rows).1.outputs index ≡ row

-- The target says `x` behind `tokens`.
abbrev pub Says : Target → List ℤ → ℤ → Type 0
Says t tokens x = (row : List Float32) × Behind t tokens row × (x ≡ argmax row)

-- The target says the text token by token, and none of them ends the generation.
abbrev pub Spoken : Target → List ℤ → List ℤ → Type 0
Spoken t tokens [] = Unit
Spoken t tokens (x ∷ xs) = Says t tokens x × (t.is_eog x ≡ false) × Spoken t (tokens ++ x ∷ []) xs

-- Behind the text it says a token that ends the generation.
abbrev pub Closes : Target → List ℤ → Type 0
Closes t tokens = (x : ℤ) × Says t tokens x × (t.is_eog x ≡ true)

-- A text of `n` tokens, or one that the target closes.
abbrev pub Answered : Target → List ℤ → ℕ → List ℤ → Type 0
Answered t tokens n xs = Spoken t tokens xs × ((length xs ≡ n) ⊎ Closes t (tokens ++ xs))

pub Spoken-append :
    (t : Target) (tokens xs ys : List ℤ)
    → Spoken t tokens xs
    → Spoken t (tokens ++ xs) ys
    → Spoken t tokens (xs ++ ys)
Spoken-append t tokens [] ys h k = subst (λ l. Spoken t l ys) (append-nil tokens) k
Spoken-append t tokens (x ∷ xs) ys h k = (
  h.0,
  h.1,
  Spoken-append t (tokens ++ x ∷ []) xs ys h.2
      (subst (λ l. Spoken t l ys) (sym (append_assoc tokens (x ∷ []) xs)) k),
)

pub tokens_of-batch_fill :
    (toks : List ℤ) (p : ℕ) (all_logits : Bool) → tokens_of (batch_fill toks p all_logits) ≡ toks
unfolding batch_fill tokens_of
tokens_of-batch_fill [] p all_logits = refl
tokens_of-batch_fill (x ∷ xs) p all_logits =
    ap (λ l. x ∷ l) (tokens_of-batch_fill xs (p + 1) all_logits)

pub length-batch_fill :
    (toks : List ℤ) (p : ℕ) (all_logits : Bool)
    → length (batch_fill toks p all_logits) ≡ length toks
unfolding batch_fill
length-batch_fill [] p all_logits = refl
length-batch_fill (x ∷ xs) p all_logits = ap suc (length-batch_fill xs (p + 1) all_logits)

pub in_order-batch_fill :
    (toks : List ℤ) (p : ℕ) (all_logits : Bool) → in_order p (batch_fill toks p all_logits) ≡ true
unfolding batch_fill in_order
in_order-batch_fill [] p all_logits = refl
in_order-batch_fill (x ∷ xs) p all_logits =
    ground (arith, in_order-batch_fill xs (p + 1) all_logits)

-- A batch with all logits asks for each, and any batch for the last.
wants_at-batch_fill :
    (toks : List ℤ) (p i : ℕ) (all_logits : Bool)
    → i < length toks
    → (all_logits ≡ true) ⊎ (suc i ≡ length toks)
    → wants_at (batch_fill toks p all_logits) i ≡ true
unfolding batch_fill wants_at is_last
wants_at-batch_fill [] p i all_logits h w = absurd (omega arith)
wants_at-batch_fill (x ∷ xs) p zero true h w = refl
wants_at-batch_fill (x ∷ []) p zero false h w = refl
wants_at-batch_fill (x ∷ y ∷ xs) p zero false h (inl e) = absurd (cc)
wants_at-batch_fill (x ∷ y ∷ xs) p zero false h (inr e) = absurd (omega arith)
wants_at-batch_fill (x ∷ xs) p (suc i) all_logits h (inl e) =
    wants_at-batch_fill xs (p + 1) i all_logits (omega arith) (inl e)
wants_at-batch_fill (x ∷ xs) p (suc i) all_logits h (inr e) =
    wants_at-batch_fill xs (p + 1) i all_logits (omega arith) (inr (omega arith))

last_row-row_at :
    (rows : List (List Float32)) (i : ℕ) → suc i ≡ length rows → last_row rows ≡ row_at rows i
unfolding last_row row_at
last_row-row_at [] i h = absurd (omega arith)
last_row-row_at (r ∷ []) zero h = refl
last_row-row_at (r ∷ []) (suc i) h = absurd (omega arith)
last_row-row_at (r ∷ q ∷ rs) zero h = absurd (omega arith)
last_row-row_at (r ∷ q ∷ rs) (suc i) h = last_row-row_at (q ∷ rs) i (omega arith)

-- The decode of a batch that starts where the memory ends.
module _ (t : Target) (c : Context) (toks : List ℤ) (p : ℕ) (all_logits : Bool)
    (e : p ≡ length c.memory) (l : Reached t c) where
  pub batch_in_order : in_order (length c.memory) (batch_fill toks p all_logits) ≡ true
  batch_in_order =
      subst (λ k. in_order k (batch_fill toks p all_logits) ≡ true) e
        (in_order-batch_fill toks p all_logits)

  module _ (done : (t.llama_decode c (batch_fill toks p all_logits)).0 ≡ decoded) where
    pub batch_memory : (t.llama_decode c (batch_fill toks p all_logits)).1.memory ≡ c.memory ++ toks
    unfolding memory_after
    batch_memory =
        let rows = batch_fill toks p all_logits in
        t.decode_effect c rows batch_in_order
        ∙ ap (memory_after c.memory rows) done
        ∙ ap (λ l. c.memory ++ l) (tokens_of-batch_fill toks p all_logits)

    -- Its rows, with the context that they come from.
    pub batch_row :
        (i : ℕ)
        → i < length toks
        → (all_logits ≡ true) ⊎ (suc i ≡ length toks)
        → (b : Behind t
            (c.memory ++ take (suc i) toks)
            (row_at (t.llama_decode c (batch_fill toks p all_logits)).1.outputs i))
          × (b.context ≡ c)
    batch_row i lt w = (
      record {
        context = c;
        rows = batch_fill toks p all_logits;
        index = i;
        reached = l;
        follows = batch_in_order;
        wants = wants_at-batch_fill toks p i all_logits lt w;
        done = done;
        stands = ap (λ l. c.memory ++ take (suc i) l) (tokens_of-batch_fill toks p all_logits);
        returned = refl;
      },
      refl,
    )

    pub batch_row-Behind :
        (i : ℕ)
        → i < length toks
        → (all_logits ≡ true) ⊎ (suc i ≡ length toks)
        → Behind t
            (c.memory ++ take (suc i) toks)
            (row_at (t.llama_decode c (batch_fill toks p all_logits)).1.outputs i)
    batch_row-Behind i lt w = (batch_row i lt w).0

    pub batch_last :
        (i : ℕ)
        → suc i ≡ length toks
        → last_row (t.llama_decode c (batch_fill toks p all_logits)).1.outputs
          ≡ row_at (t.llama_decode c (batch_fill toks p all_logits)).1.outputs i
    batch_last i h =
        let outs = (t.llama_decode c (batch_fill toks p all_logits)).1.outputs in
        let size : length outs ≡ length toks =
          t.decode_rows c (batch_fill toks p all_logits) done
          ∙ length-batch_fill toks p all_logits in
        last_row-row_at outs i (h ∙ sym size)

-- A context stays one of the run when its tail is removed.
pub cut_Reached :
    (t : Target) (c : Context) (m : List ℤ) (n : ℕ)
    → m ≡ take n c.memory
    → Reached t c
    → Reached t (record c { memory = m })
cut_Reached t c m n e l = subst (λ k. Reached t (record c { memory = k })) (sym e) (by_cut c n l)
