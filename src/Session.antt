-- ===== src/Session.antt =====
-- engine/session.cpp: the llama.cpp context that a session decodes into, batch_fill and argmax.
-- llama.cpp itself is given, as the record Target of its calls and of what is relied on. A memory is
-- the sequence of the tokens decoded into it, at the positions from 0. The logits of a decode are
-- what it returns: they may depend on the width of its batch, on how the memory came about and on the
-- expert cache. A null row of logits is the empty row.
pub mod Round
pub mod Greedy
pub mod Spoken
pub mod Accept
pub mod Accepts
pub mod Tracked
pub mod Drafting
pub mod Verified
pub mod Emitted
pub mod Settled
pub mod Finished
pub mod Grouped
pub mod GroupEnd
pub mod Rounds
pub mod Framed
pub mod Turn
pub mod Conversation
pub mod Budget
pub mod Perplexity
mod Tests
use franken_mo_e_cuda.Prelude.{
  ◌≡◌, ℕ, zero, suc, ◌+◌, Bool, true, false, ◌&&◌, ◌||◌, List, [], ◌∷◌, ◌++◌, ◌==◌, if◌then◌else◌,
  length, take,
}
use franken_mo_e_cuda.Prelude.Int.{ℤ, pos}
use franken_mo_e_cuda.Config.Float.{Float32, ltb_f}

-- What llama_decode returns: 0, or an error, with the flag of cancel() set or not. On an error the
-- tokens of the batch that were processed stay in the memory; the number is how many.
pub data Decoded : Type 0 where
  decoded : Decoded
  aborted : ℕ → Decoded
  refused : ℕ → Decoded

-- One row of a batch on sequence 0.
pub record Row : Type 0 where
  pub token : ℤ
  pub position : ℕ
  pub wants_logits : Bool

unfoldable pub is_last : List ℤ → Bool
is_last [] = true
is_last (t ∷ ts) = false

unfoldable pub batch_fill : List ℤ → ℕ → Bool → List Row
unfolding is_last
batch_fill [] pos0 all_logits = []
batch_fill (t ∷ ts) pos0 all_logits =
    record { token = t; position = pos0; wants_logits = all_logits || is_last ts }
    ∷ batch_fill ts (pos0 + 1) all_logits

-- A context: its memory, the rows of logits of its last decode, the phase that the router hook was told
-- of (0 prefill, 1 decode), and a code for all else that a decode depends on, such as the values
-- computed for the memory and the expert cache.
pub record Context : Type 0 where
  pub memory : List ℤ
  pub batch_phase : ℕ
  pub engine : ℕ
  pub outputs : List (List Float32)

unfoldable pub tokens_of : List Row → List ℤ
tokens_of [] = []
tokens_of (r ∷ rs) = r.token ∷ tokens_of rs

-- Whether the positions of a batch follow the last one stored.
unfoldable pub in_order : ℕ → List Row → Bool
in_order n [] = true
in_order n (r ∷ rs) = r.position == n && in_order (n + 1) rs

-- What a decode of a batch that continues the memory leaves in it.
unfoldable pub memory_after : List ℤ → List Row → Decoded → List ℤ
memory_after memory rows decoded = memory ++ tokens_of rows
memory_after memory rows (aborted n) = memory ++ take n (tokens_of rows)
memory_after memory rows (refused n) = memory ++ take n (tokens_of rows)

-- The model, its sampling chain and llama.cpp's contexts: what its calls return and leave behind, and
-- what the session relies on, as llama.h documents it.
pub record Target : Type 0 where
  -- llama_vocab_is_eog.
  pub is_eog : ℤ → Bool
  -- llama_sampler_sample, with the state of its generator, and llama_sampler_reset.
  pub sample : ℕ → List Float32 → ℤ × ℕ
  pub reset : ℕ → ℕ
  -- A batch that continues the memory is appended to it, or a part of it on an error, and there is a row
  -- of logits, maybe null, for each of its tokens.
  pub llama_decode : Context → List Row → Decoded × Context
  pub decode_effect :
      (c : Context) (rows : List Row)
      → in_order (length c.memory) rows ≡ true
      → (llama_decode c rows).1.memory ≡ memory_after c.memory rows (llama_decode c rows).0
  pub decode_rows :
      (c : Context) (rows : List Row)
      → (llama_decode c rows).0 ≡ decoded
      → length (llama_decode c rows).1.outputs ≡ length rows
  -- The context as the session opens it.
  pub opened : Context
  -- llama_memory_seq_rm from a position to the end: whether it succeeds, and the memory after it, which
  -- then has the positions before; so in the draft context.
  pub removes : List ℤ → ℕ → Bool
  pub seq_rm : List ℤ → ℕ → List ℤ
  pub seq_rm_effect : (m : List ℤ) (n : ℕ) → removes m n ≡ true → seq_rm m n ≡ take n m
  pub draft_removes : List ℤ → ℕ → Bool
  pub draft_seq_rm : List ℤ → ℕ → List ℤ
  pub draft_seq_rm_effect :
      (m : List ℤ) (n : ℕ) → draft_removes m n ≡ true → draft_seq_rm m n ≡ take n m
  -- common_speculative_process of a batch: whether it succeeds, and the draft memory after it, where the
  -- tokens of a batch that continues it are appended.
  pub processes : List ℤ → List Row → Bool
  pub process : List ℤ → List Row → List ℤ
  pub process_effect :
      (m : List ℤ) (rows : List Row)
      → in_order (length m) rows ≡ true
      → processes m rows ≡ true
      → process m rows ≡ m ++ tokens_of rows
  -- common_speculative_draft: the draft, and the draft memory after it, which is only added to.
  pub head_draft : List ℤ → List ℤ → ℤ → ℤ → List ℤ × List ℤ

-- llama_batch_get_one leaves the positions to llama_decode, which continues the memory, and asks for
-- the logits of the last token.
unfoldable pub get_one : Context → List ℤ → List Row
unfolding batch_fill
get_one c toks = batch_fill toks (length c.memory) false

-- llama_get_logits_ith, of a row and of the last row (its index -1).
unfoldable pub row_at : List (List Float32) → ℕ → List Float32
row_at [] i = []
row_at (r ∷ rs) zero = r
row_at (r ∷ rs) (suc i) = row_at rs i

unfoldable pub last_row : List (List Float32) → List Float32
last_row [] = []
last_row (r ∷ []) = r
last_row (r ∷ q ∷ rs) = last_row (q ∷ rs)

-- The loop of argmax from index `v` on.
unfoldable pub argmax_from : List Float32 → ℕ → ℕ → Float32 → ℕ
argmax_from [] v best best_v = best
argmax_from (x ∷ xs) v best best_v =
    argmax_from xs (v + 1) (if ltb_f best_v x then v else best)
      (if ltb_f best_v x then x else best_v)

unfoldable pub argmax : List Float32 → ℤ
unfolding argmax_from
argmax [] = pos 0
argmax (x ∷ xs) = pos (argmax_from xs 1 0 x)

pub record Message : Type 0 where
  pub of_user : Bool
  pub content : List ℕ

-- Session::Impl, the part that generation changes. The draft memory is that of ctx_dft.
pub record Session : Type 0 where
  pub context : Context
  pub draft_memory : List ℤ
  pub kv_tokens : List ℤ
  pub chat_history : List Message
  pub sampler : ℕ
  pub draft_buf : List ℤ
  pub mtp_drafted : ℕ
  pub mtp_accepted : ℕ
  pub mtp_decodes : ℕ
  pub drafted_steps : ℕ
  pub turn : ℕ
