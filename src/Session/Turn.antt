-- ===== src/Session/Turn.antt =====
-- engine/session.cpp, Session::generate: a turn, from the request to the state it leaves. The chat
-- template, the tokenizer and the parser of answers are given. A turn has no deterministic workload,
-- and its traces and metrics are left out.
pub mod Reused
pub mod Reaching
pub mod Prefilled
pub mod Started
pub mod Served
pub mod RolledBack
pub mod Restored
use franken_mo_e_cuda.Prelude.{
  ℕ, zero, suc, ◌+◌, ◌-◌, Bool, true, false, ◌&&◌, not, Option, none, some, List, [], ◌∷◌, ◌++◌,
  ltb, if◌then◌else◌, length, take, drop,
}
use franken_mo_e_cuda.Prelude.Int.{ℤ, pos, ◌==ℤ◌}
use franken_mo_e_cuda.Config.{spec_enabled, is_mtp}
use franken_mo_e_cuda.Session.{
  Target, Decoded, decoded, aborted, refused, Context, Message, Session, Row, batch_fill, get_one,
  last_row,
}
use franken_mo_e_cuda.Session.Round.{
  Setup, Run, Step, go, stop, cancelled, failed, Failure, prefill_failed, prefill_not_processed,
  empty_prompt, beyond_n_ctx, decode_failed, pick, generate_loop,
}

-- How many of the first tokens the memory already holds, at most `limit`.
unfoldable pub common_prefix : ℕ → List ℤ → List ℤ → ℕ
common_prefix zero kv tokens = 0
common_prefix (suc limit) [] tokens = 0
common_prefix (suc limit) (k ∷ kv) [] = 0
common_prefix (suc limit) (k ∷ kv) (x ∷ tokens) =
    let rest = common_prefix limit kv tokens in if k ==ℤ x then rest + 1 else 0

unfoldable pub is_none : List ℤ → Bool
is_none [] = true
is_none (x ∷ xs) = false

-- `resize` fills a longer vector up with zeros.
unfoldable pub zeros : ℕ → List ℤ
zeros zero = []
zeros (suc n) = pos 0 ∷ zeros n

unfoldable pub resize : ℕ → List ℤ → List ℤ
unfolding zeros
resize n xs = take n xs ++ zeros (n - length xs)

unfoldable pub with_memory : List ℤ → Session → Session
with_memory m s = record s { context = record s.context { memory = m } }

module _ (cfg : Setup) (t : Target) where
  -- The draft memory cut to `n` positions, or dropped.
  unfoldable pub cut_draft : ℕ → Session → Session
  cut_draft n s =
      if is_mtp cfg.spec
      then record s {
        draft_memory =
            if t.draft_removes s.draft_memory n then t.draft_seq_rm s.draft_memory n else [];
      }
      else s

  -- The memory's divergent tail is dropped, or all of it.
  unfoldable pub drop_tail : ℕ → Session → ℕ × Session
  drop_tail n s =
      if ltb n (length s.kv_tokens)
      then (if t.removes s.context.memory n
          then (
            n,
            record (with_memory (t.seq_rm s.context.memory n) s) { kv_tokens = take n s.kv_tokens },
          )
          else (0, record (with_memory [] s) { kv_tokens = [] }))
      else (n, s)

  -- The part of the memory that the turn reuses.
  unfoldable pub reuse : List ℤ → Session → ℕ × Session
  reuse tokens s =
      let d = drop_tail (common_prefix (length tokens - 1) s.kv_tokens tokens) s in
      if cfg.chat_on && not (is_none s.kv_tokens) then (d.0, cut_draft d.0 d.1) else (0, s)

  unfoldable pub pop_history : List Message → List Message
  pop_history [] = []
  pop_history (m ∷ []) = []
  pop_history (m ∷ n ∷ ms) = m ∷ pop_history (n ∷ ms)

  -- rollback_turn, with `pushed` for whether the user's message is in the history.
  unfoldable pub rollback_turn : ℕ → Bool → Session → Session
  rollback_turn n_common pushed s =
      let kept =
        if t.removes s.context.memory n_common then t.seq_rm s.context.memory n_common else [] in
      let back = record (with_memory kept s) {
        kv_tokens = resize n_common s.kv_tokens;
        chat_history = if pushed then pop_history s.chat_history else s.chat_history;
      } in
      if cfg.chat_on then cut_draft n_common back else cut_draft 0 (with_memory [] s)

-- How the prompt's decode ends.
pub data Prefill : Type 0 where
  prefilled : Session → Prefill
  interrupted : Session → Prefill
  broken : Failure → Session → Prefill

module _ (cfg : Setup) (t : Target) where
  unfoldable pub chunk_batch : List ℤ → ℕ → Session → List Row
  chunk_batch chunk i s =
      if is_mtp cfg.spec then batch_fill chunk i false else get_one s.context chunk

  -- The draft context walks the chunk too.
  unfoldable pub walk_draft : List ℤ → ℕ → Session → Prefill
  walk_draft chunk i s =
      let dm = s.draft_memory in
      if is_mtp cfg.spec
      then (if t.processes dm (batch_fill chunk i false)
          then prefilled (record s { draft_memory = t.process dm (batch_fill chunk i false) })
          else broken prefill_not_processed s)
      else prefilled s

  unfoldable pub after_chunk : List ℤ → ℕ → Session → Decoded × Context → Prefill
  after_chunk chunk i s (decoded, c) = walk_draft chunk i (record s { context = c })
  after_chunk chunk i s (aborted n, c) = interrupted (record s { context = c })
  after_chunk chunk i s (refused n, c) = broken prefill_failed (record s { context = c })

  unfoldable pub prefill_chunk : List ℤ → ℕ → Session → Prefill
  prefill_chunk tokens i s =
      let chunk = take cfg.n_batch (drop i tokens) in
      after_chunk chunk i s
        (t.llama_decode (record s.context { batch_phase = 0 }) (chunk_batch chunk i s))

  abbrev pub then_prefill : Prefill → (Session → Prefill) → Prefill
  then_prefill (prefilled s) f = f s
  then_prefill (interrupted s) f = interrupted s
  then_prefill (broken e s) f = broken e s

  -- The chunks from token `i` on; the fuel is a bound on the tokens left.
  unfoldable pub prefill : ℕ → List ℤ → ℕ → Session → Prefill
  prefill zero tokens i s = prefilled s
  prefill (suc fuel) tokens i s =
      let rest = then_prefill (prefill_chunk tokens i s) (prefill fuel tokens (i + cfg.n_batch)) in
      if ltb i (length tokens) then rest else prefilled s

  -- The loop's first state, from the logits of the prompt's last token.
  unfoldable pub start_run : List ℤ → ℕ → Session → Run
  start_run tokens n_common s = pick cfg t (last_row s.context.outputs) (record {
    session = record s {
      kv_tokens = if cfg.chat_on then s.kv_tokens ++ drop n_common tokens else s.kv_tokens;
    };
    n_gen = 0;
    n_past = length tokens;
    tok = pos 0;
    mtp_ctx = if spec_enabled cfg.spec then tokens else [];
    emitted = [];
  })

  -- Speculation may leave the memories ahead of what was emitted: they are cut to it.
  unfoldable pub trim : ℕ → Session → Session
  trim emitted_end s =
      let kept =
        if t.removes s.context.memory emitted_end
        then with_memory (t.seq_rm s.context.memory emitted_end) s
        else record (with_memory [] s) { kv_tokens = [] } in
      if spec_enabled cfg.spec then cut_draft cfg t emitted_end kept else s

-- What generate() answers.
pub data Answer : Type 0 where
  answered : List ℤ → Answer
  was_cancelled : List ℤ → Answer
  refused_with : Failure → Answer

module _ (cfg : Setup) (t : Target) (reply : List ℤ → Message) where
  -- The end of a turn; `reply` is the message that the history keeps of the tokens.
  unfoldable pub conclude : List ℤ → ℕ → Bool → Step → Answer × Session
  conclude tokens n_common pushed (go r) = (refused_with decode_failed, r.session)
  conclude tokens n_common pushed (failed e r) = (refused_with e, r.session)
  conclude tokens n_common pushed (cancelled r) =
      let s = trim cfg t (length tokens + r.n_gen) r.session in
      (
        was_cancelled r.emitted,
        rollback_turn cfg t n_common pushed (record s { turn = s.turn + 1 }),
      )
  conclude tokens n_common pushed (stop r) =
      let s = trim cfg t (length tokens + r.n_gen) r.session in
      (
        answered r.emitted,
        record s {
          turn = s.turn + 1;
          chat_history =
              if cfg.chat_on then s.chat_history ++ reply r.emitted ∷ [] else s.chat_history;
        },
      )

  unfoldable pub after_prefill : List ℤ → ℕ → ℕ → Bool → Prefill → Answer × Session
  after_prefill tokens n_predict n_common pushed (prefilled s) =
      conclude tokens n_common pushed
        (generate_loop cfg t (n_predict + 1) n_predict (start_run cfg t tokens n_common s))
  after_prefill tokens n_predict n_common pushed (interrupted s) =
      (was_cancelled [], rollback_turn cfg t n_common pushed s)
  after_prefill tokens n_predict n_common pushed (broken e s) = (refused_with e, s)

  -- A turn on a prompt of tokens.
  unfoldable pub turn : List ℤ → ℕ → Bool → Session → Answer × Session
  turn tokens n_predict pushed s =
      let d = reuse cfg t tokens s in
      if is_none tokens
      then (refused_with empty_prompt, s)
      else if ltb cfg.n_ctx (length tokens + n_predict + 8)
      then (refused_with beyond_n_ctx, s)
      else after_prefill tokens n_predict d.0 pushed (prefill cfg t (length tokens) tokens d.0 d.1)
