-- ===== src/Session/Tests.antt =====
-- engine/session.cpp: runs of a session, and the theorems at them. The target of the tests says 0 and 1
-- in turn, and 7 ends its answers behind eight tokens.
use franken_mo_e_cuda.Prelude.{
  ℕ, zero, suc, ◌+◌, ◌-◌, ◌*◌, ◌/◌, ◌^◌, ◌⊎◌, ◌%◌, ◌≡◌, ◌<◌, refl, ap, Bool-cases, inl, inr, true,
  false, some, List, [], ◌∷◌, ◌++◌, ◌==◌, ltb, if◌then◌else◌, length, take, arith,
}
use franken_mo_e_cuda.Prelude.Int.{ℤ, pos, ◌==ℤ◌}
use franken_mo_e_cuda.Config.{SpecConfig, ngram, mtp, spec_enabled, is_mtp}
use franken_mo_e_cuda.Config.Float.{Float32, zero_f, one_f, is_nan, ltb_f, magnitude, rank}
use franken_mo_e_cuda.Ngram.{ngram_draft, draft, scan, consider, grow, copy, at}
use franken_mo_e_cuda.Session.{
  Target, Decoded, decoded, aborted, refused, Session, Message, Context, batch_fill, Row,
  memory_after, argmax, argmax_from, row_at, last_row, get_one, is_last, tokens_of, in_order,
}
use franken_mo_e_cuda.Session.Round.{
  Setup, accept, generate_loop, round, draft_step, draft_head, draft_ngram, verify_step,
  verify_batch, decode_step, with_context, count_decode, count_draft, count_accepted, settle_group,
  catch_up, roll_back, emit, emit_one, advance, pick,
}
use franken_mo_e_cuda.Session.Spoken.{as_opened}
use franken_mo_e_cuda.Session.Accept.{Confirms, accept-Confirms}
use franken_mo_e_cuda.Session.Tracked.{Works}
use franken_mo_e_cuda.Session.Turn.{
  answered, was_cancelled, turn, is_none, reuse, common_prefix, drop_tail, cut_draft, with_memory,
  prefill, prefill_chunk, chunk_batch, after_chunk, walk_draft, after_prefill, conclude, start_run,
  trim, rollback_turn, resize, zeros, pop_history,
}
use franken_mo_e_cuda.Session.Turn.Reused.{IsSynced}
use franken_mo_e_cuda.Session.Turn.Served.{Answers, turn-Answers}
use franken_mo_e_cuda.Session.Turn.Restored.{Cancels, turn-Cancels}
use franken_mo_e_cuda.Session.Conversation.{
  Request, Texts, text_of, Dialogue, converse, converse-Dialogue,
}
use franken_mo_e_cuda.Session.Budget.{
  codes, bytes_per_slot, is_expert_weight, slots, too_small, hot_slots_from_budget, FitsBudget,
  hot_slots_from_budget-FitsBudget,
}

abbrev row : List ℤ → List Float32
row m =
    if length m == 8
    then zero_f ∷ zero_f ∷ zero_f ∷ zero_f ∷ zero_f ∷ zero_f ∷ zero_f ∷ one_f ∷ []
    else if length m % 2 == 0
    then one_f ∷ zero_f ∷ []
    else zero_f ∷ one_f ∷ []

abbrev rows_of : List ℤ → List Row → List (List Float32)
rows_of memory [] = []
rows_of memory (r ∷ rs) =
    (if r.wants_logits then row (memory ++ r.token ∷ []) else [])
    ∷ rows_of (memory ++ r.token ∷ []) rs

length-rows_of : (memory : List ℤ) (rows : List Row) → length (rows_of memory rows) ≡ length rows
length-rows_of memory [] = refl
length-rows_of memory (r ∷ rs) = ap suc (length-rows_of (memory ++ r.token ∷ []) rs)

abbrev answer_to : (List ℤ → Decoded) → Context → List Row → Decoded × Context
answer_to answer c rows =
    if in_order (length c.memory) rows
    then (
      answer c.memory,
      record {
        memory = memory_after c.memory rows (answer c.memory);
        outputs = rows_of c.memory rows;
        batch_phase = c.batch_phase;
        engine = c.engine + 1;
      },
    )
    else (refused 0, c)

answer_to-outputs :
    (answer : List ℤ → Decoded) (c : Context) (rows : List Row)
    → (answer_to answer c rows).0 ≡ decoded
    → length (answer_to answer c rows).1.outputs ≡ length rows
answer_to-outputs answer c rows h = elim (Bool-cases (in_order (length c.memory) rows)) [
  | inl e ↦ rw e (length-rows_of c.memory rows)
  | inr e ↦ let out : refused 0 ≡ decoded = rw e at h in absurd (cc)
]

-- A target that refuses a batch out of order, and answers another as `answer` says of the memory.
abbrev answering : (List ℤ → Decoded) → Target
answering answer = record {
  is_eog = λ x. x ==ℤ pos 7;
  opened = record { memory = []; outputs = []; batch_phase = 0; engine = 0 };
  sample = λ g r. (pos 0, g);
  reset = λ g. g;
  llama_decode = answer_to answer;
  decode_effect = λ c rows h. rw h refl;
  decode_rows = answer_to-outputs answer;
  removes = λ m n. true;
  seq_rm = λ m n. take n m;
  seq_rm_effect = λ m n h. refl;
  draft_removes = λ m n. true;
  draft_seq_rm = λ m n. take n m;
  draft_seq_rm_effect = λ m n h. refl;
  processes = λ m rows. true;
  process = λ m rows. m ++ tokens_of rows;
  process_effect = λ m rows h p. refl;
  head_draft = λ m p x n. (pos 0 ∷ pos 1 ∷ [], pos 5 ∷ []);
}

abbrev target : Target
target = answering (λ m. decoded)

-- The decode of the batch behind five tokens is aborted.
abbrev cancelling : Target
cancelling = answering (λ m. if ltb 4 (length m) then aborted 1 else decoded)

abbrev lookup_spec : SpecConfig
lookup_spec = record {
  source = ngram;
  draft_max = pos 3;
  draft_p_min = zero_f;
  ngram_min_match = pos 2;
  ngram_max_match = pos 8;
}

abbrev setup : Setup
setup = record { spec = lookup_spec; sampling = false; chat_on = true; n_batch = 2; n_ctx = 64 }

abbrev fresh_session : Session
fresh_session = record {
  context = record { memory = []; outputs = []; batch_phase = 0; engine = 0 };
  draft_memory = [];
  kv_tokens = [];
  chat_history = [];
  sampler = 0;
  draft_buf = [];
  mtp_drafted = 0;
  mtp_accepted = 0;
  mtp_decodes = 0;
  drafted_steps = 0;
  turn = 0;
}

abbrev long_prompt : List ℤ
long_prompt = pos 0 ∷ pos 1 ∷ pos 0 ∷ pos 1 ∷ pos 0 ∷ pos 1 ∷ []

abbrev head_setup : Setup
head_setup = record setup { spec = record lookup_spec { source = mtp } }

abbrev question : Message
question = record { of_user = true; content = b'?' ∷ [] }

abbrev asked_session : Session
asked_session = record fresh_session { chat_history = question ∷ [] }

abbrev spoken : List ℤ → Message
spoken tokens = record { of_user = false; content = length tokens ∷ [] }

abbrev prompt : List ℤ
prompt = pos 0 ∷ pos 1 ∷ pos 0 ∷ pos 1 ∷ []

asked-IsSynced : IsSynced setup asked_session
asked-IsSynced = record { memory = refl; draft = λ e. refl }

target-Works : Works target
target-Works = record {
  decodes = λ c rows h. rw h refl;
  removes = λ m n. refl;
  draft_removes = λ m n. refl;
  processes = λ m rows h. refl;
}

-- The answer of four tokens takes a decode less than tokens, since its drafts are right; a cancelled
-- turn forgets its message; a head that drafts a wrong token is rolled back.
runs :
    ((turn setup target spoken prompt 10 true asked_session).0
      ≡ answered (pos 0 ∷ pos 1 ∷ pos 0 ∷ pos 1 ∷ []))
    × ((turn setup target spoken prompt 10 true asked_session).1.mtp_decodes ≡ 2)
    × ((turn setup cancelling spoken long_prompt 10 true asked_session).0 ≡ was_cancelled [])
    × ((turn head_setup target spoken prompt 10 true asked_session).0
        ≡ answered (pos 0 ∷ pos 1 ∷ pos 0 ∷ pos 1 ∷ []))
    × ((turn head_setup target spoken prompt 10 true asked_session).1.mtp_accepted ≡ 2)
unfolding turn is_none reuse common_prefix drop_tail cut_draft with_memory prefill prefill_chunk
    chunk_batch after_chunk walk_draft after_prefill conclude start_run trim rollback_turn resize
    zeros pop_history generate_loop round draft_step draft_head draft_ngram verify_step verify_batch
    decode_step with_context count_decode count_draft count_accepted settle_group catch_up roll_back
    emit emit_one advance pick accept argmax argmax_from row_at last_row get_one batch_fill is_last
    tokens_of in_order memory_after spec_enabled is_mtp is_nan ltb_f magnitude rank ngram_draft
    draft scan consider grow copy at
runs = (refl, refl, refl, refl, refl)

turn-Answers_example :
    Answers setup target prompt 10 target-Works spoken asked_session
      (turn setup target spoken prompt 10 true asked_session)
turn-Answers_example =
    turn-Answers setup target spoken prompt 10 true asked_session target-Works asked-IsSynced
      as_opened (omega arith) (omega arith) (omega arith)

turn-Cancels_example :
    Cancels setup cancelling long_prompt
      (reuse setup cancelling long_prompt asked_session).0
      10
      (pop_history setup cancelling (question ∷ []))
      []
      (turn setup cancelling spoken long_prompt 10 true asked_session).1
turn-Cancels_example =
    turn-Cancels setup cancelling spoken long_prompt 10 true asked_session [] refl (λ m n. refl)
      (λ m n. refl) asked-IsSynced as_opened (omega arith) (omega arith) (omega arith) runs.2

-- The template counts the messages, and the tokenizer repeats 0 and 1.
abbrev texts : Texts
texts = record {
  render = λ history think closed. some (length history ∷ []);
  tokenize = λ text. prompt;
  closes_reasoning = false;
}

abbrev requests : List Request
requests =
    record { prompt = b'a' ∷ []; n_predict = 3; clear_kv = true; think = false }
    ∷ record { prompt = b'b' ∷ []; n_predict = 4; clear_kv = false; think = false }
    ∷ []

converse-Dialogue_example :
    Dialogue setup target texts
      (λ history r tokens. spoken tokens)
      []
      requests
      (converse setup target texts (λ history r tokens. spoken tokens) requests fresh_session)
unfolding text_of
converse-Dialogue_example =
    converse-Dialogue setup target texts (λ history r tokens. spoken tokens) requests fresh_session
      target-Works refl (omega arith) refl (record { memory = refl; draft = λ e. refl }) as_opened
      (
        1 ∷ [],
        refl,
        omega arith,
        omega arith,
        λ said h. (3 ∷ [], refl, omega arith, omega arith, λ again k. tt),
      )

-- The verify batch behind two tokens, with a draft that is right and one that is wrong.
accept-Confirms_example : Confirms target row (pos 0 ∷ pos 1 ∷ pos 0 ∷ []) (pos 1 ∷ pos 1 ∷ []) (
    accept target
      (row (pos 0 ∷ pos 1 ∷ pos 0 ∷ []) ∷ row (pos 0 ∷ pos 1 ∷ pos 0 ∷ pos 1 ∷ []) ∷ [])
      0
      (pos 1 ∷ pos 1 ∷ []))
unfolding row_at
accept-Confirms_example =
    accept-Confirms target row
      (row (pos 0 ∷ pos 1 ∷ pos 0 ∷ []) ∷ row (pos 0 ∷ pos 1 ∷ pos 0 ∷ pos 1 ∷ []) ∷ []) 0
      (pos 0 ∷ pos 1 ∷ pos 0 ∷ []) (pos 1 ∷ pos 1 ∷ []) two_rows
  where
    two_rows :
        (k : ℕ)
        → k < 2
        → row_at
            (row (pos 0 ∷ pos 1 ∷ pos 0 ∷ []) ∷ row (pos 0 ∷ pos 1 ∷ pos 0 ∷ pos 1 ∷ []) ∷ [])
            (0 + k)
          ≡ row (pos 0 ∷ pos 1 ∷ pos 0 ∷ take k (pos 1 ∷ pos 1 ∷ []))
    two_rows zero h = refl
    two_rows (suc zero) h = refl
    two_rows (suc (suc k)) h = absurd (omega arith)

-- A layer of three tensors of 8 experts, each of 1 MiB.
abbrev tensors : List (List ℕ × ℕ)
tensors =
    (codes "blk.0.ffn_up_exps.weight", 8388608)
    ∷ (codes "blk.0.ffn_down_exps.weight", 8388608)
    ∷ (codes "blk.0.ffn_gate_exps.weight", 8388608)
    ∷ (codes "blk.0.attn_q.weight", 8388608)
    ∷ []

slot_bytes : bytes_per_slot 8 tensors ≡ 3145728
unfolding bytes_per_slot is_expert_weight
slot_bytes = refl

hot_slots_from_budget-FitsBudget_example :
    ((36 * 1048576 < (8 + 1) * bytes_per_slot 8 tensors)
      × (hot_slots_from_budget true (pos 8) tensors (pos 36) (pos 4)
          ≡ too_small ((bytes_per_slot 8 tensors * 8 + 1048576 - 1) % 2 ^ 64 / 1048576)))
    ⊎ ((k : ℕ) × (hot_slots_from_budget true (pos 8) tensors (pos 36) (pos 4) ≡ slots (pos k))
        × FitsBudget 8 (bytes_per_slot 8 tensors) 8 (36 * 1048576) k)
hot_slots_from_budget-FitsBudget_example =
    hot_slots_from_budget-FitsBudget 8 tensors 36 (pos 4) (omega arith) (omega (arith, slot_bytes))
      (omega arith) (omega (arith, slot_bytes))
