-- ===== src/Session/Round.antt =====
-- engine/session.cpp, Session::generate: one round of the generation loop, and the loop. The traces,
-- the meters and the text pieces of a round do not enter what it decodes and emits, and are left out.
use franken_mo_e_cuda.Prelude.{
  ℕ, zero, suc, ◌+◌, ◌-◌, Bool, true, false, ◌&&◌, List, [], ◌∷◌, ◌++◌, ltb, if◌then◌else◌, length,
  take,
}
use franken_mo_e_cuda.Prelude.Int.{ℤ, pos, ltb_ℤ, ◌==ℤ◌}
use franken_mo_e_cuda.Config.{SpecConfig, spec_enabled, is_mtp}
use franken_mo_e_cuda.Config.Float.{Float32}
use franken_mo_e_cuda.Ngram.{ngram_draft}
use franken_mo_e_cuda.Session.{
  Target, Decoded, decoded, aborted, refused, Context, Session, batch_fill, get_one, row_at,
  last_row, argmax, Row,
}

-- The settings that generate() reads: `sampling` is whether there is a sampling chain.
pub record Setup : Type 0 where
  pub spec : SpecConfig
  pub sampling : Bool
  pub chat_on : Bool
  pub n_batch : ℕ
  pub n_ctx : ℕ

pub data Failure : Type 0 where
  draft_not_rewound : Failure
  decode_failed : Failure
  draft_not_processed : Failure
  tail_not_rolled_back : Failure
  prefill_not_processed : Failure
  prefill_failed : Failure
  empty_prompt : Failure
  beyond_n_ctx : Failure

-- The locals of the loop with the session it changes: the tokens emitted stand for the text `gen`.
pub record Run : Type 0 where
  pub session : Session
  pub n_gen : ℕ
  pub n_past : ℕ
  pub tok : ℤ
  pub mtp_ctx : List ℤ
  pub emitted : List ℤ

-- How a part of a round ends: the round goes on, the loop breaks, or generate() returns an error.
pub data Step : Type 0 where
  go : Run → Step
  stop : Run → Step
  cancelled : Run → Step
  failed : Failure → Run → Step

infixl 5 ◌>>=◌
abbrev pub ◌>>=◌ : Step → (Run → Step) → Step
go r >>= f = f r
stop r >>= f = stop r
cancelled r >>= f = cancelled r
failed e r >>= f = failed e r

abbrev pub min_ℤ : ℤ → ℤ → ℤ
min_ℤ a b = if ltb_ℤ b a then b else a

-- The round's draft is recorded in the counters.
unfoldable pub count_draft : ℕ → Session → Session
count_draft n s = record s {
  mtp_drafted = s.mtp_drafted + n;
  drafted_steps = if ltb 0 n then s.drafted_steps + 1 else s.drafted_steps;
}

-- What a draft leaves: the number of tokens drafted, and the session.
pub data Drafted : Type 0 where
  drafted : ℕ → Session → Drafted
  not_rewound : Session → Drafted

module _ (cfg : Setup) (t : Target) where
  -- Drafting by the head writes behind the draft memory, which is cut back to where it started.
  unfoldable pub draft_head : ℕ → Run → Drafted
  draft_head room r =
      let s = r.session in
      let d = t.head_draft s.draft_memory r.mtp_ctx r.tok (min_ℤ cfg.spec.draft_max (pos room)) in
      let written = s.draft_memory ++ d.1 in
      let buf = take room d.0 in
      if t.draft_removes written r.n_past
      then drafted (length buf)
          (record s { draft_buf = buf; draft_memory = t.draft_seq_rm written r.n_past })
      else not_rewound (record s { draft_buf = buf; draft_memory = written })

  unfoldable pub draft_ngram : ℕ → Run → Drafted
  draft_ngram room r =
      let d =
        ngram_draft r.mtp_ctx r.tok (min_ℤ cfg.spec.draft_max (pos room)) cfg.spec.ngram_min_match
          cfg.spec.ngram_max_match in
      drafted d.0 (record r.session { draft_buf = d.1 })

  -- The draft of a round, capped at the tokens still wanted behind `tok`.
  unfoldable pub draft_step : ℕ → Run → Drafted
  draft_step room r =
      if spec_enabled cfg.spec && ltb 0 room
      then (if is_mtp cfg.spec then draft_head room r else draft_ngram room r)
      else drafted 0 r.session

  -- The batch of a round: `tok` alone, or `tok` and the draft with the logits of every position.
  unfoldable pub verify_batch : ℕ → List ℤ → Run → List Row
  verify_batch n_draft drafts r =
      if spec_enabled cfg.spec && ltb 0 n_draft
      then batch_fill (r.tok ∷ drafts) r.n_past true
      else get_one r.session.context (r.tok ∷ [])

-- The drafts that the target confirms: how many, those that are emitted, and whether the last one
-- ends the generation.
pub record Accepted : Type 0 where
  pub n_acc : ℕ
  pub confirmed : List ℤ
  pub eog_hit : Bool

unfoldable pub accept : Target → List (List Float32) → ℕ → List ℤ → Accepted
accept t rows i [] = record { n_acc = 0; confirmed = []; eog_hit = false }
accept t rows i (d ∷ ds) =
    let want = argmax (row_at rows i) in
    let rest = accept t rows (i + 1) ds in
    if want ==ℤ d
    then (if t.is_eog want then record { n_acc = 1; confirmed = []; eog_hit = true } else record {
      n_acc = rest.n_acc + 1;
      confirmed = want ∷ rest.confirmed;
      eog_hit = rest.eog_hit;
    })
    else record { n_acc = 0; confirmed = []; eog_hit = false }

module _ (cfg : Setup) (t : Target) where
  -- The draft context walks the accepted part of the batch.
  unfoldable pub catch_up : List ℤ → Run → Step
  catch_up toks r =
      let s = r.session in
      let dm = s.draft_memory in
      if is_mtp cfg.spec
      then (if t.processes dm (batch_fill toks r.n_past false)
          then go (record r {
            session = record s { draft_memory = t.process dm (batch_fill toks r.n_past false) };
          })
          else failed draft_not_processed r)
      else go r

  -- The rejected tail leaves the target's memory.
  unfoldable pub roll_back : ℕ → ℕ → Run → Step
  roll_back n_draft n_acc r =
      let s = r.session in
      let keep = r.n_past + 1 + n_acc in
      if ltb n_acc n_draft
      then (if t.removes s.context.memory keep
          then go (record r {
            session = record s {
              context = record s.context { memory = t.seq_rm s.context.memory keep };
            };
          })
          else failed tail_not_rolled_back r)
      else go r

  unfoldable pub emit_one : ℤ → Run → Run
  emit_one out r = record r {
    session = record r.session {
      kv_tokens = if cfg.chat_on then r.session.kv_tokens ++ out ∷ [] else r.session.kv_tokens;
    };
    mtp_ctx = if spec_enabled cfg.spec then r.mtp_ctx ++ out ∷ [] else r.mtp_ctx;
    emitted = r.emitted ++ out ∷ [];
    n_gen = r.n_gen + 1;
  }

  unfoldable pub emit : ℕ → List ℤ → Run → Run
  emit n_predict [] r = r
  emit n_predict (out ∷ outs) r = elim (ltb r.n_gen n_predict) [
    | true ↦ emit n_predict outs (emit_one out r)
    | false ↦ r
  ]

  -- The next token, from a row of logits.
  unfoldable pub pick : List Float32 → Run → Run
  pick row r =
      let d = t.sample r.session.sampler row in
      if cfg.sampling
      then record r { tok = d.0; session = record r.session { sampler = d.1 } }
      else record r { tok = argmax row }

  unfoldable pub count_accepted : ℕ → Run → Run
  count_accepted n r = record r {
    session = record r.session { mtp_accepted = r.session.mtp_accepted + n };
  }

  -- The group's end: the loop breaks at an end of generation, or the next token is settled.
  unfoldable pub advance : ℕ → Accepted → Run → Step
  advance n_draft a r =
      if a.eog_hit
      then stop r
      else go (
          pick
            (if spec_enabled cfg.spec && ltb 0 n_draft
              then row_at r.session.context.outputs a.n_acc
              else last_row r.session.context.outputs)
            (record r { n_past = r.n_past + (1 + a.n_acc) }))

  -- What follows a decode.
  unfoldable pub settle_group : ℕ → ℕ → List ℤ → Run → Step
  settle_group n_predict n_draft drafts r =
      let a = accept t r.session.context.outputs 0 drafts in
      let finish = λ (q : Run). advance n_draft a (emit n_predict (r.tok ∷ a.confirmed) q) in
      if spec_enabled cfg.spec
      then (catch_up (r.tok ∷ take a.n_acc drafts) (count_accepted a.n_acc r)
          >>= roll_back n_draft a.n_acc
          >>= finish)
      else finish r

  unfoldable pub with_context : Context → Run → Run
  with_context c r = record r { session = record r.session { context = c } }

  unfoldable pub count_decode : Run → Run
  count_decode r = record r {
    session = record r.session { mtp_decodes = r.session.mtp_decodes + 1 };
  }

  unfoldable pub decode_step : Decoded × Context → Run → Step
  decode_step (decoded, c) r = go (count_decode (with_context c r))
  decode_step (aborted n, c) r = cancelled (with_context c r)
  decode_step (refused n, c) r = failed decode_failed (with_context c r)

  -- The rest of a round, from its draft on.
  unfoldable pub verify_step : ℕ → Drafted → Run → Step
  verify_step n_predict (not_rewound s) r = failed draft_not_rewound (record r { session = s })
  verify_step n_predict (drafted n_draft s) r =
      let drafts = take n_draft s.draft_buf in
      let q = record r { session = count_draft n_draft s } in
      let c = record q.session.context { batch_phase = 1 } in
      decode_step (t.llama_decode c (verify_batch cfg t n_draft drafts q)) q
      >>= settle_group n_predict n_draft drafts

  unfoldable pub round : ℕ → Run → Step
  round n_predict r =
      if t.is_eog r.tok
      then stop r
      else verify_step n_predict (draft_step cfg t (n_predict - r.n_gen - 1) r) r

  -- The loop on fuel; it answers `go` when the fuel runs out.
  unfoldable pub generate_loop : ℕ → ℕ → Run → Step
  generate_loop zero n_predict r = go r
  generate_loop (suc fuel) n_predict r =
      let rest = round n_predict r >>= generate_loop fuel n_predict in
      if ltb r.n_gen n_predict then rest else stop r
