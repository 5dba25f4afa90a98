-- ===== src/Session/Rounds.antt =====
-- engine/session.cpp, Session::generate: the rounds of the generation loop, and the loop.
use franken_mo_e_cuda.Prelude.{
  ℕ, zero, suc, ◌+◌, ◌-◌, ◌≡◌, ◌<◌, ◌≤◌, refl, sym, ap, ◌∙◌, subst, true, false, inl, inr, List,
  ◌∷◌, ◌++◌, ltb, length, take, arith, Bool-cases, length-take_le, eq-Prefix, Prefix,
}
use franken_mo_e_cuda.Prelude.Int.{ℤ}
use franken_mo_e_cuda.Session.{Target, Decoded, decoded, aborted, refused, Context, Session}
use franken_mo_e_cuda.Session.Spoken.{Reached}
use franken_mo_e_cuda.Session.Round.{
  Setup, Run, Step, go, stop, cancelled, failed, ◌>>=◌, Drafted, drafted, not_rewound, count_draft,
  count_decode, with_context, draft_step, decode_step, settle_group, verify_batch, verify_step,
  round, generate_loop,
}
use franken_mo_e_cuda.Session.Tracked.{Works, Tracks, Tracks-Holds, Delivers, Interrupted, Ends}
use franken_mo_e_cuda.Session.Drafting.{Keeps, Drafts, draft_step-Drafts}
use franken_mo_e_cuda.Session.Verified.{Verified, Decodes, verify_batch-Decodes}
use franken_mo_e_cuda.Session.Grouped.{Stands}
use franken_mo_e_cuda.Session.GroupEnd.{settle_group-Ends}

module _ (cfg : Setup) (t : Target) (prompt : List ℤ) (n_predict : ℕ) where
  ended_Delivers :
      (r : Run)
      → Tracks cfg t prompt n_predict r
      → t.is_eog r.tok ≡ true
      → Delivers cfg t prompt n_predict r
  ended_Delivers r k e = record {
    reached = k.reached;
    holds = Tracks-Holds cfg t prompt n_predict r k;
    exact = λ _. k.memory;
    greedily = λ g. (k.spoken g, inr (r.tok, k.settled g, e));
  }

  full_Delivers :
      (r : Run)
      → Tracks cfg t prompt n_predict r
      → n_predict ≤ r.n_gen
      → Delivers cfg t prompt n_predict r
  full_Delivers r k e = record {
    reached = k.reached;
    holds = Tracks-Holds cfg t prompt n_predict r k;
    exact = λ _. k.memory;
    greedily = λ g. (k.spoken g, inl (omega (arith, k.n_gen, k.within)));
  }

  module _ (r : Run) (k : Tracks cfg t prompt n_predict r) (open_end : r.n_gen < n_predict)
      (more : t.is_eog r.tok ≡ false) where
    module _ (n_draft : ℕ) (s : Session)
        (d : Keeps cfg t (prompt ++ r.emitted) r (n_predict - r.n_gen - 1) n_draft s) where
      -- The run that the batch is decoded for, and its drafts.
      abbrev asked : Run
      asked = record r { session = count_draft n_draft s }

      abbrev drafts : List ℤ
      drafts = take n_draft s.draft_buf

      broken_Interrupted :
          (c : Context)
          → Prefix (prompt ++ r.emitted) c.memory
          → ¬ Works t
          → Interrupted cfg t prompt n_predict (with_context cfg t c asked)
      unfolding with_context count_draft
      broken_Interrupted c p b = record {
        broke = b;
        holds = record {
          memory = p;
          n_gen = k.n_gen;
          within = k.within;
          kv = λ on. d.kv_tokens ∙ k.kv on;
          draft = λ on. eq-Prefix (d.draft on);
        };
        greedily = k.spoken;
      }

      decoded_Stands :
          (c : Context)
          → Verified cfg t (prompt ++ r.emitted) r.tok drafts n_draft c
          → Stands cfg t prompt n_predict r.emitted c.outputs r.n_gen
              (prompt ++ r.emitted ++ r.tok ∷ drafts)
              (prompt ++ r.emitted)
              (count_decode cfg t (with_context cfg t c asked))
      unfolding with_context count_decode count_draft
      decoded_Stands c v = record {
        batched = record {
          reached = v.reached;
          memory = v.memory;
          draft = d.draft;
          n_past = k.n_past;
          n_gen = k.n_gen;
          corpus = k.corpus;
          kv = λ on. d.kv_tokens ∙ k.kv on;
          spoken = k.spoken;
        };
        emitted = refl;
        outputs = refl;
        n_gen = refl;
      }

      decode_step-Ends :
          (res : Decoded × Context)
          → Decodes cfg t (prompt ++ r.emitted) r.tok drafts n_draft res
          → Ends cfg t prompt n_predict r
              (decode_step cfg t res asked >>= settle_group cfg t n_predict n_draft drafts)
      unfolding decode_step count_decode with_context
      decode_step-Ends (decoded, c) v =
          let le = length-take_le n_draft s.draft_buf in
          settle_group-Ends cfg t prompt n_predict r.emitted c.outputs r.n_gen r
            (count_decode cfg t (with_context cfg t c asked)) drafts n_draft refl le d.plain
            v.accepts (omega (arith, le, d.fits)) k.settled more v.row (decoded_Stands c v)
      decode_step-Ends (aborted n, c) p = broken_Interrupted c p.0 p.1
      decode_step-Ends (refused n, c) h = h

    verify_step-Ends :
        (d : Drafted)
        → Drafts cfg t (prompt ++ r.emitted) r (n_predict - r.n_gen - 1) d
        → Ends cfg t prompt n_predict r (verify_step cfg t n_predict d r)
    unfolding verify_step count_draft
    verify_step-Ends (not_rewound s) h = h
    verify_step-Ends (drafted n_draft s) d =
        let drafts = take n_draft s.draft_buf in
        let q = record r { session = count_draft n_draft s } in
        let held : s.context.memory ≡ prompt ++ r.emitted =
          ap (λ c. c.memory) d.context ∙ k.memory in
        let res =
          t.llama_decode (record s.context { batch_phase = 1 })
            (verify_batch cfg t n_draft drafts q) in
        decode_step-Ends n_draft s d res (
          subst (λ m. Decodes cfg t m r.tok drafts n_draft res) held
            (verify_batch-Decodes cfg t q drafts n_draft
              (subst (Reached t) (sym d.context) k.reached)
              (k.n_past ∙ ap (λ l. length l) (sym held)) d.plain
              (length-take_le n_draft s.draft_buf)))

  -- A round emits, ends the loop as it should, or fails in a call of llama.cpp.
  pub round-Ends :
      (r : Run)
      → Tracks cfg t prompt n_predict r
      → r.n_gen < n_predict
      → Ends cfg t prompt n_predict r (round cfg t n_predict r)
  unfolding round
  round-Ends r k open_end = elim (Bool-cases (t.is_eog r.tok)) [
    | inl e ↦ simp (e, round) (ended_Delivers r k e)
    | inr e ↦
        simp (e, round)
          (verify_step-Ends r k open_end e (draft_step cfg t (n_predict - r.n_gen - 1) r) (
            draft_step-Drafts cfg t (prompt ++ r.emitted) r (n_predict - r.n_gen - 1) k.n_past
              k.draft))
  ]

  -- How the loop may end: it delivers, it is interrupted, or a call of llama.cpp fails.
  abbrev pub Result : Step → Type 0
  Result (go q) = ⊥
  Result (stop q) = Delivers cfg t prompt n_predict q
  Result (cancelled q) = Interrupted cfg t prompt n_predict q
  Result (failed e q) = ¬ Works t

  loop_on :
      (r : Run) (s : Step) (f : Run → Step)
      → Ends cfg t prompt n_predict r s
      → ((q : Run) → Tracks cfg t prompt n_predict q → r.n_gen + 1 ≤ q.n_gen → Result (f q))
      → Result (s >>= f)
  loop_on r (go q) f h k = k q h.0 h.1
  loop_on r (stop q) f h k = h
  loop_on r (cancelled q) f h k = h
  loop_on r (failed e q) f h k = h

  -- A round for each token wanted is enough.
  pub generate_loop-Result :
      (fuel : ℕ) (r : Run)
      → n_predict - r.n_gen < fuel
      → Tracks cfg t prompt n_predict r
      → Result (generate_loop cfg t fuel n_predict r)
  unfolding generate_loop
  generate_loop-Result zero r m k = absurd (omega arith)
  generate_loop-Result (suc fuel) r m k = elim (Bool-cases (ltb r.n_gen n_predict)) [
    | inr full ↦ simp (full, generate_loop) (full_Delivers r k (ground arith))
    | inl wanted ↦
        let lt : r.n_gen < n_predict = ground arith in
        simp (wanted, generate_loop)
          (loop_on r (round cfg t n_predict r) (generate_loop cfg t fuel n_predict)
            (round-Ends r k lt)
            (λ q kq grows. generate_loop-Result fuel q (omega (arith, kq.within)) kq))
  ]
