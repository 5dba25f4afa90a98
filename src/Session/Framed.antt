-- ===== src/Session/Framed.antt =====
-- engine/session.cpp, Session::generate: what the generation loop leaves alone.
use franken_mo_e_cuda.Prelude.{
  ℕ, zero, suc, ◌≡◌, Bool, true, false, ◌&&◌, inl, inr, List, [], ◌∷◌, ◌++◌, ltb, take,
  if◌then◌else◌, arith, Bool-cases,
}
use franken_mo_e_cuda.Prelude.Int.{ℤ, pos}
use franken_mo_e_cuda.Config.{spec_enabled, is_mtp}
use franken_mo_e_cuda.Config.Float.{Float32}
use franken_mo_e_cuda.Session.{Target, Decoded, decoded, aborted, refused, Context, Session}
use franken_mo_e_cuda.Session.Round.{
  Setup, Run, Step, go, stop, cancelled, failed, ◌>>=◌, Drafted, drafted, not_rewound, Accepted,
  accept, min_ℤ, count_draft, count_accepted, count_decode, with_context, draft_head, draft_ngram,
  draft_step, decode_step, catch_up, roll_back, emit_one, emit, pick, advance, settle_group,
  verify_batch, verify_step, round, generate_loop,
}

-- The conversation and the number of the turn.
abbrev pub Frame : Session → Session → Type 0
Frame s q = (q.chat_history ≡ s.chat_history) × (q.turn ≡ s.turn)

abbrev pub Framed : Session → Step → Type 0
Framed s (go q) = Frame s q.session
Framed s (stop q) = Frame s q.session
Framed s (cancelled q) = Frame s q.session
Framed s (failed e q) = Frame s q.session

Framed-bind :
    (s : Session) (m : Step) (f : Run → Step)
    → Framed s m
    → ((q : Run) → Frame s q.session → Framed s (f q))
    → Framed s (m >>= f)
Framed-bind s (go q) f h k = k q h
Framed-bind s (stop q) f h k = h
Framed-bind s (cancelled q) f h k = h
Framed-bind s (failed e q) f h k = h

if_both : {A : Type 0} (P : A → Type 0) (b : Bool) {x y : A} → P x → P y → P (if b then x else y)
if_both P true hx hy = hx
if_both P false hx hy = hy

abbrev DraftFrame : Session → Drafted → Type 0
DraftFrame s (drafted n q) = Frame s q
DraftFrame s (not_rewound q) = Frame s q

module _ (cfg : Setup) (t : Target) (s : Session) where
  draft_head-DraftFrame :
      (room : ℕ) (r : Run) → Frame s r.session → DraftFrame s (draft_head cfg t room r)
  unfolding draft_head
  draft_head-DraftFrame room r h =
      let d =
        t.head_draft r.session.draft_memory r.mtp_ctx r.tok (min_ℤ cfg.spec.draft_max (pos room)) in
      elim (Bool-cases (t.draft_removes (r.session.draft_memory ++ d.1) r.n_past)) [
        | inl e ↦ rw (e, draft_head) h
        | inr e ↦ rw (e, draft_head) h
      ]

  draft_step-DraftFrame :
      (room : ℕ) (r : Run) → Frame s r.session → DraftFrame s (draft_step cfg t room r)
  unfolding draft_step draft_ngram
  draft_step-DraftFrame room r h =
      if_both (DraftFrame s) (spec_enabled cfg.spec && ltb 0 room)
        (if_both (DraftFrame s) (is_mtp cfg.spec) (draft_head-DraftFrame room r h) h) h

  catch_up-Framed : (toks : List ℤ) (r : Run) → Frame s r.session → Framed s (catch_up cfg t toks r)
  unfolding catch_up
  catch_up-Framed toks r h = ground arith

  roll_back-Framed : (n k : ℕ) (r : Run) → Frame s r.session → Framed s (roll_back cfg t n k r)
  unfolding roll_back
  roll_back-Framed n k r h = ground arith

  pub pick-Frame :
      (row : List Float32) (r : Run) → Frame s r.session → Frame s (pick cfg t row r).session
  unfolding pick
  pick-Frame row r h = ground arith

  emit-Frame :
      (n : ℕ) (outs : List ℤ) (r : Run) → Frame s r.session → Frame s (emit cfg t n outs r).session
  unfolding emit emit_one
  emit-Frame n [] r h = h
  emit-Frame n (x ∷ xs) r h = elim (Bool-cases (ltb r.n_gen n)) [
    | inl more ↦ simp (more, emit) (emit-Frame n xs (emit_one cfg t x r) h)
    | inr full ↦ simp (full, emit) h
  ]

  advance-Framed :
      (n : ℕ) (a : Accepted) (r : Run) → Frame s r.session → Framed s (advance cfg t n a r)
  unfolding advance
  advance-Framed n a r h = if_both (Framed s) a.eog_hit h (pick-Frame _ _ h)

  settle_group-Framed :
      (n k : ℕ) (ds : List ℤ) (r : Run) → Frame s r.session → Framed s (settle_group cfg t n k ds r)
  unfolding settle_group count_accepted
  settle_group-Framed n k ds r h =
      let a = accept t r.session.context.outputs 0 ds in
      let finish = λ (q : Run). advance cfg t k a (emit cfg t n (r.tok ∷ a.confirmed) q) in
      let ends : (q : Run) → Frame s q.session → Framed s (finish q) =
        λ q hq. advance-Framed k a _ (emit-Frame n (r.tok ∷ a.confirmed) q hq) in
      let first = catch_up cfg t (r.tok ∷ take a.n_acc ds) (count_accepted cfg t a.n_acc r) in
      if_both (Framed s) (spec_enabled cfg.spec)
        (Framed-bind s (first >>= roll_back cfg t k a.n_acc) finish
          (Framed-bind s first (roll_back cfg t k a.n_acc) (catch_up-Framed _ _ h)
            (roll_back-Framed k a.n_acc))
          ends)
        (ends r h)

  decode_step-Framed :
      (res : Decoded × Context) (r : Run) → Frame s r.session → Framed s (decode_step cfg t res r)
  unfolding decode_step with_context count_decode
  decode_step-Framed (decoded, c) r h = h
  decode_step-Framed (aborted n, c) r h = h
  decode_step-Framed (refused n, c) r h = h

  verify_step-Framed :
      (n : ℕ) (d : Drafted) (r : Run) → DraftFrame s d → Framed s (verify_step cfg t n d r)
  unfolding verify_step count_draft
  verify_step-Framed n (not_rewound q) r h = h
  verify_step-Framed n (drafted k q) r h =
      let r' = record r { session = count_draft k q } in
      let ds = take k q.draft_buf in
      Framed-bind s
        (decode_step cfg t
          (t.llama_decode (record q.context { batch_phase = 1 }) (verify_batch cfg t k ds r')) r')
        (settle_group cfg t n k ds) (decode_step-Framed _ r' h) (settle_group-Framed n k ds)

  round-Framed : (n : ℕ) (r : Run) → Frame s r.session → Framed s (round cfg t n r)
  unfolding round
  round-Framed n r h =
      if_both (Framed s) (t.is_eog r.tok) h (verify_step-Framed n _ r (draft_step-DraftFrame _ r h))

  -- The loop leaves the conversation and the turn's number alone.
  pub generate_loop-Framed :
      (fuel n : ℕ) (r : Run) → Frame s r.session → Framed s (generate_loop cfg t fuel n r)
  unfolding generate_loop
  generate_loop-Framed zero n r h = h
  generate_loop-Framed (suc fuel) n r h =
      if_both (Framed s) (ltb r.n_gen n)
        (Framed-bind s (round cfg t n r) (generate_loop cfg t fuel n) (round-Framed n r h)
          (generate_loop-Framed fuel n))
        h
