-- ===== src/Session/Tracked.antt =====
-- engine/session.cpp, Session::generate: what holds between two rounds of the loop, and how a loop ends.
use franken_mo_e_cuda.Prelude.{ℕ, ◌+◌, ◌≡◌, ◌≤◌, true, false, List, ◌++◌, length, Prefix, eq-Prefix}
use franken_mo_e_cuda.Prelude.Int.{ℤ}
use franken_mo_e_cuda.Config.{spec_enabled, is_mtp}
use franken_mo_e_cuda.Session.{Target, decoded, Context, Row, in_order}
use franken_mo_e_cuda.Session.Round.{Setup, Run, Step, go, stop, cancelled, failed}
use franken_mo_e_cuda.Session.Spoken.{Reached, Says, Spoken, Answered}

-- No call of llama.cpp fails.
pub record Works (t : Target) : Type 0 where
  pub decodes :
      (c : Context) (rows : List Row)
      → in_order (length c.memory) rows ≡ true
      → (t.llama_decode c rows).0 ≡ decoded
  pub removes : (m : List ℤ) (n : ℕ) → t.removes m n ≡ true
  pub draft_removes : (m : List ℤ) (n : ℕ) → t.draft_removes m n ≡ true
  pub processes :
      (m : List ℤ) (rows : List Row) → in_order (length m) rows ≡ true → t.processes m rows ≡ true

module _ (cfg : Setup) (t : Target) (prompt : List ℤ) (n_predict : ℕ) where
  -- The memories hold the prompt and the tokens emitted, and the tokens emitted are said by the
  -- target, one behind the other.
  pub record Tracks (r : Run) : Type 0 where
    pub reached : Reached t r.session.context
    pub memory : r.session.context.memory ≡ prompt ++ r.emitted
    pub n_past : r.n_past ≡ length (prompt ++ r.emitted)
    pub n_gen : r.n_gen ≡ length r.emitted
    pub within : r.n_gen ≤ n_predict
    pub corpus : spec_enabled cfg.spec ≡ true → r.mtp_ctx ≡ prompt ++ r.emitted
    pub kv : cfg.chat_on ≡ true → r.session.kv_tokens ≡ prompt ++ r.emitted
    pub draft : is_mtp cfg.spec ≡ true → r.session.draft_memory ≡ prompt ++ r.emitted
    pub settled : cfg.sampling ≡ false → Says t (prompt ++ r.emitted) r.tok
    pub spoken : cfg.sampling ≡ false → Spoken t prompt r.emitted

  -- The memories start with the prompt and the tokens emitted; kv_tokens names just these.
  pub record Holds (r : Run) : Type 0 where
    pub memory : Prefix (prompt ++ r.emitted) r.session.context.memory
    pub n_gen : r.n_gen ≡ length r.emitted
    pub within : r.n_gen ≤ n_predict
    pub kv : cfg.chat_on ≡ true → r.session.kv_tokens ≡ prompt ++ r.emitted
    pub draft : is_mtp cfg.spec ≡ true → Prefix (prompt ++ r.emitted) r.session.draft_memory

  -- The loop's normal end.
  pub record Delivers (r : Run) : Type 0 where
    pub reached : Reached t r.session.context
    pub holds : Holds r
    pub exact : spec_enabled cfg.spec ≡ false → r.session.context.memory ≡ prompt ++ r.emitted
    pub greedily : cfg.sampling ≡ false → Answered t prompt n_predict r.emitted

  -- A loop that cancel() breaks has emitted what the target said.
  pub record Interrupted (r : Run) : Type 0 where
    pub holds : Holds r
    pub broke : ¬ Works t
    pub greedily : cfg.sampling ≡ false → Spoken t prompt r.emitted

  -- How a round from `r` may end.
  abbrev pub Ends : Run → Step → Type 0
  Ends r (go q) = Tracks q × (r.n_gen + 1 ≤ q.n_gen)
  Ends r (stop q) = Delivers q
  Ends r (cancelled q) = Interrupted q
  Ends r (failed e q) = ¬ Works t

  pub Tracks-Holds : (r : Run) → Tracks r → Holds r
  Tracks-Holds r k = record {
    memory = eq-Prefix k.memory;
    n_gen = k.n_gen;
    within = k.within;
    kv = k.kv;
    draft = λ h. eq-Prefix (k.draft h);
  }
