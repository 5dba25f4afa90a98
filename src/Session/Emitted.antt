-- ===== src/Session/Emitted.antt =====
-- engine/session.cpp, Session::generate: the emission of a confirmed group, and what follows it.
use franken_mo_e_cuda.Prelude.{
  ℕ, suc, ◌+◌, ◌≡◌, ◌≤◌, refl, sym, ◌∙◌, Bool, true, false, List, [], ◌∷◌, ◌++◌, length,
  if◌then◌else◌, arith, lt→ltb,
}
use mathlib.Core.List.{append_assoc, append-nil}
use franken_mo_e_cuda.Prelude.Int.{ℤ}
use franken_mo_e_cuda.Config.{spec_enabled}
use franken_mo_e_cuda.Session.{Target}
use franken_mo_e_cuda.Session.Round.{Setup, Run, emit_one, emit}

abbrev pub append_if : Bool → List ℤ → List ℤ → List ℤ
append_if b xs ys = if b then xs ++ ys else xs

append_if_twice :
    (b : Bool) (xs ys zs : List ℤ) → append_if b (append_if b xs ys) zs ≡ append_if b xs (ys ++ zs)
append_if_twice true xs ys zs = append_assoc xs ys zs
append_if_twice false xs ys zs = refl

append_if-nil : (b : Bool) (xs : List ℤ) → append_if b xs [] ≡ xs
append_if-nil true xs = append-nil xs
append_if-nil false xs = refl

-- A run with a group emitted.
abbrev pub grown : Setup → List ℤ → Run → Run
grown cfg outs r = record r {
  session = record r.session { kv_tokens = append_if cfg.chat_on r.session.kv_tokens outs };
  mtp_ctx = append_if (spec_enabled cfg.spec) r.mtp_ctx outs;
  emitted = r.emitted ++ outs;
  n_gen = r.n_gen + length outs;
}

grown-nil : (cfg : Setup) (r : Run) → r ≡ grown cfg [] r
grown-nil cfg r = λ i. record r {
  session = record r.session { kv_tokens = sym (append_if-nil cfg.chat_on r.session.kv_tokens) i };
  mtp_ctx = sym (append_if-nil (spec_enabled cfg.spec) r.mtp_ctx) i;
  emitted = sym (append-nil r.emitted) i;
  n_gen = zero_more r.n_gen i;
}
  where
    zero_more : (n : ℕ) → n ≡ n + 0
    zero_more n = omega arith

grown-grown :
    (cfg : Setup) (out : ℤ) (outs : List ℤ) (r : Run)
    → grown cfg outs (grown cfg (out ∷ []) r) ≡ grown cfg (out ∷ outs) r
grown-grown cfg out outs r = λ i. record r {
  session = record r.session {
    kv_tokens = append_if_twice cfg.chat_on r.session.kv_tokens (out ∷ []) outs i;
  };
  mtp_ctx = append_if_twice (spec_enabled cfg.spec) r.mtp_ctx (out ∷ []) outs i;
  emitted = append_assoc r.emitted (out ∷ []) outs i;
  n_gen = one_more r.n_gen (length outs) i;
}
  where
    one_more : (n k : ℕ) → n + 1 + k ≡ n + suc k
    one_more n k = omega arith

-- With room for it the whole group is emitted.
pub emit-eq-grown :
    (cfg : Setup) (t : Target) (n_predict : ℕ) (outs : List ℤ) (r : Run)
    → r.n_gen + length outs ≤ n_predict
    → emit cfg t n_predict outs r ≡ grown cfg outs r
unfolding emit emit_one
emit-eq-grown cfg t n_predict [] r h = grown-nil cfg r
emit-eq-grown cfg t n_predict (out ∷ outs) r h =
    rw (lt→ltb r.n_gen n_predict (omega arith), emit)
      (emit-eq-grown cfg t n_predict outs (grown cfg (out ∷ []) r) (omega arith)
        ∙ grown-grown cfg out outs r)

-- Behind a first part the group's tokens follow those emitted before.
pub append_group :
    (prompt emitted group : List ℤ) → prompt ++ emitted ++ group ≡ prompt ++ (emitted ++ group)
append_group prompt emitted group = append_assoc prompt emitted group
