-- ===== src/Session/Greedy.antt =====
-- engine/session.cpp, Session::generate: the reference that the acceptance of drafts is measured by. For
-- a given function from tokens to logits it takes the most likely token each time, until the end of the
-- generation or the number asked for.
use franken_mo_e_cuda.Prelude.{
  ℕ, zero, suc, ◌-◌, ◌≡◌, ◌<◌, refl, ap, true, false, List, [], ◌∷◌, ◌++◌, if◌then◌else◌, arith,
}
use franken_mo_e_cuda.Prelude.Int.{ℤ}
use franken_mo_e_cuda.Config.Float.{Float32}
use franken_mo_e_cuda.Session.{Target, argmax}

-- The token that the logits continue a sequence by.
unfoldable pub next_token : (List ℤ → List Float32) → List ℤ → ℤ
next_token logits memory = argmax (logits memory)

unfoldable pub greedy : Target → (List ℤ → List Float32) → List ℤ → ℕ → List ℤ
greedy t logits memory zero = []
greedy t logits memory (suc n) =
    let tok = next_token logits memory in
    let rest = greedy t logits (memory ++ tok ∷ []) n in if t.is_eog tok then [] else tok ∷ rest

pub greedy_stop :
    (t : Target) (logits : List ℤ → List Float32) (memory : List ℤ) (n : ℕ)
    → t.is_eog (next_token logits memory) ≡ true
    → greedy t logits memory n ≡ []
unfolding greedy
greedy_stop t logits memory zero h = refl
greedy_stop t logits memory (suc n) h = rw h

pub greedy_next :
    (t : Target) (logits : List ℤ → List Float32) (memory : List ℤ) (n : ℕ)
    → t.is_eog (next_token logits memory) ≡ false
    → 0 < n
    → greedy t logits memory n
      ≡ next_token logits memory ∷ greedy t logits (memory ++ next_token logits memory ∷ []) (n - 1)
unfolding greedy
greedy_next t logits memory zero h p = absurd (omega arith)
greedy_next t logits memory (suc n) h p = rw h (
    ap (λ k. next_token logits memory ∷ greedy t logits (memory ++ next_token logits memory ∷ []) k)
      (omega arith))
