-- ===== src/Session/Accept.antt =====
-- engine/session.cpp, Session::generate: the comparison of the drafts, against greedy decoding.
use franken_mo_e_cuda.Prelude.{
  ℕ, suc, ◌+◌, ◌-◌, ◌≡◌, ◌<◌, ◌≤◌, refl, sym, ap, ◌∙◌, subst, Bool, true, false, inl, inr, List, [],
  ◌∷◌, ◌++◌, length, take, arith, Bool-cases,
}
use mathlib.Core.List.{append_assoc, append-nil}
use franken_mo_e_cuda.Prelude.Int.{ℤ, ◌==ℤ◌, ==ℤ→eq}
use franken_mo_e_cuda.Config.Float.{Float32}
use franken_mo_e_cuda.Session.{Target, row_at, argmax}
use franken_mo_e_cuda.Session.Round.{Accepted, accept}
use franken_mo_e_cuda.Session.Greedy.{next_token, greedy, greedy_stop, greedy_next}

abbrev pub one_if : Bool → ℕ
one_if true = 1
one_if false = 0

-- The confirmed tokens are drafts, and the greedy continuation of `memory` under the logits.
pub record Confirms (t : Target) (logits : List ℤ → List Float32) (memory ds : List ℤ)
    (a : Accepted) : Type 0 where
  pub fits : a.n_acc ≤ length ds
  pub counted : a.n_acc ≡ length a.confirmed + one_if a.eog_hit
  pub drafted : take (length a.confirmed) ds ≡ a.confirmed
  pub ended : a.eog_hit ≡ true → (m : ℕ) → length ds ≤ m → greedy t logits memory m ≡ a.confirmed
  pub continued :
      a.eog_hit ≡ false
      → (m : ℕ) → length ds ≤ m
      → greedy t logits memory m
        ≡ a.confirmed ++ greedy t logits (memory ++ a.confirmed) (m - length a.confirmed)

none-Confirms :
    (t : Target) (logits : List ℤ → List Float32) (memory ds : List ℤ)
    → Confirms t logits memory ds (record { n_acc = 0; confirmed = []; eog_hit = false })
none-Confirms t logits memory ds = record {
  fits = omega arith;
  counted = refl;
  drafted = refl;
  ended = λ h. cc;
  continued = λ h m le.
      let all : m ≡ m - 0 = omega arith in
      ap (λ k. greedy t logits k m) (sym (append-nil memory))
      ∙ ap (greedy t logits (memory ++ [])) all;
}

last-Confirms :
    (t : Target) (logits : List ℤ → List Float32) (memory ds : List ℤ) (d : ℤ)
    → t.is_eog (next_token logits memory) ≡ true
    → Confirms t logits memory (d ∷ ds) (record { n_acc = 1; confirmed = []; eog_hit = true })
last-Confirms t logits memory ds d h = record {
  fits = omega arith;
  counted = refl;
  drafted = refl;
  ended = λ e m le. greedy_stop t logits memory m h;
  continued = λ e. cc;
}

more-Confirms :
    (t : Target) (logits : List ℤ → List Float32) (memory ds : List ℤ) (a : Accepted)
    → t.is_eog (next_token logits memory) ≡ false
    → Confirms t logits (memory ++ next_token logits memory ∷ []) ds a
    → Confirms t logits memory (next_token logits memory ∷ ds) (record {
      n_acc = a.n_acc + 1;
      confirmed = next_token logits memory ∷ a.confirmed;
      eog_hit = a.eog_hit;
    })
more-Confirms t logits memory ds a h c =
    let x = next_token logits memory in
    record {
      fits = omega (arith, c.fits);
      counted = omega (arith, c.counted);
      drafted = ap (λ l. x ∷ l) c.drafted;
      ended = λ e m le.
          greedy_next t logits memory m h (omega arith)
          ∙ ap (λ l. x ∷ l) (c.ended e (m - 1) (omega arith));
      continued = λ e m le.
          let size : m - 1 - length a.confirmed ≡ m - suc (length a.confirmed) = omega arith in
          greedy_next t logits memory m h (omega arith)
          ∙ ap (λ l. x ∷ l) (c.continued e (m - 1) (omega arith))
          ∙ ap (λ l. x ∷ (a.confirmed ++ greedy t logits l (m - 1 - length a.confirmed)))
              (append_assoc memory (x ∷ []) a.confirmed)
          ∙ ap (λ k. x ∷ (a.confirmed ++ greedy t logits (memory ++ x ∷ a.confirmed) k)) size;
    }

rest-Confirms :
    (t : Target) (logits : List ℤ → List Float32) (memory ds : List ℤ) (d : ℤ) (a : Accepted)
    → next_token logits memory ≡ d
    → t.is_eog (next_token logits memory) ≡ false
    → Confirms t logits (memory ++ d ∷ []) ds a
    → Confirms t logits memory (d ∷ ds) (record {
      n_acc = a.n_acc + 1;
      confirmed = next_token logits memory ∷ a.confirmed;
      eog_hit = a.eog_hit;
    })
rest-Confirms t logits memory ds d a e h c =
    subst
      (λ x. Confirms t logits memory (x ∷ ds) (record {
        n_acc = a.n_acc + 1;
        confirmed = next_token logits memory ∷ a.confirmed;
        eog_hit = a.eog_hit;
      }))
      e
      (more-Confirms t logits memory ds a h
        (subst (λ x. Confirms t logits (memory ++ x ∷ []) ds a) (sym e) c))

-- Where row i + k of a decode has the given logits behind `memory` and the first k drafts, for each
-- draft, the tokens confirmed are the first of the drafts, and the greedy continuation of `memory`
-- under these logits: all of it if a draft ended the generation, and otherwise what it goes on from.
-- The count accepted is theirs, with the draft that ended the generation.
pub accept-Confirms :
    (t : Target) (logits : List ℤ → List Float32) (rows : List (List Float32)) (i : ℕ)
    (memory ds : List ℤ)
    → ((k : ℕ) → k < length ds → row_at rows (i + k) ≡ logits (memory ++ take k ds))
    → Confirms t logits memory ds (accept t rows i ds)
unfolding accept
accept-Confirms t logits rows i memory [] h = none-Confirms t logits memory []
accept-Confirms t logits rows i memory (d ∷ ds) h =
    let here : argmax (row_at rows i) ≡ next_token logits memory =
      unfold next_token in
      ap (λ k. argmax (row_at rows k)) (omega arith)
      ∙ ap argmax (h 0 (omega arith) ∙ ap logits (append-nil memory)) in
    elim (Bool-cases (next_token logits memory ==ℤ d)) [
      | inr differs ↦ rw (here, differs, accept) (none-Confirms t logits memory (d ∷ ds))
      | inl same ↦
          let e : next_token logits memory ≡ d = ==ℤ→eq _ _ same in
          elim (Bool-cases (t.is_eog (next_token logits memory))) [
            | inl last ↦ rw (here, same, last, accept) (last-Confirms t logits memory ds d last)
            | inr more ↦
                let ih = accept-Confirms t logits rows (i + 1) (memory ++ d ∷ []) ds (λ k lt.
                  ap (λ j. row_at rows j) (omega arith)
                  ∙ h (suc k) (omega arith)
                  ∙ ap logits (sym (append_assoc memory (d ∷ []) (take k ds)))) in
                rw (here, same, more, accept) (rest-Confirms t logits memory ds d _ e more ih)
          ]
    ]
