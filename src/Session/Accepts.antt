-- ===== src/Session/Accepts.antt =====
-- engine/session.cpp, Session::generate: the comparison of the drafts with the rows of their decode.
use franken_mo_e_cuda.Prelude.{
  ℕ, suc, ◌+◌, ◌≡◌, ◌<◌, ◌≤◌, refl, sym, ap, subst, true, false, inl, inr, List, [], ◌∷◌, ◌++◌,
  length, take, arith, Bool-cases,
}
use mathlib.Core.List.{append_assoc, append-nil}
use franken_mo_e_cuda.Prelude.Int.{ℤ, ◌==ℤ◌, ==ℤ→eq}
use franken_mo_e_cuda.Config.Float.{Float32}
use franken_mo_e_cuda.Session.{Target, row_at, argmax}
use franken_mo_e_cuda.Session.Round.{Accepted, accept}
use franken_mo_e_cuda.Session.Spoken.{Behind, Says, Spoken, Closes}
use franken_mo_e_cuda.Session.Accept.{one_if}

-- The confirmed tokens are drafts that the target says behind `memory`.
pub record Accepts (t : Target) (memory ds : List ℤ) (a : Accepted) : Type 0 where
  pub fits : a.n_acc ≤ length ds
  pub counted : a.n_acc ≡ length a.confirmed + one_if a.eog_hit
  pub drafted : take (length a.confirmed) ds ≡ a.confirmed
  pub spoken : Spoken t memory a.confirmed
  pub ended : a.eog_hit ≡ true → Closes t (memory ++ a.confirmed)

none-Accepts :
    (t : Target) (memory ds : List ℤ)
    → Accepts t memory ds (record { n_acc = 0; confirmed = []; eog_hit = false })
none-Accepts t memory ds = record {
  fits = omega arith;
  counted = refl;
  drafted = refl;
  spoken = tt;
  ended = λ h. cc;
}

last-Accepts :
    (t : Target) (memory ds : List ℤ) (d x : ℤ)
    → Says t memory x
    → t.is_eog x ≡ true
    → Accepts t memory (d ∷ ds) (record { n_acc = 1; confirmed = []; eog_hit = true })
last-Accepts t memory ds d x s h = record {
  fits = omega arith;
  counted = refl;
  drafted = refl;
  spoken = tt;
  ended = λ e. (x, subst (λ l. Says t l x) (sym (append-nil memory)) s, h);
}

more-Accepts :
    (t : Target) (memory ds : List ℤ) (x : ℤ) (a : Accepted)
    → Says t memory x
    → t.is_eog x ≡ false
    → Accepts t (memory ++ x ∷ []) ds a
    → Accepts t memory
        (x ∷ ds)
        (record { n_acc = a.n_acc + 1; confirmed = x ∷ a.confirmed; eog_hit = a.eog_hit })
more-Accepts t memory ds x a s h c = record {
  fits = omega (arith, c.fits);
  counted = omega (arith, c.counted);
  drafted = ap (λ l. x ∷ l) c.drafted;
  spoken = (s, h, c.spoken);
  ended = λ e. subst (Closes t) (append_assoc memory (x ∷ []) a.confirmed) (c.ended e);
}

-- A batch whose row behind each draft is the target's confirms what the target says.
pub accept-Accepts :
    (t : Target) (rows : List (List Float32)) (i : ℕ) (memory ds : List ℤ)
    → ((k : ℕ) → k < length ds → Behind t (memory ++ take k ds) (row_at rows (i + k)))
    → Accepts t memory ds (accept t rows i ds)
unfolding accept
accept-Accepts t rows i memory [] h = none-Accepts t memory []
accept-Accepts t rows i memory (d ∷ ds) h =
    let x = argmax (row_at rows i) in
    let first : i + 0 ≡ i = omega arith in
    let says : Says t memory x = (
      row_at rows i,
      subst (λ l. Behind t l (row_at rows i)) (append-nil memory)
          (subst (λ k. Behind t (memory ++ []) (row_at rows k)) first (h 0 (omega arith))),
      refl,
    ) in
    elim (Bool-cases (x ==ℤ d)) [
      | inr differs ↦ rw (differs, accept) (none-Accepts t memory (d ∷ ds))
      | inl same ↦ elim (Bool-cases (t.is_eog x)) [
        | inl last ↦ rw (same, last, accept) (last-Accepts t memory ds d x says last)
        | inr more ↦
            let e : x ≡ d = ==ℤ→eq x d same in
            let a = accept t rows (i + 1) ds in
            let ih : Accepts t (memory ++ d ∷ []) ds a =
              accept-Accepts t rows (i + 1) (memory ++ d ∷ []) ds (λ k lt.
                subst (λ l. Behind t l (row_at rows (i + 1 + k)))
                  (sym (append_assoc memory (d ∷ []) (take k ds)))
                  (subst (λ j. Behind t (memory ++ d ∷ take k ds) (row_at rows j)) (omega arith)
                    (h (suc k) (omega arith)))) in
            rw (same, more, accept)
              (subst
                (λ y. Accepts t memory (y ∷ ds) (record {
                  n_acc = a.n_acc + 1;
                  confirmed = x ∷ a.confirmed;
                  eog_hit = a.eog_hit;
                }))
                e
                (more-Accepts t memory ds x a says more
                  (subst (λ y. Accepts t (memory ++ y ∷ []) ds a) (sym e) ih)))
      ]
    ]
