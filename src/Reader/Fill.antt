-- ===== src/Reader/Fill.antt =====
-- io/file_reader.cpp, FileReader::read(): memory after a loop of preads.
use franken_mo_e_cuda.Prelude.{
  ℕ, zero, suc, ◌+◌, ◌-◌, ◌≡◌, ◌≤◌, ◌<◌, Bool, true, List, ◌∷◌, arith, Bool-cases, inl, inr, refl,
  ltb, ap, ◌∙◌, ◌⊎◌,
}
use native.Mathlib.Decide.{dec_lt}
use franken_mo_e_cuda.Prelude.Int.{pos, pos_part, leb_ℤ, ◌≤ℤ◌}
use franken_mo_e_cuda.Reader.{Memory, Pread, System, blit, fill}

-- A pread returns no more bytes than it was asked for.
abbrev pub Honest : System → Type 0
Honest sys = (log : List Pread) (c : Pread) → sys.answers log c ≤ℤ pos c.len

pub blit_in :
    (source : ℕ → ℕ) (at n : ℕ) (m : Memory) (i : ℕ)
    → at ≤ i
    → i < at + n
    → blit source at n m i ≡ source (i - at)
unfolding blit
blit_in source at n m i lo hi = ground arith

pub blit_start :
    (source : ℕ → ℕ) (n : ℕ) (m : Memory) (i : ℕ) → i < n → blit source 0 n m i ≡ source i
blit_start source n m i h =
    blit_in source 0 n m i (omega arith) (omega arith) ∙ ap (λ j. source j) (omega arith)

pub blit_out :
    (source : ℕ → ℕ) (at n : ℕ) (m : Memory) (i : ℕ)
    → (i < at) ⊎ (at + n ≤ i)
    → blit source at n m i ≡ m i
unfolding blit
blit_out source at n m i (inl h) = ground arith
blit_out source at n m i (inr h) = ground arith

module _ (sys : System) (honest : Honest sys) where
  -- The bytes of the file from `a` up to `end` are in memory, where `base` is at 0.
  pub record Holds (a end base : ℕ) (m m' : Memory) : Type 0 where
    pub inside : (i : ℕ) → a ≤ base + i → base + i < end → m' i ≡ sys.file (base + i)
    pub outside : (i : ℕ) → (base + i < a) ⊎ (end ≤ base + i) → m' i ≡ m i

  -- One pread, and what the others leave.
  pread-Holds :
      (a end base n : ℕ) (m m' : Memory)
      → base ≤ a
      → a + n ≤ end
      → Holds (a + n) end base (blit (λ i. sys.file (a + i)) (a - base) n m) m'
      → Holds a end base m m'
  pread-Holds a end base n m m' low fits h = record {
    inside = λ i lo hi. elim (dec_lt (base + i) (a + n)) [
      | yes p ↦
          h.outside i (inl p)
          ∙ blit_in (λ j. sys.file (a + j)) (a - base) n m i (omega arith) (omega arith)
          ∙ ap (λ j. sys.file j) (omega arith)
      | no p ↦ h.inside i (omega arith) hi
    ];
    outside = λ i o. elim o [
      | inl p ↦
          h.outside i (inl (omega arith))
          ∙ blit_out (λ j. sys.file (a + j)) (a - base) n m i (inl (omega arith))
      | inr p ↦
          h.outside i (inr p)
          ∙ blit_out (λ j. sys.file (a + j)) (a - base) n m i (inr (omega arith))
    ];
  }

  pub fill-Holds :
      (buffered : Bool) (fuel a end base : ℕ) (m : Memory) (log : List Pread)
      → end ≤ a + fuel
      → base ≤ a
      → let f = fill sys buffered fuel a end base m log in f.ok ≡ true → Holds a end base m f.mem
  unfolding fill
  fill-Holds buffered zero a end base m log enough low ok = record {
    inside = λ i lo hi. absurd (omega arith);
    outside = λ i h. refl;
  }
  fill-Holds buffered (suc fuel) a end base m log enough low ok =
      let call : Pread = record { buffered = buffered; len = end - a; off = a } in
      let got = sys.answers log call in
      let short = honest log call in
      elim (Bool-cases (ltb a end)) [
        | inr e ↦
            rw (e, fill)
              (record { inside = λ i lo hi. absurd (ground arith); outside = λ i h. refl })
        | inl e ↦ elim (Bool-cases (leb_ℤ got (pos 0))) [
          | inl d ↦ absurd (cc (simp (e, d, fill) at ok))
          | inr d ↦
              let rest =
                fill-Holds buffered fuel (a + pos_part got) end base
                  (blit (λ i. sys.file (a + i)) (a - base) (pos_part got) m) (call ∷ log)
                  (ground arith) (omega arith) (simp (e, d, fill) at ok) in
              simp (e, d, fill)
                (pread-Holds a end base (pos_part got) m _ low (ground (arith, short)) rest)
        ]
      ]
