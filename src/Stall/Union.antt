-- ===== src/Stall/Union.antt =====
-- What StallUnionState measures, by an independent description: cut the time line at the events,
-- and add up the pieces during which at least one thread is inside a stall.
use franken_mo_e_cuda.Prelude.{
  ℕ, zero, suc, ◌≡◌, ◌∙◌, List, [], ◌∷◌, if◌then◌else◌, ltb, arith, Bool-cases, inl, inr,
}
use franken_mo_e_cuda.Prelude.Int.{ℤ, pos, ◌+ℤ◌, ◌-ℤ◌, ◌≤ℤ◌, int_laws}
use franken_mo_e_cuda.Stall.{
  State, Event, enter, exit, time, step, run, total_at, reset, enter_at, exit_at,
}

-- How many threads are inside after an event; an exit with nobody inside is a stray one.
abbrev pub inside : ℕ → Event → ℕ
inside n (enter t) = suc n
inside zero (exit t) = zero
inside (suc n) (exit t) = n

abbrev pub piece : ℕ → ℤ → ℤ → ℤ
piece n from to = if ltb 0 n then to -ℤ from else pos 0

-- The stalled time from `from` to `now`, with `n` threads inside at first.
pub stalled_time : ℕ → ℤ → List Event → ℤ → ℤ
stalled_time n from [] now = piece n from now
stalled_time n from (e ∷ es) now =
    piece n from (time e) +ℤ stalled_time (inside n e) (time e) es now

step-inside : (s : State) (e : Event) → (step s e).stalled ≡ inside s.stalled e
unfolding step enter_at exit_at
step-inside s (enter t) = omega arith
step-inside s (exit t) = ground arith

-- Between two events the total grows by the piece.
step-total : (s : State) (e : Event) → total_at (step s e) (time e) ≡ total_at s (time e)
unfolding step enter_at exit_at total_at
step-total s (enter t) = grind int_laws
step-total s (exit t) = grind int_laws

total-piece :
    (s : State) (from now : ℤ) → total_at s now ≡ total_at s from +ℤ piece s.stalled from now
unfolding total_at
total-piece s from now = elim (Bool-cases (ltb 0 s.stalled)) [
  | inl e ↦ rw e (omega int_laws)
  | inr e ↦ rw e (omega int_laws)
]

+ℤ_assoc : (a b c : ℤ) → a +ℤ b +ℤ c ≡ a +ℤ (b +ℤ c)
+ℤ_assoc a b c = omega int_laws

run-total :
    (s : State) (from : ℤ) (es : List Event) (now : ℤ)
    → total_at (run s es) now ≡ total_at s from +ℤ stalled_time s.stalled from es now
unfolding run stalled_time
run-total s from [] now = total-piece s from now
run-total s from (e ∷ es) now =
    simp
      (
        run-total (step s e) (time e) es now,
        step-inside s e,
        step-total s e,
        total-piece s from (time e),
      )
      (+ℤ_assoc (total_at s from) (piece s.stalled from (time e)) _)

-- From a reset, the total read at `now` is exactly the time during which at least one thread was
-- stalled: overlapping and nested stalls count once, a stall still open at `now` counts up to
-- `now`, and a stray exit counts for nothing. This holds for every sequence of calls.
pub total_at-run :
    (from : ℤ) (es : List Event) (now : ℤ)
    → total_at (run reset es) now ≡ stalled_time 0 from es now
unfolding reset total_at
total_at-run from es now = run-total reset from es now ∙ omega int_laws

-- The events come in time order, none before `from` or after `now`.
abbrev pub IsOrdered : ℤ → List Event → ℤ → Type 0
IsOrdered from [] now = from ≤ℤ now
IsOrdered from (e ∷ es) now = (from ≤ℤ time e) × IsOrdered (time e) es now

piece_bounds :
    (n : ℕ) (from to : ℤ)
    → from ≤ℤ to
    → (pos 0 ≤ℤ piece n from to) × (piece n from to ≤ℤ to -ℤ from)
piece_bounds n from to h = elim (Bool-cases (ltb 0 n)) [
  | inl e ↦ rw e (omega int_laws)
  | inr e ↦ rw e (omega int_laws)
]

stalled_time_bounds :
    (n : ℕ) (from : ℤ) (es : List Event) (now : ℤ)
    → IsOrdered from es now
    → (pos 0 ≤ℤ stalled_time n from es now) × (stalled_time n from es now ≤ℤ now -ℤ from)
unfolding stalled_time
stalled_time_bounds n from [] now h = piece_bounds n from now h
stalled_time_bounds n from (e ∷ es) now h =
    let p = piece_bounds n from (time e) h.0 in
    let q = stalled_time_bounds (inside n e) (time e) es now h.1 in (omega int_laws, omega int_laws)

-- With the calls in time order, what is measured is never negative and never more than the time
-- that has gone by.
pub total_at_bounds :
    (from : ℤ) (es : List Event) (now : ℤ)
    → IsOrdered from es now
    → (pos 0 ≤ℤ total_at (run reset es) now) × (total_at (run reset es) now ≤ℤ now -ℤ from)
total_at_bounds from es now h = rw (total_at-run from es now) (stalled_time_bounds 0 from es now h)
