-- ===== src/Stall.antt =====
-- moe/stall_union.h: the union of the intervals during which some thread is stalled.
-- `State` is the class StallUnionState. Its counter never goes below 0, since `exit_at` refuses
-- to, so it is a natural number; the timestamps are signed. The wrapper StallUnion takes each
-- timestamp inside its critical section, so a run of it is a list of events in time order.
pub mod Union
mod Tests
use franken_mo_e_cuda.Prelude.{ℕ, suc, ◌+◌, ◌-◌, Bool, List, [], ◌∷◌, if◌then◌else◌, ◌==◌, ltb}
use franken_mo_e_cuda.Prelude.Int.{ℤ, pos, ◌+ℤ◌, ◌-ℤ◌}

pub record State : Type 0 where
  pub stalled : ℕ
  pub open_ns : ℤ
  pub total_ns : ℤ

pub enter_at : State → ℤ → State
enter_at s now = record s {
  stalled = s.stalled + 1;
  open_ns = if s.stalled == 0 then now else s.open_ns;
}

pub exit_at : State → ℤ → State
exit_at s now =
    if s.stalled == 0
    then s
    else if s.stalled - 1 == 0
    then record { stalled = 0; open_ns = pos 0; total_ns = s.total_ns +ℤ (now -ℤ s.open_ns) }
    else record s { stalled = s.stalled - 1 }

pub total_at : State → ℤ → ℤ
total_at s now = s.total_ns +ℤ (if ltb 0 s.stalled then now -ℤ s.open_ns else pos 0)

pub reset : State
reset = record { stalled = 0; open_ns = pos 0; total_ns = pos 0 }

-- The calls of the wrapper, each with the time that its critical section read.
pub data Event : Type 0 where
  enter exit : ℤ → Event

abbrev pub time : Event → ℤ
time (enter t) = t
time (exit t) = t

pub step : State → Event → State
step s (enter t) = enter_at s t
step s (exit t) = exit_at s t

pub run : State → List Event → State
run s [] = s
run s (e ∷ es) = run (step s e) es
