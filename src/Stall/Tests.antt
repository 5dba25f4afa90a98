-- ===== src/Stall/Tests.antt =====
-- The stall union on a trace with an overlap, a gap and a stall still open.
use franken_mo_e_cuda.Prelude.{◌≡◌, refl, List, [], ◌∷◌}
use franken_mo_e_cuda.Prelude.Int.{pos, ◌+ℤ◌, ◌-ℤ◌}
use franken_mo_e_cuda.Stall.{Event, enter, exit, step, run, total_at, reset, enter_at, exit_at}
use franken_mo_e_cuda.Stall.Union.{stalled_time, total_at-run}

-- Two overlapping stalls over 10 to 40, one from 50 on.
abbrev trace : List Event
trace = enter (pos 10) ∷ enter (pos 20) ∷ exit (pos 30) ∷ exit (pos 40) ∷ enter (pos 50) ∷ []

trace_total : total_at (run reset trace) (pos 55) ≡ pos 35
unfolding run step enter_at exit_at total_at reset ◌+ℤ◌ ◌-ℤ◌
trace_total = refl

total_at-run_example : total_at (run reset trace) (pos 55) ≡ stalled_time 0 (pos 0) trace (pos 55)
total_at-run_example = total_at-run (pos 0) trace (pos 55)
