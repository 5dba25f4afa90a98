-- ===== src/Reader/Complete.antt =====
-- io/file_reader.cpp, FileReader::read(): reads of a system without failures.
use franken_mo_e_cuda.Prelude.{ℕ, ◌≡◌, ◌<◌, true, List}
use franken_mo_e_cuda.Prelude.Int.{pos, ◌≤ℤ◌}
use franken_mo_e_cuda.Reader.{Pread, System, Reader}
use franken_mo_e_cuda.Reader.Delivered.{Delivered}

-- A system without failures: preads of something read something, and memory is there.
pub record Working (sys : System) : Type 0 where
  pub preads : (log : List Pread) (c : Pread) → 0 < c.len → pos 1 ≤ℤ sys.answers log c
  pub memory : (n : ℕ) → sys.allocates n ≡ true
