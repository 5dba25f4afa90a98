-- ===== src/Reader.antt =====
-- io/file_reader.h and .cpp, FileReader::read(). Offsets and sizes are taken to be small enough not to
-- wrap. The system is given: what each pread returns, whether an allocation succeeds, the bytes of
-- the file and those of fresh memory. Times are left out. An offset past the end of the file, where
-- the source's pointer into the buffer would lie before it, is outside of the model.
pub mod Fill
pub mod Window
pub mod Delivered
pub mod Complete
mod Tests
use franken_mo_e_cuda.Prelude.{
  ℕ, zero, suc, ◌+◌, ◌-◌, ◌%◌, Bool, true, false, ◌&&◌, ◌||◌, not, List, [], ◌∷◌, ltb, leb, ◌==◌,
  if◌then◌else◌, update,
}
use franken_mo_e_cuda.Prelude.Int.{ℤ, pos, negsuc, pos_part, leb_ℤ, ◌+ℤ◌, ◌-ℤ◌}

-- Memory from a pointer on.
abbrev pub Memory : Type 0
Memory = ℕ → ℕ

-- A pread: whether on the buffered descriptor, its length and its offset.
pub record Pread : Type 0 where
  pub buffered : Bool
  pub len : ℕ
  pub off : ℕ

pub record System : Type 0 where
  pub answers : List Pread → Pread → ℤ
  pub allocates : ℕ → Bool
  pub file : ℕ → ℕ
  pub unwritten : Memory

-- A lane without a buffer has the size 0; `buffered_ok` says that its buffered descriptor is open.
pub record Lane : Type 0 where
  pub bounce : Memory
  pub bounce_sz : ℕ
  pub buffered_ok : Bool

pub record Reader : Type 0 where
  pub align : ℕ
  pub fsize : ℕ
  pub aligned_reads : Bool
  pub lanes : ℕ → Lane
  pub read_bytes : ℤ
  pub preads : List Pread

-- `x & ~(align - 1)`, for an alignment that is a power of two.
abbrev pub round_down : ℕ → ℕ → ℕ
round_down align x = x - x % align

-- `n` bytes of `source` written from `at` on.
unfoldable pub blit : (ℕ → ℕ) → ℕ → ℕ → Memory → Memory
blit source at n m i = if leb at i && ltb i (at + n) then source (i - at) else m i

pub record Filled : Type 0 where
  pub ok : Bool
  pub mem : Memory
  pub preads : List Pread

-- Where a request ends in the file, whose size is 0 when it is not known.
unfoldable pub clip : ℕ → ℕ → ℕ
clip fsize end = if not (fsize == 0) && ltb fsize end then fsize else end

-- What a read returns, the memory at its destination, and the reader.
pub record Done : Type 0 where
  pub result : ℤ
  pub dst : Memory
  pub reader : Reader

module _ (sys : System) where
  -- `for (a; a < end;) got = pread(mem + (a - base), end - a, a) ...`: each round that goes on reads at
  -- least one byte, so end - a rounds suffice.
  unfoldable pub fill : Bool → ℕ → ℕ → ℕ → ℕ → Memory → List Pread → Filled
  fill buffered zero a end base m log = record { ok = true; mem = m; preads = log }
  fill buffered (suc fuel) a end base m log =
      let call : Pread = record { buffered = buffered; len = end - a; off = a } in
      let got = sys.answers log call in
      let n = pos_part got in
      let rest =
        fill buffered fuel (a + n) end base (blit (λ i. sys.file (a + i)) (a - base) n m)
          (call ∷ log) in
      if ltb a end
      then (if leb_ℤ got (pos 0) then record { ok = false; mem = m; preads = call ∷ log } else rest)
      else record { ok = true; mem = m; preads = log }

  unfoldable pub read_plain : ℕ → ℕ → Memory → Reader → Done
  read_plain off nbytes dst r =
      let end = clip r.fsize (off + nbytes) in
      let f = fill false (end - off) off end off dst r.preads in
      let moved = pos end -ℤ pos off in
      if f.ok
      then record {
        result = moved;
        dst = f.mem;
        reader = record r { read_bytes = r.read_bytes +ℤ moved; preads = f.preads };
      }
      else record { result = negsuc 0; dst = f.mem; reader = record r { preads = f.preads } }

  -- The lane's buffer when it holds `len` bytes; a failed allocation leaves it empty.
  unfoldable pub grow_bounce : ℕ → Lane → Bool × Lane
  grow_bounce len l =
      if ltb l.bounce_sz len
      then (if sys.allocates len
          then (true, record l { bounce = sys.unwritten; bounce_sz = len })
          else (false, record l { bounce_sz = 0 }))
      else (true, l)

  -- The two loops: whole blocks, then the rest up to the end of the file by the buffered descriptor.
  unfoldable pub fill_window : ℕ → ℕ → ℕ → Lane → List Pread → Filled
  fill_window a0 bulk_end read_end l log =
      let bulk = fill false (bulk_end - a0) a0 bulk_end a0 l.bounce log in
      let tail = fill true (read_end - bulk_end) bulk_end read_end a0 bulk.mem bulk.preads in
      let refused : Filled = record { ok = false; mem = bulk.mem; preads = bulk.preads } in
      if not bulk.ok
      then bulk
      else if ltb bulk_end read_end && not l.buffered_ok
      then refused
      else tail

  unfoldable pub read_aligned : ℕ → ℕ → ℕ → Memory → Reader → Done
  read_aligned lane off nbytes dst r =
      let a0 = round_down r.align off in
      let a1 = round_down r.align (off + nbytes + r.align - 1) in
      let (grown, l) = grow_bounce (a1 - a0) (r.lanes lane) in
      let read_end = clip r.fsize a1 in
      let bulk_end = round_down r.align read_end in
      let f = fill_window a0 bulk_end read_end l r.preads in
      let window = pos read_end -ℤ pos a0 in
      let kept = record r { lanes = update r.lanes lane l } in
      let filled = record r {
        lanes = update r.lanes lane (record l { bounce = f.mem });
        preads = f.preads;
      } in
      if not grown
      then record { result = negsuc 0; dst = dst; reader = kept }
      else if f.ok
      then record {
        result = window;
        dst = blit (λ i. f.mem (off - a0 + i)) 0 nbytes dst;
        reader = record filled { read_bytes = r.read_bytes +ℤ window };
      }
      else record { result = negsuc 0; dst = dst; reader = filled }

  unfoldable pub read : ℕ → ℕ → ℕ → Memory → Reader → Done
  read lane off nbytes dst r =
      let plain = read_plain off nbytes dst r in
      let aligned = read_aligned lane off nbytes dst r in
      if nbytes == 0
      then record { result = pos 0; dst = dst; reader = r }
      else if not r.aligned_reads
      then plain
      else aligned
