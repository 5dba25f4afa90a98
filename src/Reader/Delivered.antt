-- ===== src/Reader/Delivered.antt =====
-- io/file_reader.cpp, FileReader::read(): what a read delivers.
use franken_mo_e_cuda.Prelude.{
  ℕ, ◌+◌, ◌-◌, ◌≡◌, ◌≢◌, ◌≤◌, ◌<◌, true, false, not, ◌&&◌, List, arith, Bool-cases, inl, inr, refl,
  ◌∙◌, ap, ltb, ◌==◌,
}
use native.Mathlib.Decide.{dec_lt}
use franken_mo_e_cuda.Prelude.Int.{pos, negsuc, ◌≤ℤ◌, ◌+ℤ◌, -ℤ_parts}
use franken_mo_e_cuda.Reader.{
  Memory, Pread, System, Lane, Reader, Done, fill, clip, round_down, grow_bounce, fill_window,
  read_plain, read_aligned, read,
}
use franken_mo_e_cuda.Reader.Fill.{Honest, fill-Holds, blit_start, blit_out}
use franken_mo_e_cuda.Reader.Window.{
  Inside, clip-Inside, clip-ge, round_down-le, round_down_mono, round_up-ge,
}

module _ (sys : System) (honest : Honest sys) where
  -- The whole window is in the buffer, whose start is the window's.
  window-Holds :
      (a0 bulk_end read_end : ℕ) (l : Lane) (log : List Pread)
      → a0 ≤ bulk_end
      → bulk_end ≤ read_end
      → let f = fill_window sys a0 bulk_end read_end l log in
        f.ok ≡ true → (i : ℕ) → a0 + i < read_end → f.mem i ≡ sys.file (a0 + i)
  unfolding fill_window
  window-Holds a0 bulk_end read_end l log lo hi ok i h =
      let bulk = fill sys false (bulk_end - a0) a0 bulk_end a0 l.bounce log in
      elim (Bool-cases bulk.ok) [
        | inr e ↦ absurd (cc (simp (e, fill_window) at ok))
        | inl e ↦
            let first =
              fill-Holds sys honest false (bulk_end - a0) a0 bulk_end a0 l.bounce log (omega arith)
                (omega arith) e in
            elim (Bool-cases (ltb bulk_end read_end && not l.buffered_ok)) [
              | inl d ↦ absurd (cc (simp (e, d, fill_window) at ok))
              | inr d ↦
                  let tail_ok = simp (e, d, fill_window) at ok in
                  let tail =
                    fill-Holds sys honest true (read_end - bulk_end) bulk_end read_end a0 bulk.mem
                      bulk.preads (omega arith) lo tail_ok in
                  simp (e, d, fill_window)
                    (elim (dec_lt (a0 + i) bulk_end) [
                      | yes p ↦ tail.outside i (inl p) ∙ first.inside i (omega arith) p
                      | no p ↦ tail.inside i (omega arith) h
                    ])
            ]
      ]

  -- The request's bytes are at the destination, no others are changed, and the result is the number
  -- of bytes read, which is counted.
  pub record Delivered (off nbytes : ℕ) (dst : Memory) (r : Reader) (y : Done) : Type 0 where
    pub bytes : (i : ℕ) → i < nbytes → y.dst i ≡ sys.file (off + i)
    pub others : (i : ℕ) → nbytes ≤ i → y.dst i ≡ dst i
    pub window : pos nbytes ≤ℤ y.result
    pub counted : y.reader.read_bytes ≡ r.read_bytes +ℤ y.result

  plain-Delivered :
      (off nbytes : ℕ) (dst : Memory) (r : Reader)
      → Inside r.fsize (off + nbytes)
      → (read_plain sys off nbytes dst r).result ≢ negsuc 0
      → Delivered off nbytes dst r (read_plain sys off nbytes dst r)
  unfolding read_plain
  plain-Delivered off nbytes dst r inside done =
      let end = clip r.fsize (off + nbytes) in
      let whole : end ≡ off + nbytes = clip-Inside r.fsize (off + nbytes) inside in
      elim (Bool-cases (fill sys false (end - off) off end off dst r.preads).ok) [
        | inr e ↦ absurd (done (simp (e, read_plain) refl))
        | inl e ↦
            let f =
              fill-Holds sys honest false (end - off) off end off dst r.preads (omega arith)
                (omega arith) e in
            simp (e, read_plain)
              (record {
                bytes = λ i h. f.inside i (omega arith) (omega arith);
                others = λ i h. f.outside i (inr (omega arith));
                window = omega (arith, -ℤ_parts (pos end) (pos off));
                counted = refl;
              })
      ]

  aligned-Delivered :
      (lane off nbytes : ℕ) (dst : Memory) (r : Reader)
      → 0 < r.align
      → Inside r.fsize (off + nbytes)
      → (read_aligned sys lane off nbytes dst r).result ≢ negsuc 0
      → Delivered off nbytes dst r (read_aligned sys lane off nbytes dst r)
  unfolding read_aligned
  aligned-Delivered lane off nbytes dst r h inside done =
      let a0 = round_down r.align off in
      let a1 = round_down r.align (off + nbytes + r.align - 1) in
      let g = grow_bounce sys (a1 - a0) (r.lanes lane) in
      let read_end = clip r.fsize a1 in
      let bulk_end = round_down r.align read_end in
      let whole : off + nbytes ≤ read_end =
        clip-ge r.fsize (off + nbytes) a1 inside (round_up-ge r.align (off + nbytes) h) in
      let low = round_down-le r.align off in
      elim (Bool-cases g.0) [
        | inr e ↦ absurd (done (simp (e, read_aligned) refl))
        | inl e ↦ elim (Bool-cases (fill_window sys a0 bulk_end read_end g.1 r.preads).ok) [
          | inr d ↦ absurd (done (simp (e, d, read_aligned) refl))
          | inl d ↦
              let w =
                window-Holds a0 bulk_end read_end g.1 r.preads
                  (round_down_mono r.align off read_end h (omega arith))
                  (round_down-le r.align read_end) d in
              simp (e, d, read_aligned)
                (record {
                  bytes = λ i lt.
                      blit_start _ nbytes dst i lt
                      ∙ w (off - a0 + i) (omega arith)
                      ∙ ap (λ j. sys.file j) (omega arith);
                  others = λ i ge. blit_out _ 0 nbytes dst i (inr (omega arith));
                  window = omega (arith, -ℤ_parts (pos read_end) (pos a0));
                  counted = refl;
                })
        ]
      ]

  -- A read of at least one byte, inside the file or of a file whose size is not known, that does not
  -- return -1 has put the bytes of the file at the destination and changed no others, whether the
  -- reads go straight there or through an aligned window; it returns how many bytes it read, which
  -- are at least those asked for, and counts them. The alignment is not 0, and a pread returns no more
  -- bytes than it was asked for.
  pub read-Delivered :
      (lane off nbytes : ℕ) (dst : Memory) (r : Reader)
      → 0 < r.align
      → 0 < nbytes
      → Inside r.fsize (off + nbytes)
      → (read sys lane off nbytes dst r).result ≢ negsuc 0
      → Delivered off nbytes dst r (read sys lane off nbytes dst r)
  unfolding read
  read-Delivered lane off nbytes dst r h some_bytes inside done =
      let asked : (nbytes == 0) ≡ false = ground arith in
      elim (Bool-cases r.aligned_reads) [
        | inl e ↦
            simp (asked, e, read)
              (aligned-Delivered lane off nbytes dst r h inside (simp (asked, e, read) at done))
        | inr e ↦
            simp (asked, e, read)
              (plain-Delivered off nbytes dst r inside (simp (asked, e, read) at done))
      ]
