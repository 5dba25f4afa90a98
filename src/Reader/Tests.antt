-- ===== src/Reader/Tests.antt =====
-- An aligned read of a file of ten bytes, of which a pread returns at most three at a time.
use franken_mo_e_cuda.Prelude.{◌+◌, ◌≡◌, ◌≢◌, min, true, [], refl, arith, inr}
use franken_mo_e_cuda.Prelude.Int.{pos, negsuc, ◌+ℤ◌, ◌-ℤ◌}
use franken_mo_e_cuda.Reader.{
  System, Reader, Done, read, read_plain, read_aligned, fill, fill_window, grow_bounce, blit, clip,
}
use franken_mo_e_cuda.Reader.Fill.{Honest}
use franken_mo_e_cuda.Reader.Delivered.{Delivered, read-Delivered}

-- The byte at an offset is 100 more than the offset.
abbrev disk : System
disk = record {
  answers = λ log c. pos (min 3 c.len);
  allocates = λ n. true;
  file = λ i. 100 + i;
  unwritten = λ i. 0;
}

abbrev reader : Reader
reader = record {
  align = 4;
  fsize = 10;
  aligned_reads = true;
  lanes = λ i. record { bounce = λ j. 0; bounce_sz = 4; buffered_ok = true };
  read_bytes = pos 0;
  preads = [];
}

abbrev done : Done
done = read disk 0 5 4 (λ i. 7) reader

bytes_read : (done.dst 0 ≡ 105) × (done.dst 3 ≡ 108) × (done.dst 4 ≡ 7) × (done.result ≡ pos 6)
unfolding read read_plain read_aligned fill fill_window grow_bounce blit clip ◌+ℤ◌ ◌-ℤ◌
bytes_read = (refl, refl, refl, refl)

did_not_fail : done.result ≢ negsuc 0
unfolding read read_plain read_aligned fill fill_window grow_bounce blit clip ◌+ℤ◌ ◌-ℤ◌
did_not_fail e = absurd (cc e)

disk-Honest : Honest disk
disk-Honest log c = ground arith

read-Delivered_example :
    Delivered disk disk-Honest 5 4 (λ i. 7) reader (read disk 0 5 4 (λ i. 7) reader)
read-Delivered_example =
    read-Delivered disk disk-Honest 0 5 4 (λ i. 7) reader (omega arith) (omega arith)
      (inr (omega arith)) did_not_fail
