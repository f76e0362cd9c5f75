-- ===== src/Tests/OverflowTests.antt =====
-- A segment that is longer than the frame buffer.
use p.Common.{ℕ, zero, suc, ◌+◌, ◌≡◌, refl, sym, ◌∙◌, ap, [], ◌∷◌, length, replicate, arith, All}
use p.Memory.{slice}
use p.Cobs.RoundTrip.{IsNonzero}
use p.Cobs.Bounds.{IsWire}
use p.Serial.Reader.{Reader, frame_bytes, scan_posix}
use p.Serial.Reader.Frame.{Shows}
use p.Serial.Reader.Scan.{Scanned, scan_posix-overflow}
use p.Serial.Ring.Fifo.{empty_ring-Holds}
use p.Tests.SerialTests.{stale, block, fresh, running, view}

length-replicate : (n : ℕ) → length (replicate {A = ℕ} n 1) ≡ n
length-replicate zero = refl
length-replicate (suc n) = omega (arith, length-replicate n)

replicate-IsWire : (n : ℕ) → All IsWire (replicate n 1)
replicate-IsWire zero = tt
replicate-IsWire (suc n) = (omega arith, replicate-IsWire n)

replicate-IsNonzero : (n : ℕ) → All IsNonzero (replicate n 1)
replicate-IsNonzero zero = tt
replicate-IsNonzero (suc n) = (omega arith, replicate-IsNonzero n)

slice_ones : (i n : ℕ) → slice (λ j. 1) i n ≡ replicate n 1
slice_ones i zero = refl
slice_ones i (suc n) = ap (λ l. 1 ∷ l) (slice_ones (i + 1) n)

-- 60000 bytes are collected.
abbrev collecting : Reader
collecting = record {
  framebuf = record { size = frame_bytes; cell = λ j. 1 };
  frame_len = 60000;
  tmp = block frame_bytes;
  shared = fresh;
}

collecting-Shows : Shows collecting view (replicate 60000 1)
collecting-Shows = record {
  buf_size = refl;
  tmp_size = refl;
  len_at = sym (length-replicate 60000);
  content = ap (slice (λ j. 1) 0) (length-replicate 60000) ∙ slice_ones 0 60000;
  short = omega (arith, length-replicate 60000);
  wire = replicate-IsWire 60000;
  shared = record {
    ring = empty_ring-Holds stale;
    frames = refl;
    errors = refl;
    dropped = refl;
    push_dropped = refl;
  };
}

scan_posix-overflow_example :
    Scanned (scan_posix 1 running 0 collecting (1 ∷ replicate 6000 1)) (view, [])
scan_posix-overflow_example =
    scan_posix-overflow 0 running 0 collecting 1 (replicate 6000 1) view (replicate 60000 1)
      collecting-Shows (replicate-IsNonzero 6001)
      (omega (arith, length-replicate 60000, length-replicate 6000))
