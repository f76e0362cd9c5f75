-- ===== src/Serial/Port/Drain.antt =====
-- What serial_read_posix reads.
use p.Common.{
  ℕ, zero, suc, ◌+◌, ◌-◌, ◌^◌, ◌%◌, ◌≤◌, ◌<◌, ◌≡◌, refl, ap, sym, subst, ◌>>=◌, ◌∙◌, Bool, true,
  false, List, [], ◌∷◌, ◌++◌, Option, some, leb, le→leb, ne→==, gt→leb, lt→ltb, length, arith, ℤ,
  pos, negsuc, append-nil, append_assoc, length-append,
}
use p.Memory.{Buffer, slice, blit}
use p.Memory.Laws.{copy_in_lem, slice-blit_end, slice_cong}
use p.Serial.Port.{
  Read, got, end_of_file, interrupted, would_block, broken, Drained, returned, drain,
  serial_read_posix, int_of,
}

-- No read gives more bytes than it is asked for, where `room` bytes are left.
abbrev pub Fits : ℕ → List Read → Type 0
Fits room [] = Unit {0}
Fits room (got x xs ∷ rs) = (suc (length xs) ≤ room) × Fits (room - suc (length xs)) rs
Fits room (interrupted ∷ rs) = Fits room rs
Fits room (r ∷ rs) = Unit {0}

-- The bytes of the reads until the room is full, or a read gives none
abbrev pub taken : ℕ → List Read → List ℕ
taken zero rs = []
taken (suc room) [] = []
taken (suc room) (got x xs ∷ rs) = (x ∷ xs) ++ taken (room - length xs) rs
taken (suc room) (interrupted ∷ rs) = taken (suc room) rs
taken (suc room) (r ∷ rs) = []

-- Whether an error comes before the room is full
abbrev pub fails : ℕ → List Read → Bool
fails zero rs = false
fails (suc room) [] = false
fails (suc room) (got x xs ∷ rs) = fails (room - length xs) rs
fails (suc room) (interrupted ∷ rs) = fails (suc room) rs
fails (suc room) (broken ∷ rs) = true
fails (suc room) (r ∷ rs) = false

abbrev pub interrupts : List Read → ℕ
interrupts [] = 0
interrupts (interrupted ∷ rs) = suc (interrupts rs)
interrupts (r ∷ rs) = interrupts rs

abbrev pub read_value : Bool → ℕ → ℤ
read_value true n = negsuc 0
read_value false n = pos n

abbrev value : Bool → ℕ → ℤ
value true n = negsuc 0
value false n = int_of n

record Drains (rs : List Read) (cap room total : ℕ) (buf : Buffer) : Type 0 where
  after : Buffer
  run :
      drain rs cap total buf
      ≡ some (returned (value (fails room rs) (total + length (taken room rs))) after)
  kept :
      slice after.cell 0 (total + length (taken room rs)) ≡ slice buf.cell 0 total ++ taken room rs
  bound : length (taken room rs) ≤ room

-- The loop behind a read, when `k` bytes of the buffer are free
record GoesOn (rs : List Read) (cap k total : ℕ) (buf : Buffer) : Type 0 where
  after : Buffer
  run :
      (elim (leb cap total) [
        | true ↦ some (returned (int_of total) buf)
        | false ↦ drain rs cap total buf
      ])
      ≡ some (returned (value (fails k rs) (total + length (taken k rs))) after)
  kept : slice after.cell 0 (total + length (taken k rs)) ≡ slice buf.cell 0 total ++ taken k rs
  bound : length (taken k rs) ≤ k

nothing_kept :
    (buf : Buffer) (total : ℕ) → slice buf.cell 0 (total + 0) ≡ slice buf.cell 0 total ++ []
nothing_kept buf total =
    slice_cong buf.cell refl (omega arith) ∙ sym (append-nil (slice buf.cell 0 total))

nothing_added :
    (e : Bool) (total : ℕ) (buf : Buffer)
    → ◌≡◌ {A = Option Drained}
        (some (returned (value e total) buf))
        (some (returned (value e (total + 0)) buf))
nothing_added e total buf = ap (λ n. some (returned (value e n) buf)) (omega arith)

goes_on :
    (k : ℕ) (rs : List Read) (cap total : ℕ) (buf : Buffer)
    → total + k ≡ cap
    → ((room : ℕ) → k ≡ suc room → Drains rs cap (suc room) total buf)
    → GoesOn rs cap k total buf
goes_on zero rs cap total buf sum next = record {
  after = buf;
  run = rw (le→leb cap total (omega arith)) (nothing_added false total buf);
  kept = nothing_kept buf total;
  bound = omega arith;
}
goes_on (suc room) rs cap total buf sum next =
    let d = next room refl in
    record {
      after = d.after;
      run = rw (gt→leb cap total (omega arith)) d.run;
      kept = d.kept;
      bound = d.bound;
    }

got_lem :
    (x : ℕ) (xs : List ℕ) (rs : List Read) (cap room total : ℕ) (buf : Buffer)
    → total + suc room ≡ cap
    → cap ≤ buf.size
    → length xs ≤ room
    → GoesOn rs cap
        (room - length xs)
        (total + suc (length xs))
        (record buf { cell = blit buf.cell total (x ∷ xs) })
    → Drains (got x xs ∷ rs) cap (suc room) total buf
unfolding drain
got_lem x xs rs cap room total buf sum size fits g = record {
  after = g.after;
  run =
      rw (copy_in_lem buf total (x ∷ xs) (omega arith), ◌>>=◌)
        (g.run ∙ ap (λ n. some (returned (value (fails (room - length xs) rs) n) g.after)) count);
  kept =
      slice_cong g.after.cell refl (sym count)
      ∙ g.kept
      ∙ ap (λ l. l ++ taken (room - length xs) rs) written
      ∙ append_assoc (slice buf.cell 0 total) (x ∷ xs) (taken (room - length xs) rs);
  bound = omega (arith, length-append (x ∷ xs) (taken (room - length xs) rs), g.bound);
}
  where
    count :
        total + suc (length xs) + length (taken (room - length xs) rs)
        ≡ total + length ((x ∷ xs) ++ taken (room - length xs) rs)
    count = omega (arith, length-append (x ∷ xs) (taken (room - length xs) rs))

    written :
        slice (blit buf.cell total (x ∷ xs)) 0 (total + suc (length xs))
        ≡ slice buf.cell 0 total ++ (x ∷ xs)
    written =
        ap (λ k. slice (blit buf.cell k (x ∷ xs)) 0 (total + suc (length xs))) (omega arith)
        ∙ slice-blit_end buf.cell 0 total (x ∷ xs)

drain_lem :
    (rs : List Read) (cap room total : ℕ) (buf : Buffer)
    → total + suc room ≡ cap
    → cap ≤ buf.size
    → Fits (suc room) rs
    → suc room + interrupts rs ≤ length rs
    → Drains rs cap (suc room) total buf
unfolding drain
drain_lem [] cap room total buf sum size fits enough = absurd (omega arith)
drain_lem (interrupted ∷ rs) cap room total buf sum size fits enough =
    let d = drain_lem rs cap room total buf sum size fits (omega arith) in
    record { after = d.after; run = d.run; kept = d.kept; bound = d.bound }
drain_lem (end_of_file ∷ rs) cap room total buf sum size fits enough = record {
  after = buf;
  run = nothing_added false total buf;
  kept = nothing_kept buf total;
  bound = omega arith;
}
drain_lem (would_block ∷ rs) cap room total buf sum size fits enough = record {
  after = buf;
  run = nothing_added false total buf;
  kept = nothing_kept buf total;
  bound = omega arith;
}
drain_lem (broken ∷ rs) cap room total buf sum size fits enough = record {
  after = buf;
  run = refl;
  kept = nothing_kept buf total;
  bound = omega arith;
}
drain_lem (got x xs ∷ rs) cap room total buf sum size fits enough =
    got_lem x xs rs cap room total buf sum size (omega (arith, fits.0)) (
      goes_on (room - length xs) rs cap (total + suc (length xs)) _ (omega (arith, fits.0))
        (λ room' e.
          drain_lem rs cap room' (total + suc (length xs)) _ (omega (arith, fits.0)) size
            (subst (λ k. Fits k rs) (omega (arith, e)) fits.1) (omega (arith, fits.0))))

-- The call returns, and the bytes read are at the start of the buffer.
pub record ReadsAll (rs : List Read) (cap : ℕ) (buf : Buffer) : Type 0 where
  pub after : Buffer
  pub returns :
      serial_read_posix rs cap buf
      ≡ some (returned (read_value (fails cap rs) (length (taken cap rs))) after)
  pub there : slice after.cell 0 (length (taken cap rs)) ≡ taken cap rs

int_of-small : (e : Bool) (n : ℕ) → n < 2 ^ 31 → value e (0 + n) ≡ read_value e n
int_of-small true n h = refl
int_of-small false n h =
    rw (lt→ltb ((0 + n) % 2 ^ 32) (2 ^ 31) (omega arith)) (ap pos (omega arith))

-- If no read gives more than it is asked for, and the reads answer as often as the capacity and
-- the interrupts together, then serial_read_posix returns, without a fault, with the bytes of
-- the reads up to the capacity, or up to the first read that gives none, at the start of the
-- buffer. The result is their number, or -1 if that read fails with an error. The capacity is
-- positive, below 2 ^ 31 and not beyond the buffer.
pub serial_read_posix-drains :
    (rs : List Read) (cap : ℕ) (buf : Buffer)
    → 0 < cap
    → cap < 2 ^ 31
    → cap ≤ buf.size
    → Fits cap rs
    → cap + interrupts rs ≤ length rs
    → ReadsAll rs cap buf
unfolding serial_read_posix
serial_read_posix-drains rs zero buf some_room small size fits enough = absurd (omega arith)
serial_read_posix-drains rs (suc room) buf some_room small size fits enough =
    let d = drain_lem rs (suc room) room 0 buf (omega arith) size fits enough in
    record {
      after = d.after;
      returns =
          drains
          ∙ d.run
          ∙ ap (λ z. some (returned z d.after))
              (int_of-small (fails (suc room) rs) (length (taken (suc room) rs))
                (omega (arith, d.bound)));
      there = slice_cong d.after.cell refl (omega arith) ∙ d.kept;
    }
  where
    drains : serial_read_posix rs (suc room) buf ≡ drain rs (suc room) 0 buf
    drains = rw (ne→== (suc room) 0 (omega arith), serial_read_posix) refl
