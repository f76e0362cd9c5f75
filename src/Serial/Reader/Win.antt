-- ===== src/Serial/Reader/Win.antt =====
-- The inner loop of reader_thread_win against that of reader_thread_posix.
use p.Common.{
  ℕ, zero, suc, ◌+◌, ◌≡◌, refl, true, List, [], ◌∷◌, none, some, >>=-cong, inl, inr, Option-cases,
}
use p.Serial.Reader.{
  Reader, Flags, memchr_zero, append_chunk, end_frame, scan_posix, scan_win, feed_posix, feed_win,
}

-- A chunk without a zero, and a chunk with one.
both_end :
    (fuel : ℕ) (flags : ℕ → Flags) (k : ℕ) (r : Reader) (x : ℕ) (p : List ℕ)
    → memchr_zero (x ∷ p) ≡ none
    → scan_win (suc fuel) flags k r (x ∷ p) ≡ scan_posix (suc fuel) flags k r (x ∷ p)
unfolding scan_win scan_posix
both_end fuel flags k r x p e = rw (e, scan_win, scan_posix) refl

both_go_on :
    (fuel : ℕ) (flags : ℕ → Flags) (k : ℕ) (r : Reader) (x : ℕ) (p : List ℕ) (z : List ℕ × List ℕ)
    → memchr_zero (x ∷ p) ≡ some z
    → (flags k).alive ≡ true
    → ((r' : Reader) → scan_win fuel flags (k + 1) r' z.1 ≡ scan_posix fuel flags (k + 1) r' z.1)
    → scan_win (suc fuel) flags k r (x ∷ p) ≡ scan_posix (suc fuel) flags k r (x ∷ p)
unfolding scan_win scan_posix
both_go_on fuel flags k r x p z e alive ih =
    rw (e, alive, scan_win, scan_posix)
      (>>=-cong (append_chunk r z.0) _ _
        (λ r'. >>=-cong (end_frame r' (flags k).py_enabled) _ _ (λ r''. ih r'')))

scan_win-scan_posix :
    (fuel : ℕ) (flags : ℕ → Flags) (k : ℕ) (r : Reader) (p : List ℕ)
    → ((j : ℕ) → (flags j).alive ≡ true)
    → scan_win fuel flags k r p ≡ scan_posix fuel flags k r p
scan_win-scan_posix zero flags k r [] alive = unfold scan_win scan_posix in refl
scan_win-scan_posix zero flags k r (x ∷ p) alive = unfold scan_win scan_posix in refl
scan_win-scan_posix (suc fuel) flags k r [] alive = unfold scan_win scan_posix in refl
scan_win-scan_posix (suc fuel) flags k r (x ∷ p) alive = elim (Option-cases (memchr_zero (x ∷ p))) [
  | inl e ↦ both_end fuel flags k r x p e
  | inr (z, e) ↦
      both_go_on fuel flags k r x p z e (alive k)
        (λ r'. scan_win-scan_posix fuel flags (k + 1) r' z.1 alive)
]

-- While alive stays set, both platforms make the same of the bytes of a read, faults included.
pub feed_win-feed_posix :
    (flags : ℕ → Flags) (r : Reader) (p : List ℕ)
    → ((j : ℕ) → (flags j).alive ≡ true)
    → feed_win flags r p ≡ feed_posix flags r p
unfolding feed_win feed_posix
feed_win-feed_posix flags r p alive = scan_win-scan_posix _ flags 0 _ p alive
