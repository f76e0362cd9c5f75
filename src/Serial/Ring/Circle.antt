-- ===== src/Serial/Ring/Circle.antt =====
-- Reading round the ring: `circle f t n` are the `n` bytes from the running index `t` on.
use p.Common.{
  ℕ, zero, suc, ◌+◌, ◌-◌, ◌%◌, ◌^◌, ◌≤◌, ◌<◌, ◌≡◌, refl, sym, ap, ap₂, ◌∙◌, List, [], ◌∷◌, ◌++◌,
  length, arith, append-injective,
}
use p.Memory.{slice}
use p.Serial.State.{ring_bytes}

abbrev pub circle : (ℕ → ℕ) → ℕ → ℕ → List ℕ
circle f t zero = []
circle f t (suc n) = f (t % ring_bytes) ∷ circle f (t + 1) n

pub length-circle : (f : ℕ → ℕ) (t n : ℕ) → length (circle f t n) ≡ n
length-circle f t zero = refl
length-circle f t (suc n) = omega (arith, length-circle f (t + 1) n)

pub circle_ext :
    (f g : ℕ → ℕ) (t u n : ℕ)
    → ((k : ℕ) → k < n → f ((t + k) % ring_bytes) ≡ g ((u + k) % ring_bytes))
    → circle f t n ≡ circle g u n
circle_ext f g t u zero h = refl
circle_ext f g t u (suc n) h = ap₂ ◌∷◌ first (circle_ext f g (t + 1) (u + 1) n later)
  where
    first : f (t % ring_bytes) ≡ g (u % ring_bytes)
    first = ap f (omega arith) ∙ h 0 (omega arith) ∙ ap g (omega arith)

    later : (k : ℕ) → k < n → f ((t + 1 + k) % ring_bytes) ≡ g ((u + 1 + k) % ring_bytes)
    later k hk = ap f (omega arith) ∙ h (suc k) (omega arith) ∙ ap g (omega arith)

pub circle_cong : (f : ℕ → ℕ) {t u m n : ℕ} → t ≡ u → m ≡ n → circle f t m ≡ circle f u n
circle_cong f p q = ap₂ (circle f) p q

-- A running index may wrap at 2 ^ 64: the ring's size divides that.
pub circle-wrap : (f : ℕ → ℕ) (t n : ℕ) → circle f (t % 2 ^ 64) n ≡ circle f t n
circle-wrap f t n = circle_ext f f (t % 2 ^ 64) t n (λ k hk. ap f (omega arith))

pub circle-append :
    (f : ℕ → ℕ) (t m n : ℕ) → circle f t (m + n) ≡ circle f t m ++ circle f (t + m) n
circle-append f t zero n = circle_cong f (omega arith) (omega arith)
circle-append f t (suc m) n =
    circle_cong f {u = t} {n = suc (m + n)} refl (omega arith)
    ∙ ap (λ l. f (t % ring_bytes) ∷ l)
        (circle-append f (t + 1) m n
          ∙ ap (λ l. circle f (t + 1) m ++ l) (circle_cong f (omega arith) refl))

-- Where the running index does not come to the end, a circle is a slice.
pub circle-slice :
    (f : ℕ → ℕ) (t i n : ℕ)
    → ((k : ℕ) → k < n → (t + k) % ring_bytes ≡ i + k)
    → circle f t n ≡ slice f i n
circle-slice f t i zero h = refl
circle-slice f t i (suc n) h = ap₂ ◌∷◌ (ap f first) (circle-slice f (t + 1) (i + 1) n later)
  where
    first : t % ring_bytes ≡ i
    first = omega (arith, h 0 (omega arith))

    later : (k : ℕ) → k < n → (t + 1 + k) % ring_bytes ≡ i + 1 + k
    later k hk = omega (arith, h (suc k) (omega arith))

-- The bytes of a circle in one piece, and in two.
pub circle_whole :
    (f : ℕ → ℕ) (t n : ℕ)
    → t % ring_bytes + n ≤ ring_bytes
    → circle f t n ≡ slice f (t % ring_bytes) n
circle_whole f t n h = circle-slice f t (t % ring_bytes) n (λ k hk. omega arith)

pub circle_split :
    (f : ℕ → ℕ) (t n : ℕ)
    → ring_bytes < t % ring_bytes + n
    → n ≤ ring_bytes
    → circle f t n
      ≡ slice f (t % ring_bytes) (ring_bytes - t % ring_bytes)
        ++ slice f 0 (n - (ring_bytes - t % ring_bytes))
circle_split f t n h small =
    circle_cong f {n = room + (n - room)} refl (omega arith)
    ∙ circle-append f t room (n - room)
    ∙ ap₂ ◌++◌ (circle-slice f t (t % ring_bytes) room (λ k hk. omega arith))
        (circle-slice f (t + room) 0 (n - room) (λ k hk. omega arith))
  where
    room : ℕ
    room = ring_bytes - t % ring_bytes

-- A circle known as two lists, taken apart.
pub circle_parts :
    (f : ℕ → ℕ) (t n : ℕ) {m k : ℕ} (xs ys : List ℕ)
    → length xs ≡ m
    → m + n ≡ k
    → circle f t k ≡ xs ++ ys
    → (circle f t m ≡ xs) × (circle f (t + m) n ≡ ys)
circle_parts f t n {m} {k} xs ys e sum h =
    append-injective (circle f t m) (circle f (t + m) n) xs ys (length-circle f t m ∙ sym e)
      (sym (circle-append f t m n) ∙ circle_cong f {u = t} refl sum ∙ h)
