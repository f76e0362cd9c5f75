-- ===== src/Memory/Laws.antt =====
-- Laws of the regions of Memory.antt: what a read sees of the writes before it.
use p.Common.{
  ℕ, zero, suc, ◌+◌, ◌≤◌, ◌<◌, ◌≡◌, ◌≢◌, ◌⊎◌, inl, inr, refl, ap, ap₂, ◌∙◌, List, [], ◌∷◌, ◌++◌,
  none, some, length, arith, le→leb, lt→ltb,
}
use p.Memory.{Buffer, update, slice, blit, load, store, copy_out, copy_in}

pub length-slice : (f : ℕ → ℕ) (i n : ℕ) → length (slice f i n) ≡ n
length-slice f i zero = refl
length-slice f i (suc n) = omega (arith, length-slice f (i + 1) n)

-- A slice depends only on the cells that it shows.
pub slice_ext :
    (f g : ℕ → ℕ) (i j n : ℕ)
    → ((k : ℕ) → k < n → f (i + k) ≡ g (j + k))
    → slice f i n ≡ slice g j n
slice_ext f g i j zero h = refl
slice_ext f g i j (suc n) h = ap₂ ◌∷◌ first (slice_ext f g (i + 1) (j + 1) n (λ k hk. later k hk))
  where
    first : f i ≡ g j
    first = ap f (omega arith) ∙ h 0 (omega arith) ∙ ap g (omega arith)

    later : (k : ℕ) → k < n → f (i + 1 + k) ≡ g (j + 1 + k)
    later k hk = ap f (omega arith) ∙ h (suc k) (omega arith) ∙ ap g (omega arith)

pub update_self : (f : ℕ → ℕ) (i v : ℕ) → update f i v i ≡ v
update_self f i v = ground arith

pub update_ne : (f : ℕ → ℕ) (i v j : ℕ) → i ≢ j → update f i v j ≡ f j
update_ne f i v j h = ground arith

pub slice-update_out :
    (f : ℕ → ℕ) (k v i n : ℕ) → (k < i) ⊎ (i + n ≤ k) → slice (update f k v) i n ≡ slice f i n
slice-update_out f k v i n h =
    slice_ext (update f k v) f i i n (λ j hj. update_ne f k v (i + j) (omega arith))

pub slice_cong : (f : ℕ → ℕ) {i j m n : ℕ} → i ≡ j → m ≡ n → slice f i m ≡ slice f j n
slice_cong f p q = ap₂ (slice f) p q

pub slice-append : (f : ℕ → ℕ) (i m n : ℕ) → slice f i (m + n) ≡ slice f i m ++ slice f (i + m) n
slice-append f i zero n = slice_cong f (omega arith) (omega arith)
slice-append f i (suc m) n =
    slice_cong f {j = i} {n = suc (m + n)} refl (omega arith)
    ∙ ap (λ l. f i ∷ l)
        (slice-append f (i + 1) m n
          ∙ ap (λ l. slice f (i + 1) m ++ l) (slice_cong f (omega arith) refl))

pub slice_snoc : (f : ℕ → ℕ) (i n : ℕ) → slice f i (n + 1) ≡ slice f i n ++ (f (i + n) ∷ [])
slice_snoc f i n = slice-append f i n 1

-- Writing just behind a slice extends it.
pub slice-update_end :
    (f : ℕ → ℕ) (i n v : ℕ) → slice (update f (i + n) v) i (n + 1) ≡ slice f i n ++ (v ∷ [])
slice-update_end f i n v =
    slice_snoc (update f (i + n) v) i n
    ∙ ap₂ (λ l w. l ++ (w ∷ [])) (slice-update_out f (i + n) v i n (inr (omega arith)))
        (update_self f (i + n) v)

pub blit_out :
    (f : ℕ → ℕ) (i : ℕ) (xs : List ℕ) (j : ℕ) → (j < i) ⊎ (i + length xs ≤ j) → blit f i xs j ≡ f j
blit_out f i [] j h = refl
blit_out f i (x ∷ xs) j h =
    blit_out (update f i x) (i + 1) xs j (ground arith) ∙ update_ne f i x j (omega arith)

pub slice-blit_out :
    (f : ℕ → ℕ) (i : ℕ) (xs : List ℕ) (j n : ℕ)
    → (j + n ≤ i) ⊎ (i + length xs ≤ j)
    → slice (blit f i xs) j n ≡ slice f j n
slice-blit_out f i xs j n h =
    slice_ext (blit f i xs) f j j n (λ k hk. blit_out f i xs (j + k) (split k hk h))
  where
    split :
        (k : ℕ) → k < n → (j + n ≤ i) ⊎ (i + length xs ≤ j) → (j + k < i) ⊎ (i + length xs ≤ j + k)
    split k hk (inl a) = inl (omega arith)
    split k hk (inr b) = inr (omega arith)

pub slice-blit_self : (f : ℕ → ℕ) (i : ℕ) (xs : List ℕ) → slice (blit f i xs) i (length xs) ≡ xs
slice-blit_self f i [] = refl
slice-blit_self f i (x ∷ xs) =
    ap₂ ◌∷◌ (blit_out (update f i x) (i + 1) xs i (inl (omega arith)) ∙ update_self f i x)
      (slice-blit_self (update f i x) (i + 1) xs)

-- A copy just behind a slice extends it.
pub slice-blit_end :
    (f : ℕ → ℕ) (i n : ℕ) (xs : List ℕ)
    → slice (blit f (i + n) xs) i (n + length xs) ≡ slice f i n ++ xs
slice-blit_end f i n xs =
    slice-append (blit f (i + n) xs) i n (length xs)
    ∙ ap₂ ◌++◌ (slice-blit_out f (i + n) xs i n (inl (omega arith))) (slice-blit_self f (i + n) xs)

pub store_lem :
    (b : Buffer) (i v : ℕ) → i < b.size → store b i v ≡ some (record b { cell = update b.cell i v })
unfolding store
store_lem b i v h = rw (lt→ltb i b.size h)

pub store_fault : (b : Buffer) (i v : ℕ) → b.size ≤ i → store b i v ≡ none
unfolding store
store_fault b i v h = ground arith

pub load_lem : (b : Buffer) (i : ℕ) → i < b.size → load b i ≡ some (b.cell i)
unfolding load
load_lem b i h = rw (lt→ltb i b.size h)

pub copy_out_lem :
    (b : Buffer) (i n : ℕ) → i + n ≤ b.size → copy_out b i n ≡ some (slice b.cell i n)
unfolding copy_out
copy_out_lem b i n h = rw (le→leb (i + n) b.size h)

pub copy_in_lem :
    (b : Buffer) (i : ℕ) (xs : List ℕ)
    → i + length xs ≤ b.size
    → copy_in b i xs ≡ some (record b { cell = blit b.cell i xs })
unfolding copy_in
copy_in_lem b i xs h = rw (le→leb (i + length xs) b.size h)
