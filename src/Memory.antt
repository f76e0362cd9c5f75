-- ===== src/Memory.antt =====
-- Regions of memory as the C code uses them (malloc'd blocks and arrays on the stack): a size in
-- bytes and a content. An access outside the region is a fault, `none`.
pub mod Laws
use p.Common.{
  ℕ, zero, suc, ◌+◌, List, [], ◌∷◌, Option, none, some, ltb, leb, ◌==◌, if◌then◌else◌, length,
}

pub record Buffer : Type 0 where
  pub size : ℕ
  pub cell : ℕ → ℕ

abbrev pub update : (ℕ → ℕ) → ℕ → ℕ → ℕ → ℕ
update f i v j = if i == j then v else f j

-- `n` bytes from index `i` on.
abbrev pub slice : (ℕ → ℕ) → ℕ → ℕ → List ℕ
slice f i zero = []
slice f i (suc n) = f i ∷ slice f (i + 1) n

abbrev pub blit : (ℕ → ℕ) → ℕ → List ℕ → ℕ → ℕ
blit f i [] = f
blit f i (x ∷ xs) = blit (update f i x) (i + 1) xs

-- `b[i]`
unfoldable pub load : Buffer → ℕ → Option ℕ
load b i = if ltb i b.size then some (b.cell i) else none

-- `b[i] = v`
unfoldable pub store : Buffer → ℕ → ℕ → Option Buffer
store b i v = if ltb i b.size then some (record b { cell = update b.cell i v }) else none

-- memcpy of `n` bytes out of the region, from `b + i`
unfoldable pub copy_out : Buffer → ℕ → ℕ → Option (List ℕ)
copy_out b i n = if leb (i + n) b.size then some (slice b.cell i n) else none

-- memcpy of the bytes `xs` into the region, to `b + i`
unfoldable pub copy_in : Buffer → ℕ → List ℕ → Option Buffer
copy_in b i xs =
    if leb (i + length xs) b.size then some (record b { cell = blit b.cell i xs }) else none
