-- ===== src/Serial/Writer/Coalesce.antt =====
-- What a batch consists of, with no buffers.
use p.Common.{
  ℕ, ◌+◌, ◌<◌, ◌≡◌, refl, List, [], ◌∷◌, ◌++◌, ltb, leb, if◌then◌else◌, length, arith, lt→ltb,
  le→leb,
}
use p.Serial.Writer.{Item, bytes_item, other_item, batch_bytes}

-- The bytes that join `total` others, and the items that are left.
unfoldable pub coalesce : ℕ → List Item → List ℕ × List Item
coalesce total [] = ([], [])
coalesce total (other_item ∷ items) =
    ([], if ltb total batch_bytes then items else other_item ∷ items)
coalesce total (bytes_item xs ∷ items) =
    let (ys, rest) = coalesce (total + length xs) items in
    if ltb total batch_bytes
    then if leb (total + length xs) batch_bytes then (xs ++ ys, rest) else ([], items)
    else ([], bytes_item xs ∷ items)

abbrev pub items_of : List (List ℕ) → List Item
items_of [] = []
items_of (xs ∷ xss) = bytes_item xs ∷ items_of xss

abbrev pub concat : List (List ℕ) → List ℕ
concat [] = []
concat (xs ∷ xss) = xs ++ concat xss

abbrev pub total_length : List (List ℕ) → ℕ
total_length [] = 0
total_length (xs ∷ xss) = length xs + total_length xss

pub coalesce-all :
    (total : ℕ) (xss : List (List ℕ))
    → total + total_length xss < batch_bytes
    → coalesce total (items_of xss) ≡ (concat xss, [])
unfolding coalesce
coalesce-all total [] h = refl
coalesce-all total (xs ∷ xss) h =
    rw
      (
        lt→ltb total batch_bytes (omega arith),
        le→leb (total + length xs) batch_bytes (omega arith),
        coalesce-all (total + length xs) xss (omega arith),
      )
      refl
