-- ===== src/Tests/ReferenceTests.antt =====
-- The references of the log decoder on small files.
use p.Common.{◌≡◌, refl, true, [], ◌∷◌, none, some, codes, not, ◌==◌}
use p.Log.Cbor.{Item, uint, text_string, array, map, Pairs, stop, item, done, pair}
use p.Log.References.{Ledger, Calls, make, new_ref, get_item, release, drop, asks}
use p.Log.References.Formats.{fmts_ref, rows_ref, row_ref}
use p.Log.References.Rules.{Post}
use p.Log.References.Steps.{EndsFrom}
use p.Log.References.Items.{item_ref, key_ref, value_ref}
use p.Log.References.Holder.{
  life_refs, new_holder, init_refs, file_refs, load_refs, with_member, dealloc_refs,
}
use p.Log.References.Counts.{Owns, count}
use p.Log.References.Balance.{elements, item_ref-Ends}
use p.Log.References.Fetched.{Fetched, file_elements}
use p.Log.References.Life.{IsFile}
use p.Log.References.Distinct.{AreDistinct, life_refs-Owns}
use p.Log.Load.{member, strncmp_equal}

-- One reference is owned at the start; the call of number 6 fails.
abbrev start : Ledger
start = record { owned = 1 ∷ []; next = 2; items = 0 }

abbrev sixth_fails : Calls
sixth_fails n = not (n == 6)

abbrev succeeding : Calls
succeeding n = true

-- { [1, 2]: 3 }: the list, the numbers in it, the tuple and the value are made.
abbrev keyed : Item
keyed = map (pair (array (item (uint 1) (item (uint 2) stop))) (uint 3) done)

keyed_made :
    item_ref succeeding keyed start
    ≡ some (some 2, record { owned = 2 ∷ 1 ∷ []; next = 9; items = 2 })
unfolding item_ref make new_ref get_item release drop key_ref asks value_ref
keyed_made = refl

keyed_fails :
    item_ref sixth_fails keyed start ≡ some (none, record { owned = 1 ∷ []; next = 7; items = 2 })
unfolding item_ref make new_ref get_item release drop key_ref value_ref
keyed_fails = refl

item_ref-Ends_example : Post (EndsFrom start (elements keyed)) (item_ref sixth_fails keyed start)
item_ref-Ends_example = item_ref-Ends sixth_fails keyed start

-- { "fmts": { 4: [1, 2, "x"] }, "vars": 7 }
abbrev small : Pairs
small =
    pair (text_string (codes "fmts"))
      (map (
        pair (uint 4) (array (item (uint 1) (item (uint 2) (item (text_string (codes "x")) stop))))
          done))
      (pair (text_string (codes "vars")) (uint 7) done)

small-IsFile : IsFile small
unfolding member strncmp_equal
small-IsFile = ((tt, tt), (tt, tt))

small-AreDistinct : AreDistinct small
unfolding member strncmp_equal
small-AreDistinct = ((refl, tt), (tt, tt))

small_ends :
    life_refs succeeding (some (map small)) start
    ≡ some (([], true), record { owned = 1 ∷ []; next = 16; items = 3 })
unfolding life_refs new_holder init_refs file_refs load_refs member strncmp_equal with_member
    dealloc_refs item_ref make new_ref release drop asks fmts_ref rows_ref row_ref get_item
small_ends = refl

life_refs-Owns_example :
    Post
      (λ r l.
        Owns l (λ k. count k start.owned) × Fetched start.items (file_elements small) r.1 l.items)
      (life_refs sixth_fails (some (map small)) start)
life_refs-Owns_example = life_refs-Owns sixth_fails small start small-IsFile small-AreDistinct

-- A file with "vars" twice leaves a reference behind.
abbrev twice : Pairs
twice = pair (text_string (codes "vars")) (uint 7) (pair (text_string (codes "vars")) (uint 8) done)

twice_ends :
    life_refs succeeding (some (map twice)) start
    ≡ some ((7 ∷ [], true), record { owned = 7 ∷ 1 ∷ []; next = 10; items = 0 })
unfolding life_refs new_holder init_refs file_refs load_refs member strncmp_equal with_member
    dealloc_refs item_ref make new_ref release drop asks value_ref
twice_ends = refl
