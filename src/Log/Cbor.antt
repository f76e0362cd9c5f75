-- ===== src/Log/Cbor.antt =====
-- An item of libcbor, as its accessors show it to the log decoder: cbor_typeof and the predicates
-- give the constructor, and cbor_get_int, the handles with the lengths, cbor_get_bool and
-- cbor_float_get_float what stands in it. A float is the bits of the double.
use p.Common.{ℕ, Bool, List}

mutual
  pub data Item : Type 0 where
    -- a NULL pointer
    absent : Item
    uint negint : ℕ → Item
    bytestring text_string : List ℕ → Item
    array : Array → Item
    map : Pairs → Item
    boolean : Bool → Item
    null : Item
    float : ℕ → Item
    tag : Item

  pub data Array : Type 0 where
    stop : Array
    item : Item → Array → Array

  pub data Pairs : Type 0 where
    done : Pairs
    pair : Item → Item → Pairs → Pairs
