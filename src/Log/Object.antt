-- ===== src/Log/Object.antt =====
-- The Python objects that the log decoder handles.
use p.Common.{ℕ, Bool, List, ℤ}

abbrev pub Text : Type 0
Text = List ℕ

-- A float is its 64 bits. `other_obj` stands for an object of any other type.
mutual
  pub data Object : Type 0 where
    none_obj : Object
    bool_obj : Bool → Object
    int_obj : ℤ → Object
    float_obj : ℕ → Object
    bytes_obj : List ℕ → Object
    str_obj : Text → Object
    list_obj tuple_obj : Items → Object
    dict_obj : Entries → Object
    other_obj : ℕ → Object

  pub data Items : Type 0 where
    nil : Items
    cons : Object → Items → Items

  -- In the order of insertion.
  pub data Entries : Type 0 where
    end : Entries
    entry : Object → Object → Entries → Entries
