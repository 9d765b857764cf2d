-- ===== src/Values.antt =====
-- JSON values with exact numbers: `Value` of src/fields/ast.rs. The tokens of numbers and all texts
-- are their UTF-8 bytes. An object is the list of its members in key order, as a `BTreeMap` has them.
use clove1db.Prelude.{Bool, true, false, not, ◌||◌}
use clove1db.Prelude.Bytes.{Text}
use clove1db.Prelude.Int.{ℤ}

mutual
  pub data Value : Type 0 where
    missing null : Value
    bool : Bool → Value
    number : Text → Value
    time : ℤ → Value
    string : Text → Value
    array : Items → Value
    object : Members → Value

  pub data Items : Type 0 where
    none : Items
    item : Value → Items → Items

  pub data Members : Type 0 where
    end : Members
    member : Text → Value → Members → Members

abbrev pub is_null : Value → Bool
is_null null = true
is_null _ = false

abbrev pub is_missing : Value → Bool
is_missing missing = true
is_missing _ = false

unfoldable pub is_empty : Value → Bool
is_empty v = is_missing v || is_null v

unfoldable pub exists : Value → Bool
exists v = not (is_missing v)
