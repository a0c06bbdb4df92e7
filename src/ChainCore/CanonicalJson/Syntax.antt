-- ===== src/ChainCore/CanonicalJson/Syntax.antt =====
-- The values of `serde_json` that canonical_json.rs matches on, and how the crate panics.
use trackward.Prelude.{ℕ, Bytes, Bool, Option, ℤ}

-- A number, by what its accessors `as_i64` and `as_u64` return.
pub record Number : Type 0 where
  pub as_i64 : Option ℤ
  pub as_u64 : Option ℕ

mutual
  pub data Value : Type 0 where
    null : Value
    bool : Bool → Value
    number : Number → Value
    string : Bytes → Value
    array : Items → Value
    object : Fields → Value

  pub data Items : Type 0 where
    nil : Items
    cons : Value → Items → Items

  -- The entries of a map, in the order in which it keeps them.
  pub data Fields : Type 0 where
    end : Fields
    entry : Bytes → Value → Fields → Fields

-- The panics and failed assertions of the crate.
pub data Panic : Type 0 where
  float_number : Panic
  table_not_ascii table_too_long too_many_fields duplicate_field : Panic
  field_not_ascii value_too_long : Panic
