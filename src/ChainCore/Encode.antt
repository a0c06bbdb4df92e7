-- ===== src/ChainCore/Encode.antt =====
-- crates/chain-core/src/encode.rs: the bytes of a row that its hash covers.
--
-- A UUID is its 16 bytes, a text its UTF-8 bytes, a timestamp the nanoseconds since 1970. The text
-- of a timestamp is made by the `chrono` crate, so its formatter is a parameter.
pub mod Order
pub mod Values
pub mod Binding
use trackward.Prelude.{
  ℕ, ◌^◌, ◌%◌, ◌<◌, List, [], ◌∷◌, ◌++◌, Bytes, ascii, Result, ok, err, ◌>>=◌, ◌>>◌, guard, ltb,
  leb, ◌&&◌, not, if◌then◌else◌, lex_le, bytes_eq, Bool, true, false, Option, none, some, ℤ, length,
  to_be_bytes, i64_bits,
}
use trackward.ChainCore.CanonicalJson.{to_canonical_string}
use trackward.ChainCore.CanonicalJson.Syntax.{
  Value, Panic, table_not_ascii, table_too_long, too_many_fields, duplicate_field, field_not_ascii,
  value_too_long,
}

-- `b"trackward-row-v1\0"`
abbrev pub row_domain : Bytes
row_domain = ascii "trackward-row-v1" ++ 0 ∷ []

abbrev pub u16_max : ℕ
u16_max = 65535

abbrev pub u32_max : ℕ
u32_max = 4294967295

abbrev pub Timestamp : Type 0
Timestamp = ℕ

-- `to_rfc3339_opts(SecondsFormat::Micros, true)`
abbrev pub Rfc3339 : Type 0
Rfc3339 = Timestamp → Bytes

pub data CanonicalValue : Type 0 where
  uuid : Bytes → CanonicalValue
  i64 : ℤ → CanonicalValue
  str : Bytes → CanonicalValue
  json : Value → CanonicalValue
  timestamp : Timestamp → CanonicalValue
  bytes : Bytes → CanonicalValue
  null : CanonicalValue
  bool : Bool → CanonicalValue

pub record CanonicalField : Type 0 where
  pub name : Bytes
  pub value : CanonicalValue

abbrev pub field : Bytes → CanonicalValue → CanonicalField
field n v = record { name = n; value = v }

-- `opt_uuid`, `opt_str`, `opt_i64`, `opt_bytes`, `opt_timestamp`: an absent value is a null column.
abbrev pub opt {ℓ} : {A : Type ℓ} → (A → CanonicalValue) → Bytes → Option A → CanonicalField
opt wrap n none = field n CanonicalValue.null
opt wrap n (some v) = field n (wrap v)

-- `is_ascii`
unfoldable pub is_ascii : Bytes → Bool
is_ascii [] = true
is_ascii (b ∷ bs) = ltb b 128 && is_ascii bs

unfoldable pub write_u32_prefixed : Bytes → Result Panic Bytes
write_u32_prefixed bs = do
  guard (leb (length bs) u32_max) value_too_long
  ok (to_be_bytes 4 (length bs) ++ bs)

-- `sort_by(|a, b| a.name.cmp(b.name))`, which is stable.
unfoldable pub insert_by_name : CanonicalField → List CanonicalField → List CanonicalField
insert_by_name f [] = f ∷ []
insert_by_name f (g ∷ gs) = if lex_le f.name g.name then f ∷ g ∷ gs else g ∷ insert_by_name f gs

unfoldable pub sort_by_name : List CanonicalField → List CanonicalField
unfolding insert_by_name
sort_by_name [] = []
sort_by_name (f ∷ fs) = insert_by_name f (sort_by_name fs)

-- The loop over `windows(2)`: no two neighbours have one name.
unfoldable pub names_differ : List CanonicalField → Bool
names_differ [] = true
names_differ (f ∷ []) = true
names_differ (f ∷ g ∷ gs) = not (bytes_eq f.name g.name) && names_differ (g ∷ gs)

module _ (rfc3339 : Rfc3339) where
  -- The tag and the payload, by the `match` of `encode_field`.
  unfoldable pub encode_value : CanonicalValue → Result Panic Bytes
  unfolding write_u32_prefixed
  encode_value (uuid u) = ok (0x01 ∷ u)
  encode_value (i64 n) = ok (0x02 ∷ to_be_bytes 8 (i64_bits n))
  encode_value (str s) = do payload ← write_u32_prefixed s; ok (0x03 ∷ payload)
  encode_value (json v) = do
    canon ← to_canonical_string v
    payload ← write_u32_prefixed canon
    ok (0x04 ∷ payload)
  encode_value (timestamp t) = do payload ← write_u32_prefixed (rfc3339 t); ok (0x05 ∷ payload)
  encode_value (bytes b) = do payload ← write_u32_prefixed b; ok (0x06 ∷ payload)
  encode_value CanonicalValue.null = ok (0x07 ∷ [])
  encode_value (bool b) = ok (0x08 ∷ (if b then 1 else 0) ∷ [])

  -- The bytes that `encode_field` appends. `as u16` keeps the low 16 bits of the name's length.
  unfoldable pub encode_field : CanonicalField → Result Panic Bytes
  unfolding is_ascii encode_value
  encode_field f = do
    guard (is_ascii f.name) field_not_ascii
    value ← encode_value f.value
    ok (to_be_bytes 2 (length f.name % 2 ^ 16) ++ (f.name ++ value))

  unfoldable pub encode_fields : List CanonicalField → Result Panic Bytes
  unfolding encode_field
  encode_fields [] = ok []
  encode_fields (f ∷ fs) = do first ← encode_field f; rest ← encode_fields fs; ok (first ++ rest)

  unfoldable pub canonical_row_bytes : Bytes → List CanonicalField → Result Panic Bytes
  unfolding is_ascii sort_by_name names_differ encode_fields
  canonical_row_bytes table fields = do
    guard (is_ascii table) table_not_ascii
    guard (leb (length table) u16_max) table_too_long
    guard (leb (length fields) u16_max) too_many_fields
    let sorted = sort_by_name fields
    guard (names_differ sorted) duplicate_field
    rows ← encode_fields sorted
    ok (
        row_domain
        ++ (to_be_bytes 2 (length table) ++ (table ++ (to_be_bytes 2 (length sorted) ++ rows))))
