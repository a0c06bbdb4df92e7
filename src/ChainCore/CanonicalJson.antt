-- ===== src/ChainCore/CanonicalJson.antt =====
-- crates/chain-core/src/canonical_json.rs: the canonical text of a JSON value.
--
-- A text is the list of its UTF-8 bytes. Every character that `write_string` treats specially is
-- one byte, and the bytes of the other characters pass through, as the characters do.
pub mod Syntax
pub mod Sorted
use trackward.Prelude.{
  ℕ, zero, suc, ◌+◌, ◌-◌, ◌/◌, ◌%◌, List, [], ◌∷◌, ◌++◌, Bytes, ascii, Result, ok, err, ◌>>=◌, ltb,
  ◌==◌, if◌then◌else◌, lex_le, Bool, true, false, Option, none, some, ℤ, pos, negsuc,
}
use trackward.ChainCore.CanonicalJson.Syntax.{
  Value, Items, Fields, Number, null, bool, number, string, array, object, nil, cons, end, entry,
  Panic, float_number,
}

-- The decimal digits that `{}` prints of an unsigned number, on fuel above the number.
unfoldable pub decimal : ℕ → ℕ → Bytes
decimal zero n = []
decimal (suc fuel) n =
    let front = decimal fuel (n / 10) in
    if ltb n 10 then (b'0' + n) ∷ [] else front ++ (b'0' + n % 10) ∷ []

unfoldable pub show_nat : ℕ → Bytes
unfolding decimal
show_nat n = decimal (suc n) n

-- `{}` of a signed number.
unfoldable pub show_int : ℤ → Bytes
unfolding show_nat
show_int (pos n) = show_nat n
show_int (negsuc n) = b'-' ∷ show_nat (n + 1)

-- A digit of `{:x}`.
abbrev pub hex_digit : ℕ → ℕ
hex_digit d = if ltb d 10 then b'0' + d else b'a' + (d - 10)

-- One character of a string. The cases of the `match` stand in its order.
unfoldable pub escape : ℕ → Bytes
escape c =
    if c == b'"'
    then b'\\' ∷ b'"' ∷ []
    else if c == b'\\'
    then b'\\' ∷ b'\\' ∷ []
    else if c == 0x0a
    then b'\\' ∷ b'n' ∷ []
    else if c == 0x0d
    then b'\\' ∷ b'r' ∷ []
    else if c == 0x09
    then b'\\' ∷ b't' ∷ []
    else if c == 0x08
    then b'\\' ∷ b'b' ∷ []
    else if c == 0x0c
    then b'\\' ∷ b'f' ∷ []
    else if ltb c 0x20
    then b'\\' ∷ b'u' ∷ b'0' ∷ b'0' ∷ hex_digit (c / 16) ∷ hex_digit (c % 16) ∷ []
    else c ∷ []

unfoldable pub escape_all : Bytes → Bytes
unfolding escape
escape_all [] = []
escape_all (c ∷ s) = escape c ++ escape_all s

unfoldable pub write_string : Bytes → Bytes
unfolding escape_all
write_string s = b'"' ∷ (escape_all s ++ b'"' ∷ [])

-- One entry of an object with its value written: what the loop over `keys` appends for a key.
abbrev pub Entry : Type 0
Entry = Bytes × Bytes

-- `keys.sort()`, with the entries that the keys stand for.
unfoldable pub insert_key : Entry → List Entry → List Entry
insert_key e [] = e ∷ []
insert_key e (f ∷ es) = if lex_le e.0 f.0 then e ∷ f ∷ es else f ∷ insert_key e es

unfoldable pub sort_keys : List Entry → List Entry
unfolding insert_key
sort_keys [] = []
sort_keys (e ∷ es) = insert_key e (sort_keys es)

-- `if i > 0 { out.push(',') }`
abbrev pub comma : Bool → Bytes
comma first = if first then [] else b',' ∷ []

unfoldable pub write_entries : Bool → List Entry → Bytes
unfolding write_string
write_entries first [] = []
write_entries first ((k, v) ∷ es) =
    comma first ++ (write_string k ++ b':' ∷ (v ++ write_entries false es))

-- `as_i64`, else `as_u64`, else the panic.
unfoldable pub write_number : Number → Result Panic Bytes
unfolding show_int
write_number n = elim n.as_i64 [
  | some i ↦ ok (show_int i)
  | none ↦ elim n.as_u64 [ some u ↦ ok (show_nat u) | none ↦ err float_number ]
]

-- The text that `write_value` appends. The values of an object are written before the keys are
-- sorted here, and after that in the source: the text and the panic are the same.
unfoldable mutual
  unfolding write_string write_number sort_keys write_entries

  pub write_value : Value → Result Panic Bytes
  write_value null = ok (ascii "null")
  write_value (bool true) = ok (ascii "true")
  write_value (bool false) = ok (ascii "false")
  write_value (number n) = write_number n
  write_value (string s) = ok (write_string s)
  write_value (array xs) = do items ← write_items true xs; ok (b'[' ∷ (items ++ b']' ∷ []))
  write_value (object map) = do
    entries ← write_fields map
    ok (b'{' ∷ (write_entries true (sort_keys entries) ++ b'}' ∷ []))

  pub write_items : Bool → Items → Result Panic Bytes
  write_items first nil = ok []
  write_items first (cons x xs) = do
    item ← write_value x
    rest ← write_items false xs
    ok (comma first ++ (item ++ rest))

  pub write_fields : Fields → Result Panic (List Entry)
  write_fields end = ok []
  write_fields (entry k v fs) = do
    text ← write_value v
    rest ← write_fields fs
    ok ((k, text) ∷ rest)

unfoldable pub to_canonical_string : Value → Result Panic Bytes
unfolding write_value
to_canonical_string v = write_value v
