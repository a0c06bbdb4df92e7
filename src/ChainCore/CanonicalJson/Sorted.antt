-- ===== src/ChainCore/CanonicalJson/Sorted.antt =====
-- How serde_json reads an object: its map keeps the keys sorted. The keys of an object differ.
use trackward.Prelude.{Bytes, lex_le, if◌then◌else◌}
use trackward.ChainCore.CanonicalJson.Syntax.{
  Value, Items, Fields, null, bool, number, string, array, object, nil, cons, end, entry,
}

unfoldable pub insert_key : Bytes → Value → Fields → Fields
unfolding lex_le
insert_key key v end = entry key v end
insert_key key v (entry k u fs) =
    let rest = insert_key key v fs in
    if lex_le key k then entry key v (entry k u fs) else entry k u rest

unfoldable mutual
  unfolding insert_key

  pub value_sorted : Value → Value
  value_sorted (array is) = array (items_sorted is)
  value_sorted (object fs) = object (fields_sorted fs)
  value_sorted null = null
  value_sorted (bool b) = bool b
  value_sorted (number n) = number n
  value_sorted (string s) = string s

  pub items_sorted : Items → Items
  items_sorted nil = nil
  items_sorted (cons v is) = cons (value_sorted v) (items_sorted is)

  pub fields_sorted : Fields → Fields
  fields_sorted end = end
  fields_sorted (entry k v fs) = insert_key k (value_sorted v) (fields_sorted fs)
