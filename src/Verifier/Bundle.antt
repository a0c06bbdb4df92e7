-- ===== src/Verifier/Bundle.antt =====
-- tools/verifier/src/lib.rs: fields of a JSON document, the check of a signed manifest, and
-- `verify_bundle`.
use trackward.Prelude.{
  ℕ, suc, Bytes, ascii, bytes_eq, length, ◌==◌, if◌then◌else◌, Option, none, some, Result, ok, err,
  ◌>>=◌, ◌>>◌, guard, ℤ,
}
use trackward.ChainCore.CanonicalJson.Syntax.{
  Value, Items, Fields, string, number, array, object, nil, cons, end, entry,
}
use trackward.External.{External}

pub data VerifyError : Type 0 where
  json_error hex_error bad_signature : VerifyError
  hash_mismatch : (expected actual : Bytes) → VerifyError
  missing_field : Bytes → VerifyError
  leaf_count_mismatch : (expected actual : ℕ) → VerifyError
  root_mismatch : (expected actual : Bytes) → VerifyError
  -- `compute_root` panicked.
  root_panic : VerifyError

-- The value of a key in the entries of a map.
unfoldable pub lookup_field : Bytes → Fields → Option Value
lookup_field key end = none
lookup_field key (entry k v fs) = if bytes_eq k key then some v else lookup_field key fs

-- `Value::get` of a key: only an object has one.
unfoldable pub get : Bytes → Value → Option Value
unfolding lookup_field
get key (object fs) = lookup_field key fs
get key _ = none

unfoldable pub as_str : Value → Option Bytes
as_str (string s) = some s
as_str _ = none

unfoldable pub as_i64 : Value → Option ℤ
as_i64 (number n) = n.as_i64
as_i64 _ = none

unfoldable pub items_length : Items → ℕ
items_length nil = 0
items_length (cons v vs) = suc (items_length vs)

-- `as_array().map(|a| a.len())`
unfoldable pub array_length : Value → Option ℕ
unfolding items_length
array_length (array vs) = some (items_length vs)
array_length _ = none

-- `ok_or(e)`
abbrev pub ok_or {ℓ κ} : {E : Type ℓ} {A : Type κ} → E → Option A → Result E A
ok_or e none = err e
ok_or e (some a) = ok a

abbrev pub and_then {ℓ κ} : {A : Type ℓ} {B : Type κ} → Option A → (A → Option B) → Option B
and_then none f = none
and_then (some a) f = f a

unfoldable pub field_str : Value → Bytes → Result VerifyError Bytes
unfolding get as_str
field_str v field = ok_or (missing_field field) (and_then (get field v) as_str)

pub record Verified : Type 0 where
  pub signed_by : Bytes
  pub evidence_count : ℕ
  pub key_id : Bytes

-- `unwrap_or`
abbrev pub unwrap_or {ℓ} : {A : Type ℓ} → A → Option A → A
unwrap_or a none = a
unwrap_or a (some b) = b

module _ (x : External) where
  -- The hash check and the signature check, which `verify_bundle` and `verify_anchor` both make.
  unfoldable pub check_manifest :
      (manifest_json manifest_sha256 signature_hex public_key_hex : Bytes)
      → Result VerifyError (Unit {0})
  check_manifest manifest_json manifest_sha256 signature_hex public_key_hex = do
    let computed = x.hex_encode (x.sha256 manifest_json)
    guard (bytes_eq computed manifest_sha256) (hash_mismatch manifest_sha256 computed)
    pk_bytes ← ok_or hex_error (x.hex_decode public_key_hex)
    guard (length pk_bytes == 32) hex_error
    guard (x.is_key pk_bytes) bad_signature
    sig_bytes ← ok_or hex_error (x.hex_decode signature_hex)
    guard (length sig_bytes == 64) hex_error
    guard (x.verify pk_bytes manifest_json sig_bytes) bad_signature

  unfoldable pub verify_bundle : Bytes → Result VerifyError Verified
  unfolding field_str check_manifest array_length
  verify_bundle json = do
    bundle ← ok_or json_error (x.from_str json)
    manifest_json ← field_str bundle (ascii "manifest_json")
    manifest_sha256 ← field_str bundle (ascii "manifest_sha256")
    signature_hex ← field_str bundle (ascii "signature")
    public_key_hex ← field_str bundle (ascii "public_key_hex")
    key_id ← field_str bundle (ascii "key_id")
    signed_by ← field_str bundle (ascii "signed_by")
    check_manifest manifest_json manifest_sha256 signature_hex public_key_hex
    manifest ← ok_or json_error (x.from_str manifest_json)
    let evidence_count = unwrap_or 0 (and_then (get (ascii "evidence") manifest) array_length)
    ok (record { signed_by = signed_by; evidence_count = evidence_count; key_id = key_id })
