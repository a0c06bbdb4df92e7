-- ===== src/Verifier/Anchor.antt =====
-- tools/verifier/src/anchor.rs: the check of an anchor document against the row hashes of a dossier.
use trackward.Prelude.{
  ℕ, List, Bytes, ascii, bytes_eq, length, ◌==◌, Result, ok, ◌>>=◌, ◌>>◌, guard, ltb, i64_bits,
}
use trackward.ChainCore.Hashing.{Hash}
use trackward.ChainCore.Merkle.{compute_root}
use trackward.ChainCore.CanonicalJson.Syntax.{Value}
use trackward.External.{External}
use trackward.Verifier.Bundle.{
  VerifyError, json_error, missing_field, leaf_count_mismatch, root_mismatch, root_panic, get,
  as_i64, ok_or, and_then, field_str, check_manifest,
}

pub record VerifiedAnchor : Type 0 where
  pub scope : Bytes
  pub leaf_count : ℕ
  pub root_hex : Bytes
  pub key_id : Bytes

module _ (x : External) where
  -- The recomputed root and the claims of the signed manifest. `as usize` keeps the 64 bits.
  unfoldable pub check_leaves :
      (manifest : Value) (row_hashes : List Hash) → Result VerifyError (Bytes × Bytes)
  unfolding get as_i64 field_str compute_root
  check_leaves manifest row_hashes = do
    claimed_root ← field_str manifest (ascii "root_hash")
    claimed_count ←
        ok_or (missing_field (ascii "leaf_count"))
          (and_then (get (ascii "leaf_count") manifest) as_i64)
    scope ← field_str manifest (ascii "scope")
    let n = length row_hashes
    let claimed = i64_bits claimed_count
    guard (claimed == n) (leaf_count_mismatch claimed n)
    guard (ltb 0 n) (leaf_count_mismatch claimed 0)
    root ← ok_or root_panic (compute_root x.sha256 row_hashes)
    let computed_root = x.hex_encode root
    guard (bytes_eq computed_root claimed_root) (root_mismatch claimed_root computed_root)
    ok (scope, computed_root)

  unfoldable pub verify_anchor : Bytes → List Hash → Result VerifyError VerifiedAnchor
  unfolding check_leaves check_manifest field_str
  verify_anchor doc_json row_hashes = do
    doc ← ok_or json_error (x.from_str doc_json)
    manifest_json ← field_str doc (ascii "manifest_json")
    manifest_sha256 ← field_str doc (ascii "manifest_sha256")
    signature_hex ← field_str doc (ascii "signature")
    public_key_hex ← field_str doc (ascii "public_key_hex")
    key_id ← field_str doc (ascii "key_id")
    check_manifest x manifest_json manifest_sha256 signature_hex public_key_hex
    manifest ← ok_or json_error (x.from_str manifest_json)
    (scope, root_hex) ← check_leaves manifest row_hashes
    ok (record {
      scope = scope;
      leaf_count = length row_hashes;
      root_hex = root_hex;
      key_id = key_id;
    })
