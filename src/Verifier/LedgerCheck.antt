-- ===== src/Verifier/LedgerCheck.antt =====
-- `verify_anchor_doc` of services/ledger/src/anchoring.rs: the ledger's own check of an anchor
-- document, and how it relates to the verifier's.
use trackward.Prelude.{
  ◌≡◌, refl, ap, ◌++◌, ltb, List, Bytes, ascii, bytes_eq, length, ◌==◌, Bool, true, false, Result,
  ok, ◌>>=◌, ◌>>◌, guard, >>=-eq-ok, guard-eq-ok, i64_bits,
}
use trackward.ChainCore.Hashing.{Hash}
use trackward.ChainCore.Merkle.{compute_root}
use trackward.ChainCore.CanonicalJson.{show_int, show_nat}
use trackward.ChainCore.CanonicalJson.Syntax.{Value}
use trackward.External.{External}
use trackward.Ledger.Db.{Error, bad_request, hash_mismatch}
use trackward.Ledger.Anchoring.{root_or_panic}
use trackward.Verifier.Bundle.{
  json_error, hex_error, bad_signature, missing_field, leaf_count_mismatch, root_mismatch,
  root_panic, ok_or, and_then, get, as_str, as_i64, field_str, check_manifest,
}
use trackward.Verifier.Anchor.{VerifiedAnchor, check_leaves, verify_anchor}
use trackward.Verifier.Binding.{ok_or-some}

module _ (x : External) where
  unfoldable pub doc_field : Value → Bytes → Result Error Bytes
  unfolding get as_str
  doc_field v name = ok_or bad_request (and_then (get name v) as_str)

  -- The hash and the signature. The texts of bad requests are left out.
  unfoldable pub check_signed :
      (manifest_json claimed_sha signature_hex public_key_hex : Bytes) → Result Error (Unit {0})
  check_signed manifest_json claimed_sha signature_hex public_key_hex = do
    let actual_sha = x.hex_encode (x.sha256 manifest_json)
    guard (bytes_eq actual_sha claimed_sha) (hash_mismatch claimed_sha actual_sha)
    pk_bytes ← ok_or bad_request (x.hex_decode public_key_hex)
    guard (length pk_bytes == 32) bad_request
    guard (x.is_key pk_bytes) bad_request
    sig_bytes ← ok_or bad_request (x.hex_decode signature_hex)
    guard (length sig_bytes == 64) bad_request
    guard (x.verify pk_bytes manifest_json sig_bytes) bad_request

  unfoldable pub check_covered : (manifest : Value) → List Hash → Result Error (Unit {0})
  unfolding get as_i64 doc_field compute_root
  check_covered manifest leaves = do
    claimed_root ← doc_field manifest (ascii "root_hash")
    claimed_count ← ok_or bad_request (and_then (get (ascii "leaf_count") manifest) as_i64)
    guard (i64_bits claimed_count == length leaves) (
        hash_mismatch (ascii "leaf_count=" ++ show_int claimed_count)
          (ascii "leaf_count=" ++ show_nat (length leaves)))
    guard (ltb 0 (length leaves)) bad_request
    root ← root_or_panic (compute_root x.sha256 leaves)
    let computed_root = x.hex_encode root
    guard (bytes_eq computed_root claimed_root) (hash_mismatch claimed_root computed_root)

  unfoldable pub verify_anchor_doc : Bytes → List Hash → Result Error (Unit {0})
  unfolding doc_field check_signed check_covered
  verify_anchor_doc doc_json leaves = do
    doc ← ok_or bad_request (x.from_str doc_json)
    manifest_json ← doc_field doc (ascii "manifest_json")
    claimed_sha ← doc_field doc (ascii "manifest_sha256")
    signature_hex ← doc_field doc (ascii "signature")
    public_key_hex ← doc_field doc (ascii "public_key_hex")
    check_signed manifest_json claimed_sha signature_hex public_key_hex
    manifest ← ok_or bad_request (x.from_str manifest_json)
    check_covered manifest leaves

  doc_field-eq-ok :
      (v : Value) (name : Bytes) {s : Bytes} → field_str v name ≡ ok s → doc_field v name ≡ ok s
  unfolding doc_field field_str
  doc_field-eq-ok v name h = ap (ok_or bad_request) (ok_or-some (missing_field name) _ h)

  check_signed-eq-ok :
      (mj sha sig pk : Bytes)
      → check_manifest x mj sha sig pk ≡ ok tt
      → check_signed mj sha sig pk ≡ ok tt
  unfolding check_manifest check_signed
  check_signed-eq-ok mj sha sig pk h =
      let (same, h₁) = guard-eq-ok (bytes_eq (x.hex_encode (x.sha256 mj)) sha) _ _ h in
      let (key, hk, h₂) = >>=-eq-ok (ok_or hex_error (x.hex_decode pk)) _ h₁ in
      let (key_len, h₃) = guard-eq-ok (length key == 32) hex_error _ h₂ in
      let (valid, h₄) = guard-eq-ok (x.is_key key) bad_signature _ h₃ in
      let (s, hs, h₅) = >>=-eq-ok (ok_or hex_error (x.hex_decode sig)) _ h₄ in
      let (sig_len, h₆) = guard-eq-ok (length s == 64) hex_error _ h₅ in
      simp (
        same,
        ok_or-some hex_error _ hk,
        key_len,
        valid,
        ok_or-some hex_error _ hs,
        sig_len,
        guard_true _ h₆,
      )
    where
      guard_true : (b : Bool) → guard b bad_signature ≡ ok tt → b ≡ true
      guard_true true g = refl
      guard_true false g = cc g

  check_covered-eq-ok :
      (manifest : Value) (hs : List Hash) {r : Bytes × Bytes}
      → check_leaves x manifest hs ≡ ok r
      → check_covered manifest hs ≡ ok tt
  unfolding check_leaves check_covered
  check_covered-eq-ok manifest hs h =
      let (claimed, hc, h₁) = >>=-eq-ok (field_str manifest (ascii "root_hash")) _ h in
      let (count, hn, h₂) =
        >>=-eq-ok
          (ok_or (missing_field (ascii "leaf_count"))
            (and_then (get (ascii "leaf_count") manifest) as_i64))
          _ h₁ in
      let (_, _, h₃) = >>=-eq-ok (field_str manifest (ascii "scope")) _ h₂ in
      let (same, h₄) =
        guard-eq-ok (i64_bits count == length hs) (leaf_count_mismatch (i64_bits count) (length hs))
          _ h₃ in
      let (leaf, h₅) =
        guard-eq-ok (ltb 0 (length hs)) (leaf_count_mismatch (i64_bits count) 0) _ h₄ in
      let (root, hr, h₆) = >>=-eq-ok (ok_or root_panic (compute_root x.sha256 hs)) _ h₅ in
      let (equal, _) =
        guard-eq-ok (bytes_eq (x.hex_encode root) claimed)
          (root_mismatch claimed (x.hex_encode root)) _ h₆ in
      rw
        (
          doc_field-eq-ok manifest (ascii "root_hash") hc,
          ok_or-some (missing_field (ascii "leaf_count")) _ hn,
          same,
          leaf,
          ok_or-some root_panic _ hr,
          equal,
        )
        refl

  -- A document that the offline verifier accepts for some row hashes, the ledger's own check accepts
  -- for them too.
  pub verify_anchor-verify_anchor_doc :
      (doc_json : Bytes) (row_hashes : List Hash) {v : VerifiedAnchor}
      → verify_anchor x doc_json row_hashes ≡ ok v
      → verify_anchor_doc doc_json row_hashes ≡ ok tt
  unfolding verify_anchor verify_anchor_doc
  verify_anchor-verify_anchor_doc doc_json hs h =
      let (doc, hd, h₁) = >>=-eq-ok (ok_or json_error (x.from_str doc_json)) _ h in
      let (mj, hm, h₂) = >>=-eq-ok (field_str doc (ascii "manifest_json")) _ h₁ in
      let (sha, hsha, h₃) = >>=-eq-ok (field_str doc (ascii "manifest_sha256")) _ h₂ in
      let (sig, hsig, h₄) = >>=-eq-ok (field_str doc (ascii "signature")) _ h₃ in
      let (pk, hpk, h₅) = >>=-eq-ok (field_str doc (ascii "public_key_hex")) _ h₄ in
      let (_, _, h₆) = >>=-eq-ok (field_str doc (ascii "key_id")) _ h₅ in
      let (unit, hsigned, h₇) = >>=-eq-ok (check_manifest x mj sha sig pk) _ h₆ in
      let (manifest, hmv, h₈) = >>=-eq-ok (ok_or json_error (x.from_str mj)) _ h₇ in
      let (r, hl, _) = >>=-eq-ok (check_leaves x manifest hs) _ h₈ in
      rw
        (
          ok_or-some json_error _ hd,
          doc_field-eq-ok doc (ascii "manifest_json") hm,
          doc_field-eq-ok doc (ascii "manifest_sha256") hsha,
          doc_field-eq-ok doc (ascii "signature") hsig,
          doc_field-eq-ok doc (ascii "public_key_hex") hpk,
          check_signed-eq-ok mj sha sig pk hsigned,
          ok_or-some json_error _ hmv,
          check_covered-eq-ok manifest hs hl,
        )
        refl
