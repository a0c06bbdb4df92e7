-- ===== src/Verifier/Binding.antt =====
-- What an accepted anchor document says about the row hashes that it was checked against.
use trackward.Prelude.{
  ◌<◌, ◌≡◌, refl, sym, ap, ◌∙◌, ◌⊎◌, List, Bytes, ascii, bytes_eq, bytes_eq→eq, length, ◌==◌,
  ==_iff, ltb, ltb→lt, Bool, true, Option, none, some, ok, >>=-eq-ok, guard, false, guard-eq-ok, ℤ,
  i64_bits,
}
use trackward.ChainCore.Hashing.{Hash, Collision}
use trackward.ChainCore.Merkle.{compute_root}
use trackward.ChainCore.Merkle.Binding.{compute_root_injective}
use trackward.ChainCore.CanonicalJson.Syntax.{Value}
use trackward.External.{External, IsExternal}
use trackward.Verifier.Bundle.{
  json_error, missing_field, hex_error, bad_signature, leaf_count_mismatch, root_mismatch,
  root_panic, get, as_i64, ok_or, and_then, field_str, check_manifest,
}
use trackward.Verifier.Anchor.{VerifiedAnchor, check_leaves, verify_anchor}

pub ok_or-some {ℓ κ} :
    {E : Type ℓ} {A : Type κ} (e : E) (o : Option A) {a : A} → ok_or e o ≡ ok a → o ≡ some a
ok_or-some e none h = cc h
ok_or-some e (some b) h = ap some (cc h)

-- The manifest's hash is the one claimed, and a key's signature of the manifest verifies.
pub record IsSigned (x : External) (manifest_json sha signature public_hex : Bytes) : Type 0 where
  pub hashed : x.hex_encode (x.sha256 manifest_json) ≡ sha
  pub key : Bytes
  pub key_bytes : x.hex_decode public_hex ≡ some key
  pub sig : Bytes
  pub sig_bytes : x.hex_decode signature ≡ some sig
  pub verified : x.verify key manifest_json sig ≡ true

-- The manifest names the root of the row hashes and their number.
pub record IsCovered (x : External) (manifest : Value) (row_hashes : List Hash) : Type 0 where
  pub root : Hash
  pub computed : compute_root x.sha256 row_hashes ≡ some root
  pub claimed_root : field_str manifest (ascii "root_hash") ≡ ok (x.hex_encode root)
  pub count : ℤ
  pub claimed_count : and_then (get (ascii "leaf_count") manifest) as_i64 ≡ some count
  pub counted : i64_bits count ≡ length row_hashes
  pub some_leaf : 0 < length row_hashes

-- What an accepted document holds: a signed manifest that covers the row hashes.
pub record IsAttested (x : External) (doc_json : Bytes) (row_hashes : List Hash) : Type 0 where
  pub doc : Value
  pub parsed : x.from_str doc_json ≡ some doc
  pub manifest_json : Bytes
  pub has_manifest : field_str doc (ascii "manifest_json") ≡ ok manifest_json
  pub sha : Bytes
  pub signature : Bytes
  pub public_hex : Bytes
  pub has_sha : field_str doc (ascii "manifest_sha256") ≡ ok sha
  pub has_signature : field_str doc (ascii "signature") ≡ ok signature
  pub has_public : field_str doc (ascii "public_key_hex") ≡ ok public_hex
  pub signed : IsSigned x manifest_json sha signature public_hex
  pub manifest : Value
  pub parsed_manifest : x.from_str manifest_json ≡ some manifest
  pub covered : IsCovered x manifest row_hashes

module _ (x : External) where
  check_manifest-IsSigned :
      (mj sha sig pk : Bytes) → check_manifest x mj sha sig pk ≡ ok tt → IsSigned x mj sha sig pk
  unfolding check_manifest
  check_manifest-IsSigned mj sha sig pk h =
      let (same, h₁) = guard-eq-ok (bytes_eq (x.hex_encode (x.sha256 mj)) sha) _ _ h in
      let (key, hk, h₂) = >>=-eq-ok (ok_or hex_error (x.hex_decode pk)) _ h₁ in
      let (_, h₃) = guard-eq-ok (length key == 32) hex_error _ h₂ in
      let (_, h₄) = guard-eq-ok (x.is_key key) bad_signature _ h₃ in
      let (s, hs, h₅) = >>=-eq-ok (ok_or hex_error (x.hex_decode sig)) _ h₄ in
      let (_, h₆) = guard-eq-ok (length s == 64) hex_error _ h₅ in
      record {
        hashed = bytes_eq→eq _ _ same;
        key = key;
        key_bytes = ok_or-some hex_error _ hk;
        sig = s;
        sig_bytes = ok_or-some hex_error _ hs;
        verified = guard_true _ h₆;
      }
    where
      guard_true : (b : Bool) → guard b bad_signature ≡ ok tt → b ≡ true
      guard_true true g = refl
      guard_true false g = cc g

  check_leaves-IsCovered :
      (manifest : Value) (hs : List Hash) {r : Bytes × Bytes}
      → check_leaves x manifest hs ≡ ok r
      → IsCovered x manifest hs
  unfolding check_leaves
  check_leaves-IsCovered manifest hs h =
      let (claimed, hc, h₁) = >>=-eq-ok (field_str manifest (ascii "root_hash")) _ h in
      let (count, hn, h₂) =
        >>=-eq-ok
          (ok_or (missing_field (ascii "leaf_count"))
            (and_then (get (ascii "leaf_count") manifest) as_i64))
          _ h₁ in
      let (_, _, h₃) = >>=-eq-ok (field_str manifest (ascii "scope")) _ h₂ in
      let (same, h₄) =
        guard-eq-ok (i64_bits count == length hs) (leaf_count_mismatch (i64_bits count) (length hs))
          _ h₃ in
      let (leaf, h₅) =
        guard-eq-ok (ltb 0 (length hs)) (leaf_count_mismatch (i64_bits count) 0) _ h₄ in
      let (root, hr, h₆) = >>=-eq-ok (ok_or root_panic (compute_root x.sha256 hs)) _ h₅ in
      let (equal, _) =
        guard-eq-ok (bytes_eq (x.hex_encode root) claimed)
          (root_mismatch claimed (x.hex_encode root)) _ h₆ in
      record {
        root = root;
        computed = ok_or-some root_panic _ hr;
        claimed_root = hc ∙ ap ok (sym (bytes_eq→eq _ _ equal));
        count = count;
        claimed_count = ok_or-some (missing_field (ascii "leaf_count")) _ hn;
        counted = (==_iff _ _).0 same;
        some_leaf = ltb→lt _ _ leaf;
      }

  -- An accepted document carries a manifest whose hash and signature check, and which names the root
  -- of the given row hashes and their number, which is not zero.
  pub verify_anchor_sound :
      (doc_json : Bytes) (row_hashes : List Hash) {v : VerifiedAnchor}
      → verify_anchor x doc_json row_hashes ≡ ok v
      → IsAttested x doc_json row_hashes
  unfolding verify_anchor
  verify_anchor_sound doc_json hs h =
      let (doc, hd, h₁) = >>=-eq-ok (ok_or json_error (x.from_str doc_json)) _ h in
      let (mj, hm, h₂) = >>=-eq-ok (field_str doc (ascii "manifest_json")) _ h₁ in
      let (sha, hsha, h₃) = >>=-eq-ok (field_str doc (ascii "manifest_sha256")) _ h₂ in
      let (sig, hsig, h₄) = >>=-eq-ok (field_str doc (ascii "signature")) _ h₃ in
      let (pk, hpk, h₅) = >>=-eq-ok (field_str doc (ascii "public_key_hex")) _ h₄ in
      let (_, _, h₆) = >>=-eq-ok (field_str doc (ascii "key_id")) _ h₅ in
      let (unit, hsigned, h₇) = >>=-eq-ok (check_manifest x mj sha sig pk) _ h₆ in
      let (manifest, hmv, h₈) = >>=-eq-ok (ok_or json_error (x.from_str mj)) _ h₇ in
      let (r, hl, _) = >>=-eq-ok (check_leaves x manifest hs) _ h₈ in
      record {
        doc = doc;
        parsed = ok_or-some json_error _ hd;
        manifest_json = mj;
        has_manifest = hm;
        sha = sha;
        signature = sig;
        public_hex = pk;
        has_sha = hsha;
        has_signature = hsig;
        has_public = hpk;
        signed = check_manifest-IsSigned mj sha sig pk hsigned;
        manifest = manifest;
        parsed_manifest = ok_or-some json_error _ hmv;
        covered = check_leaves-IsCovered manifest hs hl;
      }

module _ (x : External) (laws : IsExternal x) where
  hex_encode_injective : (a b : Bytes) → x.hex_encode a ≡ x.hex_encode b → a ≡ b
  hex_encode_injective a b e =
      let decoded = sym (laws.decode-encode a) ∙ ap x.hex_decode e ∙ laws.decode-encode b in
      cc decoded

  IsCovered-unique :
      (manifest : Value) (hs ks : List Hash)
      → IsCovered x manifest hs
      → IsCovered x manifest ks
      → (hs ≡ ks) ⊎ Collision x.sha256
  IsCovered-unique manifest hs ks c d =
      let counts : i64_bits c.count ≡ i64_bits d.count = cc (c.claimed_count, d.claimed_count) in
      let hexes : x.hex_encode c.root ≡ x.hex_encode d.root = cc (c.claimed_root, d.claimed_root) in
      let roots = hex_encode_injective c.root d.root hexes in
      compute_root_injective x.sha256 laws.to32 hs ks (sym c.counted ∙ counts ∙ d.counted)
        (c.computed ∙ ap some roots ∙ sym d.computed)

  -- A document is accepted for one sequence of row hashes only, or SHA-256 collides.
  pub verify_anchor_unique :
      (doc_json : Bytes) (hs ks : List Hash) {v w : VerifiedAnchor}
      → verify_anchor x doc_json hs ≡ ok v
      → verify_anchor x doc_json ks ≡ ok w
      → (hs ≡ ks) ⊎ Collision x.sha256
  verify_anchor_unique doc_json hs ks hv kv =
      let a = verify_anchor_sound x doc_json hs hv in
      let b = verify_anchor_sound x doc_json ks kv in
      let docs : a.doc ≡ b.doc = cc (a.parsed, b.parsed) in
      let texts : a.manifest_json ≡ b.manifest_json = cc (a.has_manifest, b.has_manifest, docs) in
      let manifests : b.manifest ≡ a.manifest = cc (a.parsed_manifest, b.parsed_manifest, texts) in
      IsCovered-unique a.manifest hs ks a.covered (rw manifests at b.covered)
