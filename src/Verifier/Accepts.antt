-- ===== src/Verifier/Accepts.antt =====
-- The document that an anchor tick uploads is accepted by the offline verifier.
use trackward.Prelude.{
  ◌^◌, ◌<◌, ◌≡◌, refl, sym, ap, ◌∙◌, inl, inr, List, Bytes, ascii, bytes_eq, bytes_eq_refl, length,
  ==_iff, lt→ltb, some, Result, ok, to_i64, i64_bits-to_i64, arith,
}
use trackward.ChainCore.Hashing.{Hash}
use trackward.ChainCore.Merkle.{compute_root}
use trackward.ChainCore.CanonicalJson.{to_canonical_string}
use trackward.ChainCore.CanonicalJson.Syntax.{Panic}
use trackward.ChainCore.Encode.{Timestamp}
use trackward.External.{External, IsExternal}
use trackward.Ledger.Anchoring.Sink.{AnchorSink, put}
use trackward.Ledger.Anchoring.Manifest.{AnchorManifest, canonical_json}
use trackward.Ledger.Anchoring.Canonical.{
  IsPlain, is_plain-IsPlain, manifest_value, canonical_json-to_canonical_string,
}
use trackward.Ledger.Anchoring.{
  AnchorScope, Anchor, Ledger, SigningService, run_filter, window_start, collect_leaves, scope_text,
  manifest_of, anchor_doc, object_key, mint, anchor_tick,
}
use trackward.Ledger.Anchoring.Ticks.{mint-eq-ok, anchor_tick_cases}
use trackward.Verifier.Bundle.{field_str, check_manifest}
use trackward.Verifier.Anchor.{check_leaves, verify_anchor}

version_text-IsPlain : IsPlain (ascii "trackward-anchor-v1")
version_text-IsPlain = is_plain-IsPlain (ascii "trackward-anchor-v1") refl

module _ (x : External) (laws : IsExternal x) where
  pub check_manifest-sign :
      (secret mj : Bytes)
      → check_manifest x mj
          (x.hex_encode (x.sha256 mj))
          (x.hex_encode (x.sign secret mj))
          (x.hex_encode (x.public_key secret))
        ≡ ok tt
  unfolding check_manifest
  check_manifest-sign secret mj = simp (
    bytes_eq_refl (x.hex_encode (x.sha256 mj)),
    laws.decode-encode (x.public_key secret),
    laws.decode-encode (x.sign secret mj),
    laws.length-public_key secret,
    laws.length-sign secret mj,
    laws.is_key-public_key secret,
    laws.verify-sign secret mj,
  )

  check_leaves-manifest_value :
      (m : AnchorManifest) (leaves : List Hash)
      → compute_root x.sha256 leaves ≡ some m.root_hash
      → m.leaf_count ≡ to_i64 (length leaves)
      → 0 < length leaves
      → length leaves < 2 ^ 64
      → check_leaves x (manifest_value x m) leaves ≡ ok (m.scope, x.hex_encode m.root_hash)
  unfolding check_leaves manifest_value bytes_eq
  check_leaves-manifest_value m leaves root count pos fits = simp (
    root,
    count,
    i64_bits-to_i64 (length leaves) fits,
    (==_iff (length leaves) (length leaves)).1 refl,
    lt→ltb 0 (length leaves) pos,
    bytes_eq_refl (x.hex_encode m.root_hash),
  )

  module _ (signing : SigningService)
      (own : signing.public_key_hex ≡ x.hex_encode (x.public_key signing.secret)) where
    verify_anchor-anchor_doc :
        (doc_json : Bytes) (m : AnchorManifest) (leaves : List Hash)
        → x.from_str doc_json ≡ some (anchor_doc x signing (canonical_json x m))
        → x.from_str (canonical_json x m) ≡ some (manifest_value x m)
        → compute_root x.sha256 leaves ≡ some m.root_hash
        → m.leaf_count ≡ to_i64 (length leaves)
        → 0 < length leaves
        → length leaves < 2 ^ 64
        → verify_anchor x doc_json leaves
          ≡ ok (record {
            scope = m.scope;
            leaf_count = length leaves;
            root_hex = x.hex_encode m.root_hash;
            key_id = signing.key_id;
          })
    unfolding verify_anchor anchor_doc field_str bytes_eq
    verify_anchor-anchor_doc doc_json m leaves doc manifest root count pos fits = simp (
      doc,
      manifest,
      own,
      check_manifest-sign signing.secret (canonical_json x m),
      check_leaves-manifest_value m leaves root count pos fits,
    )

    -- The manifest that a tick over these leaves signs.
    abbrev pub ticked :
        AnchorScope → (until now : Timestamp) → Ledger → List Hash → Hash → AnchorManifest
    ticked scope until now db leaves root =
        manifest_of x scope (window_start (run_filter scope) db.anchors) until now leaves root

    -- A tick that mints an anchor has uploaded a document that `verify_anchor` accepts for the leaves
    -- that the tick collected, with the scope, the count, the root and the key of the tick. The
    -- document and the canonical text of the manifest's value parse to the values they were printed
    -- from, and the scope, the times and the hex text of the root need no escapes in JSON.
    pub anchor_tick_verifies :
        (sink : AnchorSink) (scope : AnchorScope) (until now : Timestamp) (id : Bytes) (db : Ledger)
        (leaves : List Hash) (root : Hash) (text : Bytes) {row : Anchor} {db' : Ledger}
        {sink' : AnchorSink}
        → anchor_tick x signing sink scope until now id db ≡ ok (some row, db', sink')
        → collect_leaves db scope (window_start (run_filter scope) db.anchors) until ≡ ok leaves
        → compute_root x.sha256 leaves ≡ some root
        → length leaves < 2 ^ 64
        → x.from_str (
            x.to_vec
              (anchor_doc x signing (canonical_json x (ticked scope until now db leaves root))))
          ≡ some (anchor_doc x signing (canonical_json x (ticked scope until now db leaves root)))
        → IsPlain (scope_text x scope)
        → ((t : Timestamp) → IsPlain (x.rfc3339 t))
        → IsPlain (x.hex_encode root)
        → to_canonical_string (manifest_value x (ticked scope until now db leaves root)) ≡ ok text
        → x.from_str text ≡ some (manifest_value x (ticked scope until now db leaves root))
        → (doc_json : Bytes) × (put sink (object_key x scope id) doc_json
            ≡ ok (row.anchor_target, sink'))
          × (verify_anchor x doc_json leaves
              ≡ ok (record {
                scope = scope_text x scope;
                leaf_count = length leaves;
                root_hex = x.hex_encode root;
                key_id = signing.key_id;
              }))
    unfolding manifest_of
    anchor_tick_verifies sink scope until now id db leaves root text {row} {db'} {sink'} h hc hr
          fits pd scope_plain times root_plain printed parsed =
        elim (anchor_tick_cases x signing sink scope until now id db) [
          | inl idle ↦ cc (idle, h)
          | inr (inr (e, failed)) ↦ cc (failed, h)
          | inr (inl (leaves', row', d, s, due, hc', pos, hm, ht)) ↦
              let same : leaves' ≡ leaves = cc (hc', hc) in
              minted
                (ap
                    (λ l.
                      mint x signing sink scope (window_start (run_filter scope) db.anchors) until
                        now id l db)
                    (sym same)
                  ∙ hm
                  ∙ cc (ht, h))
                (omega (arith, pos, ap length same))
        ]
      where
        text_of : {s t : Bytes} → ◌≡◌ {A = Result Panic Bytes} (ok s) (ok t) → s ≡ t
        text_of e = cc e

        -- The hand-written text is the canonical one.
        pm :
            x.from_str (canonical_json x (ticked scope until now db leaves root))
            ≡ some (manifest_value x (ticked scope until now db leaves root))
        pm =
            let canonical =
              canonical_json-to_canonical_string x (ticked scope until now db leaves root)
                version_text-IsPlain scope_plain times root_plain in
            let same : canonical_json x (ticked scope until now db leaves root) ≡ text =
              text_of (sym canonical ∙ printed) in
            ap x.from_str same ∙ parsed

        minted :
            mint x signing sink scope
                (window_start (run_filter scope) db.anchors)
                until
                now
                id
                leaves
                db
              ≡ ok (row, db', sink')
            → 0 < length leaves
            → (doc_json : Bytes) × (put sink (object_key x scope id) doc_json
                ≡ ok (row.anchor_target, sink'))
              × (verify_anchor x doc_json leaves
                  ≡ ok (record {
                    scope = scope_text x scope;
                    leaf_count = length leaves;
                    root_hex = x.hex_encode root;
                    key_id = signing.key_id;
                  }))
        minted hm pos =
            let (root', signature, target, hr', hp, er, ed) =
              mint-eq-ok x signing sink scope (window_start (run_filter scope) db.anchors) until now
                id leaves db {row = row} {db' = db'} {sink' = sink'} hm in
            let agree : root' ≡ root = cc (hr', hr) in
            let fits' : row.anchor_target ≡ target = ap (λ (a : Anchor). a.anchor_target) er in
            (
              x.to_vec
                  (anchor_doc x signing (canonical_json x (ticked scope until now db leaves root))),
              ap
                    (λ r. put sink (object_key x scope id) (
                      x.to_vec (
                        anchor_doc x signing
                          (canonical_json x (ticked scope until now db leaves r)))))
                    (sym agree)
                  ∙ hp
                  ∙ ap (λ t. ok (t, sink')) (sym fits'),
              verify_anchor-anchor_doc
                  (x.to_vec (
                    anchor_doc x signing
                      (canonical_json x (ticked scope until now db leaves root))))
                  (ticked scope until now db leaves root) leaves pd pm hr refl pos fits,
            )
