-- ===== src/Examples/VerifierExamples.antt =====
-- The results on tools/verifier at the document of a tick over two events.
use trackward.Prelude.{
  ◌≡◌, refl, ◌⊎◌, err, List, [], ◌∷◌, ◌++◌, replicate, All, Bytes, ascii, bytes_eq, lex_le,
  to_be_bytes, i64_bits, to_i64, Option, none, some, ok, if◌then◌else◌, arith,
}
use trackward.ChainCore.Hashing.{Hash, Collision}
use trackward.ChainCore.Merkle.{compute_root, leaf_hash, node_hash}
use trackward.ChainCore.CanonicalJson.{to_canonical_string}
use trackward.ChainCore.CanonicalJson.Syntax.{Value}
use trackward.External.{External}
use trackward.Ledger.Chain.{insert_chained}
use trackward.Ledger.Db.{newer}
use trackward.Ledger.Anchoring.Sink.{noop, put}
use trackward.Ledger.Anchoring.Manifest.{canonical_json}
use trackward.Ledger.Anchoring.Canonical.{
  is_plain-IsPlain, manifest_value, canonical_json-to_canonical_string,
}
use trackward.Ledger.Anchoring.{
  Anchor, Ledger, run, scope_text, object_key, anchor_doc, manifest_of, anchor_tick,
}
use trackward.Verifier.Bundle.{VerifyError}
use trackward.Verifier.Anchor.{VerifiedAnchor, verify_anchor}
use trackward.Verifier.Binding.{IsAttested, verify_anchor_sound, verify_anchor_unique}
use trackward.Verifier.Accepts.{anchor_tick_verifies}
use trackward.Verifier.LedgerCheck.{verify_anchor_doc, verify_anchor-verify_anchor_doc}
use trackward.Verifier.Cli.{main}
use trackward.Verifier.Cli.Leaves.{IsMark, main-verify_anchor}
use trackward.Examples.Fixtures.{run_a, no_json, row_id, toy_external, toy_external-IsExternal}
use trackward.Examples.LedgerExamples.{one_row, inserted_row}
use trackward.Examples.AnchoringExamples.{recorded, toy_signing, spare_anchor, tick_text-IsPlain}

abbrev two_leaves : List Hash
two_leaves = (inserted_row 1 100 []).row_hash ∷ (inserted_row 2 200 one_row).row_hash ∷ []

abbrev root_of_two : Hash
root_of_two = elim (compute_root no_json.sha256 two_leaves) [ some root ↦ root | none ↦ [] ]

abbrev manifest_text : Bytes
manifest_text =
    canonical_json no_json (manifest_of no_json (run run_a) 0 250 900 two_leaves root_of_two)

abbrev manifest_json_value : Value
manifest_json_value =
    manifest_value no_json (manifest_of no_json (run run_a) 0 250 900 two_leaves root_of_two)

-- The parser knows the document and the manifest of the tick.
abbrev parse_table : Bytes → Option Value
parse_table text =
    if bytes_eq text (ascii "doc")
    then some (anchor_doc no_json toy_signing manifest_text)
    else (if bytes_eq text manifest_text then some manifest_json_value else none)

abbrev json_external : External
json_external = toy_external parse_table

abbrev ticked_json : Anchor
ticked_json =
    elim (anchor_tick json_external toy_signing noop (run run_a) 250 900 (row_id 7) recorded) [
      | ok (some anchor, db, sink) ↦ anchor
      | _ ↦ spare_anchor
    ]

abbrev ticked_db : Ledger
ticked_db =
    elim (anchor_tick json_external toy_signing noop (run run_a) 250 900 (row_id 7) recorded) [
      | ok (some anchor, db, sink) ↦ db
      | _ ↦ recorded
    ]

manifest_printed : to_canonical_string manifest_json_value ≡ ok manifest_text
unfolding manifest_of bytes_eq insert_chained newer lex_le to_be_bytes i64_bits to_i64 leaf_hash
    node_hash compute_root
manifest_printed =
    canonical_json-to_canonical_string no_json
      (manifest_of no_json (run run_a) 0 250 900 two_leaves root_of_two)
      (is_plain-IsPlain (ascii "trackward-anchor-v1") refl)
      (is_plain-IsPlain (scope_text no_json (run run_a)) refl) tick_text-IsPlain
      (is_plain-IsPlain root_of_two refl)

anchor_tick_verifies_example :
    (doc_json : Bytes) × (put noop (object_key json_external (run run_a) (row_id 7)) doc_json
      ≡ ok (ticked_json.anchor_target, noop))
    × (verify_anchor json_external doc_json two_leaves
        ≡ ok (record {
          scope = scope_text json_external (run run_a);
          leaf_count = 2;
          root_hex = root_of_two;
          key_id = ascii "key-1";
        }))
unfolding anchor_tick insert_chained newer lex_le bytes_eq to_be_bytes i64_bits to_i64 leaf_hash
    node_hash anchor_doc manifest_value
anchor_tick_verifies_example =
    anchor_tick_verifies json_external (toy_external-IsExternal parse_table) toy_signing refl noop
      (run run_a) 250 900 (row_id 7) recorded two_leaves root_of_two manifest_text
      {row = ticked_json} {db' = ticked_db} {sink' = noop} refl refl refl (omega arith) refl
      (is_plain-IsPlain (scope_text no_json (run run_a)) refl) tick_text-IsPlain
      (is_plain-IsPlain root_of_two refl) manifest_printed refl

verify_anchor_sound_example : IsAttested json_external (ascii "doc") two_leaves
unfolding verify_anchor anchor_tick insert_chained newer lex_le bytes_eq to_be_bytes i64_bits to_i64
    leaf_hash node_hash anchor_doc manifest_value
verify_anchor_sound_example = verify_anchor_sound json_external (ascii "doc") two_leaves refl

verify_anchor_unique_example : (two_leaves ≡ two_leaves) ⊎ Collision json_external.sha256
unfolding verify_anchor anchor_tick insert_chained newer lex_le bytes_eq to_be_bytes i64_bits to_i64
    leaf_hash node_hash anchor_doc manifest_value
verify_anchor_unique_example =
    verify_anchor_unique json_external (toy_external-IsExternal parse_table) (ascii "doc")
      two_leaves two_leaves refl refl

verify_anchor-verify_anchor_doc_example :
    verify_anchor_doc json_external (ascii "doc") two_leaves ≡ ok tt
unfolding verify_anchor anchor_tick insert_chained newer lex_le bytes_eq to_be_bytes i64_bits to_i64
    leaf_hash node_hash anchor_doc manifest_value
verify_anchor-verify_anchor_doc_example =
    verify_anchor-verify_anchor_doc json_external (ascii "doc") two_leaves refl

abbrev mark_hash : Bytes
mark_hash = replicate 32 65

abbrev two_files : Bytes → Option Bytes
two_files path =
    if bytes_eq path (ascii "a") then some (ascii "doc") else some (mark_hash ++ 10 ∷ [])

mark_hash-marks : All IsMark mark_hash
mark_hash-marks = omega arith

main-verify_anchor_example :
    ((report : VerifiedAnchor) × (verify_anchor no_json (ascii "doc") (mark_hash ∷ []) ≡ ok report)
      × (main no_json two_files (ascii "--anchor" ∷ ascii "a" ∷ ascii "l" ∷ []) ≡ 0))
    ⊎ ((e : VerifyError) × (verify_anchor no_json (ascii "doc") (mark_hash ∷ []) ≡ err e)
        × (main no_json two_files (ascii "--anchor" ∷ ascii "a" ∷ ascii "l" ∷ []) ≡ 1))
unfolding bytes_eq
main-verify_anchor_example =
    main-verify_anchor no_json (toy_external-IsExternal (λ text. none)) two_files (ascii "a")
      (ascii "l") (ascii "doc") (mark_hash ∷ []) ((refl, mark_hash-marks, λ e. cc), tt) refl refl
