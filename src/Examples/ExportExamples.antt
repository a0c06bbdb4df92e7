-- ===== src/Examples/ExportExamples.antt =====
-- The result on export bundles at a case with two pieces of evidence.
use trackward.Prelude.{
  refl, [], ◌∷◌, Bytes, ascii, bytes_eq, lex_le, Option, none, some, ok, err, if◌then◌else◌,
}
use trackward.ChainCore.CanonicalJson.Syntax.{Value}
use trackward.ChainCore.CanonicalJson.Sorted.{value_sorted}
use trackward.External.{External}
use trackward.Ledger.Exports.{
  CaseEvidence, ExportBundle, CreateExportBundle, Cases, bundle_value, create_export,
}
use trackward.Ledger.Exports.Bundles.{manifest_of_case}
use trackward.Examples.Fixtures.{row_id, no_json, tick_text, toy_external, toy_external-IsExternal}
use trackward.Examples.AnchoringExamples.{toy_signing}

abbrev evidence_item : Bytes → CaseEvidence
evidence_item kind = record {
  case_id = row_id 1;
  evidence_type = kind;
  evidence_id = row_id 2;
  linked_by = ascii "ann";
  linked_at = 3;
  note = none;
  actor_id = ascii "ann";
}

abbrev one_case : Cases
one_case = record {
  ids = row_id 1 ∷ [];
  evidence = evidence_item (ascii "run") ∷ evidence_item (ascii "event") ∷ [];
  bundles = [];
}

abbrev export_request : CreateExportBundle
export_request = record { signed_by = ascii "ann"; fixed_signed_at = some 7 }

abbrev created : External → ExportBundle
created x =
    elim (create_export lex_le tick_text x toy_signing (ascii "ann") (row_id 9) 8 8 (row_id 1)
      export_request one_case) [
        | ok (bundle, s) ↦ bundle
        | err e ↦ record {
          id = [];
          case_id = [];
          manifest_json = [];
          manifest_sha256 = [];
          signature = [];
          key_id = [];
          public_key_hex = [];
          signed_by = [];
          signed_at = 0;
          actor_id = [];
          created_at = 0;
        }
      ]

abbrev created_state : External → Cases
created_state x =
    elim (create_export lex_le tick_text x toy_signing (ascii "ann") (row_id 9) 8 8 (row_id 1)
      export_request one_case) [ ok (bundle, s) ↦ s | err e ↦ one_case ]

-- The parser knows the manifest, which is printed as `doc`, and the body of the answer.
abbrev parse_export : Bytes → Option Value
parse_export text =
    if bytes_eq text (ascii "doc")
    then some (
        value_sorted (
          manifest_of_case lex_le tick_text no_json (toy_external-IsExternal (λ t. none))
            toy_signing refl (row_id 1) 8 export_request one_case))
    else (if bytes_eq text (ascii "body")
        then some (bundle_value tick_text no_json (created no_json))
        else none)

abbrev export_external : External
export_external = toy_external parse_export
