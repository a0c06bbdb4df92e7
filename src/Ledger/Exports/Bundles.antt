-- ===== src/Ledger/Exports/Bundles.antt =====
-- An export bundle passes the offline check.
use trackward.Prelude.{◌≡◌, Bytes, Bool}
use trackward.ChainCore.CanonicalJson.Syntax.{Value}
use trackward.ChainCore.Encode.{Timestamp}
use trackward.External.{External, IsExternal}
use trackward.Ledger.Anchoring.{SigningService}
use trackward.Ledger.Exports.{CreateExportBundle, Cases, evidence_of, export_manifest}
use trackward.Verifier.Bundle.{unwrap_or}

module _ (text_le : Bytes → Bytes → Bool) (time_json : Timestamp → Bytes) (x : External)
    (laws : IsExternal x) (signing : SigningService)
    (own : signing.public_key_hex ≡ x.hex_encode (x.public_key signing.secret)) where
  abbrev pub manifest_of_case : (case_id : Bytes) → Timestamp → CreateExportBundle → Cases → Value
  manifest_of_case case_id now input s =
      export_manifest text_le time_json x case_id (unwrap_or now input.fixed_signed_at)
        (evidence_of case_id s.evidence)
