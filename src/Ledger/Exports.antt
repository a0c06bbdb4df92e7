-- ===== src/Ledger/Exports.antt =====
-- services/ledger/src/routes/export_bundles.rs, and the links of case_evidence.rs.
--
-- The order of texts is the database's collation and the text of a time in JSON is the `chrono`
-- crate's: both are parameters.
pub mod Bundles
use trackward.Prelude.{
  ℕ, List, [], ◌∷◌, Bytes, ascii, bytes_eq, lex_le, Bool, true, false, not, ◌&&◌, ◌||◌, Option,
  none, some, Result, ok, err, ◌>>=◌, ◌>>◌, guard, if◌then◌else◌,
}
use trackward.ChainCore.CanonicalJson.Syntax.{
  Value, Items, Fields, null, string, array, object, nil, cons, end, entry,
}
use trackward.ChainCore.Encode.{Timestamp}
use trackward.External.{External}
use trackward.Ledger.Db.{Error, not_found, conflict, db_error}
use trackward.Ledger.Anchoring.{SigningService}
use trackward.Verifier.Bundle.{unwrap_or}

pub record CaseEvidence : Type 0 where
  pub case_id : Bytes
  pub evidence_type : Bytes
  pub evidence_id : Bytes
  pub linked_by : Bytes
  pub linked_at : Timestamp
  pub note : Option Bytes
  pub actor_id : Bytes

pub record CreateCaseEvidence : Type 0 where
  pub evidence_type : Bytes
  pub evidence_id : Bytes
  pub linked_by : Bytes
  pub note : Option Bytes
  pub linked_at : Timestamp

-- `storage_uri`, which stays null, is left out.
pub record ExportBundle : Type 0 where
  pub id : Bytes
  pub case_id : Bytes
  pub manifest_json : Bytes
  pub manifest_sha256 : Bytes
  pub signature : Bytes
  pub key_id : Bytes
  pub public_key_hex : Bytes
  pub signed_by : Bytes
  pub signed_at : Timestamp
  pub actor_id : Bytes
  pub created_at : Timestamp

pub record CreateExportBundle : Type 0 where
  pub signed_by : Bytes
  pub fixed_signed_at : Option Timestamp

-- The ids in `cases`, and the tables of links and bundles.
pub record Cases : Type 0 where
  pub ids : List Bytes
  pub evidence : List CaseEvidence
  pub bundles : List ExportBundle

unfoldable pub has_case : Bytes → List Bytes → Bool
has_case case_id [] = false
has_case case_id (id ∷ ids) = bytes_eq id case_id || has_case case_id ids

-- The primary key of `case_evidence`.
unfoldable pub is_linked : (case_id evidence_type evidence_id : Bytes) → List CaseEvidence → Bool
is_linked case_id evidence_type evidence_id [] = false
is_linked case_id evidence_type evidence_id (e ∷ es) =
    (bytes_eq e.case_id case_id
      && bytes_eq e.evidence_type evidence_type
      && bytes_eq e.evidence_id evidence_id)
    || is_linked case_id evidence_type evidence_id es

abbrev pub evidence_row : (actor_id case_id : Bytes) → CreateCaseEvidence → CaseEvidence
evidence_row actor_id case_id input = record {
  case_id = case_id;
  evidence_type = input.evidence_type;
  evidence_id = input.evidence_id;
  linked_by = input.linked_by;
  linked_at = input.linked_at;
  note = input.note;
  actor_id = actor_id;
}

-- `case_evidence::link`
unfoldable pub link :
    (actor_id case_id : Bytes) → CreateCaseEvidence → Cases → Result Error (CaseEvidence × Cases)
unfolding is_linked has_case
link actor_id case_id input s = do
  guard (not (is_linked case_id input.evidence_type input.evidence_id s.evidence)) conflict
  guard (has_case case_id s.ids) db_error
  let row = evidence_row actor_id case_id input
  ok (row, record s { evidence = row ∷ s.evidence })

-- `WHERE case_id = $1`
unfoldable pub evidence_of : Bytes → List CaseEvidence → List CaseEvidence
evidence_of case_id [] = []
evidence_of case_id (e ∷ es) =
    let rest = evidence_of case_id es in if bytes_eq e.case_id case_id then e ∷ rest else rest

-- The body that the handlers answer with, as serde_json reads it: the keys are sorted.
unfoldable pub bundle_value : (Timestamp → Bytes) → External → ExportBundle → Value
bundle_value time_json x b = object (
    entry (ascii "actor_id") (string b.actor_id) (
      entry (ascii "case_id") (string (x.uuid_text b.case_id)) (
        entry (ascii "created_at") (string (time_json b.created_at)) (
          entry (ascii "id") (string (x.uuid_text b.id)) (
            entry (ascii "key_id") (string b.key_id) (
              entry (ascii "manifest_json") (string b.manifest_json) (
                entry (ascii "manifest_sha256") (string b.manifest_sha256) (
                  entry (ascii "public_key_hex") (string b.public_key_hex) (
                    entry (ascii "signature") (string b.signature) (
                      entry (ascii "signed_at") (string (time_json b.signed_at)) (
                        entry (ascii "signed_by") (string b.signed_by)
                          (entry (ascii "storage_uri") null end))))))))))))

module _ (text_le : Bytes → Bytes → Bool) where
  -- `ORDER BY evidence_type ASC, evidence_id ASC`
  unfoldable pub evidence_le : CaseEvidence → CaseEvidence → Bool
  evidence_le a b =
      if bytes_eq a.evidence_type b.evidence_type
      then lex_le a.evidence_id b.evidence_id
      else text_le a.evidence_type b.evidence_type

  unfoldable pub insert_evidence : CaseEvidence → List CaseEvidence → List CaseEvidence
  unfolding evidence_le
  insert_evidence e [] = e ∷ []
  insert_evidence e (f ∷ fs) =
      let rest = insert_evidence e fs in if evidence_le e f then e ∷ f ∷ fs else f ∷ rest

  unfoldable pub sort_evidence : List CaseEvidence → List CaseEvidence
  unfolding insert_evidence
  sort_evidence [] = []
  sort_evidence (e ∷ es) = insert_evidence e (sort_evidence es)

module _ (text_le : Bytes → Bytes → Bool) (time_json : Timestamp → Bytes) (x : External) where
  -- `ManifestEvidence` of every link.
  unfoldable pub manifest_items : List CaseEvidence → Items
  manifest_items [] = nil
  manifest_items (e ∷ es) =
      cons
        (object (
          entry (ascii "type") (string e.evidence_type)
            (entry (ascii "id") (string (x.uuid_text e.evidence_id)) end)))
        (manifest_items es)

  unfoldable pub export_manifest : (case_id : Bytes) → Timestamp → List CaseEvidence → Value
  unfolding manifest_items sort_evidence
  export_manifest case_id generated_at evidence = object (
      entry (ascii "case_id") (string (x.uuid_text case_id)) (
        entry (ascii "generated_at") (string (time_json generated_at))
          (entry (ascii "evidence") (array (manifest_items (sort_evidence text_le evidence))) end)))

  -- The row that the INSERT binds.
  unfoldable pub signed_bundle :
      SigningService
      → (actor_id id case_id : Bytes) → (manifest_json signed_by : Bytes)
      → (signed_at created_at : Timestamp) → ExportBundle
  signed_bundle signing actor_id id case_id manifest_json signed_by signed_at created_at = record {
    id = id;
    case_id = case_id;
    manifest_json = manifest_json;
    manifest_sha256 = x.hex_encode (x.sha256 manifest_json);
    signature = x.hex_encode (x.sign signing.secret manifest_json);
    key_id = signing.key_id;
    public_key_hex = signing.public_key_hex;
    signed_by = signed_by;
    signed_at = signed_at;
    actor_id = actor_id;
    created_at = created_at;
  }

  -- `export_bundles::create`; `created_at` is the default of the column.
  unfoldable pub create_export :
      SigningService
      → (actor_id id : Bytes) → (now created_at : Timestamp) → (case_id : Bytes)
      → CreateExportBundle
      → Cases
      → Result Error (ExportBundle × Cases)
  unfolding has_case evidence_of export_manifest signed_bundle
  create_export signing actor_id id now created_at case_id input s = do
    guard (has_case case_id s.ids) not_found
    let signed_at = unwrap_or now input.fixed_signed_at
    let manifest_json =
        x.to_vec (export_manifest case_id signed_at (evidence_of case_id s.evidence))
    let row =
        signed_bundle signing actor_id id case_id manifest_json input.signed_by signed_at created_at
    ok (row, record s { bundles = row ∷ s.bundles })
