-- ===== src/Ledger/Routes/Blobs.antt =====
-- services/ledger/src/routes/artifacts.rs and the blob store of services/ledger/src/s3.rs.
--
-- The store is reached or not; when it is, it keeps the last bytes put under a key.
pub mod Integrity
use trackward.Prelude.{
  ℕ, List, [], ◌∷◌, Bytes, ascii, bytes_eq, length, Bool, true, false, Option, none, some, Result,
  ok, err, ◌>>=◌, ◌>>◌, guard, if◌then◌else◌, to_i64,
}
use trackward.ChainCore.CanonicalJson.Syntax.{Value, object, end}
use trackward.ChainCore.Encode.{CanonicalField, field, uuid, i64, str, json, Timestamp}
use trackward.External.{External}
use trackward.Ledger.Db.{
  Error, not_found, bad_request, s3_error, db_error, hash_mismatch, Row, Table,
}
use trackward.Ledger.Chain.{artifacts}
use trackward.Ledger.Anchoring.Sink.{insert, get}
use trackward.Ledger.Routes.{Database, create_chained}

pub record BlobStore : Type 0 where
  pub reachable : Bool
  pub blobs : List (Bytes × Bytes)

unfoldable pub put_blob : BlobStore → (sha256_hex blob : Bytes) → Result Error BlobStore
unfolding insert
put_blob store sha256_hex blob = do
  guard store.reachable s3_error
  ok (record store { blobs = insert sha256_hex blob store.blobs })

unfoldable pub get_blob : BlobStore → (sha256_hex : Bytes) → Result Error Bytes
unfolding get
get_blob store sha256_hex = do
  guard store.reachable s3_error
  elim (get sha256_hex store.blobs) [ none ↦ err s3_error | some blob ↦ ok blob ]

-- A field of the multipart form: its name, and what `text` and `bytes` read of it.
pub record Part : Type 0 where
  pub name : Bytes
  pub text : Option Bytes
  pub content : Option Bytes

-- The variables of the loop over the form.
pub record Form : Type 0 where
  pub run_id : Option Bytes
  pub label : Bytes
  pub media_type : Bytes
  pub file_data : Option Bytes
  pub metadata : Value

abbrev pub empty_form : Form
empty_form = record {
  run_id = none;
  label = [];
  media_type = ascii "application/octet-stream";
  file_data = none;
  metadata = object end;
}

abbrev pub or_bad_request {ℓ} : {A : Type ℓ} → Option A → Result Error A
or_bad_request none = err bad_request
or_bad_request (some a) = ok a

unfoldable pub find_row : Bytes → Table → Option Row
find_row id [] = none
find_row id (r ∷ rs) = if bytes_eq r.id id then some r else find_row id rs

-- A text column of a row.
unfoldable pub str_column : Bytes → List CanonicalField → Bytes
str_column name [] = []
str_column name (f ∷ fs) =
    let rest = str_column name fs in
    if bytes_eq f.name name then (elim f.value [ str s ↦ s | _ ↦ rest ]) else rest

unfoldable pub artifact_fields :
    (id run_id digest : Bytes) → (size : ℕ) → (actor_id : Bytes) → Form → List CanonicalField
artifact_fields id run_id digest size actor_id form =
    field (ascii "id") (uuid id)
    ∷ field (ascii "run_id") (uuid run_id)
    ∷ field (ascii "sha256") (str digest)
    ∷ field (ascii "size_bytes") (i64 (to_i64 size))
    ∷ field (ascii "media_type") (str form.media_type)
    ∷ field (ascii "label") (str form.label)
    ∷ field (ascii "metadata") (json form.metadata)
    ∷ field (ascii "actor_id") (str actor_id)
    ∷ []

pub record Download : Type 0 where
  pub media_type : Bytes
  pub sha256_header : Bytes
  pub body : Bytes

-- `parse_uuid` is `str::parse::<Uuid>`.
module _ (x : External) (parse_uuid : Bytes → Option Bytes) where
  unfoldable pub read_part : Part → Form → Result Error Form
  read_part part form =
      if bytes_eq part.name (ascii "run_id")
      then (do
        text ← or_bad_request part.text
        id ← or_bad_request (parse_uuid text)
        ok (record form { run_id = some id }))
      else if bytes_eq part.name (ascii "label")
      then (do text ← or_bad_request part.text; ok (record form { label = text }))
      else if bytes_eq part.name (ascii "media_type")
      then (do text ← or_bad_request part.text; ok (record form { media_type = text }))
      else if bytes_eq part.name (ascii "metadata")
      then (do
        text ← or_bad_request part.text
        value ← or_bad_request (x.from_str text)
        ok (record form { metadata = value }))
      else if bytes_eq part.name (ascii "file")
      then (do blob ← or_bad_request part.content; ok (record form { file_data = some blob }))
      else ok form

  unfoldable pub read_parts : List Part → Form → Result Error Form
  unfolding read_part
  read_parts [] form = ok form
  read_parts (part ∷ parts) form = do form' ← read_part part form; read_parts parts form'

  -- `upload`, from the read form on. The blob stays when the INSERT fails.
  unfoldable pub store_artifact :
      (actor_id id : Bytes)
      → (now : Timestamp) → Form
      → BlobStore
      → Database
      → Result Error (BlobStore × Result Error (Row × Database))
  unfolding put_blob create_chained artifact_fields
  store_artifact actor_id id now form store db = do
    run_id ← or_bad_request form.run_id
    blob ← or_bad_request form.file_data
    let digest = x.hex_encode (x.sha256 blob)
    store' ← put_blob store digest blob
    ok (
      store',
      create_chained x now db_error artifacts run_id id
          (artifact_fields id run_id digest (length blob) actor_id form) db,
    )

  unfoldable pub upload :
      (actor_id id : Bytes)
      → (now : Timestamp) → List Part
      → BlobStore
      → Database
      → Result Error (BlobStore × Result Error (Row × Database))
  unfolding read_parts store_artifact
  upload actor_id id now parts store db = do
    form ← read_parts parts empty_form
    store_artifact actor_id id now form store db

  -- `is_header_value` is whether the bytes of a text make a `HeaderValue`, without which the builder of
  -- the response fails.
  unfoldable pub download :
      (is_header_value : Bytes → Bool) → (id : Bytes) → BlobStore → Database → Result Error Download
  unfolding find_row str_column get_blob
  download is_header_value id store db = do
    artifact ← elim (find_row id (db.ledger.tables artifacts)) [
      | none ↦ err not_found
      | some row ↦ ok row
    ]
    let recorded = str_column (ascii "sha256") artifact.fields
    blob ← get_blob store recorded
    let actual = x.hex_encode (x.sha256 blob)
    guard (bytes_eq actual recorded) (hash_mismatch recorded actual)
    guard (is_header_value (str_column (ascii "media_type") artifact.fields)) s3_error
    guard (is_header_value recorded) s3_error
    ok (record {
      media_type = str_column (ascii "media_type") artifact.fields;
      sha256_header = recorded;
      body = blob;
    })
