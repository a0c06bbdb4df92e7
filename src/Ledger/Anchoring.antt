-- ===== src/Ledger/Anchoring.antt =====
-- services/ledger/src/anchoring.rs: a tick collects the row hashes of a window, signs their Merkle
-- root and ships it.
pub mod Sink
pub mod Manifest
pub mod Canonical
pub mod Windows
pub mod Ticks
pub mod Late
pub mod Loop
use trackward.Prelude.{
  ℕ, zero, suc, ◌+◌, List, [], ◌∷◌, ◌++◌, Bytes, ascii, concat, bytes_eq, length, Bool, true, false,
  not, ◌&&◌, ◌||◌, ltb, leb, ◌==◌, lex_le, if◌then◌else◌, Option, none, some, Result, ok, err,
  ◌>>=◌, to_i64,
}
use trackward.ChainCore.Hashing.{Hash}
use trackward.ChainCore.Merkle.{compute_root}
use trackward.ChainCore.Encode.{Timestamp}
use trackward.ChainCore.CanonicalJson.Syntax.{Value, Fields, string, object, end, entry}
use trackward.External.{External}
use trackward.Ledger.Db.{Error, internal, root_panicked, Row, Table, of_run, legacy_row_hash}
use trackward.Ledger.Chain.{
  ChainTable, events, artifacts, tool_invocations, side_effects, guardrails, human_approvals,
  bias_slices, lock_discriminator,
}
use trackward.Ledger.Anchoring.Sink.{AnchorSink, put}
use trackward.Ledger.Anchoring.Manifest.{AnchorManifest, canonical_json}

pub data AnchorScope : Type 0 where
  global : AnchorScope
  run : Bytes → AnchorScope

unfoldable pub run_filter : AnchorScope → Option Bytes
run_filter global = none
run_filter (run id) = some id

-- A row of `anchors`.
pub record Anchor : Type 0 where
  pub id : Bytes
  pub run_id : Option Bytes
  pub anchored_from : Timestamp
  pub anchored_to : Timestamp
  pub leaf_count : ℕ
  pub root_hash : Hash
  pub signature : Bytes
  pub key_id : Bytes
  pub public_key_hex : Bytes
  pub anchor_target : Bytes
  pub anchored_at : Timestamp

-- The chained tables and the anchors.
pub record Ledger : Type 0 where
  pub tables : ChainTable → Table
  pub anchors : List Anchor

-- `($1 IS NULL AND run_id IS NULL) OR ($1 IS NOT NULL AND run_id = $1)`
unfoldable pub in_scope : Option Bytes → Anchor → Bool
in_scope none a = elim a.run_id [ none ↦ true | some id ↦ false ]
in_scope (some run_id) a = elim a.run_id [ none ↦ false | some id ↦ bytes_eq id run_id ]

-- The latest `anchored_to` of a scope, or the epoch.
unfoldable pub window_start : Option Bytes → List Anchor → Timestamp
unfolding in_scope
window_start scope [] = 0
window_start scope (a ∷ anchors) =
    let rest = window_start scope anchors in
    if in_scope scope a then (if ltb rest a.anchored_to then a.anchored_to else rest) else rest

-- The `WHERE` clause of a table's part of the union.
unfoldable pub in_window : Option Bytes → (from until : Timestamp) → Row → Bool
in_window scope from until r =
    ltb from r.created_at
    && leb r.created_at until
    && not (bytes_eq r.row_hash legacy_row_hash)
    && elim scope [ none ↦ true | some run_id ↦ of_run run_id r ]

unfoldable pub select_window : Option Bytes → (from until : Timestamp) → Table → Table
unfolding in_window
select_window scope from until [] = []
select_window scope from until (r ∷ rs) =
    let rest = select_window scope from until rs in
    if in_window scope from until r then r ∷ rest else rest

-- `ORDER BY 2 ASC, 3 ASC`: by `created_at`, then by `id`.
unfoldable pub row_le : Row → Row → Bool
row_le a b = ltb a.created_at b.created_at || (a.created_at == b.created_at && lex_le a.id b.id)

unfoldable pub insert_row : Row → Table → Table
unfolding row_le
insert_row r [] = r ∷ []
insert_row r (s ∷ rs) = if row_le r s then r ∷ s ∷ rs else s ∷ insert_row r rs

unfoldable pub sort_rows : Table → Table
unfolding insert_row
sort_rows [] = []
sort_rows (r ∷ rs) = insert_row r (sort_rows rs)

-- The rows of `CHAINED_TABLES`, one table after the other.
unfoldable pub all_rows : Ledger → Table
all_rows db =
    db.tables events
    ++ (db.tables artifacts
        ++ (db.tables tool_invocations
            ++ (db.tables side_effects
                ++ (db.tables guardrails ++ (db.tables human_approvals ++ db.tables bias_slices)))))

-- `try_into` of every hash to 32 bytes.
unfoldable pub to_leaves : Table → Result Error (List Hash)
to_leaves [] = ok []
to_leaves (r ∷ rs) = do
  leaf ← (if length r.row_hash == 32 then ok r.row_hash else err internal)
  leaves ← to_leaves rs
  ok (leaf ∷ leaves)

unfoldable pub collect_leaves :
    Ledger → AnchorScope → (from until : Timestamp) → Result Error (List Hash)
unfolding run_filter select_window sort_rows all_rows to_leaves
collect_leaves db scope from until =
    to_leaves (sort_rows (select_window (run_filter scope) from until (all_rows db)))

-- The signing half of `SigningService`.
pub record SigningService : Type 0 where
  pub secret : Bytes
  pub key_id : Bytes
  pub public_key_hex : Bytes

-- A panic of `compute_root`, and `hex::decode` of text that `hex::encode` wrote.
abbrev pub root_or_panic : Option Hash → Result Error Hash
root_or_panic none = err root_panicked
root_or_panic (some root) = ok root

abbrev pub decoded : Option Bytes → Result Error Bytes
decoded none = err internal
decoded (some bytes) = ok bytes

-- The row that the INSERT binds.
abbrev pub anchor_row :
    SigningService
    → AnchorScope
    → (from until now : Timestamp) → (id : Bytes) → List Hash
    → Hash
    → (signature target : Bytes) → Anchor
anchor_row signing scope from until now id leaves root signature target = record {
  id = id;
  run_id = run_filter scope;
  anchored_from = from;
  anchored_to = until;
  leaf_count = length leaves;
  root_hash = root;
  signature = signature;
  key_id = signing.key_id;
  public_key_hex = signing.public_key_hex;
  anchor_target = target;
  anchored_at = now;
}

module _ (x : External) where
  unfoldable pub key_segment : AnchorScope → Bytes
  key_segment global = ascii "global"
  key_segment (run id) = ascii "run/" ++ x.uuid_text id

  unfoldable pub object_key : AnchorScope → (id : Bytes) → Bytes
  unfolding key_segment
  object_key scope id = concat (key_segment scope ∷ ascii "/" ∷ x.uuid_text id ∷ ascii ".json" ∷ [])

  -- The scope as the manifest spells it.
  unfoldable pub scope_text : AnchorScope → Bytes
  scope_text global = ascii "global"
  scope_text (run id) = ascii "run:" ++ x.uuid_text id

  -- The document that is uploaded: `json!` keeps its keys sorted.
  unfoldable pub anchor_doc : SigningService → (manifest_json : Bytes) → Value
  anchor_doc signing manifest_json = object (
      entry (ascii "key_id") (string signing.key_id) (
        entry (ascii "manifest_json") (string manifest_json) (
          entry (ascii "manifest_sha256") (string (x.hex_encode (x.sha256 manifest_json))) (
            entry (ascii "public_key_hex") (string signing.public_key_hex) (
              entry (ascii "signature")
                (string (x.hex_encode (x.sign signing.secret manifest_json))) end)))))

  unfoldable pub manifest_of :
      AnchorScope → (from until now : Timestamp) → List Hash → Hash → AnchorManifest
  unfolding scope_text
  manifest_of scope from until now leaves root = record {
    version = ascii "trackward-anchor-v1";
    scope = scope_text scope;
    anchored_from = from;
    anchored_to = until;
    leaf_count = to_i64 (length leaves);
    root_hash = root;
    anchored_at = now;
  }

  -- From the leaves on: sign, ship, and insert the row. `id` and `now` are drawn in here.
  unfoldable pub mint :
      SigningService
      → AnchorSink
      → AnchorScope
      → (from until now : Timestamp) → (id : Bytes) → List Hash
      → Ledger
      → Result Error (Anchor × Ledger × AnchorSink)
  unfolding compute_root manifest_of anchor_doc canonical_json object_key run_filter put
  mint signing sink scope from until now id leaves db = do
    root ← root_or_panic (compute_root x.sha256 leaves)
    let manifest_json = canonical_json x (manifest_of scope from until now leaves root)
    let signature_hex = x.hex_encode (x.sign signing.secret manifest_json)
    signature ← decoded (x.hex_decode signature_hex)
    let doc_bytes = x.to_vec (anchor_doc signing manifest_json)
    (target, sink') ← put sink (object_key scope id) doc_bytes
    let row = anchor_row signing scope from until now id leaves root signature target
    ok (row, record db { anchors = row ∷ db.anchors }, sink')

  -- `Ok(None)` leaves the ledger and the sink as they are.
  unfoldable pub anchor_tick :
      SigningService
      → AnchorSink
      → AnchorScope
      → (until now : Timestamp) → (id : Bytes) → Ledger
      → Result Error (Option Anchor × Ledger × AnchorSink)
  unfolding window_start collect_leaves mint
  anchor_tick signing sink scope until now id db =
      let from = window_start (run_filter scope) db.anchors in
      let minted = collect_leaves db scope from until >>= λ leaves.
      if ltb 0 (length leaves)
      then (mint signing sink scope from until now id leaves db >>= λ (row, db', sink').
          ok (some row, db', sink'))
      else ok (none, db, sink) in
      if leb until from then ok (none, db, sink) else minted

-- The INSERT of a write handler: the row becomes the newest commit of its table.
unfoldable pub commit : ChainTable → Row → Ledger → Ledger
commit table r db = record db {
  tables = λ t.
      if lock_discriminator t == lock_discriminator table then r ∷ db.tables t else db.tables t;
}
