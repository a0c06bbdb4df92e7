-- ===== src/Ledger/Routes.antt =====
-- services/ledger/src/routes: the handlers that write to the chained tables.
--
-- A handler gets the body of its request, the actor, and what it draws: the fresh id and the start of
-- its transaction. The columns that it inserts are those that it hashes, next to the chain's own. The
-- foreign keys to tables other than `runs` are taken to hold.
pub mod Inputs
pub mod Columns
pub mod Outcomes
pub mod Binding
pub mod Sequence
pub mod Blobs
pub mod Reads
use mathlib.Core.Option
use trackward.Prelude.{
  ℕ, suc, ◌+◌, List, [], ◌∷◌, Bytes, ascii, bytes_eq, Bool, true, false, not, ◌||◌, ltb, Option,
  none, some, Result, ok, err, ◌>>=◌, ◌>>◌, guard, if◌then◌else◌, ℤ, pos, negsuc,
}
use trackward.ChainCore.Encode.{CanonicalField, CanonicalValue, i64, Timestamp}
use trackward.External.{External}
use trackward.Ledger.Db.{
  Error, not_found, db_error, bad_request, conflict, Row, Table, of_run, legacy_row_hash,
}
use trackward.Ledger.Chain.{
  ChainTable, ChainLink, events, artifacts, tool_invocations, side_effects, guardrails,
  human_approvals, bias_slices, compute_chain, chained_row,
}
use trackward.Ledger.Anchoring.{Ledger, commit}
use trackward.Ledger.Routes.Inputs.{
  CreateEvent, CreateToolInvocation, CreateSideEffect, CreateGuardrail, CreateHumanApproval,
  CreateBiasSlice, Score, finite, non_finite,
}
use trackward.Ledger.Routes.Columns.{
  event_fields, tool_invocation_fields, side_effect_fields, guardrail_fields, human_approval_fields,
  bias_slice_fields, eval_slice_fields,
}

-- The chained tables, and the ids of the rows of `runs`.
pub record Database : Type 0 where
  pub runs : List Bytes
  pub ledger : Ledger

-- `SELECT EXISTS(SELECT 1 FROM runs WHERE id = $1)`, and the foreign key to `runs`.
unfoldable pub has_run : Bytes → List Bytes → Bool
has_run run_id [] = false
has_run run_id (id ∷ ids) = bytes_eq id run_id || has_run run_id ids

-- The primary key of a table holds the id already.
unfoldable pub has_id : Bytes → Table → Bool
has_id id [] = false
has_id id (r ∷ rs) = bytes_eq r.id id || has_id id rs

abbrev pub put_ledger : Ledger → Database → Database
put_ledger ledger db = record db { ledger = ledger }

-- The INSERT: a taken id fails with `duplicate`, a missing run with a database error.
unfoldable pub insert_checked :
    (duplicate : Error) → ChainTable → Row → Database → Result Error (Row × Database)
unfolding has_id has_run commit
insert_checked duplicate table row db = do
  guard (not (has_id row.id (db.ledger.tables table))) duplicate
  guard (elim row.run_id [ none ↦ true | some run_id ↦ has_run run_id db.runs ]) db_error
  ok (row, put_ledger (commit table row db.ledger) db)

-- The number in the column `seq`.
unfoldable pub seq_of : List CanonicalField → ℕ
seq_of [] = 0
seq_of (f ∷ fs) =
    let rest = seq_of fs in
    if bytes_eq f.name (ascii "seq") then (elim f.value [ i64 (pos n) ↦ n | _ ↦ rest ]) else rest

-- `COALESCE(MAX(seq), 0)` over the events of a run.
unfoldable pub max_seq : Bytes → Table → ℕ
unfolding of_run seq_of
max_seq run_id [] = 0
max_seq run_id (r ∷ rs) =
    let rest = max_seq run_id rs in
    if of_run run_id r then (if ltb rest (seq_of r.fields) then seq_of r.fields else rest) else rest

module _ (x : External) (now : Timestamp) where
  -- The tail of every handler: the link, then the INSERT in the same transaction.
  unfoldable pub create_chained :
      (duplicate : Error)
      → ChainTable
      → (run_id row_id : Bytes) → List CanonicalField
      → Database
      → Result Error (Row × Database)
  unfolding compute_chain insert_checked
  create_chained duplicate table run_id row_id fields db = do
    link ← compute_chain x.sha256 x.rfc3339 (db.ledger.tables table) table run_id fields
    insert_checked duplicate table (chained_row run_id row_id now fields link) db

module _ (x : External) (actor_id id : Bytes) (now : Timestamp) where
  -- `events::append`
  unfoldable pub append : (run_id : Bytes) → CreateEvent → Database → Result Error (Row × Database)
  unfolding has_run max_seq create_chained event_fields
  append run_id input db = do
    guard (has_run run_id db.runs) not_found
    let seq = max_seq run_id (db.ledger.tables events) + 1
    create_chained x now db_error events run_id id (event_fields id run_id seq actor_id input) db

  -- `tool_invocations::create`
  unfoldable pub create_tool_invocation :
      CreateToolInvocation → Database → Result Error (Row × Database)
  unfolding create_chained tool_invocation_fields
  create_tool_invocation input db =
      create_chained x now db_error tool_invocations input.run_id id
        (tool_invocation_fields id actor_id input) db

  -- `side_effects::create`
  unfoldable pub create_side_effect : CreateSideEffect → Database → Result Error (Row × Database)
  unfolding create_chained side_effect_fields
  create_side_effect input db =
      create_chained x now db_error side_effects input.run_id id
        (side_effect_fields id actor_id input) db

  -- `guardrails::create`
  unfoldable pub create_guardrail : CreateGuardrail → Database → Result Error (Row × Database)
  unfolding create_chained guardrail_fields
  create_guardrail input db =
      create_chained x now db_error guardrails input.run_id id (guardrail_fields id actor_id input)
        db

  -- `human_approvals::create`: the caller brings the id, and a taken one is a conflict.
  unfoldable pub create_human_approval :
      CreateHumanApproval → Database → Result Error (Row × Database)
  unfolding create_chained human_approval_fields
  create_human_approval input db =
      create_chained x now conflict human_approvals input.run_id input.id
        (human_approval_fields actor_id input) db

  -- A slice of an evaluation: no link, and the zero hash.
  abbrev pub unchained_row : List CanonicalField → Row
  unchained_row fields = record {
    id = id;
    run_id = none;
    created_at = now;
    fields = fields;
    prev_hash = none;
    row_hash = legacy_row_hash;
  }

  -- `bias_slices::create`. A score that is not finite panics when the slice belongs to a run.
  unfoldable pub create_bias_slice : CreateBiasSlice → Database → Result Error (Row × Database)
  unfolding create_chained bias_slice_fields eval_slice_fields insert_checked
  create_bias_slice input db = elim input.run_id [
    | some run_id ↦ elim input.score [
      | some (non_finite text) ↦ err Error.score_panicked
      | some (finite text) ↦
          create_chained x now db_error bias_slices run_id id
            (bias_slice_fields id run_id actor_id (some text) input) db
      | none ↦
          create_chained x now db_error bias_slices run_id id
            (bias_slice_fields id run_id actor_id none input) db
    ]
    | none ↦ elim input.eval_result_id [
      | none ↦ err bad_request
      | some eval_result_id ↦
          insert_checked db_error bias_slices
            (unchained_row (eval_slice_fields id eval_result_id actor_id input)) db
    ]
  ]
