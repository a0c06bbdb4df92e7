-- ===== src/Ledger/Routes/Reads.antt =====
-- services/ledger/src/routes: the handlers that read one row, or the rows of a run, of a chained table,
-- and those that read a bundle or the evidence of a case.
use trackward.Prelude.{List, Bytes, ascii, bytes_eq, Result}
use trackward.Verifier.Bundle.{ok_or}
use trackward.Ledger.Db.{Error, not_found, Row, Table}
use trackward.Ledger.Chain.{
  ChainTable, events, artifacts, tool_invocations, side_effects, guardrails, human_approvals,
  bias_slices,
}
use trackward.Ledger.Exports.{CaseEvidence, ExportBundle}
use trackward.Ledger.Queries.{where_rows, fetch_optional, order_by, oldest_first}
use trackward.Ledger.Records.Runs.{rows_of, time_of, by_column, by_seq, by_creation}

-- `SELECT * FROM .. WHERE id = $1`
unfoldable pub get_row : (id : Bytes) → Table → Result Error Row
unfolding fetch_optional bytes_eq
get_row id table = ok_or not_found (fetch_optional (λ r. bytes_eq r.id id) table)

module _ (tables : ChainTable → Table) where
  unfoldable pub get_artifact : (id : Bytes) → Result Error Row
  unfolding get_row
  get_artifact id = get_row id (tables artifacts)

  unfoldable pub get_tool_invocation : (id : Bytes) → Result Error Row
  unfolding get_row
  get_tool_invocation id = get_row id (tables tool_invocations)

  unfoldable pub get_side_effect : (id : Bytes) → Result Error Row
  unfolding get_row
  get_side_effect id = get_row id (tables side_effects)

  unfoldable pub get_guardrail : (id : Bytes) → Result Error Row
  unfolding get_row
  get_guardrail id = get_row id (tables guardrails)

  unfoldable pub get_human_approval : (id : Bytes) → Result Error Row
  unfolding get_row
  get_human_approval id = get_row id (tables human_approvals)

  unfoldable pub get_bias_slice : (id : Bytes) → Result Error Row
  unfolding get_row
  get_bias_slice id = get_row id (tables bias_slices)

  unfoldable pub list_events : (run_id : Bytes) → Table
  unfolding rows_of
  list_events run_id = rows_of run_id by_seq (tables events)

  unfoldable pub list_artifacts : (run_id : Bytes) → Table
  unfolding rows_of
  list_artifacts run_id = rows_of run_id by_creation (tables artifacts)

  unfoldable pub list_tool_invocations : (run_id : Bytes) → Table
  unfolding rows_of time_of
  list_tool_invocations run_id =
      rows_of run_id (by_column (ascii "started_at")) (tables tool_invocations)

  unfoldable pub list_side_effects : (run_id : Bytes) → Table
  unfolding rows_of time_of
  list_side_effects run_id = rows_of run_id (by_column (ascii "observed_at")) (tables side_effects)

  unfoldable pub list_guardrails : (run_id : Bytes) → Table
  unfolding rows_of time_of
  list_guardrails run_id = rows_of run_id (by_column (ascii "evaluated_at")) (tables guardrails)

  unfoldable pub list_bias_slices : (run_id : Bytes) → Table
  unfolding rows_of
  list_bias_slices run_id = rows_of run_id by_creation (tables bias_slices)

-- `export_bundles::get`
unfoldable pub get_bundle : (id : Bytes) → List ExportBundle → Result Error ExportBundle
unfolding fetch_optional bytes_eq
get_bundle id bundles = ok_or not_found (fetch_optional (λ b. bytes_eq b.id id) bundles)

-- `case_evidence::list`
unfoldable pub list_evidence : (case_id : Bytes) → List CaseEvidence → List CaseEvidence
unfolding where_rows order_by bytes_eq
list_evidence case_id links =
    order_by (oldest_first (λ l. l.linked_at)) (where_rows (λ l. bytes_eq l.case_id case_id) links)
