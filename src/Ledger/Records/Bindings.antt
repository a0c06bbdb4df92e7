-- ===== src/Ledger/Records/Bindings.antt =====
-- services/ledger/src/routes: eval_results.rs and run_bindings.rs. Foreign keys between these tables
-- are taken to hold.
use trackward.Prelude.{
  List, ◌∷◌, Bytes, bytes_eq, Bool, false, ◌&&◌, not, take, Option, none, some, Result, ok, ◌>>◌,
  guard,
}
use trackward.ChainCore.CanonicalJson.Syntax.{Value}
use trackward.ChainCore.Encode.{Timestamp}
use trackward.Verifier.Bundle.{ok_or}
use trackward.Ledger.Db.{Error, not_found, db_error, conflict}
use trackward.Ledger.Queries.{where_rows, fetch_optional, order_by, newest_first}
use trackward.Ledger.Records.Runs.{Run, RunVersionBinding, is_free, is_run, null_or}

pub record EvalResult : Type 0 where
  pub id : Bytes
  pub workflow : Bytes
  pub version : Bytes
  pub prompt_version_id : Option Bytes
  pub git_sha : Bytes
  pub content_hash : Bytes
  pub passed : Bool
  pub summary : Value
  pub ran_at : Timestamp
  pub actor_id : Bytes

pub record CreateEvalResult : Type 0 where
  pub workflow : Bytes
  pub version : Bytes
  pub prompt_version_id : Option Bytes
  pub git_sha : Bytes
  pub content_hash : Bytes
  pub passed : Bool
  pub summary : Value
  pub ran_at : Timestamp

abbrev pub eval_row : (id actor_id : Bytes) → CreateEvalResult → EvalResult
eval_row id actor_id input = record {
  id = id;
  workflow = input.workflow;
  version = input.version;
  prompt_version_id = input.prompt_version_id;
  git_sha = input.git_sha;
  content_hash = input.content_hash;
  passed = input.passed;
  summary = input.summary;
  ran_at = input.ran_at;
  actor_id = actor_id;
}

-- `eval_results::create`
unfoldable pub create_eval_result :
    (id actor_id : Bytes)
    → CreateEvalResult
    → List EvalResult
    → Result Error (EvalResult × List EvalResult)
unfolding fetch_optional bytes_eq
create_eval_result id actor_id input rows = do
  guard (is_free (λ r. bytes_eq r.id id) rows) db_error
  ok (eval_row id actor_id input, eval_row id actor_id input ∷ rows)

-- `eval_results::get`
unfoldable pub get_eval_result : (id : Bytes) → List EvalResult → Result Error EvalResult
unfolding fetch_optional bytes_eq
get_eval_result id rows = ok_or not_found (fetch_optional (λ r. bytes_eq r.id id) rows)

-- A UUID in a nullable column.
abbrev pub has_prompt_id : (id : Bytes) → Option Bytes → Bool
has_prompt_id id none = false
has_prompt_id id (some other) = bytes_eq other id

-- `eval_results::list`, with the filters of its query.
unfoldable pub list_eval_results :
    (workflow version prompt_version_id : Option Bytes) → List EvalResult → List EvalResult
unfolding where_rows order_by bytes_eq
list_eval_results workflow version prompt_version_id rows = take 100 (
    order_by (newest_first (λ r. r.ran_at)) (
      where_rows
        (λ r.
          null_or (bytes_eq r.workflow) workflow
          && null_or (bytes_eq r.version) version
          && null_or (λ id. has_prompt_id id r.prompt_version_id) prompt_version_id)
        rows))

pub record CreateRunVersionBinding : Type 0 where
  pub prompt_version_id : Option Bytes
  pub policy_version_id : Option Bytes
  pub eval_result_id : Option Bytes

abbrev pub binds : (run_id : Bytes) → RunVersionBinding → Bool
binds run_id b = bytes_eq b.run_id run_id

abbrev pub binding_row : (actor_id run_id : Bytes) → CreateRunVersionBinding → RunVersionBinding
binding_row actor_id run_id input = record {
  run_id = run_id;
  prompt_version_id = input.prompt_version_id;
  policy_version_id = input.policy_version_id;
  eval_result_id = input.eval_result_id;
  actor_id = actor_id;
}

-- `run_bindings::create`: the run is the primary key.
unfoldable pub create_binding :
    (actor_id run_id : Bytes)
    → CreateRunVersionBinding
    → List Run
    → List RunVersionBinding
    → Result Error (RunVersionBinding × List RunVersionBinding)
unfolding fetch_optional bytes_eq
create_binding actor_id run_id input runs rows = do
  guard (not (is_free (is_run run_id) runs)) not_found
  guard (is_free (binds run_id) rows) conflict
  ok (binding_row actor_id run_id input, binding_row actor_id run_id input ∷ rows)

-- `run_bindings::get`
unfoldable pub get_binding :
    (run_id : Bytes) → List RunVersionBinding → Result Error RunVersionBinding
unfolding fetch_optional bytes_eq
get_binding run_id rows = ok_or not_found (fetch_optional (binds run_id) rows)
