-- ===== src/Ledger/Records/Runs.antt =====
-- services/ledger/src/routes/runs.rs: the rows of `runs`, their list, and everything of one run.
use trackward.Prelude.{
  ℕ, List, [], ◌∷◌, Bytes, ascii, bytes_eq, Bool, true, false, ◌&&◌, ltb, leb, take, Option, none,
  some, Result, ok, ◌>>=◌, ◌>>◌, guard, if◌then◌else◌, ℤ, pos, negsuc,
}
use trackward.ChainCore.CanonicalJson.Syntax.{Value}
use trackward.ChainCore.Encode.{CanonicalField, timestamp, Timestamp}
use trackward.Verifier.Bundle.{ok_or}
use trackward.Ledger.Db.{Error, not_found, db_error, Row, Table, of_run}
use trackward.Ledger.Chain.{
  ChainTable, events, artifacts, tool_invocations, side_effects, guardrails, human_approvals,
  bias_slices,
}
use trackward.Ledger.Routes.{seq_of}
use trackward.Ledger.Queries.{where_rows, fetch_optional, order_by, newest_first, oldest_first}

-- `created_at`, which the database sets, is left out.
pub record Run : Type 0 where
  pub id : Bytes
  pub agent : Bytes
  pub started_at : Timestamp
  pub metadata : Value
  pub actor_id : Bytes

pub record CreateRun : Type 0 where
  pub agent : Bytes
  pub started_at : Timestamp
  pub metadata : Value

abbrev pub is_run : Bytes → Run → Bool
is_run id r = bytes_eq r.id id

abbrev pub absent {ℓ} : {A : Type ℓ} → Option A → Bool
absent none = true
absent (some a) = false

-- No row has the key: the primary key holds.
abbrev pub is_free {ℓ} : {A : Type ℓ} → (A → Bool) → List A → Bool
is_free p rs = absent (fetch_optional p rs)

abbrev pub run_row : (id actor_id : Bytes) → CreateRun → Run
run_row id actor_id input = record {
  id = id;
  agent = input.agent;
  started_at = input.started_at;
  metadata = input.metadata;
  actor_id = actor_id;
}

-- `runs::create`
unfoldable pub create_run_row :
    (id actor_id : Bytes) → CreateRun → List Run → Result Error (Run × List Run)
unfolding fetch_optional bytes_eq
create_run_row id actor_id input runs = do
  guard (is_free (is_run id) runs) db_error
  ok (run_row id actor_id input, run_row id actor_id input ∷ runs)

-- `runs::get`
unfoldable pub get_run : (id : Bytes) → List Run → Result Error Run
unfolding fetch_optional bytes_eq
get_run id runs = ok_or not_found (fetch_optional (is_run id) runs)

pub record ListQuery : Type 0 where
  pub agent : Option Bytes
  pub since : Option Timestamp
  pub until : Option Timestamp
  pub limit : Option ℤ

-- `unwrap_or(100).clamp(1, 1000)`
unfoldable pub clamp_limit : Option ℤ → ℕ
clamp_limit none = 100
clamp_limit (some (negsuc n)) = 1
clamp_limit (some (pos n)) = if ltb n 1 then 1 else if ltb 1000 n then 1000 else n

-- `$1 IS NULL OR ..`
abbrev pub null_or {ℓ} : {A : Type ℓ} → (A → Bool) → Option A → Bool
null_or test none = true
null_or test (some a) = test a

unfoldable pub is_listed : ListQuery → Run → Bool
unfolding bytes_eq
is_listed q r =
    null_or (bytes_eq r.agent) q.agent
    && null_or (λ since. leb since r.started_at) q.since
    && null_or (ltb r.started_at) q.until

-- `runs::list`
unfoldable pub list_runs : ListQuery → List Run → List Run
unfolding clamp_limit is_listed where_rows order_by
list_runs q runs =
    take (clamp_limit q.limit)
      (order_by (newest_first (λ r. r.started_at)) (where_rows (is_listed q) runs))

-- The time in a column of a row, and 0 in a row without it.
unfoldable pub time_of : (column : Bytes) → List CanonicalField → Timestamp
unfolding bytes_eq
time_of column [] = 0
time_of column (f ∷ fs) =
    let rest = time_of column fs in
    if bytes_eq f.name column then (elim f.value [ timestamp t ↦ t | _ ↦ rest ]) else rest

-- The binding of a run to versions; `bound_at` is set by the database.
pub record RunVersionBinding : Type 0 where
  pub run_id : Bytes
  pub prompt_version_id : Option Bytes
  pub policy_version_id : Option Bytes
  pub eval_result_id : Option Bytes
  pub actor_id : Bytes

pub record Dossier : Type 0 where
  pub run : Run
  pub events : Table
  pub tool_invocations : Table
  pub side_effects : Table
  pub guardrails : Table
  pub human_approvals : Table
  pub bias_slices : Table
  pub artifacts : Table
  pub binding : Option RunVersionBinding

-- `SELECT * FROM .. WHERE run_id = $1 ORDER BY .. ASC`
unfoldable pub rows_of : (run_id : Bytes) → (key : Row → ℕ) → Table → Table
unfolding where_rows order_by of_run
rows_of run_id key table = order_by (oldest_first key) (where_rows (of_run run_id) table)

abbrev pub by_column : (column : Bytes) → Row → ℕ
by_column column r = time_of column r.fields

abbrev pub by_seq : Row → ℕ
by_seq r = seq_of r.fields

abbrev pub by_creation : Row → ℕ
by_creation r = r.created_at

-- `runs::dossier`
unfoldable pub run_dossier :
    (run_id : Bytes)
    → List Run
    → (tables : ChainTable → Table) → List RunVersionBinding
    → Result Error Dossier
unfolding get_run rows_of time_of seq_of fetch_optional
run_dossier run_id runs tables bindings = do
  run ← get_run run_id runs
  ok (record {
    run = run;
    events = rows_of run_id by_seq (tables events);
    tool_invocations = rows_of run_id (by_column (ascii "started_at")) (tables tool_invocations);
    side_effects = rows_of run_id (by_column (ascii "observed_at")) (tables side_effects);
    guardrails = rows_of run_id (by_column (ascii "evaluated_at")) (tables guardrails);
    human_approvals = rows_of run_id (by_column (ascii "decided_at")) (tables human_approvals);
    bias_slices = rows_of run_id by_creation (tables bias_slices);
    artifacts = rows_of run_id by_creation (tables artifacts);
    binding = fetch_optional (λ b. bytes_eq b.run_id run_id) bindings;
  })
