-- ===== src/Ledger/Routes/Inputs.antt =====
-- services/ledger/src/models: the bodies of the write requests.
use trackward.Prelude.{Bytes, Option, ℤ}
use trackward.ChainCore.CanonicalJson.Syntax.{Value}
use trackward.ChainCore.Encode.{Timestamp}

pub record CreateEvent : Type 0 where
  pub kind : Bytes
  pub body : Value
  pub occurred_at : Timestamp

pub record CreateToolInvocation : Type 0 where
  pub run_id : Bytes
  pub tool : Bytes
  pub input : Value
  pub output : Value
  pub status : Bytes
  pub status_code : Option ℤ
  pub started_at : Timestamp
  pub finished_at : Timestamp
  pub metadata : Value

pub record CreateSideEffect : Type 0 where
  pub run_id : Bytes
  pub tool_invocation_id : Option Bytes
  pub kind : Bytes
  pub target : Bytes
  pub status : Bytes
  pub confirmation : Value
  pub observed_at : Timestamp

pub record CreateGuardrail : Type 0 where
  pub run_id : Bytes
  pub name : Bytes
  pub stage : Bytes
  pub target : Option Bytes
  pub outcome : Bytes
  pub detail : Value
  pub evaluated_at : Timestamp

pub record CreateHumanApproval : Type 0 where
  pub id : Bytes
  pub run_id : Bytes
  pub tool : Bytes
  pub decision : Bytes
  pub reason : Option Bytes
  pub decided_by : Option Bytes
  pub requested_at : Timestamp
  pub decided_at : Timestamp
  pub metadata : Value

-- An `f64`, by the text that `to_string` prints of it.
pub data Score : Type 0 where
  finite non_finite : (text : Bytes) → Score

pub record CreateBiasSlice : Type 0 where
  pub run_id : Option Bytes
  pub eval_result_id : Option Bytes
  pub label : Bytes
  pub value : Option Bytes
  pub score : Option Score
  pub metadata : Value
