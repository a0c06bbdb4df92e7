-- ===== src/Ledger/Routes/Columns.antt =====
-- The `fields` of every handler of services/ledger/src/routes: the columns that the row hash covers.
use mathlib.Core.Option
use trackward.Prelude.{ℕ, List, [], ◌∷◌, Bytes, ascii, Option, pos}
use trackward.ChainCore.Encode.{CanonicalField, field, opt, uuid, i64, str, json, timestamp}
use trackward.Ledger.Routes.Inputs.{
  CreateEvent, CreateToolInvocation, CreateSideEffect, CreateGuardrail, CreateHumanApproval,
  CreateBiasSlice, Score, finite, non_finite,
}

unfoldable pub event_fields :
    (id run_id : Bytes) → (seq : ℕ) → (actor_id : Bytes) → CreateEvent → List CanonicalField
event_fields id run_id seq actor_id input =
    field (ascii "id") (uuid id)
    ∷ field (ascii "run_id") (uuid run_id)
    ∷ field (ascii "seq") (i64 (pos seq))
    ∷ field (ascii "kind") (str input.kind)
    ∷ field (ascii "body") (json input.body)
    ∷ field (ascii "occurred_at") (timestamp input.occurred_at)
    ∷ field (ascii "actor_id") (str actor_id)
    ∷ []

unfoldable pub tool_invocation_fields :
    (id actor_id : Bytes) → CreateToolInvocation → List CanonicalField
tool_invocation_fields id actor_id input =
    field (ascii "id") (uuid id)
    ∷ field (ascii "run_id") (uuid input.run_id)
    ∷ field (ascii "tool") (str input.tool)
    ∷ field (ascii "input") (json input.input)
    ∷ field (ascii "output") (json input.output)
    ∷ field (ascii "status") (str input.status)
    ∷ opt i64 (ascii "status_code") input.status_code
    ∷ field (ascii "started_at") (timestamp input.started_at)
    ∷ field (ascii "finished_at") (timestamp input.finished_at)
    ∷ field (ascii "metadata") (json input.metadata)
    ∷ field (ascii "actor_id") (str actor_id)
    ∷ []

unfoldable pub side_effect_fields : (id actor_id : Bytes) → CreateSideEffect → List CanonicalField
side_effect_fields id actor_id input =
    field (ascii "id") (uuid id)
    ∷ field (ascii "run_id") (uuid input.run_id)
    ∷ opt uuid (ascii "tool_invocation_id") input.tool_invocation_id
    ∷ field (ascii "kind") (str input.kind)
    ∷ field (ascii "target") (str input.target)
    ∷ field (ascii "status") (str input.status)
    ∷ field (ascii "confirmation") (json input.confirmation)
    ∷ field (ascii "observed_at") (timestamp input.observed_at)
    ∷ field (ascii "actor_id") (str actor_id)
    ∷ []

unfoldable pub guardrail_fields : (id actor_id : Bytes) → CreateGuardrail → List CanonicalField
guardrail_fields id actor_id input =
    field (ascii "id") (uuid id)
    ∷ field (ascii "run_id") (uuid input.run_id)
    ∷ field (ascii "name") (str input.name)
    ∷ field (ascii "stage") (str input.stage)
    ∷ opt str (ascii "target") input.target
    ∷ field (ascii "outcome") (str input.outcome)
    ∷ field (ascii "detail") (json input.detail)
    ∷ field (ascii "evaluated_at") (timestamp input.evaluated_at)
    ∷ field (ascii "actor_id") (str actor_id)
    ∷ []

unfoldable pub human_approval_fields :
    (actor_id : Bytes) → CreateHumanApproval → List CanonicalField
human_approval_fields actor_id input =
    field (ascii "id") (uuid input.id)
    ∷ field (ascii "run_id") (uuid input.run_id)
    ∷ field (ascii "tool") (str input.tool)
    ∷ field (ascii "decision") (str input.decision)
    ∷ opt str (ascii "reason") input.reason
    ∷ opt str (ascii "decided_by") input.decided_by
    ∷ field (ascii "requested_at") (timestamp input.requested_at)
    ∷ field (ascii "decided_at") (timestamp input.decided_at)
    ∷ field (ascii "metadata") (json input.metadata)
    ∷ field (ascii "actor_id") (str actor_id)
    ∷ []

-- The columns of a slice of a run, with the score as its text.
unfoldable pub bias_slice_fields :
    (id run_id actor_id : Bytes) → (score : Option Bytes) → CreateBiasSlice → List CanonicalField
bias_slice_fields id run_id actor_id score input =
    field (ascii "id") (uuid id)
    ∷ field (ascii "run_id") (uuid run_id)
    ∷ opt uuid (ascii "eval_result_id") input.eval_result_id
    ∷ field (ascii "label") (str input.label)
    ∷ opt str (ascii "value") input.value
    ∷ opt str (ascii "score") score
    ∷ field (ascii "metadata") (json input.metadata)
    ∷ field (ascii "actor_id") (str actor_id)
    ∷ []

abbrev pub score_text : Score → Bytes
score_text (finite text) = text
score_text (non_finite text) = text

-- The columns of a slice of an evaluation, which are not hashed.
unfoldable pub eval_slice_fields :
    (id eval_result_id actor_id : Bytes) → CreateBiasSlice → List CanonicalField
eval_slice_fields id eval_result_id actor_id input =
    field (ascii "id") (uuid id)
    ∷ field (ascii "eval_result_id") (uuid eval_result_id)
    ∷ field (ascii "label") (str input.label)
    ∷ opt str (ascii "value") input.value
    ∷ opt str (ascii "score") (Option.map score_text input.score)
    ∷ field (ascii "metadata") (json input.metadata)
    ∷ field (ascii "actor_id") (str actor_id)
    ∷ []
