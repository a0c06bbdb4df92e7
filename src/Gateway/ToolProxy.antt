-- ===== src/Gateway/ToolProxy.antt =====
-- services/gateway/src/tool_proxy: a call of a tool through the gateway, with its records on the
-- ledger.
pub mod Steps
pub mod Accounts
pub mod Endings
pub mod Outcome
use trackward.Prelude.{
  ℕ, List, [], ◌∷◌, Bytes, ascii, Bool, true, false, ◌&&◌, not, Option, none, some, ok, err,
  if◌then◌else◌,
}
use trackward.ChainCore.CanonicalJson.Syntax.{
  Value, Items, string, array, object, nil, cons, end, entry,
}
use trackward.Verifier.Bundle.{and_then, unwrap_or, as_str}
use trackward.Verifier.Bundle
use trackward.Gateway.Approval.{unknown_tool, backend_failed, lookup}
use trackward.Gateway.Http.{
  post, json, Response, Action, Network, pure, raise, or_raise, attempt, continue, outcome, ◌>>=◌,
  ◌>>◌, send, is_success,
}
use trackward.Gateway.LedgerClient.{
  Wire, LedgerClient, nat, create_run, append_event, bind_run, record_tool_invocation,
  record_side_effect,
}

-- The versions that a run minted by the gateway is bound to.
pub record ResolvedBinding : Type 0 where
  pub prompt_version_id : Option Bytes
  pub policy_version_id : Option Bytes
  pub eval_result_id : Option Bytes

abbrev pub is_none {ℓ} : {A : Type ℓ} → Option A → Bool
is_none none = true
is_none (some a) = false

unfoldable pub is_empty : ResolvedBinding → Bool
is_empty b = is_none b.prompt_version_id && is_none b.policy_version_id && is_none b.eval_result_id

-- The parts of `AppState` that the proxies read.
pub record AppState : Type 0 where
  pub tool_routes : List (Bytes × Bytes)
  pub retrieval_backend : Option Bytes
  pub ledger : LedgerClient
  pub binding : ResolvedBinding

-- The headers of a request, by name.
abbrev pub Headers : Type 0
Headers = List (Bytes × Bytes)

abbrev pub run_id_header : Bytes
run_id_header = ascii "x-trackward-run-id"

-- The caller-facing response, with the run's id in its header.
pub record Reply : Type 0 where
  pub status : ℕ
  pub run_id : Bytes
  pub body : Bytes

unfoldable pub resolve : List (Bytes × Bytes) → (tool : Bytes) → Option Bytes
unfolding lookup
resolve routes tool = lookup tool routes

unfoldable pub extract_run_id : Wire → Headers → Option Bytes
unfolding lookup
extract_run_id w headers =
    and_then (and_then (lookup run_id_header headers) w.header_text) w.parse_uuid

module _ (w : Wire) (network : Network) (state : AppState) where
  -- Stamp a minted run. A binding that fails is logged.
  unfoldable pub stamp_run : (run_id : Bytes) → Action (Option (Unit {0}))
  unfolding is_empty bind_run
  stamp_run run_id =
      if not (is_empty state.binding)
      then attempt (
          bind_run w network state.ledger run_id state.binding.prompt_version_id
            state.binding.policy_version_id state.binding.eval_result_id)
      else pure none

  unfoldable pub reuse_or_mint : (origin : Bytes) → Option Bytes → Action (Bytes × Bool)
  unfolding create_run stamp_run
  reuse_or_mint origin (some id) = pure (id, false)
  reuse_or_mint origin none = do
    run_id ←
        create_run w network state.ledger (ascii "gateway")
          (object (entry (ascii "origin") (string origin) end))
    stamped ← stamp_run run_id
    pure (run_id, true)

  unfoldable pub resolve_or_mint_run : Headers → (origin : Bytes) → Action (Bytes × Bool)
  unfolding extract_run_id reuse_or_mint
  resolve_or_mint_run headers origin = reuse_or_mint origin (extract_run_id w headers)

  -- A text of an entry, or its default.
  abbrev pub text_or : (default key : Bytes) → Value → Bytes
  text_or default key e = unwrap_or default (and_then (Bundle.get key e) as_str)

  unfoldable pub record_entry :
      (run_id : Bytes) (tool_invocation_id : Option Bytes) → Value → Action (Unit {0})
  unfolding record_side_effect
  record_entry run_id tool_invocation_id e =
      record_side_effect w network state.ledger run_id tool_invocation_id
        (text_or (ascii "unknown") (ascii "kind") e) (text_or (ascii "unknown") (ascii "target") e)
        (text_or (ascii "confirmed") (ascii "status") e)
        (unwrap_or (object end) (Bundle.get (ascii "confirmation") e))

  -- The loop of `record_confirmations`: a row that fails is logged.
  unfoldable pub record_entries :
      (run_id : Bytes) (tool_invocation_id : Option Bytes) → Items → Action (Unit {0})
  unfolding record_entry
  record_entries run_id tool_invocation_id nil = pure tt
  record_entries run_id tool_invocation_id (cons e es) = do
    recorded ← attempt (record_entry run_id tool_invocation_id e)
    record_entries run_id tool_invocation_id es

  -- `body.get("side_effects").and_then(|v| v.as_array())`, with nothing to record when it is missing.
  abbrev pub items_of : Option Value → Items
  items_of (some (array es)) = es
  items_of _ = nil

  unfoldable pub record_confirmations :
      (run_id : Bytes) (tool_invocation_id : Option Bytes) → (body : Value) → Action (Unit {0})
  unfolding record_entries Bundle.get
  record_confirmations run_id tool_invocation_id body =
      record_entries run_id tool_invocation_id (items_of (Bundle.get (ascii "side_effects") body))

  -- The backend's body as JSON, or its text under `raw`.
  unfoldable pub body_value : Bytes → Value
  body_value bytes =
      unwrap_or (object (entry (ascii "raw") (string (w.utf8_lossy bytes)) end))
        (w.from_slice bytes)

  abbrev pub call_body : (tool : Bytes) (input : Value) → Value
  call_body tool input =
      object (entry (ascii "input") input (entry (ascii "tool") (string tool) end))

  abbrev pub result_body : (tool : Bytes) (output : Value) → Value
  result_body tool output =
      object (entry (ascii "output") output (entry (ascii "tool") (string tool) end))

  abbrev pub error_body : (tool : Bytes) (status : ℕ) (body : Value) → Value
  error_body tool status body = object (
      entry (ascii "body") body
        (entry (ascii "status") (nat status) (entry (ascii "tool") (string tool) end)))

  abbrev pub outcome_kind : (success : Bool) → Bytes
  outcome_kind true = ascii "tool_result"
  outcome_kind false = ascii "tool_error"

  abbrev pub outcome_body : (success : Bool) (tool : Bytes) (status : ℕ) (body : Value) → Value
  outcome_body true tool status body = result_body tool body
  outcome_body false tool status body = error_body tool status body

  abbrev pub status_label : (success : Bool) → Bytes
  status_label true = ascii "ok"
  status_label false = ascii "error"

  -- What the proxy records of the backend's answer after the outcome event.
  unfoldable pub record_invocation :
      (run_id tool : Bytes) (input output : Value) (status : ℕ) → Action (Unit {0})
  unfolding record_tool_invocation record_confirmations is_success
  record_invocation run_id tool input output status = do
    tool_invocation_id ← attempt (
        record_tool_invocation w network state.ledger run_id tool input output
          (status_label (is_success status)) (some status))
    if is_success status then record_confirmations run_id tool_invocation_id output else pure tt

  -- The proxy once the run is known: call event, backend, outcome event, rows.
  unfoldable pub proxy_run : (tool backend_url run_id : Bytes) (input : Value) → Action Reply
  unfolding append_event send body_value is_success record_invocation
  proxy_run tool backend_url run_id input = do
    called ← append_event w network state.ledger run_id (ascii "tool_call") (call_body tool input)
    sent ← send network (post none backend_url (json input))
    backend ← or_raise backend_failed sent
    bytes ← or_raise backend_failed backend.body
    recorded ←
        append_event w network state.ledger run_id (outcome_kind (is_success backend.status))
          (outcome_body (is_success backend.status) tool backend.status (body_value bytes))
    mirrored ← record_invocation run_id tool input (body_value bytes) backend.status
    pure (record { status = backend.status; run_id = run_id; body = bytes })

  unfoldable pub proxy : (tool : Bytes) → Headers → (input : Value) → Action Reply
  unfolding resolve resolve_or_mint_run proxy_run
  proxy tool headers input = do
    backend_url ← or_raise unknown_tool (resolve state.tool_routes tool)
    run ← resolve_or_mint_run headers (ascii "tool_proxy")
    proxy_run tool backend_url run.0 input
