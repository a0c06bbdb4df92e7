-- ===== src/Gateway/ToolProxy/Endings.antt =====
-- How a proxied call may end: what was sent to the ledger and to the backend by then, request by request.
use trackward.Prelude.{
  ◌≡◌, ◌⊎◌, Bool, true, false, ℕ, Bytes, ascii, ◌∷◌, none, some, Result, ok, err,
}
use trackward.ChainCore.CanonicalJson.Syntax.{Value, string, object, end, entry}
use trackward.Verifier.Bundle.{unwrap_or}
use trackward.Gateway.Approval.{GatewayError, unknown_tool, ledger_failed, backend_failed, lookup}
use trackward.Gateway.Http.{Request, post, json, Trace, Network, is_success}
use trackward.Gateway.LedgerClient.{Wire, nat}
use trackward.Gateway.LedgerApi.{event_post}
use trackward.Gateway.ToolProxy.{AppState, Headers, Reply}
use trackward.Gateway.ToolProxy.Steps.{IsAcked, IsRefused, exchanged, read_event}
use trackward.Gateway.ToolProxy.Accounts.{HasRun, HasNoRun, HasRows}

module _ (w : Wire) (network : Network) (state : AppState) (tool : Bytes) (input : Value)
    (headers : Headers) where
  -- What the backend's body is recorded as: JSON, or its text under `raw`.
  abbrev pub output_of : Bytes → Value
  output_of body =
      unwrap_or (object (entry (ascii "raw") (string (w.utf8_lossy body)) end)) (w.from_slice body)

  -- The three exchanges of a call: its event, the backend, the event of its outcome.
  abbrev pub call_request : (run_id : Bytes) → Request
  call_request run_id =
      event_post w state.ledger run_id (ascii "tool_call")
        (object (entry (ascii "input") input (entry (ascii "tool") (string tool) end)))

  abbrev pub called : (run_id : Bytes) → Trace → Trace
  called run_id t = exchanged network (call_request run_id) t ∷ t

  abbrev pub asked : (url run_id : Bytes) → Trace → Trace
  asked url run_id t =
      exchanged network (post none url (json input)) (called run_id t) ∷ called run_id t

  abbrev pub outcome_event : (run_id : Bytes) (success : Bool) (status : ℕ) → Value → Request
  outcome_event run_id true status output =
      event_post w state.ledger run_id (ascii "tool_result")
        (object (entry (ascii "output") output (entry (ascii "tool") (string tool) end)))
  outcome_event run_id false status output = event_post w state.ledger run_id (ascii "tool_error") (
      object (
        entry (ascii "body") output
          (entry (ascii "status") (nat status) (entry (ascii "tool") (string tool) end))))

  abbrev pub outcome_request : (run_id : Bytes) → (status : ℕ) → (body : Bytes) → Request
  outcome_request run_id status body =
      outcome_event run_id (is_success status) status (output_of body)

  abbrev pub concluded : (url run_id : Bytes) → Trace → (status : ℕ) → (body : Bytes) → Trace
  concluded url run_id t status body =
      exchanged network (outcome_request run_id status body) (asked url run_id t)
      ∷ asked url run_id t

  -- The account of a call that was answered with `reply`, from the trace `t` to the trace `s`.
  pub record IsAccounted (t : Trace) (reply : Reply) (s : Trace) : Type 0 where
    pub url : Bytes
    pub before : Trace
    pub route : lookup tool state.tool_routes ≡ some url
    pub run : HasRun w network state headers (ascii "tool_proxy") t reply.run_id before
    pub call_acked : IsAcked (exchanged network (call_request reply.run_id) before)
    -- The reply is what the backend answered to the input.
    pub answer :
        network (called reply.run_id before) (post none url (json input))
        ≡ some (record { status = reply.status; body = some reply.body })
    pub outcome_acked : IsAcked (
        exchanged network
          (outcome_request reply.run_id reply.status reply.body)
          (asked url reply.run_id before))
    -- After the outcome there are its rows, and nothing else.
    pub rows :
        HasRows w network state reply.run_id tool input
          (output_of reply.body)
          reply.status
          (concluded url reply.run_id before reply.status reply.body)
          s

  -- A write that the caller waits for and that the ledger did not acknowledge: the run, the event of the
  -- call, or the event of the outcome. The trace `s` ends with it.
  abbrev pub IsLedgerFailure : Trace → Trace → Type 0
  IsLedgerFailure t s =
      (url : Bytes) × (lookup tool state.tool_routes ≡ some url)
      × (HasNoRun w network state headers (ascii "tool_proxy") t s
          ⊎ ((run_id : Bytes) × (before : Trace) × HasRun w network state headers
                (ascii "tool_proxy") t run_id before
              × ((IsRefused network (read_event network w state) (call_request run_id) before
                    × (s ≡ called run_id before))
                  ⊎ (IsAcked (exchanged network (call_request run_id) before)
                      × ((status : ℕ) × (body : Bytes) × (network (called run_id before)
                              (post none url (json input))
                            ≡ some (record { status = status; body = some body }))
                          × IsRefused network (read_event network w state)
                              (outcome_request run_id status body) (asked url run_id before)
                          × (s ≡ concluded url run_id before status body))))))

  -- How a call ends with an error; it never ends with the errors left out.
  abbrev pub HasFailed : Trace → GatewayError → Trace → Type 0
  HasFailed t unknown_tool s = (lookup tool state.tool_routes ≡ none) × (s ≡ t)
  HasFailed t ledger_failed s = IsLedgerFailure t s
  HasFailed t backend_failed s =
      (url : Bytes) × (run_id : Bytes) × (before : Trace) × (lookup tool state.tool_routes
        ≡ some url)
      × HasRun w network state headers (ascii "tool_proxy") t run_id before
      × IsAcked (exchanged network (call_request run_id) before)
      × ((network (called run_id before) (post none url (json input)) ≡ none)
          ⊎ ((status : ℕ) × (network (called run_id before) (post none url (json input))
                ≡ some (record { status = status; body = none }))))
      × (s ≡ asked url run_id before)
  HasFailed t _ s = ⊥

  abbrev pub HasEnded : Trace → Result GatewayError Reply × Trace → Type 0
  HasEnded t (ok reply, s) = IsAccounted t reply s
  HasEnded t (err e, s) = HasFailed t e s
