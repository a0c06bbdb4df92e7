-- ===== src/Gateway/LedgerClient.antt =====
-- services/gateway/src/ledger_client.rs: one request to the ledger per method, and what is read from
-- the answer. What serde reads from an answer's body is a parameter, a function per response type.
use trackward.Prelude.{
  ◌++◌, List, [], ◌∷◌, Bytes, ascii, Option, none, some, ℤ, ℕ, if◌then◌else◌, pos,
}
use trackward.ChainCore.CanonicalJson.Syntax.{Value, null, number, string, object, end, entry}
use trackward.Verifier.Bundle.{and_then}
use trackward.Gateway.Approval.{GatewayError, ledger_failed}
use trackward.Gateway.Http.{
  Request, post, get, json, query, multipart, Response, Action, Network, pure, raise, or_raise,
  ◌>>=◌, send, is_success,
}

pub record EventResponse : Type 0 where
  pub id : Bytes
  pub seq : ℤ

pub record ArtifactResponse : Type 0 where
  pub id : Bytes
  pub sha256 : Bytes

-- What the gateway takes from `uuid`, `chrono`, `http` and `serde`.
pub record Wire : Type 0 where
  pub uuid_text : Bytes → Bytes
  pub parse_uuid : Bytes → Option Bytes
  -- `HeaderValue::to_str`
  pub header_text : Bytes → Option Bytes
  -- the JSON text of a time
  pub time_text : ℕ → Bytes
  -- `RunResponse`, `IdRow`, `ToolInvocationResponse`
  pub read_id : Bytes → Option Bytes
  pub read_ids : Bytes → Option (List Bytes)
  pub read_event : Bytes → Option EventResponse
  pub read_artifact : Bytes → Option ArtifactResponse
  -- `serde_json::from_slice`, `serde_json::to_vec`, `String::from_utf8_lossy`
  pub from_slice : Bytes → Option Value
  pub to_vec : Value → Bytes
  pub utf8_lossy : Bytes → Bytes

pub record LedgerClient : Type 0 where
  pub base : Bytes
  pub actor : Bytes

-- Each method fails with its own words: the model keeps that it is the ledger that failed.
abbrev pub failed : GatewayError
failed = ledger_failed

abbrev pub body_of : {A : Type 0} → (Bytes → Option A) → Response → Action A
body_of read r = or_raise failed (and_then r.body read)

-- A value that is there, or null.
abbrev pub or_null : {A : Type 0} → (A → Value) → Option A → Value
or_null show none = null
or_null show (some a) = show a

-- A `u16`, a `usize` or an index as a JSON number.
abbrev pub nat : ℕ → Value
nat n = number (record { as_i64 = some (pos n); as_u64 = some n })

module _ (w : Wire) (network : Network) (c : LedgerClient) where
  abbrev pub uuid_json : Bytes → Value
  uuid_json id = string (w.uuid_text id)

  -- A write to the ledger: the actor's header is on it.
  abbrev pub write : Bytes → Value → Request
  write path body = post (some c.actor) (c.base ++ path) (json body)

  -- What every method does with its request: send it, and check the status.
  unfoldable pub call : Request → Action Response
  unfolding send is_success
  call request = do
    sent ← send network request
    response ← or_raise failed sent
    if is_success response.status then pure response else raise failed

  abbrev pub create_run_request : (agent : Bytes) (metadata : Value) → Request
  create_run_request agent metadata =
      write (ascii "/runs")
        (object (entry (ascii "agent") (string agent) (entry (ascii "metadata") metadata end)))

  unfoldable pub create_run : (agent : Bytes) (metadata : Value) → Action Bytes
  unfolding call
  create_run agent metadata = do
    response ← call (create_run_request agent metadata)
    body_of w.read_id response

  abbrev pub append_event_request : (run_id kind : Bytes) (body : Value) → Request
  append_event_request run_id kind body =
      write (ascii "/runs/" ++ w.uuid_text run_id ++ ascii "/events")
        (object (entry (ascii "body") body (entry (ascii "kind") (string kind) end)))

  unfoldable pub append_event : (run_id kind : Bytes) (body : Value) → Action EventResponse
  unfolding call
  append_event run_id kind body = do
    response ← call (append_event_request run_id kind body)
    body_of w.read_event response

  unfoldable pub register_prompt_version :
      (workflow version git_sha content_hash : Bytes) → Action Bytes
  unfolding call
  register_prompt_version workflow version git_sha content_hash = do
    -- the keys of the map, sorted
    response ← call (
        write (ascii "/prompt-versions") (
          object (
            entry (ascii "content_hash") (string content_hash) (
              entry (ascii "git_sha") (string git_sha) (
                entry (ascii "version") (string version)
                  (entry (ascii "workflow") (string workflow) end))))))
    body_of w.read_id response

  unfoldable pub register_policy_version :
      (scope version git_sha content_hash : Bytes) → Action Bytes
  unfolding call
  register_policy_version scope version git_sha content_hash = do
    response ← call (
        write (ascii "/policy-versions") (
          object (
            entry (ascii "content_hash") (string content_hash) (
              entry (ascii "git_sha") (string git_sha) (
                entry (ascii "scope") (string scope)
                  (entry (ascii "version") (string version) end))))))
    body_of w.read_id response

  abbrev pub first_of : List Bytes → Option Bytes
  first_of [] = none
  first_of (id ∷ ids) = some id

  unfoldable pub latest_eval_result : (workflow version : Bytes) → Action (Option Bytes)
  unfolding call
  latest_eval_result workflow version = do
    response ← call (get (c.base ++ ascii "/eval-results") (query workflow version))
    ids ← body_of w.read_ids response
    pure (first_of ids)

  abbrev pub bind_run_request :
      (run_id : Bytes) (prompt_version_id policy_version_id eval_result_id : Option Bytes) → Request
  bind_run_request run_id prompt_version_id policy_version_id eval_result_id =
      write (ascii "/runs/" ++ w.uuid_text run_id ++ ascii "/bindings") (
        object (
          entry (ascii "eval_result_id") (or_null uuid_json eval_result_id) (
            entry (ascii "policy_version_id") (or_null uuid_json policy_version_id)
              (entry (ascii "prompt_version_id") (or_null uuid_json prompt_version_id) end))))

  unfoldable pub bind_run :
      (run_id : Bytes) (prompt_version_id policy_version_id eval_result_id : Option Bytes)
      → Action (Unit {0})
  unfolding call
  bind_run run_id prompt_version_id policy_version_id eval_result_id = do
    response ← call (bind_run_request run_id prompt_version_id policy_version_id eval_result_id)
    pure tt

  abbrev pub tool_invocation_request :
      (run_id tool : Bytes) (input output : Value) (status : Bytes) (status_code : Option ℕ)
      → Request
  tool_invocation_request run_id tool input output status status_code =
      write (ascii "/tool-invocations") (
        object (
          entry (ascii "input") input (
            entry (ascii "output") output (
              entry (ascii "run_id") (uuid_json run_id) (
                entry (ascii "status") (string status) (
                  entry (ascii "status_code") (or_null nat status_code)
                    (entry (ascii "tool") (string tool) end)))))))

  unfoldable pub record_tool_invocation :
      (run_id tool : Bytes) (input output : Value) (status : Bytes) (status_code : Option ℕ)
      → Action Bytes
  unfolding call
  record_tool_invocation run_id tool input output status status_code = do
    response ← call (tool_invocation_request run_id tool input output status status_code)
    body_of w.read_id response

  abbrev pub side_effect_request :
      (run_id : Bytes) (tool_invocation_id : Option Bytes) (kind target status : Bytes)
      (confirmation : Value)
      → Request
  side_effect_request run_id tool_invocation_id kind target status confirmation =
      write (ascii "/side-effects") (
        object (
          entry (ascii "confirmation") confirmation (
            entry (ascii "kind") (string kind) (
              entry (ascii "run_id") (uuid_json run_id) (
                entry (ascii "status") (string status) (
                  entry (ascii "target") (string target) (
                    entry (ascii "tool_invocation_id") (or_null uuid_json tool_invocation_id)
                      end)))))))

  unfoldable pub record_side_effect :
      (run_id : Bytes) (tool_invocation_id : Option Bytes) (kind target status : Bytes)
      (confirmation : Value)
      → Action (Unit {0})
  unfolding call
  record_side_effect run_id tool_invocation_id kind target status confirmation = do
    response ← call (side_effect_request run_id tool_invocation_id kind target status confirmation)
    pure tt

  abbrev pub human_approval_request :
      (id run_id tool decision : Bytes) (reason : Option Bytes) (requested_at : ℕ) → Request
  human_approval_request id run_id tool decision reason requested_at =
      write (ascii "/human-approvals") (
        object (
          entry (ascii "decision") (string decision) (
            entry (ascii "id") (uuid_json id) (
              entry (ascii "reason") (or_null string reason) (
                entry (ascii "requested_at") (string (w.time_text requested_at)) (
                  entry (ascii "run_id") (uuid_json run_id)
                    (entry (ascii "tool") (string tool) end)))))))

  unfoldable pub record_human_approval :
      (id run_id tool decision : Bytes) (reason : Option Bytes) (requested_at : ℕ)
      → Action (Unit {0})
  unfolding call
  record_human_approval id run_id tool decision reason requested_at = do
    response ← call (human_approval_request id run_id tool decision reason requested_at)
    pure tt

  abbrev pub artifact_request : (run_id label media_type bytes : Bytes) → Request
  artifact_request run_id label media_type bytes =
      post (some c.actor) (c.base ++ ascii "/artifacts")
        (multipart (w.uuid_text run_id) label media_type bytes)

  unfoldable pub upload_artifact : (run_id label media_type bytes : Bytes) → Action ArtifactResponse
  unfolding call
  upload_artifact run_id label media_type bytes = do
    response ← call (artifact_request run_id label media_type bytes)
    body_of w.read_artifact response
