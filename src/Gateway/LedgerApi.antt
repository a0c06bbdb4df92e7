-- ===== src/Gateway/LedgerApi.antt =====
-- What the gateway is to write to the ledger, request by request, as the ledger's routes take it. The
-- results on the proxies and the approvals are stated with these requests.
use trackward.Prelude.{◌++◌, Bytes, ascii, Option, some, ℕ}
use trackward.ChainCore.CanonicalJson.Syntax.{Value, string, object, end, entry}
use trackward.Gateway.Http.{Request, post, json, multipart}
use trackward.Gateway.LedgerClient.{Wire, LedgerClient, nat, or_null}

module _ (w : Wire) (c : LedgerClient) where
  -- A POST to the ledger, in the gateway's name.
  abbrev pub to_ledger : Bytes → Value → Request
  to_ledger path body = post (some c.actor) (c.base ++ path) (json body)

  abbrev id_json : Bytes → Value
  id_json id = string (w.uuid_text id)

  abbrev pub run_post : (origin : Bytes) → Request
  run_post origin = to_ledger (ascii "/runs") (
      object (
        entry (ascii "agent") (string (ascii "gateway"))
          (entry (ascii "metadata") (object (entry (ascii "origin") (string origin) end)) end)))

  abbrev pub binding_post : (run_id : Bytes) (prompt policy eval : Option Bytes) → Request
  binding_post run_id prompt policy eval =
      to_ledger (ascii "/runs/" ++ w.uuid_text run_id ++ ascii "/bindings") (
        object (
          entry (ascii "eval_result_id") (or_null id_json eval) (
            entry (ascii "policy_version_id") (or_null id_json policy)
              (entry (ascii "prompt_version_id") (or_null id_json prompt) end))))

  abbrev pub event_post : (run_id kind : Bytes) → Value → Request
  event_post run_id kind body =
      to_ledger (ascii "/runs/" ++ w.uuid_text run_id ++ ascii "/events")
        (object (entry (ascii "body") body (entry (ascii "kind") (string kind) end)))

  abbrev pub invocation_post :
      (run_id tool : Bytes) (input output : Value) (label : Bytes) (status : ℕ) → Request
  invocation_post run_id tool input output label status = to_ledger (ascii "/tool-invocations") (
      object (
        entry (ascii "input") input (
          entry (ascii "output") output (
            entry (ascii "run_id") (id_json run_id) (
              entry (ascii "status") (string label) (
                entry (ascii "status_code") (nat status)
                  (entry (ascii "tool") (string tool) end)))))))

  abbrev pub effect_post :
      (run_id : Bytes) (invocation_id : Option Bytes) (kind target status : Bytes) → Value → Request
  effect_post run_id invocation_id kind target status confirmation =
      to_ledger (ascii "/side-effects") (
        object (
          entry (ascii "confirmation") confirmation (
            entry (ascii "kind") (string kind) (
              entry (ascii "run_id") (id_json run_id) (
                entry (ascii "status") (string status) (
                  entry (ascii "target") (string target)
                    (entry (ascii "tool_invocation_id") (or_null id_json invocation_id) end)))))))

  abbrev pub approval_post :
      (id run_id tool decision : Bytes) (reason : Option Bytes) (requested_at : ℕ) → Request
  approval_post id run_id tool decision reason requested_at = to_ledger (ascii "/human-approvals") (
      object (
        entry (ascii "decision") (string decision) (
          entry (ascii "id") (id_json id) (
            entry (ascii "reason") (or_null string reason) (
              entry (ascii "requested_at") (string (w.time_text requested_at)) (
                entry (ascii "run_id") (id_json run_id)
                  (entry (ascii "tool") (string tool) end)))))))

  abbrev pub document_post : (run_id label text : Bytes) → Request
  document_post run_id label text =
      post (some c.actor) (c.base ++ ascii "/artifacts")
        (multipart (w.uuid_text run_id) label (ascii "application/json") text)
