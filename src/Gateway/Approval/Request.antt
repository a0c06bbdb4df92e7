-- ===== src/Gateway/Approval/Request.antt =====
-- services/gateway/src/approval/mod.rs: `request`, with what it asks of the ledger before it waits
-- for the decision and after it.
use trackward.Prelude.{
  ℕ, [], Bytes, ascii, bytes_eq, lex_le, Bool, true, false, Result, ok, err, if◌then◌else◌,
}
use trackward.ChainCore.CanonicalJson.Syntax.{Value, Fields, string, object, end, entry}
use trackward.Verifier.Bundle.{and_then, unwrap_or, as_str}
use trackward.Verifier.Bundle
use trackward.Gateway.Approval.{
  GatewayError, Decision, PendingApproval, Approvals, register, cancel,
}
use trackward.Gateway.Http.{Action, Trace, Network, pure, attempt, ◌>>=◌}
use trackward.Gateway.LedgerClient.{
  Wire, EventResponse, or_null, append_event, record_human_approval,
}
use trackward.Gateway.ToolProxy.{AppState, Headers, Reply, resolve_or_mint_run}

-- `Map::insert`: the keys are sorted, and the value of a key that is there is replaced.
unfoldable pub insert_field : Bytes → Value → Fields → Fields
unfolding bytes_eq lex_le
insert_field key v end = entry key v end
insert_field key v (entry k u fs) =
    let rest = insert_field key v fs in
    if bytes_eq k key
    then entry key v fs
    else if lex_le key k
    then entry key v (entry k u fs)
    else entry k u rest

module _ (w : Wire) (network : Network) (state : AppState) where
  -- The caller's payload with the id: in it, or beside it when it is no object.
  unfoldable pub requested_body : (approval_id : Bytes) → (body : Value) → Value
  unfolding insert_field
  requested_body approval_id (object fs) =
      object (insert_field (ascii "approval_id") (string (w.uuid_text approval_id)) fs)
  requested_body approval_id body = object (
      entry (ascii "approval_id") (string (w.uuid_text approval_id))
        (entry (ascii "payload") body end))

  unfoldable pub requested_tool : (body : Value) → Bytes
  unfolding Bundle.get as_str
  requested_tool body = unwrap_or [] (and_then (Bundle.get (ascii "tool") body) as_str)

  -- The handler on its two stores: the approvals, and the exchanges.
  abbrev pub announced :
      (approval_id : Bytes) (approval : PendingApproval)
      → Approvals
      → Result GatewayError EventResponse × Trace
      → Result GatewayError PendingApproval × Approvals × Trace
  announced approval_id approval s (ok event, t) = (ok approval, s, t)
  announced approval_id approval s (err e, t) = (err e, cancel approval_id s, t)

  abbrev pub opened :
      (approval_id : Bytes) (body : Value)
      → Approvals
      → Result GatewayError (Bytes × Bool) × Trace
      → Result GatewayError PendingApproval × Approvals × Trace
  opened approval_id body s (err e, t) = (err e, s, t)
  opened approval_id body s (ok run, t) =
      let approval : PendingApproval = record { run_id = run.0; tool = requested_tool body } in
      announced approval_id approval (register approval_id approval s) (
        append_event w network state.ledger run.0 (ascii "approval_requested")
          (requested_body approval_id body) t)

  -- `request` up to the await. The entry is there before the event is sent; when the event is not
  -- recorded the receiver goes away and the entry stays.
  unfoldable pub request_opened :
      (approval_id : Bytes)
      → Headers
      → (body : Value) → Approvals
      → Trace
      → Result GatewayError PendingApproval × Approvals × Trace
  unfolding resolve_or_mint_run append_event requested_body requested_tool register cancel
  request_opened approval_id headers body s t =
      opened approval_id body s (resolve_or_mint_run w network state headers (ascii "approval") t)

  abbrev pub approval_kind : Bool → Bytes
  approval_kind true = ascii "approval_granted"
  approval_kind false = ascii "approval_denied"

  abbrev pub decision_label : Bool → Bytes
  decision_label true = ascii "granted"
  decision_label false = ascii "denied"

  abbrev pub decided_body : (approval_id tool : Bytes) → Decision → Value
  decided_body approval_id tool d = object (
      entry (ascii "approval_id") (string (w.uuid_text approval_id))
        (entry (ascii "reason") (or_null string d.reason) (entry (ascii "tool") (string tool) end)))

  abbrev pub reply_body : (approval_id : Bytes) → Decision → Value
  reply_body approval_id d = object (
      entry (ascii "approval_id") (string (w.uuid_text approval_id)) (
        entry (ascii "decision") (string (decision_label d.granted))
          (entry (ascii "reason") (or_null string d.reason) end)))

  -- `request` after the await, on what it yields.
  unfoldable pub request_decided :
      (approval_id : Bytes) (approval : PendingApproval) (requested_at : ℕ)
      → Result GatewayError Decision
      → Action Reply
  unfolding append_event record_human_approval
  request_decided approval_id approval requested_at (err e) t = (err e, t)
  request_decided approval_id approval requested_at (ok d) t =
      (do
        recorded ←
            append_event w network state.ledger approval.run_id (approval_kind d.granted)
              (decided_body approval_id approval.tool d)
        mirrored ← attempt (
            record_human_approval w network state.ledger approval_id approval.run_id approval.tool
              (decision_label d.granted) d.reason requested_at)
        pure (record {
          status = 200;
          run_id = approval.run_id;
          body = w.to_vec (reply_body approval_id d);
        }))
        t
