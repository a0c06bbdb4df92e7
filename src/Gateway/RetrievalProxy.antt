-- ===== src/Gateway/RetrievalProxy.antt =====
-- services/gateway/src/retrieval_proxy/mod.rs: a retrieval query through the gateway, with each
-- returned document kept as an artifact of the run.
pub mod Uploads
pub mod Endings
pub mod Evidence
use trackward.Prelude.{
  ℕ, suc, List, [], ◌∷◌, ◌++◌, Bytes, ascii, Bool, Option, none, some, ok, err, if◌then◌else◌,
}
use trackward.ChainCore.CanonicalJson.Syntax.{
  Value, Items, string, array, object, nil, cons, end, entry,
}
use trackward.ChainCore.CanonicalJson.{show_nat}
use trackward.Verifier.Bundle.{and_then, unwrap_or, as_str, items_length}
use trackward.Verifier.Bundle
use trackward.Gateway.Approval.{internal, backend_failed}
use trackward.Gateway.Http.{
  post, json, Response, Action, Network, pure, or_raise, continue, ◌>>=◌, ◌>>◌, send, is_success,
}
use trackward.Gateway.LedgerClient.{Wire, nat, append_event, upload_artifact}
use trackward.Gateway.ToolProxy.{AppState, Headers, Reply, items_of, resolve_or_mint_run}

-- The label of a document: its id, or its place.
unfoldable pub doc_label : (i : ℕ) → Value → Bytes
unfolding show_nat Bundle.get as_str
doc_label i doc =
    unwrap_or (ascii "doc-" ++ show_nat i) (and_then (Bundle.get (ascii "id") doc) as_str)

module _ (w : Wire) (network : Network) (state : AppState) where
  -- The loop over the documents: the first upload that fails ends it.
  unfoldable pub upload_docs : (run_id : Bytes) (i : ℕ) → Items → Action (List Bytes)
  unfolding upload_artifact doc_label
  upload_docs run_id i nil = pure []
  upload_docs run_id i (cons doc docs) = do
    artifact ←
        upload_artifact w network state.ledger run_id (doc_label i doc) (ascii "application/json")
          (w.to_vec doc)
    ids ← upload_docs run_id (suc i) docs
    pure (artifact.id ∷ ids)

  abbrev pub id_items : List Bytes → Items
  id_items [] = nil
  id_items (id ∷ ids) = cons (string (w.uuid_text id)) (id_items ids)

  abbrev pub retrieval_result_body : (docs : Items) (artifact_ids : List Bytes) → Value
  retrieval_result_body docs artifact_ids = object (
      entry (ascii "artifact_ids") (array (id_items artifact_ids))
        (entry (ascii "doc_count") (nat (items_length docs)) end))

  -- The answer of a backend that did not succeed.
  unfoldable pub record_error : (run_id : Bytes) (status : ℕ) (body : Bytes) → Action Reply
  unfolding append_event
  record_error run_id status body = do
    recorded ← append_event w network state.ledger run_id (ascii "retrieval_error") (
        object (
          entry (ascii "body") (string (w.utf8_lossy body))
            (entry (ascii "status") (nat status) end)))
    pure (record { status = status; run_id = run_id; body = body })

  abbrev pub docs_of : (result : Value) → Items
  docs_of result = items_of w network state (Bundle.get (ascii "docs") result)

  -- The answer of a backend that succeeded.
  unfoldable pub record_result : (run_id : Bytes) (status : ℕ) (body : Bytes) → Action Reply
  unfolding append_event upload_docs Bundle.get items_length
  record_result run_id status body = do
    result ← or_raise backend_failed (w.from_slice body)
    artifact_ids ← upload_docs run_id 0 (docs_of result)
    recorded ←
        append_event w network state.ledger run_id (ascii "retrieval_result")
          (retrieval_result_body (docs_of result) artifact_ids)
    pure (record { status = status; run_id = run_id; body = body })

  unfoldable pub retrieve_run : (backend_url run_id : Bytes) (input : Value) → Action Reply
  unfolding append_event send is_success record_error record_result
  retrieve_run backend_url run_id input = do
    queried ← append_event w network state.ledger run_id (ascii "retrieval_query") input
    sent ← send network (post none backend_url (json input))
    backend ← or_raise backend_failed sent
    bytes ← or_raise backend_failed backend.body
    if is_success backend.status
        then record_result run_id backend.status bytes
        else record_error run_id backend.status bytes

  unfoldable pub retrieve : Headers → (input : Value) → Action Reply
  unfolding resolve_or_mint_run retrieve_run
  retrieve headers input = do
    backend_url ← or_raise internal state.retrieval_backend
    run ← resolve_or_mint_run w network state headers (ascii "retrieval_proxy")
    retrieve_run backend_url run.0 input
