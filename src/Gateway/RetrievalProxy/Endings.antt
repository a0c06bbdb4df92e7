-- ===== src/Gateway/RetrievalProxy/Endings.antt =====
-- What a retrieval that was answered is to have left on the ledger, request by request.
use trackward.Prelude.{
  ◌≡◌, List, [], ◌∷◌, length, Bytes, ascii, Bool, true, false, none, some, Result, ok, err,
}
use trackward.ChainCore.CanonicalJson.Syntax.{
  Value, Items, nil, cons, string, array, object, end, entry,
}
use trackward.Verifier.Bundle.{items_length}
use trackward.Verifier.Bundle
use trackward.Gateway.Approval.{GatewayError}
use trackward.Gateway.Http.{Request, post, json, Trace, Network, is_success}
use trackward.Gateway.LedgerClient.{Wire, nat}
use trackward.Gateway.LedgerApi.{event_post}
use trackward.Gateway.ToolProxy.{AppState, Headers, Reply}
use trackward.Gateway.ToolProxy.Steps.{IsAcked, IsArray, exchanged}
use trackward.Gateway.ToolProxy.Accounts.{HasRun}
use trackward.Gateway.RetrievalProxy.Uploads.{AreUploaded}

module _ (w : Wire) (network : Network) (state : AppState) where
  module _ (input : Value) (headers : Headers) where
    abbrev pub query_request : (run_id : Bytes) → Request
    query_request run_id = event_post w state.ledger run_id (ascii "retrieval_query") input

    abbrev pub queried : (run_id : Bytes) → Trace → Trace
    queried run_id t = exchanged network (query_request run_id) t ∷ t

    abbrev pub asked : (url run_id : Bytes) → Trace → Trace
    asked url run_id t =
        exchanged network (post none url (json input)) (queried run_id t) ∷ queried run_id t

    abbrev pub error_request : Reply → Request
    error_request reply = event_post w state.ledger reply.run_id (ascii "retrieval_error") (
        object (
          entry (ascii "body") (string (w.utf8_lossy reply.body))
            (entry (ascii "status") (nat reply.status) end)))

    abbrev pub texts : List Bytes → Items
    texts [] = nil
    texts (id ∷ ids) = cons (string (w.uuid_text id)) (texts ids)

    -- The event of the result names how many documents there are, and the ids of their artifacts.
    abbrev pub result_request : Reply → (docs : Items) → List Bytes → Request
    result_request reply docs ids =
        event_post w state.ledger reply.run_id (ascii "retrieval_result") (
          object (
            entry (ascii "artifact_ids") (array (texts ids))
              (entry (ascii "doc_count") (nat (length ids)) end)))

    -- What follows the backend's answer: the error event, or the uploads and the result event.
    abbrev pub HasEvidence : (success : Bool) → Reply → (t s : Trace) → Type 0
    HasEvidence false reply t s =
        IsAcked (exchanged network (error_request reply) t)
        × (s ≡ exchanged network (error_request reply) t ∷ t)
    HasEvidence true reply t s =
        (result : Value) × (docs : Items) × (ids : List Bytes) × (after : Trace) × (w.from_slice
            reply.body
          ≡ some result)
        × IsArray docs (Bundle.get (ascii "docs") result)
        × AreUploaded w network state reply.run_id 0 docs ids t after
        × IsAcked (exchanged network (result_request reply docs ids) after)
        × (s ≡ exchanged network (result_request reply docs ids) after ∷ after)

    pub record IsEvidenced (t : Trace) (reply : Reply) (s : Trace) : Type 0 where
      pub url : Bytes
      pub before : Trace
      pub route : state.retrieval_backend ≡ some url
      pub run : HasRun w network state headers (ascii "retrieval_proxy") t reply.run_id before
      pub query_acked : IsAcked (exchanged network (query_request reply.run_id) before)
      pub answer :
          network (queried reply.run_id before) (post none url (json input))
          ≡ some (record { status = reply.status; body = some reply.body })
      pub evidence : HasEvidence (is_success reply.status) reply (asked url reply.run_id before) s

    abbrev pub HasEnded : Trace → Result GatewayError Reply × Trace → Type 0
    HasEnded t (ok reply, s) = IsEvidenced t reply s
    HasEnded t (err e, s) = Unit {0}
