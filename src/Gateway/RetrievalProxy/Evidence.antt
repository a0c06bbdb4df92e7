-- ===== src/Gateway/RetrievalProxy/Evidence.antt =====
-- What a retrieval that was answered has left on the ledger.
use trackward.Prelude.{
  ◌≡◌, refl, ap, ap₂, subst, sym, ◌∙◌, ℕ, List, [], ◌∷◌, length, Bytes, ascii, Bool, true, false,
  Option, none, some, Result, ok, err, if◌then◌else◌,
}
use trackward.ChainCore.CanonicalJson.Syntax.{Value, Items, cons, string, array, object, end, entry}
use trackward.Verifier.Bundle.{items_length}
use trackward.Verifier.Bundle
use trackward.Gateway.Approval.{GatewayError, internal, backend_failed}
use trackward.Gateway.Http.{
  Request, post, json, Response, Trace, Network, Action, pure, or_raise, continue, ◌>>=◌, send,
  is_success,
}
use trackward.Gateway.LedgerClient.{Wire, EventResponse, nat, append_event}
use trackward.Gateway.LedgerApi.{event_post}
use trackward.Gateway.ToolProxy.{AppState, Headers, Reply, resolve_or_mint_run}
use trackward.Gateway.ToolProxy.Steps.{IsAcked, exchanged, append_event-cases, items_of-IsArray}
use trackward.Gateway.ToolProxy.Accounts.{HasRun, resolve_or_mint_run-cases}
use trackward.Gateway.RetrievalProxy.{
  upload_docs, id_items, retrieval_result_body, record_error, docs_of, record_result, retrieve_run,
  retrieve,
}
use trackward.Gateway.RetrievalProxy.Uploads.{AreUploaded, AreUploaded-length, upload_docs-cases}
use trackward.Gateway.RetrievalProxy.Endings.{
  query_request, queried, asked, texts, result_request, HasEvidence, HasEnded, IsEvidenced,
}

module _ (w : Wire) (network : Network) (state : AppState) where
  module _ (input : Value) (headers : Headers) where
    id_items-texts :
        (ids : List Bytes) → id_items w network state ids ≡ texts w network state input headers ids
    id_items-texts [] = refl
    id_items-texts (id ∷ ids) = ap (cons (string (w.uuid_text id))) (id_items-texts ids)

    result_request-sent :
        (reply : Reply) (docs : Items) (ids : List Bytes)
        → items_length docs ≡ length ids
        → event_post w state.ledger reply.run_id
            (ascii "retrieval_result")
            (retrieval_result_body w network state docs ids)
          ≡ result_request w network state input headers reply docs ids
    result_request-sent reply docs ids counted =
        ap₂
          (λ is n. event_post w state.ledger reply.run_id (ascii "retrieval_result") (
            object
              (entry (ascii "artifact_ids") (array is) (entry (ascii "doc_count") (nat n) end))))
          (id_items-texts ids) counted

    record_result-evidence :
        (run_id : Bytes) (status : ℕ) (body : Bytes) (t : Trace)
        (P : Result GatewayError Reply × Trace → Type 0)
        → ((s : Trace)
            → HasEvidence w network state input headers true
                (record { status = status; run_id = run_id; body = body })
                t
                s
            → P (ok (record { status = status; run_id = run_id; body = body }), s))
        → ((e : GatewayError) (s : Trace) → P (err e, s))
        → P (record_result w network state run_id status body t)
    unfolding record_result
    record_result-evidence run_id status body t P good bad = on (w.from_slice body) refl
      where
        reply : Reply
        reply = record { status = status; run_id = run_id; body = body }

        finish : Value → List Bytes → Action Reply
        finish result ids =
            append_event w network state.ledger run_id (ascii "retrieval_result")
              (retrieval_result_body w network state (docs_of w network state result) ids)
            >>= λ recorded. pure reply

        recorded :
            (result : Value)
            → w.from_slice body ≡ some result
            → (ids : List Bytes) (after : Trace)
            → AreUploaded w network state run_id 0 (docs_of w network state result) ids t after
            → (r : Request)
            → r
              ≡ result_request w network state input headers reply
                  (docs_of w network state result)
                  ids
            → EventResponse
            → IsAcked (exchanged network r after)
            → P (ok reply, exchanged network r after ∷ after)
        recorded result read ids after uploaded r same =
            subst
              (λ q.
                EventResponse
                → IsAcked (exchanged network q after)
                → P (ok reply, exchanged network q after ∷ after))
              (sym same)
              (λ event acked. good _ (
                result,
                docs_of w network state result,
                ids,
                after,
                read,
                items_of-IsArray network w state (Bundle.get (ascii "docs") result),
                uploaded,
                acked,
                refl,
              ))

        on :
            (o : Option Value)
            → w.from_slice body ≡ o
            → P (
                (or_raise backend_failed o >>= λ result.
                upload_docs w network state run_id 0 (docs_of w network state result)
                >>= finish result)
                  t)
        on none read = bad _ _
        on (some result) read =
            upload_docs-cases w network state (λ x. P (continue x (finish result))) run_id 0
              (docs_of w network state result) t
              (λ ids after uploaded.
                append_event-cases network w state (λ x. P (continue x λ recorded. pure reply))
                  run_id (ascii "retrieval_result")
                  (retrieval_result_body w network state (docs_of w network state result) ids) after
                  (λ refused. bad _ _)
                  (recorded result read ids after uploaded _ (
                    result_request-sent reply (docs_of w network state result) ids (
                      AreUploaded-length w network state run_id 0 (docs_of w network state result)
                        ids t after uploaded))))
              (λ s. bad _ _)

    retrieve_run-ended :
        (url run_id : Bytes) (t before : Trace)
        → state.retrieval_backend ≡ some url
        → HasRun w network state headers (ascii "retrieval_proxy") t run_id before
        → HasEnded w network state input headers t
            (retrieve_run w network state url run_id input before)
    unfolding retrieve_run send record_error
    retrieve_run-ended url run_id t before route minted =
        append_event-cases network w state
          (λ x. HasEnded w network state input headers t (continue x λ _. after_query)) run_id
          (ascii "retrieval_query") input before (λ refused. tt)
          (λ event acked.
            on_answer acked
              (network (queried w network state input headers run_id before)
                (post none url (json input)))
              refl)
      where
        by_status : (success : Bool) (status : ℕ) (bytes : Bytes) → Action Reply
        by_status success status bytes =
            if success
            then record_result w network state run_id status bytes
            else record_error w network state run_id status bytes

        after_sent : Option Response → Action Reply
        after_sent sent = do
          backend ← or_raise backend_failed sent
          bytes ← or_raise backend_failed backend.body
          by_status (is_success backend.status) backend.status bytes

        after_query : Action Reply
        after_query = send network (post none url (json input)) >>= after_sent

        on_status :
            IsAcked (exchanged network (query_request w network state input headers run_id) before)
            → (status : ℕ) (bytes : Bytes)
            → network
                (queried w network state input headers run_id before)
                (post none url (json input))
              ≡ some (record { status = status; body = some bytes })
            → (success : Bool) → is_success status ≡ success
            → HasEnded w network state input headers t (
                by_status success status bytes
                  (asked w network state input headers url run_id before))
        on_status acked status bytes answer success same = on success same
          where
            account :
                (s : Trace)
                → HasEvidence w network state input headers
                    (is_success status)
                    (record { status = status; run_id = run_id; body = bytes })
                    (asked w network state input headers url run_id before)
                    s
                → IsEvidenced w network state input headers t
                    (record { status = status; run_id = run_id; body = bytes })
                    s
            account s evidence = record {
              url = url;
              before = before;
              route = route;
              run = minted;
              query_acked = acked;
              answer = answer;
              evidence = evidence;
            }

            at :
                (success : Bool) (s : Trace)
                → is_success status ≡ success
                → HasEvidence w network state input headers success
                    (record { status = status; run_id = run_id; body = bytes })
                    (asked w network state input headers url run_id before)
                    s
                → HasEvidence w network state input headers
                    (is_success status)
                    (record { status = status; run_id = run_id; body = bytes })
                    (asked w network state input headers url run_id before)
                    s
            at success s same =
                subst
                  (λ b.
                    HasEvidence w network state input headers b
                      (record { status = status; run_id = run_id; body = bytes })
                      (asked w network state input headers url run_id before) s)
                  (sym same)

            on :
                (success : Bool)
                → is_success status ≡ success
                → HasEnded w network state input headers t (
                    by_status success status bytes
                      (asked w network state input headers url run_id before))
            on true same =
                record_result-evidence run_id status bytes
                  (asked w network state input headers url run_id before)
                  (HasEnded w network state input headers t)
                  (λ s evidence. account s (at true s same evidence)) (λ e s. tt)
            on false same =
                append_event-cases network w state
                  (λ x. HasEnded w network state input headers t (
                    continue x
                      λ recorded. pure (record { status = status; run_id = run_id; body = bytes })))
                  run_id (ascii "retrieval_error")
                  (object (
                    entry (ascii "body") (string (w.utf8_lossy bytes))
                      (entry (ascii "status") (nat status) end)))
                  (asked w network state input headers url run_id before) (λ refused. tt)
                  (λ event acked'. account _ (at false _ same (acked', refl)))

        on_answer :
            IsAcked (exchanged network (query_request w network state input headers run_id) before)
            → (o : Option Response)
            → network
                (queried w network state input headers run_id before)
                (post none url (json input))
              ≡ o
            → HasEnded w network state input headers t
                (after_sent o (asked w network state input headers url run_id before))
        on_answer acked none e = tt
        on_answer acked (some backend) e = on_body backend.body refl
          where
            on_body :
                (o : Option Bytes)
                → backend.body ≡ o
                → HasEnded w network state input headers t (
                    (or_raise backend_failed o
                        >>= by_status (is_success backend.status) backend.status)
                      (asked w network state input headers url run_id before))
            on_body none b = tt
            on_body (some bytes) b =
                on_status acked backend.status bytes
                  (e ∙ ap (λ o. some (record { status = backend.status; body = o })) b)
                  (is_success backend.status) refl

    retrieve-ended :
        (t : Trace)
        → HasEnded w network state input headers t (retrieve w network state headers input t)
    unfolding retrieve
    retrieve-ended t = on state.retrieval_backend refl
      where
        on :
            (o : Option Bytes)
            → state.retrieval_backend ≡ o
            → HasEnded w network state input headers t (
                (or_raise internal o >>= λ url.
                resolve_or_mint_run w network state headers (ascii "retrieval_proxy") >>= λ run.
                retrieve_run w network state url run.0 input)
                  t)
        on none route = tt
        on (some url) route =
            resolve_or_mint_run-cases w network state
              (λ x.
                HasEnded w network state input headers t
                  (continue x λ run. retrieve_run w network state url run.0 input))
              headers (ascii "retrieval_proxy") t
              (λ run s minted. retrieve_run-ended url run.0 t s route minted) (λ s unminted. tt)

    -- A query that is answered has a run, the caller's or a minted one; it was recorded before the backend
    -- was asked, and the reply is what the backend answered. An answer that is no success was recorded as an error event. Of a success, every
    -- document of the array `docs` was uploaded, in order, under its id or its place, and acknowledged, and the last thing recorded is the result
    -- event, with their number and the ids that the ledger gave them.
    pub retrieve-IsEvidenced :
        (t s : Trace) (reply : Reply)
        → retrieve w network state headers input t ≡ (ok reply, s)
        → IsEvidenced w network state input headers t reply s
    retrieve-IsEvidenced t s reply h =
        subst (HasEnded w network state input headers t) h (retrieve-ended t)
