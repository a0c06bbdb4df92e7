-- ===== src/Gateway/ToolProxy/Outcome.antt =====
-- How a proxied call ends, and what it has recorded by then.
use trackward.Prelude.{
  ◌≡◌, refl, ap, subst, ◌∙◌, inl, inr, sym, Bool, true, false, ℕ, Bytes, ascii, ◌∷◌, Option, none,
  some, ok, err,
}
use trackward.ChainCore.CanonicalJson.Syntax.{Value}
use trackward.Gateway.Approval.{GatewayError, unknown_tool, ledger_failed, backend_failed, lookup}
use trackward.Gateway.Http.{
  Request, post, json, Response, Trace, Network, Action, pure, or_raise, continue, ◌>>=◌, send,
  is_success,
}
use trackward.Gateway.LedgerClient.{Wire, append_event}
use trackward.Gateway.LedgerApi.{event_post}
use trackward.Gateway.ToolProxy.{
  AppState, Headers, Reply, resolve, resolve_or_mint_run, record_invocation, body_value, call_body,
  outcome_kind, outcome_body, proxy_run, proxy,
}
use trackward.Gateway.ToolProxy.Steps.{
  IsAcked, IsRefused, exchanged, read_event, append_event-cases,
}
use trackward.Gateway.ToolProxy.Accounts.{
  HasRun, record_invocation-HasRows, resolve_or_mint_run-cases,
}
use trackward.Gateway.ToolProxy.Endings.{
  output_of, call_request, called, asked, outcome_event, outcome_request, concluded, HasFailed,
  HasEnded, IsAccounted,
}

module _ (w : Wire) (network : Network) (state : AppState) (tool : Bytes) (input : Value)
    (headers : Headers) where
  -- What the code sends of the outcome is the event of the outcome.
  outcome_request-sent :
      (run_id : Bytes) (success : Bool) (status : ℕ) (output : Value)
      → event_post w state.ledger run_id
          (outcome_kind w network state success)
          (outcome_body w network state success tool status output)
        ≡ outcome_event w network state tool input headers run_id success status output
  outcome_request-sent run_id true status output = refl
  outcome_request-sent run_id false status output = refl

  proxy_run-ended :
      (url run_id : Bytes) (t before : Trace)
      → lookup tool state.tool_routes ≡ some url
      → HasRun w network state headers (ascii "tool_proxy") t run_id before
      → HasEnded w network state tool input headers t
          (proxy_run w network state tool url run_id input before)
  unfolding proxy_run send body_value
  proxy_run-ended url run_id t before route minted =
      append_event-cases network w state
        (λ x. HasEnded w network state tool input headers t (continue x λ _. after_call)) run_id
        (ascii "tool_call") (call_body w network state tool input) before
        (λ refused. (url, route, inr (run_id, before, minted, inl (refused, refl))))
        (λ event acked.
          on_answer acked
            (network (called w network state tool input headers run_id before)
              (post none url (json input)))
            refl)
    where
      after_bytes : (backend : Response) → Bytes → Action Reply
      after_bytes backend bytes = do
        recorded ←
            append_event w network state.ledger run_id
              (outcome_kind w network state (is_success backend.status))
              (outcome_body w network state (is_success backend.status) tool backend.status
                (body_value w network state bytes))
        mirrored ←
            record_invocation w network state run_id tool input (body_value w network state bytes)
              backend.status
        pure (record { status = backend.status; run_id = run_id; body = bytes })

      after_sent : Option Response → Action Reply
      after_sent sent = do
        backend ← or_raise backend_failed sent
        bytes ← or_raise backend_failed backend.body
        after_bytes backend bytes

      after_call : Action Reply
      after_call = send network (post none url (json input)) >>= after_sent

      on_answer :
          IsAcked
            (exchanged network (call_request w network state tool input headers run_id) before)
          → (o : Option Response)
          → network
              (called w network state tool input headers run_id before)
              (post none url (json input))
            ≡ o
          → HasEnded w network state tool input headers t
              (after_sent o (asked w network state tool input headers url run_id before))
      on_answer acked none e = (url, run_id, before, route, minted, acked, inl e, refl)
      on_answer acked (some backend) e = on_body backend.body refl
        where
          sent : Bytes → Request
          sent bytes =
              event_post w state.ledger run_id
                (outcome_kind w network state (is_success backend.status))
                (outcome_body w network state (is_success backend.status) tool backend.status
                  (output_of w network state tool input headers bytes))

          same :
              (bytes : Bytes)
              → sent bytes
                ≡ outcome_request w network state tool input headers run_id backend.status bytes
          same bytes =
              outcome_request-sent run_id (is_success backend.status) backend.status
                (output_of w network state tool input headers bytes)

          answered :
              (bytes : Bytes)
              → backend.body ≡ some bytes
              → network
                  (called w network state tool input headers run_id before)
                  (post none url (json input))
                ≡ some (record { status = backend.status; body = some bytes })
          answered bytes b = e ∙ ap (λ o. some (record { status = backend.status; body = o })) b

          finish : Bytes → Action Reply
          finish bytes =
              record_invocation w network state run_id tool input
                (output_of w network state tool input headers bytes) backend.status
              >>= λ _. pure (record { status = backend.status; run_id = run_id; body = bytes })

          -- With the event of the outcome in place of what the code sends.
          account :
              (bytes : Bytes)
              → backend.body ≡ some bytes
              → IsAcked (
                  exchanged network
                    (outcome_request w network state tool input headers run_id backend.status bytes)
                    (asked w network state tool input headers url run_id before))
              → HasEnded w network state tool input headers t (
                  finish bytes (
                    concluded w network state tool input headers url run_id before backend.status
                      bytes))
          account bytes b recorded =
              let (s, done, rows) =
                record_invocation-HasRows w network state run_id tool input
                  (output_of w network state tool input headers bytes) backend.status
                  (concluded w network state tool input headers url run_id before backend.status
                    bytes) in
              subst
                (λ x. HasEnded w network state tool input headers t (
                  continue x
                    λ _. pure (record { status = backend.status; run_id = run_id; body = bytes })))
                (sym done)
                (record {
                  url = url;
                  before = before;
                  route = route;
                  run = minted;
                  call_acked = acked;
                  answer = answered bytes b;
                  outcome_acked = recorded;
                  rows = rows;
                })

          recorded-ended :
              (bytes : Bytes)
              → backend.body ≡ some bytes
              → (r : Request)
              → r ≡ outcome_request w network state tool input headers run_id backend.status bytes
              → IsAcked
                  (exchanged network r (asked w network state tool input headers url run_id before))
              → HasEnded w network state tool input headers t (
                  finish bytes (
                    exchanged network r (asked w network state tool input headers url run_id before)
                    ∷ asked w network state tool input headers url run_id before))
          recorded-ended bytes b r e' =
              subst
                (λ q.
                  IsAcked (
                    exchanged network q
                      (asked w network state tool input headers url run_id before))
                  → HasEnded w network state tool input headers t (
                      finish bytes (
                        exchanged network q
                          (asked w network state tool input headers url run_id before)
                        ∷ asked w network state tool input headers url run_id before)))
                (sym e') (account bytes b)

          refused-ended :
              (bytes : Bytes)
              → backend.body ≡ some bytes
              → (r : Request)
              → r ≡ outcome_request w network state tool input headers run_id backend.status bytes
              → IsRefused network
                  (read_event network w state)
                  r
                  (asked w network state tool input headers url run_id before)
              → HasFailed w network state tool input headers t ledger_failed (
                  exchanged network r (asked w network state tool input headers url run_id before)
                  ∷ asked w network state tool input headers url run_id before)
          refused-ended bytes b r e' =
              subst
                (λ q.
                  IsRefused network (read_event network w state) q
                    (asked w network state tool input headers url run_id before)
                  → HasFailed w network state tool input headers t ledger_failed (
                      exchanged network q
                        (asked w network state tool input headers url run_id before)
                      ∷ asked w network state tool input headers url run_id before))
                (sym e')
                (λ refused. (
                  url,
                  route,
                  inr (
                    run_id,
                    before,
                    minted,
                    inr (acked, (backend.status, bytes, answered bytes b, refused, refl)),
                  ),
                ))

          on_body :
              (o : Option Bytes)
              → backend.body ≡ o
              → HasEnded w network state tool input headers t (
                  (or_raise backend_failed o >>= after_bytes backend)
                    (asked w network state tool input headers url run_id before))
          on_body none b = (
            url,
            run_id,
            before,
            route,
            minted,
            acked,
            inr (
              backend.status,
              e ∙ ap (λ o. some (record { status = backend.status; body = o })) b,
            ),
            refl,
          )
          on_body (some bytes) b =
              append_event-cases network w state
                (λ x. HasEnded w network state tool input headers t (continue x λ _. finish bytes))
                run_id (outcome_kind w network state (is_success backend.status))
                (outcome_body w network state (is_success backend.status) tool backend.status
                  (output_of w network state tool input headers bytes))
                (asked w network state tool input headers url run_id before)
                (refused-ended bytes b (sent bytes) (same bytes))
                (λ event recorded. recorded-ended bytes b (sent bytes) (same bytes) recorded)

  proxy-ended :
      (t : Trace)
      → HasEnded w network state tool input headers t (proxy w network state tool headers input t)
  unfolding proxy resolve
  proxy-ended t = on (lookup tool state.tool_routes) refl
    where
      on :
          (o : Option Bytes)
          → lookup tool state.tool_routes ≡ o
          → HasEnded w network state tool input headers t (
              (or_raise unknown_tool o >>= λ url.
              resolve_or_mint_run w network state headers (ascii "tool_proxy") >>= λ run.
              proxy_run w network state tool url run.0 input)
                t)
      on none route = (route, refl)
      on (some url) route =
          resolve_or_mint_run-cases w network state
            (λ x.
              HasEnded w network state tool input headers t
                (continue x λ run. proxy_run w network state tool url run.0 input))
            headers (ascii "tool_proxy") t
            (λ run s minted. proxy_run-ended url run.0 t s route minted)
            (λ s unminted. (url, route, inl unminted))

  -- A call of a tool that is answered has a route and a run: the run of the caller's header, with nothing
  -- asked of the ledger, or else one that the ledger acknowledged, and that was bound when there is what
  -- to bind. The call was recorded with its input before the backend was asked, the reply is what the
  -- backend answered to the input, and its outcome was recorded before the reply, as a result or as an
  -- error by the status: the ledger acknowledged both events. After that there are the rows of the
  -- invocation and of its confirmations, and nothing else is sent.
  pub proxy-IsAccounted :
      (t s : Trace) (reply : Reply)
      → proxy w network state tool headers input t ≡ (ok reply, s)
      → IsAccounted w network state tool input headers t reply s
  proxy-IsAccounted t s reply h =
      subst (HasEnded w network state tool input headers t) h (proxy-ended t)

  -- A call that ends with an error. For an unknown tool, nothing was sent. When the ledger failed, the
  -- last thing sent was the run, the event of the call or the event of the outcome, and the ledger did
  -- not acknowledge it, or not so that it can be read; a row that fails ends no call. When the backend
  -- failed, it was asked last and once, after the ledger had acknowledged the event of the call, and it
  -- gave no answer or no body. There is no other error.
  pub proxy-HasFailed :
      (t s : Trace) (e : GatewayError)
      → proxy w network state tool headers input t ≡ (err e, s)
      → HasFailed w network state tool input headers t e s
  proxy-HasFailed t s e h = subst (HasEnded w network state tool input headers t) h (proxy-ended t)
