-- ===== src/Gateway/Approval/Answers.antt =====
-- How a request for an approval ends: with the decision that was posted, and with what is recorded.
use trackward.Prelude.{
  ◌≡◌, refl, sym, ap, subst, ◌∙◌, ◌⊎◌, inl, inr, ℕ, ◌∷◌, Bytes, ascii, Bool, true, false, some,
  Result, ok, err, if◌then◌else◌,
}
use trackward.ChainCore.CanonicalJson.Syntax.{Value, string, object, end, entry}
use trackward.Gateway.Approval.{
  GatewayError, internal, waiting, Decision, PendingApproval, Approvals, register, cancel,
  parse_decision, decide, awaited,
}
use trackward.Gateway.Approval.Decisions.{lookup-update, decide-settles}
use trackward.Gateway.Http.{
  Request, Action, Trace, Network, pure, continue, attempt, outcome, ◌>>=◌,
}
use trackward.Gateway.LedgerClient.{
  Wire, EventResponse, append_event, record_human_approval, or_null,
}
use trackward.Gateway.LedgerApi.{event_post, approval_post}
use trackward.Gateway.ToolProxy.{AppState, Headers, Reply, resolve_or_mint_run}
use trackward.Gateway.ToolProxy.Steps.{IsAcked, exchanged, method-cases, append_event-cases}
use trackward.Gateway.Approval.Request.{
  opened, announced, request_opened, approval_kind, decision_label, decided_body, request_decided,
}

module _ (w : Wire) (network : Network) (state : AppState) where
  abbrev event_request : (approval_id : Bytes) (approval : PendingApproval) → Decision → Request
  event_request approval_id approval d =
      event_post w state.ledger approval.run_id
        (if d.granted then ascii "approval_granted" else ascii "approval_denied")
        (object (
          entry (ascii "approval_id") (string (w.uuid_text approval_id)) (
            entry (ascii "reason") (or_null string d.reason)
              (entry (ascii "tool") (string approval.tool) end))))

  -- The word of a decision.
  abbrev word_of : Decision → Bytes
  word_of d = if d.granted then ascii "granted" else ascii "denied"

  -- The answer to the request.
  abbrev answer_of : (approval_id : Bytes) → Decision → Value
  answer_of approval_id d = object (
      entry (ascii "approval_id") (string (w.uuid_text approval_id)) (
        entry (ascii "decision") (string (word_of d))
          (entry (ascii "reason") (or_null string d.reason) end)))

  abbrev row_request :
      (approval_id : Bytes) (approval : PendingApproval) (requested_at : ℕ) → Decision → Request
  row_request approval_id approval requested_at d =
      approval_post w state.ledger approval_id approval.run_id approval.tool (word_of d) d.reason
        requested_at

  -- What the code sends of a decision are these requests.
  kind-sent :
      (granted : Bool)
      → approval_kind w network state granted
        ≡ (if granted then ascii "approval_granted" else ascii "approval_denied")
  kind-sent true = refl
  kind-sent false = refl

  word-sent :
      (granted : Bool)
      → decision_label w network state granted
        ≡ (if granted then ascii "granted" else ascii "denied")
  word-sent true = refl
  word-sent false = refl

  module _ (approval_id : Bytes) (approval : PendingApproval) (requested_at : ℕ) (t : Trace) where
    -- The account of a request that was answered with `reply`.
    pub record IsDecided (r : Result GatewayError Decision) (reply : Reply) (s : Trace)
        : Type 0 where
      pub decision : Decision
      pub awaited_decision : r ≡ ok decision
      pub event_acked : IsAcked (exchanged network (event_request approval_id approval decision) t)
      pub answer : reply.body ≡ w.to_vec (answer_of approval_id decision)
      pub rows :
          s
          ≡ exchanged network
              (row_request approval_id approval requested_at decision)
              (exchanged network (event_request approval_id approval decision) t ∷ t)
            ∷ exchanged network (event_request approval_id approval decision) t
            ∷ t

    abbrev HasEnded : Result GatewayError Decision → Result GatewayError Reply × Trace → Type 0
    HasEnded r (ok reply, s) = IsDecided r reply s
    HasEnded r (err e, s) = Unit {0}

    -- The account with the code's words for the decision, each equal to the word of the account.
    with_words :
        (d : Decision) (kind word : Bytes)
        → kind ≡ (if d.granted then ascii "approval_granted" else ascii "approval_denied")
        → word ≡ word_of d
        → HasEnded (ok d) (
            (append_event w network state.ledger approval.run_id kind
                  (decided_body w network state approval_id approval.tool d)
                >>= λ recorded.
                    attempt (
                      record_human_approval w network state.ledger approval_id approval.run_id
                        approval.tool word d.reason requested_at)
                    >>= λ mirrored. pure (record {
                      status = 200;
                      run_id = approval.run_id;
                      body = w.to_vec (
                          object (
                            entry (ascii "approval_id") (string (w.uuid_text approval_id)) (
                              entry
                                (ascii "decision")
                                (string word)
                                (entry (ascii "reason") (or_null string d.reason) end))));
                    }))
              t)
    unfolding record_human_approval
    with_words d kind word k l = rw (k, l) ended
      where
        reply : Reply
        reply = record {
          status = 200;
          run_id = approval.run_id;
          body = w.to_vec (answer_of approval_id d);
        }

        after_event : Action Reply
        after_event = do
          mirrored ← attempt (
              record_human_approval w network state.ledger approval_id approval.run_id approval.tool
                (word_of d) d.reason requested_at)
          pure reply

        done :
            IsAcked (exchanged network (event_request approval_id approval d) t)
            → IsDecided (ok d) reply (
                exchanged network
                  (row_request approval_id approval requested_at d)
                  (exchanged network (event_request approval_id approval d) t ∷ t)
                ∷ exchanged network (event_request approval_id approval d) t
                ∷ t)
        done acked = record {
          decision = d;
          awaited_decision = refl;
          event_acked = acked;
          answer = refl;
          rows = refl;
        }

        ended : HasEnded (ok d) (
            (append_event w network state.ledger approval.run_id
                  (if d.granted then ascii "approval_granted" else ascii "approval_denied")
                  (decided_body w network state approval_id approval.tool d)
                >>= λ recorded. after_event)
              t)
        ended =
            append_event-cases network w state (λ x. HasEnded (ok d) (continue x λ _. after_event))
              approval.run_id
              (if d.granted then ascii "approval_granted" else ascii "approval_denied")
              (decided_body w network state approval_id approval.tool d) t (λ refused. tt)
              (λ event acked.
                method-cases network w state.ledger
                  (λ x. HasEnded (ok d) (continue (outcome x) λ _. pure reply))
                  (row_request approval_id approval requested_at d)
                  (exchanged network (event_request approval_id approval d) t ∷ t)
                  (λ response. some tt) (λ refused. done acked) (λ a acked' answered. done acked))

    request_decided-ended :
        (r : Result GatewayError Decision)
        → HasEnded r (request_decided w network state approval_id approval requested_at r t)
    unfolding request_decided
    request_decided-ended (err e) = tt
    request_decided-ended (ok d) =
        with_words d (approval_kind w network state d.granted)
          (decision_label w network state d.granted) (kind-sent d.granted) (word-sent d.granted)

    -- A request is answered only with the decision that it was woken with: `granted` for a grant and
    -- `denied` for a denial, with its reason. Before that the ledger had acknowledged the event of the
    -- decision, `approval_granted` or `approval_denied`, and the row of it was posted with the same word,
    -- acknowledged or not.
    pub request_decided-IsDecided :
        (r : Result GatewayError Decision) (s : Trace) (reply : Reply)
        → request_decided w network state approval_id approval requested_at r t ≡ (ok reply, s)
        → IsDecided r reply s
    request_decided-IsDecided r s reply h = subst (HasEnded r) h (request_decided-ended r)

  module _ (approval_id : Bytes) (headers : Headers) (body : Value) (s : Approvals)
      (t : Trace) where
    abbrev HasOpened : Result GatewayError PendingApproval × Approvals × Trace → Type 0
    HasOpened (ok approval, s', t') = s' ≡ register approval_id approval s
    HasOpened (err e, s', t') =
        (s' ≡ s)
        ⊎ ((approval : PendingApproval) × (s'
              ≡ cancel approval_id (register approval_id approval s)))

    request_opened-HasOpened :
        HasOpened (request_opened w network state approval_id headers body s t)
    unfolding request_opened
    request_opened-HasOpened =
        on_run (resolve_or_mint_run w network state headers (ascii "approval") t)
      where
        on_event :
            (approval : PendingApproval) (x : Result GatewayError EventResponse × Trace)
            → HasOpened
                (announced w network state approval_id approval (register approval_id approval s) x)
        on_event approval (ok event, u) = refl
        on_event approval (err e, u) = inr (approval, refl)

        on_run :
            (x : Result GatewayError (Bytes × Bool) × Trace)
            → HasOpened (opened w network state approval_id body s x)
        on_run (err e, u) = inl refl
        on_run (ok run, u) = on_event _ _

    -- A request that is open is ended by the first decision on it that is well formed: the decider gets
    -- its run and its tool, and the request is woken with the decision.
    pub request_opened-decide :
        (s' : Approvals) (t' : Trace) (approval : PendingApproval) (word : Value) (d : Decision)
        → request_opened w network state approval_id headers body s t ≡ (ok approval, s', t')
        → parse_decision word ≡ ok d
        → ((decide approval_id word s').0 ≡ ok approval)
          × (awaited approval_id (decide approval_id word s').1 ≡ some (ok d))
    unfolding register
    request_opened-decide s' t' approval word d h p =
        subst
          (λ x.
            ((decide approval_id word x).0 ≡ ok approval)
            × (awaited approval_id (decide approval_id word x).1 ≡ some (ok d)))
          (sym (subst HasOpened h request_opened-HasOpened)) decided
      where
        registered : Approvals
        registered = register approval_id approval s

        decided :
            ((decide approval_id word registered).0 ≡ ok approval)
            × (awaited approval_id (decide approval_id word registered).1 ≡ some (ok d))
        decided = of_woken (
            decide-settles approval_id registered (lookup-update approval_id approval s.pending)
              (lookup-update approval_id waiting s.channels) word)
          where
            of_woken :
                ((d' : Decision) × (parse_decision word ≡ ok d')
                    × ((decide approval_id word registered).0 ≡ ok approval)
                    × (awaited approval_id (decide approval_id word registered).1 ≡ some (ok d')))
                  ⊎ ((e : GatewayError) × (parse_decision word ≡ err e)
                      × ((decide approval_id word registered).0 ≡ err e)
                      × (awaited approval_id (decide approval_id word registered).1
                          ≡ some (err internal)))
                → ((decide approval_id word registered).0 ≡ ok approval)
                  × (awaited approval_id (decide approval_id word registered).1 ≡ some (ok d))
            of_woken (inl (d', p', got, woken)) = (got, woken ∙ ap some (sym p' ∙ p))
            of_woken (inr (e, p', got, woken)) = cc
