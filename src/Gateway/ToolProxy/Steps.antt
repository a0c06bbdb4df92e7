-- ===== src/Gateway/ToolProxy/Steps.antt =====
-- What one request to the ledger, or a part of the proxy, leaves on the trace.
use trackward.Prelude.{
  ◌≡◌, ◌≢◌, ◌⊎◌, inl, inr, refl, ap, ◌∙◌, List, [], ◌∷◌, Bytes, ascii, Bool, true, false, Option,
  none, some, Result, ok, err, if◌then◌else◌,
}
use trackward.ChainCore.CanonicalJson.Syntax.{
  Value, Items, null, bool, number, string, array, object, nil, cons, end,
}
use trackward.Verifier.Bundle.{and_then, unwrap_or, as_str}
use trackward.Verifier.Bundle
use trackward.Gateway.Approval.{GatewayError, ledger_failed}
use trackward.Gateway.Http.{
  Request, Response, Exchange, Trace, Network, Action, pure, raise, or_raise, continue, outcome,
  ◌>>=◌, send, is_success,
}
use trackward.Gateway.LedgerClient.{
  Wire, LedgerClient, call, append_event, record_side_effect, EventResponse,
}
use trackward.Gateway.LedgerApi.{event_post, effect_post}
use trackward.Gateway.ToolProxy.{
  AppState, record_entry, record_entries, record_confirmations, items_of,
}

module _ {ℓ κ μ} {A : Type ℓ} {B : Type κ} (P : Result GatewayError B × Trace → Type μ) where
  -- A property of a sequence of two actions, by how the first one ended.
  pub by_first :
      (first : Result GatewayError A × Trace) (next : A → Action B)
      → ((a : A) (s : Trace) → first ≡ (ok a, s) → P (next a s))
      → ((e : GatewayError) (s : Trace) → first ≡ (err e, s) → P (err e, s))
      → P (continue first next)
  by_first (ok a, s) next good bad = good a s refl
  by_first (err e, s) next good bad = bad e s refl

-- The items of an array, and none where there is no array.
abbrev pub IsArray : Items → Option Value → Type 0
IsArray is o = (o ≡ some (array is)) ⊎ ((is ≡ nil) × ((js : Items) → o ≢ some (array js)))

-- The peer answered with success.
abbrev pub IsAcked : Exchange → Type 0
IsAcked e = (r : Response) × (e.response ≡ some r) × (is_success r.status ≡ true)

module _ (network : Network) where
  abbrev pub exchanged : Request → Trace → Exchange
  exchanged r t = record { request = r; response = network t r }

  -- The request was not acknowledged, or the acknowledgement could not be read.
  abbrev pub IsRefused {ℓ} : {A : Type ℓ} → (read : Response → Option A) → Request → Trace → Type ℓ
  IsRefused {A = A} read r t =
      ¬ ((a : A) × IsAcked (exchanged r t) × (and_then (network t r) read ≡ some a))

  module _ {ℓ κ} {A : Type ℓ} (w : Wire) (c : LedgerClient)
      (P : Result GatewayError A × Trace → Type κ) (r : Request) (t : Trace)
      (read : Response → Option A)
      (bad : IsRefused read r t → P (err ledger_failed, exchanged r t ∷ t)) where
    -- A method of the client makes its one request. When it succeeds, the ledger has acknowledged.
    pub method-cases :
        ((a : A)
          → IsAcked (exchanged r t)
          → and_then (network t r) read ≡ some a
          → P (ok a, exchanged r t ∷ t))
        → P ((call w network c r >>= λ response. or_raise ledger_failed (read response)) t)
    unfolding call send
    method-cases good = on_sent (network t r) refl
      where
        on_read :
            (o : Option A)
            → IsAcked (exchanged r t)
            → and_then (network t r) read ≡ o
            → P (or_raise ledger_failed o (exchanged r t ∷ t))
        on_read none acked answered = bad (λ (a, acked', answered'). cc (answered, answered'))
        on_read (some a) acked answered = good a acked answered

        on_status :
            (response : Response)
            → network t r ≡ some response
            → (b : Bool) → is_success response.status ≡ b
            → P (
                continue
                  ((if b then pure response else raise ledger_failed) (exchanged r t ∷ t))
                  λ a. or_raise ledger_failed (read a))
        on_status response e false f = bad (λ (a, (r', e', f'), answered). cc (e, e', f, f'))
        on_status response e true f =
            on_read (read response) (response, e, f) (ap (λ o. and_then o read) e)

        on_sent :
            (o : Option Response)
            → network t r ≡ o
            → P (
                continue
                  (continue (or_raise ledger_failed o (exchanged r t ∷ t)) λ response.
                    if is_success response.status then pure response else raise ledger_failed)
                  λ a. or_raise ledger_failed (read a))
        on_sent none e = bad (λ (a, (r', e', f'), answered). cc (e, e'))
        on_sent (some response) e = on_status response e (is_success response.status) refl

  -- The exchanges of requests that are made one behind the other, whatever is answered.
  abbrev pub posted : List Request → Trace → Trace
  posted [] t = t
  posted (r ∷ rs) t = posted rs (exchanged r t ∷ t)

  module _ (w : Wire) (state : AppState) where
    abbrev pub read_event : Response → Option EventResponse
    read_event response = and_then response.body w.read_event

    pub append_event-cases {κ} :
        (P : Result GatewayError EventResponse × Trace → Type κ) (run_id kind : Bytes)
        (body : Value) (t : Trace)
        → (IsRefused read_event (event_post w state.ledger run_id kind body) t
            → P (err ledger_failed, exchanged (event_post w state.ledger run_id kind body) t ∷ t))
        → ((a : EventResponse)
            → IsAcked (exchanged (event_post w state.ledger run_id kind body) t)
            → P (ok a, exchanged (event_post w state.ledger run_id kind body) t ∷ t))
        → P (append_event w network state.ledger run_id kind body t)
    unfolding append_event
    append_event-cases P run_id kind body t bad good =
        method-cases w state.ledger P (event_post w state.ledger run_id kind body) t read_event bad
          (λ a acked answered. good a acked)

    -- A text of an entry, and what stands for a text that is missing.
    abbrev pub entry_text : (key missing : Bytes) → Value → Bytes
    entry_text key missing e = unwrap_or missing (and_then (Bundle.get key e) as_str)

    -- The request for an entry of `side_effects`: a missing kind or target is `unknown`, a missing
    -- status is `confirmed`, and a missing confirmation is an empty object.
    abbrev pub entry_request :
        (run_id : Bytes) (tool_invocation_id : Option Bytes) → Value → Request
    entry_request run_id tool_invocation_id e =
        effect_post w state.ledger run_id tool_invocation_id
          (entry_text (ascii "kind") (ascii "unknown") e)
          (entry_text (ascii "target") (ascii "unknown") e)
          (entry_text (ascii "status") (ascii "confirmed") e)
          (unwrap_or (object end) (Bundle.get (ascii "confirmation") e))

    pub items_of-IsArray : (o : Option Value) → IsArray (items_of w network state o) o
    items_of-IsArray none = inr (refl, λ is e. cc)
    items_of-IsArray (some null) = inr (refl, λ is e. cc)
    items_of-IsArray (some (bool b)) = inr (refl, λ is e. cc)
    items_of-IsArray (some (number n)) = inr (refl, λ is e. cc)
    items_of-IsArray (some (string s)) = inr (refl, λ is e. cc)
    items_of-IsArray (some (array is)) = inl refl
    items_of-IsArray (some (object fs)) = inr (refl, λ is e. cc)

    abbrev pub entry_requests :
        (run_id : Bytes) (tool_invocation_id : Option Bytes) → Items → List Request
    entry_requests run_id tool_invocation_id nil = []
    entry_requests run_id tool_invocation_id (cons e es) =
        entry_request run_id tool_invocation_id e ∷ entry_requests run_id tool_invocation_id es

    record_entry-attempt :
        (run_id : Bytes) (tool_invocation_id : Option Bytes) (e : Value) (t : Trace)
        → (o : Option (Unit {0})) × (outcome
              (record_entry w network state run_id tool_invocation_id e t)
            ≡ (ok o, exchanged (entry_request run_id tool_invocation_id e) t ∷ t))
    unfolding record_entry record_side_effect
    record_entry-attempt run_id tool_invocation_id e t =
        method-cases w state.ledger
          (λ x.
            (o : Option (Unit {0})) × (outcome x
              ≡ (ok o, exchanged (entry_request run_id tool_invocation_id e) t ∷ t)))
          (entry_request run_id tool_invocation_id e) t (λ response. some tt)
          (λ refused. (none, refl)) (λ a acked answered. (some a, refl))

    -- One row is posted for each entry, in order, whatever the ledger answers to the others.
    record_entries-posted :
        (run_id : Bytes) (tool_invocation_id : Option Bytes) (es : Items) (t : Trace)
        → record_entries w network state run_id tool_invocation_id es t
          ≡ (ok tt, posted (entry_requests run_id tool_invocation_id es) t)
    unfolding record_entries
    record_entries-posted run_id tool_invocation_id nil t = refl
    record_entries-posted run_id tool_invocation_id (cons e es) t =
        let (o, made) = record_entry-attempt run_id tool_invocation_id e t in
        ap (λ x. continue x λ _. record_entries w network state run_id tool_invocation_id es) made
        ∙ record_entries-posted run_id tool_invocation_id es
            (exchanged (entry_request run_id tool_invocation_id e) t ∷ t)

    -- The confirmations that a backend declares in the array `side_effects` of its answer are all
    -- posted, in their order, one row each, whatever the ledger answers to any of them, and the caller
    -- sees no error. A kind or a target that is missing is posted as `unknown`, a status as `confirmed`.
    -- An answer without such an array posts nothing.
    pub record_confirmations-posted :
        (run_id : Bytes) (tool_invocation_id : Option Bytes) (body : Value) (t : Trace)
        → (es : Items) × IsArray es (Bundle.get (ascii "side_effects") body)
          × (record_confirmations w network state run_id tool_invocation_id body t
              ≡ (ok tt, posted (entry_requests run_id tool_invocation_id es) t))
    unfolding record_confirmations
    record_confirmations-posted run_id tool_invocation_id body t = (
      items_of w network state (Bundle.get (ascii "side_effects") body),
      items_of-IsArray (Bundle.get (ascii "side_effects") body),
      record_entries-posted run_id tool_invocation_id
          (items_of w network state (Bundle.get (ascii "side_effects") body)) t,
    )
