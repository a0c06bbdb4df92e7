-- ===== src/Gateway/ToolProxy/Accounts.antt =====
-- The run of a proxied call, and the rows after its outcome.
use trackward.Prelude.{
  ◌≡◌, refl, ◌⊎◌, inl, inr, ◌∷◌, ℕ, Bytes, ascii, Bool, true, false, Option, none, some, Result, ok,
  err, if◌then◌else◌, not,
}
use trackward.ChainCore.CanonicalJson.Syntax.{Value, Items}
use trackward.Verifier.Bundle.{and_then}
use trackward.Verifier.Bundle
use trackward.Gateway.Approval.{GatewayError, ledger_failed, lookup}
use trackward.Gateway.Http.{
  Request, Response, Trace, Network, Action, pure, continue, outcome, attempt, ◌>>=◌, is_success,
}
use trackward.Gateway.LedgerClient.{Wire, create_run, bind_run, record_tool_invocation}
use trackward.Gateway.LedgerApi.{run_post, binding_post, invocation_post}
use trackward.Gateway.ToolProxy.{
  AppState, Headers, is_empty, extract_run_id, stamp_run, reuse_or_mint, resolve_or_mint_run,
  record_confirmations, record_invocation, status_label,
}
use trackward.Gateway.ToolProxy.Steps.{
  IsAcked, IsRefused, IsArray, exchanged, posted, method-cases, entry_requests,
  record_confirmations-posted,
}

module _ (w : Wire) (network : Network) (state : AppState) where
  abbrev pub read_id : Response → Option Bytes
  read_id response = and_then response.body w.read_id

  -- The run that the caller names in its header.
  abbrev pub caller_run : Headers → Option Bytes
  caller_run headers =
      and_then (and_then (lookup (ascii "x-trackward-run-id") headers) w.header_text) w.parse_uuid

  abbrev pub stamp : (run_id : Bytes) → Request
  stamp run_id =
      binding_post w state.ledger run_id state.binding.prompt_version_id
        state.binding.policy_version_id state.binding.eval_result_id

  -- The run of a call, and what it took to have it: nothing when the caller names it; else the run was
  -- minted, the ledger acknowledged it and gave its id, and it was bound when there is what to bind.
  abbrev pub HasRun : Headers → (origin : Bytes) → Trace → (run_id : Bytes) → Trace → Type 0
  HasRun headers origin t run_id before =
      ((caller_run headers ≡ some run_id) × (before ≡ t))
      ⊎ ((caller_run headers ≡ none)
          × IsAcked (exchanged network (run_post w state.ledger origin) t)
          × (and_then (network t (run_post w state.ledger origin)) read_id ≡ some run_id)
          × (((is_empty state.binding ≡ true)
                × (before ≡ exchanged network (run_post w state.ledger origin) t ∷ t))
              ⊎ ((is_empty state.binding ≡ false)
                  × (before
                      ≡ exchanged network (stamp run_id)
                          (exchanged network (run_post w state.ledger origin) t ∷ t)
                        ∷ exchanged network (run_post w state.ledger origin) t
                        ∷ t))))

  -- The run could not be minted: nothing else was asked.
  abbrev pub HasNoRun : Headers → (origin : Bytes) → Trace → Trace → Type 0
  HasNoRun headers origin t s =
      (caller_run headers ≡ none)
      × IsRefused network read_id (run_post w state.ledger origin) t
      × (s ≡ exchanged network (run_post w state.ledger origin) t ∷ t)

  pub resolve_or_mint_run-cases {κ} :
      (P : Result GatewayError (Bytes × Bool) × Trace → Type κ) (headers : Headers) (origin : Bytes)
      (t : Trace)
      → ((run : Bytes × Bool) (s : Trace) → HasRun headers origin t run.0 s → P (ok run, s))
      → ((s : Trace) → HasNoRun headers origin t s → P (err ledger_failed, s))
      → P (resolve_or_mint_run w network state headers origin t)
  unfolding resolve_or_mint_run reuse_or_mint create_run stamp_run bind_run extract_run_id
  resolve_or_mint_run-cases P headers origin t good bad = on (extract_run_id w headers) refl
    where
      minted : Request
      minted = run_post w state.ledger origin

      created : Trace
      created = exchanged network minted t ∷ t

      stamped :
          (run_id : Bytes)
          → ((s : Trace)
              → s ≡ exchanged network (stamp run_id) created ∷ created
              → P (ok (run_id, true), s))
          → P (
              continue
                (attempt
                  (bind_run w network state.ledger run_id state.binding.prompt_version_id
                    state.binding.policy_version_id state.binding.eval_result_id)
                  created)
                λ _. pure (run_id, true))
      stamped run_id good' =
          method-cases network w state.ledger
            (λ x. P (continue (outcome x) λ _. pure (run_id, true))) (stamp run_id) created
            (λ response. some tt) (λ refused. good' _ refl) (λ a acked answered. good' _ refl)

      bind :
          (run_id : Bytes)
          → extract_run_id w headers ≡ none
          → IsAcked (exchanged network minted t)
          → and_then (network t minted) read_id ≡ some run_id
          → (empty : Bool) → is_empty state.binding ≡ empty
          → P (
              continue
                ((if not empty
                    then attempt (
                        bind_run w network state.ledger run_id state.binding.prompt_version_id
                          state.binding.policy_version_id state.binding.eval_result_id)
                    else pure none)
                  created)
                λ _. pure (run_id, true))
      bind run_id unnamed acked answered true e =
          good (run_id, true) created (inr (unnamed, acked, answered, inl (e, refl)))
      bind run_id unnamed acked answered false e =
          stamped run_id (λ s h. good (run_id, true) s (inr (unnamed, acked, answered, inr (e, h))))

      on :
          (o : Option Bytes)
          → extract_run_id w headers ≡ o
          → P (reuse_or_mint w network state origin o t)
      on (some id) named = good (id, false) t (inl (named, refl))
      on none unnamed =
          method-cases network w state.ledger
            (λ x.
              P (
                continue x λ run_id. stamp_run w network state run_id >>= λ _. pure (run_id, true)))
            minted t read_id (λ refused. bad _ (unnamed, refused, refl))
            (λ run_id acked answered.
              bind run_id unnamed acked answered (is_empty state.binding) refl)

  -- The row of an invocation.
  abbrev pub invocation_row :
      (run_id tool : Bytes) (input output : Value) (success : Bool) (status : ℕ) → Request
  invocation_row run_id tool input output success status =
      invocation_post w state.ledger run_id tool input output
        (if success then ascii "ok" else ascii "error") status

  -- The rows of the confirmations: those in the output of a call that succeeded.
  abbrev pub IsConfirmed : (success : Bool) → (output : Value) → Items → Type 0
  IsConfirmed true output es = IsArray es (Bundle.get (ascii "side_effects") output)
  IsConfirmed false output es = es ≡ Items.nil

  -- The rows that follow an outcome, from the trace `t` to the trace `s`: one of the invocation, and one
  -- of each confirmation, with the id that the ledger gave the invocation, if it did.
  pub record HasRows (run_id tool : Bytes) (input output : Value) (status : ℕ) (t s : Trace)
      : Type 0 where
    pub invocation_id : Option Bytes
    pub confirmations : Items
    pub identified :
        ((invocation_id ≡ none)
          × IsRefused network read_id
              (invocation_row run_id tool input output (is_success status) status)
              t)
        ⊎ (IsAcked (
              exchanged network
                (invocation_row run_id tool input output (is_success status) status)
                t)
            × (and_then
                  (network t (invocation_row run_id tool input output (is_success status) status))
                  read_id
                ≡ invocation_id))
    pub confirmed : IsConfirmed (is_success status) output confirmations
    pub written :
        s
        ≡ posted network (entry_requests network w state run_id invocation_id confirmations) (
            exchanged network (invocation_row run_id tool input output (is_success status) status) t
            ∷ t)

  pub record_invocation-HasRows :
      (run_id tool : Bytes) (input output : Value) (status : ℕ) (t : Trace)
      → (s : Trace) × (record_invocation w network state run_id tool input output status t
          ≡ (ok tt, s))
        × HasRows run_id tool input output status t s
  unfolding record_invocation record_tool_invocation
  record_invocation-HasRows run_id tool input output status t = on (is_success status) refl
    where
      row : Bool → Request
      row success = invocation_row run_id tool input output success status

      confirm : Option Bytes → Bool → Action (Unit {0})
      confirm o b = if b then record_confirmations w network state run_id o output else pure tt

      Rows : Bool → Trace → Type 0
      Rows success s =
          (o : Option Bytes) × (es : Items) × (((o ≡ none)
              × IsRefused network read_id (row success) t)
            ⊎ (IsAcked (exchanged network (row success) t)
                × (and_then (network t (row success)) read_id ≡ o)))
          × IsConfirmed success output es
          × (s
              ≡ posted network (entry_requests network w state run_id o es)
                  (exchanged network (row success) t ∷ t))

      ran : Bool → Result GatewayError (Unit {0}) × Trace
      ran success =
          continue
            (attempt
              (record_tool_invocation w network state.ledger run_id tool input output
                (status_label w network state success) (some status))
              t)
            λ o. confirm o success

      rest :
          (success : Bool) (o : Option Bytes)
          → ((o ≡ none) × IsRefused network read_id (row success) t)
            ⊎ (IsAcked (exchanged network (row success) t)
                × (and_then (network t (row success)) read_id ≡ o))
          → (s : Trace) × (confirm o success (exchanged network (row success) t ∷ t) ≡ (ok tt, s))
            × Rows success s
      rest false o identified = (_, refl, (o, Items.nil, identified, refl, refl))
      rest true o identified =
          let (es, array, run) =
            record_confirmations-posted network w state run_id o output
              (exchanged network (row true) t ∷ t) in
          (_, run, (o, es, identified, array, refl))

      labelled : (success : Bool) → (s : Trace) × (ran success ≡ (ok tt, s)) × Rows success s
      labelled true =
          method-cases network w state.ledger
            (λ x.
              (s : Trace) × (continue (outcome x) (λ o. confirm o true) ≡ (ok tt, s)) × Rows true s)
            (row true) t read_id (λ refused. rest true none (inl (refl, refused)))
            (λ a acked answered. rest true (some a) (inr (acked, answered)))
      labelled false =
          method-cases network w state.ledger
            (λ x.
              (s : Trace) × (continue (outcome x) (λ o. confirm o false) ≡ (ok tt, s))
              × Rows false s)
            (row false) t read_id (λ refused. rest false none (inl (refl, refused)))
            (λ a acked answered. rest false (some a) (inr (acked, answered)))

      on :
          (success : Bool)
          → is_success status ≡ success
          → (s : Trace) × (ran (is_success status) ≡ (ok tt, s))
            × HasRows run_id tool input output status t s
      on success e =
          let (s, run, (o, es, identified, confirmed, written)) = labelled (is_success status) in
          (
            s,
            run,
            record {
              invocation_id = o;
              confirmations = es;
              identified = identified;
              confirmed = confirmed;
              written = written;
            },
          )
