-- ===== src/Gateway/Registry/Resolve.antt =====
-- services/gateway/src/registry.rs and lib.rs: the versions that a gateway registers and is bound to.
use trackward.Prelude.{List, [], ◌∷◌, ◌++◌, Bytes, ascii, Option, none, some, Result, ok}
use trackward.Verifier.Bundle.{unwrap_or}
use trackward.External.{External}
use trackward.Gateway.Approval.{GatewayError, internal}
use trackward.Gateway.Http.{Action, Trace, Network, pure, or_raise, outcome, ◌>>=◌}
use trackward.Gateway.LedgerClient.{
  Wire, LedgerClient, register_prompt_version, register_policy_version, latest_eval_result,
}
use trackward.Gateway.ToolProxy.{AppState, ResolvedBinding}
use trackward.Gateway.Config.{RegistryBinding}
use trackward.Gateway.Registry.{Node, file, hash_directory}

-- What the file system has at a path, given by the parts that are joined.
abbrev pub FileSystem : Type 0
FileSystem = List Bytes → Option Node

abbrev pub unbound : ResolvedBinding
unbound = record { prompt_version_id = none; policy_version_id = none; eval_result_id = none }

module _ (x : External) (w : Wire) (fs : FileSystem) (network : Network)
    (ledger : LedgerClient) where
  abbrev pub lift {ℓ} : {A : Type ℓ} → Result GatewayError A → Action A
  lift r t = (r, t)

  abbrev pub both :
      {A : Type 0}
      → Option Bytes
      → Option Bytes
      → (Bytes → Bytes → Action (Option A))
      → Action (Option A)
  both (some a) (some b) act = act a b
  both _ _ act = pure none

  -- A directory is hashed and registered; anything else is logged.
  unfoldable pub bind_prompt :
      (git_sha workflow version : Bytes) → Option Node → Action (Option Bytes)
  unfolding hash_directory register_prompt_version
  bind_prompt git_sha workflow version none = pure none
  bind_prompt git_sha workflow version (some (file bytes)) = pure none
  bind_prompt git_sha workflow version (some dir) = do
    hash ← lift (hash_directory x w.utf8_lossy dir)
    id ← register_prompt_version w network ledger workflow version git_sha hash
    pure (some id)

  unfoldable pub bind_policy : (git_sha scope version : Bytes) → Option Node → Action (Option Bytes)
  unfolding register_policy_version
  bind_policy git_sha scope version (some (file content)) = do
    bytes ← or_raise internal content
    id ←
        register_policy_version w network ledger scope version git_sha
          (x.hex_encode (x.sha256 bytes))
    pure (some id)
  bind_policy git_sha scope version _ = pure none

  unfoldable pub resolve_at : (base git_sha : Bytes) → RegistryBinding → Action ResolvedBinding
  unfolding bind_prompt bind_policy latest_eval_result
  resolve_at base git_sha cfg = do
    prompt ← both cfg.prompt_workflow cfg.prompt_version λ workflow version.
        bind_prompt git_sha workflow version (fs (base ∷ ascii "prompts" ∷ workflow ∷ version ∷ []))
    policy ← both cfg.policy_scope cfg.policy_version λ scope version.
        bind_policy git_sha scope version
          (fs (base ∷ ascii "policies" ∷ scope ∷ (version ++ ascii ".yaml") ∷ []))
    result ←
        both cfg.prompt_workflow cfg.prompt_version
          λ workflow version. latest_eval_result w network ledger workflow version
    pure
        (record { prompt_version_id = prompt; policy_version_id = policy; eval_result_id = result })

  abbrev pub resolve_from : Option Bytes → RegistryBinding → Action ResolvedBinding
  resolve_from none cfg = pure unbound
  resolve_from (some base) cfg = resolve_at base (unwrap_or (ascii "unknown") cfg.git_sha) cfg

  -- `registry::resolve`
  unfoldable pub resolve : RegistryBinding → Action ResolvedBinding
  unfolding resolve_at
  resolve cfg = resolve_from cfg.registry_dir cfg

  -- The binding of `build_router_with_registry`: an error is logged, and the state keeps what it had.
  unfoldable pub binding_at_start :
      (state : AppState) → RegistryBinding → Trace → ResolvedBinding × Trace
  unfolding resolve
  binding_at_start state cfg t = settled (outcome (resolve cfg t))
    where
      settled : Result GatewayError (Option ResolvedBinding) × Trace → ResolvedBinding × Trace
      settled (ok (some binding), s) = (binding, s)
      settled (_, s) = (state.binding, s)
