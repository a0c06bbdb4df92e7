-- ===== src/Gateway/Config.antt =====
-- services/gateway/src/config.rs, auth.rs and approval/gates.rs: what the environment configures, and
-- who may call the gateway.
pub mod Routes
use trackward.Prelude.{
  ℕ, List, [], ◌∷◌, Bytes, ascii, bytes_eq, Bool, true, false, ◌||◌, not, ◌==◌, Option, none, some,
  Result, ok, err, length, map, if◌then◌else◌,
}
use trackward.Prelude.Maps.{update}
use trackward.Prelude.Text.{trim, split_on, split_once, strip_prefix}
use trackward.Verifier.Bundle.{and_then, unwrap_or}
use trackward.Gateway.Approval.{lookup}
use trackward.Gateway.ToolProxy.{Headers}
use trackward.Ledger.Guards.{constant_time_eq}

-- The variables of the environment that are set to text: `env::var(name).ok()`.
abbrev pub Env : Type 0
Env = Bytes → Option Bytes

abbrev pub add_route : Option (Bytes × Bytes) → List (Bytes × Bytes) → List (Bytes × Bytes)
add_route none routes = routes
add_route (some (name, url)) routes = update (trim name) (trim url) routes

-- The routes of the entries that have a `=`: a later one replaces an earlier one of its name.
unfoldable pub collect_routes : List Bytes → List (Bytes × Bytes) → List (Bytes × Bytes)
unfolding split_once trim update
collect_routes [] routes = routes
collect_routes (e ∷ es) routes = collect_routes es (add_route (split_once 61 e []) routes)

unfoldable pub parse_routes : Bytes → List (Bytes × Bytes)
unfolding split_on collect_routes
parse_routes s = collect_routes (split_on 44 s []) []

unfoldable pub parse_gated : Bytes → List Bytes
unfolding split_on trim
parse_gated s = map trim (split_on 44 s [])

unfoldable pub is_gated : List Bytes → (tool : Bytes) → Bool
unfolding bytes_eq
is_gated [] tool = false
is_gated (g ∷ gs) tool = bytes_eq g tool || is_gated gs tool

pub record TlsPaths : Type 0 where
  pub cert_path : Bytes
  pub key_path : Bytes
  pub client_ca_path : Bytes

pub record LedgerClientTls : Type 0 where
  pub cert_path : Bytes
  pub key_path : Bytes
  pub server_ca_path : Bytes

-- All three paths, or no TLS: a part of them is logged and not used.
abbrev pub tls_of : (cert key ca : Option Bytes) → Option TlsPaths
tls_of (some cert) (some key) (some ca) =
    some (record { cert_path = cert; key_path = key; client_ca_path = ca })
tls_of _ _ _ = none

abbrev pub client_tls_of : (cert key ca : Option Bytes) → Option LedgerClientTls
client_tls_of (some cert) (some key) (some ca) =
    some (record { cert_path = cert; key_path = key; server_ca_path = ca })
client_tls_of _ _ _ = none

unfoldable pub tls_from_env : Env → Option TlsPaths
tls_from_env env =
    tls_of (env (ascii "TLS_CERT_PATH")) (env (ascii "TLS_KEY_PATH"))
      (env (ascii "TLS_CLIENT_CA_PATH"))

unfoldable pub client_tls_from_env : Env → Option LedgerClientTls
client_tls_from_env env =
    client_tls_of (env (ascii "LEDGER_CLIENT_CERT_PATH")) (env (ascii "LEDGER_CLIENT_KEY_PATH"))
      (env (ascii "LEDGER_SERVER_CA_PATH"))

pub record RegistryBinding : Type 0 where
  pub registry_dir : Option Bytes
  pub prompt_workflow : Option Bytes
  pub prompt_version : Option Bytes
  pub policy_scope : Option Bytes
  pub policy_version : Option Bytes
  pub git_sha : Option Bytes

pub record Config : Type 0 where
  pub listen_addr : Bytes
  pub ledger_url : Bytes
  pub tool_routes : List (Bytes × Bytes)
  pub retrieval_backend : Option Bytes
  pub gated_tools : List Bytes
  pub registry : RegistryBinding
  pub service_account : Bytes
  pub tls : Option TlsPaths
  pub ledger_client_tls : Option LedgerClientTls
  pub auth_token : Option Bytes
  pub ledger_token : Option Bytes

-- `filter(|s| !s.is_empty())`
abbrev pub non_empty : Option Bytes → Option Bytes
non_empty (some (b ∷ bs)) = some (b ∷ bs)
non_empty _ = none

abbrev pub or_empty {ℓ} : {A : Type ℓ} → (Bytes → List A) → Option Bytes → List A
or_empty parse none = []
or_empty parse (some s) = parse s

-- `Config::from_env`
unfoldable pub from_env : Env → Config
unfolding parse_routes parse_gated tls_from_env client_tls_from_env
from_env env = record {
  listen_addr = unwrap_or (ascii "0.0.0.0:4000") (env (ascii "GATEWAY_LISTEN_ADDR"));
  ledger_url = unwrap_or (ascii "http://localhost:3000") (env (ascii "LEDGER_URL"));
  tool_routes = or_empty parse_routes (env (ascii "TOOL_ROUTES"));
  retrieval_backend = env (ascii "RETRIEVAL_BACKEND");
  gated_tools = or_empty parse_gated (env (ascii "GATED_TOOLS"));
  registry = record {
    registry_dir = env (ascii "REGISTRY_DIR");
    prompt_workflow = env (ascii "PROMPT_WORKFLOW");
    prompt_version = env (ascii "PROMPT_VERSION");
    policy_scope = env (ascii "POLICY_SCOPE");
    policy_version = env (ascii "POLICY_VERSION");
    git_sha = env (ascii "GIT_SHA");
  };
  service_account = unwrap_or (ascii "gateway") (env (ascii "GATEWAY_SERVICE_ACCOUNT"));
  tls = tls_from_env env;
  ledger_client_tls = client_tls_from_env env;
  auth_token = non_empty (env (ascii "GATEWAY_AUTH_TOKEN"));
  ledger_token = non_empty (env (ascii "LEDGER_CLIENT_TOKEN"));
}
