-- ===== src/Gateway/Http.antt =====
-- What a handler of services/gateway does on the wire: HTTP exchanges, in order. The peers are a
-- function of the exchanges so far; the handler is a state monad with errors over them.
use trackward.Prelude.{
  ◌≡◌, refl, ℕ, List, ◌∷◌, Bytes, Bool, ◌&&◌, leb, Option, none, some, Result, ok, err,
}
use trackward.ChainCore.CanonicalJson.Syntax.{Value}
use trackward.Gateway.Approval.{GatewayError}

pub data Payload : Type 0 where
  json : Value → Payload
  query : (workflow version : Bytes) → Payload
  multipart : (run_id label media_type file : Bytes) → Payload

-- A request: who posts it (`X-Trackward-Actor`, on writes to the ledger only), where, and with what.
pub data Request : Type 0 where
  post : (actor : Option Bytes) (url : Bytes) → Payload → Request
  get : (url : Bytes) → Payload → Request

-- A response: its status, and its body when that could be read.
pub record Response : Type 0 where
  pub status : ℕ
  pub body : Option Bytes

pub record Exchange : Type 0 where
  pub request : Request
  pub response : Option Response

-- The exchanges so far, the latest first.
abbrev pub Trace : Type 0
Trace = List Exchange

-- The peers: what they answer after what happened so far, `none` when the request cannot be sent.
abbrev pub Network : Type 0
Network = Trace → Request → Option Response

-- `StatusCode::is_success`
unfoldable pub is_success : ℕ → Bool
is_success status = leb 200 status && leb status 299

abbrev pub Action {ℓ} : Type ℓ → Type ℓ
Action A = Trace → Result GatewayError A × Trace

module _ {ℓ} {A : Type ℓ} where
  abbrev pub pure : A → Action A
  pure a t = (ok a, t)

  abbrev pub raise : GatewayError → Action A
  raise e t = (err e, t)

  abbrev pub or_raise : GatewayError → Option A → Action A
  or_raise e none = raise e
  or_raise e (some a) = pure a

  -- What follows a run: the next action on its value, or its error.
  abbrev pub continue {κ} :
      {B : Type κ} → Result GatewayError A × Trace → (A → Action B) → Result GatewayError B × Trace
  continue (ok a, t) next = next a t
  continue (err e, t) next = (err e, t)

  -- An error is logged, and the value is there or not (`ok()`, `if let Err(e)`).
  abbrev pub outcome : Result GatewayError A × Trace → Result GatewayError (Option A) × Trace
  outcome (ok a, t) = (ok (some a), t)
  outcome (err e, t) = (ok none, t)

  abbrev pub attempt : Action A → Action (Option A)
  attempt first t = outcome (first t)

  -- A run that succeeded had a first part that succeeded.
  pub continue-eq-ok {κ} :
      {B : Type κ} (first : Result GatewayError A × Trace) (next : A → Action B) {b : B} {t : Trace}
      → continue first next ≡ (ok b, t)
      → (a : A) × (s : Trace) × (first ≡ (ok a, s)) × (next a s ≡ (ok b, t))
  continue-eq-ok (ok a, s) next h = (a, s, refl, h)
  continue-eq-ok (err e, s) next h = cc

infixl 5 ◌>>=◌ ◌>>◌
abbrev pub ◌>>=◌ {ℓ κ} : {A : Type ℓ} {B : Type κ} → Action A → (A → Action B) → Action B
◌>>=◌ first next t = continue (first t) next

abbrev pub ◌>>◌ {ℓ κ} : {A : Type ℓ} {B : Type κ} → Action A → Action B → Action B
first >> next = first >>= λ _. next

module _ (network : Network) where
  -- `send`: the exchange is part of what happened whether it is answered or not.
  unfoldable pub send : Request → Action (Option Response)
  send request t =
      let response = network t request in
      (ok response, record { request = request; response = response } ∷ t)
