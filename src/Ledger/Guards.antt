-- ===== src/Ledger/Guards.antt =====
-- services/ledger/src/auth.rs, actor.rs and signing.rs: what a request is checked for before its
-- handler runs, and the loading of the signing key.
pub mod Equality
pub mod Checks
pub mod Signing
use Prim.Native.Nat.{bit_or, bit_xor}
use trackward.Prelude.{
  ℕ, List, [], ◌∷◌, Bytes, ascii, bytes_eq, Bool, true, false, ◌||◌, ltb, ◌==◌, length, Option,
  none, some, Result, ok, err, ◌>>=◌, ◌>>◌, guard, not, if◌then◌else◌,
}
use trackward.Prelude.Text.{trim, strip_prefix}
use trackward.Verifier.Bundle.{and_then, ok_or}
use trackward.Prelude.Maps.{lookup}
use trackward.External.{External}
use trackward.Ledger.Anchoring.{SigningService}

-- The headers of a request by name, and `HeaderValue::to_str`.
abbrev pub Headers : Type 0
Headers = List (Bytes × Bytes)

-- The loop of `constant_time_eq`: `diff |= x ^ y` over the pairs.
unfoldable pub diff_of : ℕ → Bytes → Bytes → ℕ
diff_of diff [] ys = diff
diff_of diff (x ∷ xs) [] = diff
diff_of diff (x ∷ xs) (y ∷ ys) = diff_of (bit_or diff (bit_xor x y)) xs ys

unfoldable pub constant_time_eq : Bytes → Bytes → Bool
unfolding diff_of
constant_time_eq a b = if length a == length b then diff_of 0 a b == 0 else false

abbrev pub bearer : Bytes
bearer = ascii "Bearer "

abbrev pub matches : (expected : Bytes) → Option Bytes → Bool
matches expected none = false
matches expected (some got) = constant_time_eq got expected

-- The token that a request carries.
unfoldable pub presented : (header_text : Bytes → Option Bytes) → Headers → Option Bytes
unfolding lookup strip_prefix
presented header_text headers =
    and_then (and_then (lookup (ascii "authorization") headers) header_text) (strip_prefix bearer)

abbrev pub gate {ℓ} : {A : Type ℓ} → Bool → A → Result ℕ A
gate false next = err 401
gate true next = ok next

-- `require_bearer`: the handler's response, or a status of 401.
unfoldable pub require_bearer {ℓ} :
    {A : Type ℓ} (header_text : Bytes → Option Bytes) (expected : Option Bytes)
    → Headers
    → (next : A) → Result ℕ A
unfolding constant_time_eq presented
require_bearer header_text none headers next = ok next
require_bearer header_text (some expected) headers next =
    gate (matches expected (presented header_text headers)) next

pub data ActorRejection : Type 0 where
  missing invalid : ActorRejection

abbrev pub actor_header : Bytes
actor_header = ascii "x-trackward-actor"

abbrev pub max_actor_len : ℕ
max_actor_len = 256

-- The header is there.
unfoldable pub actor_of_header :
    (header_text : Bytes → Option Bytes) → (raw : Bytes) → Result ActorRejection Bytes
unfolding trim
actor_of_header header_text raw = do
  s ← ok_or invalid (header_text raw)
  if length (trim s) == 0 || ltb max_actor_len (length (trim s)) then err invalid else ok (trim s)

abbrev pub default_or : (default : Option Bytes) → Result ActorRejection Bytes
default_or none = err missing
default_or (some actor) = ok actor

abbrev pub actor_or_default :
    (header_text : Bytes → Option Bytes) (default : Option Bytes)
    → Option Bytes
    → Result ActorRejection Bytes
actor_or_default header_text default none = default_or default
actor_or_default header_text default (some raw) = actor_of_header header_text raw

-- `Actor::from_request_parts`
unfoldable pub from_request_parts :
    (header_text : Bytes → Option Bytes) (default : Option Bytes)
    → Headers
    → Result ActorRejection Bytes
unfolding lookup actor_of_header
from_request_parts header_text default headers =
    actor_or_default header_text default (lookup actor_header headers)

pub data SigningError : Type 0 where
  key_required_in_production not_hex : SigningError
  wrong_length : ℕ → SigningError

module _ (x : External) where
  -- The key: the configured one, or one that was `generated` outside production.
  unfoldable pub signing_key :
      (generated env : Bytes) (key_hex : Option Bytes) → Result SigningError Bytes
  unfolding trim bytes_eq
  signing_key generated env (some hex_str) = do
    bytes ← ok_or not_hex (x.hex_decode (trim hex_str))
    guard (length bytes == 32) (wrong_length (length bytes))
    ok bytes
  signing_key generated env none =
      if bytes_eq env (ascii "production") then err key_required_in_production else ok generated

  -- `SigningService::load`
  unfoldable pub load :
      (generated env : Bytes) (key_hex : Option Bytes) → Result SigningError SigningService
  unfolding signing_key
  load generated env key_hex = do
    secret ← signing_key generated env key_hex
    ok (record {
      secret = secret;
      key_id = x.hex_encode (x.sha256 (x.public_key secret));
      public_key_hex = x.hex_encode (x.public_key secret);
    })
