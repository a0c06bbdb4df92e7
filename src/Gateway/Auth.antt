-- ===== src/Gateway/Auth.antt =====
-- services/gateway/src/auth.rs: the bearer gate of the gateway's own endpoints.
use Prim.Native.Nat.{bit_or, bit_xor}
use trackward.Prelude.{
  ℕ, ◌≡◌, refl, ap, ◌∙◌, [], ◌∷◌, Bytes, ascii, Bool, true, false, ◌==◌, length, Option, none, some,
  Result, ok, err, if◌then◌else◌,
}
use trackward.Prelude.Maps.{lookup}
use trackward.Prelude.Text.{strip_prefix}
use trackward.Verifier.Bundle.{and_then}
use trackward.Gateway.Config.{Config}
use trackward.Gateway.ToolProxy.{Headers}
use trackward.Ledger.Guards
use trackward.Ledger.Guards.{matches, gate, presented}

-- The bytes that differ, or-ed together.
unfoldable pub or_differences : (diff : ℕ) → Bytes → Bytes → ℕ
or_differences diff (x ∷ a) (y ∷ b) = or_differences (bit_or diff (bit_xor x y)) a b
or_differences diff _ _ = diff

unfoldable pub constant_time_eq : Bytes → Bytes → Bool
unfolding or_differences
constant_time_eq a b = if length a == length b then or_differences 0 a b == 0 else false

abbrev pub is_token : (expected : Bytes) → Option Bytes → Bool
is_token expected (some got) = constant_time_eq got expected
is_token expected none = false

abbrev pub admit {ℓ} : {A : Type ℓ} → Bool → A → Result ℕ A
admit true next = ok next
admit false next = err 401

abbrev pub check_token {ℓ} :
    {A : Type ℓ} (header_text : Bytes → Option Bytes)
    → Option Bytes
    → Headers
    → (next : A) → Result ℕ A
check_token header_text none headers next = ok next
check_token header_text (some expected) headers next =
    admit
      (is_token expected (
        and_then (and_then (lookup (ascii "authorization") headers) header_text)
          (strip_prefix (ascii "Bearer "))))
      next

unfoldable pub require_bearer {ℓ} :
    {A : Type ℓ} (header_text : Bytes → Option Bytes) → Config → Headers → (next : A) → Result ℕ A
unfolding constant_time_eq lookup strip_prefix
require_bearer header_text config headers next =
    check_token header_text config.auth_token headers next

or_differences-diff_of : (d : ℕ) (a b : Bytes) → or_differences d a b ≡ Guards.diff_of d a b
unfolding or_differences Guards.diff_of
or_differences-diff_of d [] [] = refl
or_differences-diff_of d [] (y ∷ b) = refl
or_differences-diff_of d (x ∷ a) [] = refl
or_differences-diff_of d (x ∷ a) (y ∷ b) = or_differences-diff_of (bit_or d (bit_xor x y)) a b

-- The gateway's gate and the ledger's let the same requests pass.
pub require_bearer-ledger {ℓ} :
    {A : Type ℓ} (header_text : Bytes → Option Bytes) (config : Config) (headers : Headers)
    (next : A)
    → require_bearer header_text config headers next
      ≡ Guards.require_bearer header_text config.auth_token headers next
unfolding require_bearer Guards.require_bearer
require_bearer-ledger header_text config headers next = on config.auth_token
  where
    same_test : (expected : Bytes) (o : Option Bytes) → is_token expected o ≡ matches expected o
    same_test expected none = refl
    same_test expected (some got) =
        ap (λ d. if length got == length expected then d == 0 else false)
          (or_differences-diff_of 0 got expected)

    same_gate : (b : Bool) → admit b next ≡ gate b next
    same_gate true = refl
    same_gate false = refl

    on :
        (token : Option Bytes)
        → check_token header_text token headers next
          ≡ Guards.require_bearer header_text token headers next
    on none = refl
    on (some expected) =
        ap (λ b. admit b next) (same_test expected (presented header_text headers)) ∙ same_gate _
