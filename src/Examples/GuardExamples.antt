-- ===== src/Examples/GuardExamples.antt =====
-- The results on the guards of requests, the registry and the interleavings, at concrete data.
use trackward.Prelude.{
  ◌+◌, ◌-◌, ◌<◌, ◌≤◌, ◌≡◌, ◌≢◌, refl, ap, ◌⊎◌, List, [], ◌∷◌, ◌++◌, Bytes, ascii, true, false,
  Option, none, some, ok, err, All, length, replicate, bytes_eq, subst, arith,
}
use trackward.Prelude.Text.{trim}
use trackward.Prelude.Maps.{lookup}
use trackward.Verifier.Bundle.{and_then, unwrap_or}
use trackward.External.{External}
use trackward.Ledger.Anchoring.{SigningService}
use trackward.Ledger.Guards.{
  Headers, bearer, require_bearer, from_request_parts, actor_header, load,
}
use trackward.Ledger.Guards.Checks.{require_bearer_iff, from_request_parts_bounds}
use trackward.Ledger.Guards.Signing.{load-verify}
use trackward.Gateway.Approval.{
  GatewayError, Decision, PendingApproval, Approvals, register, decide,
}
use trackward.Gateway.Approval.Interleavings.{
  registers, decides, to_register, to_decide, start, next, WasPosted, awaited-WasPosted,
}
use trackward.Gateway.Registry.{Node, file, directory, none_left, child, Found, hash_directory}
use trackward.Examples.Fixtures.{toy_external-IsExternal, no_json, row_id}
use trackward.Examples.GatewayExamples.{grant_body, deploy}

abbrev as_text : Bytes → Option Bytes
as_text raw = some raw

abbrev token : Bytes
token = ascii "s3cret"

abbrev token_headers : Headers
token_headers = (ascii "authorization", ascii "Bearer s3cret") ∷ (actor_header, ascii " svc ") ∷ []

text_bytes : (text : Bytes) → some (ascii "Bearer s3cret") ≡ some text → All (λ b. b < 256) text
text_bytes text e = subst (All (λ b. b < 256)) (ap (unwrap_or []) e) (omega arith)

require_bearer_iff_example :
    ((require_bearer as_text (some token) token_headers (ascii "rows") ≡ ok (ascii "rows"))
      × (and_then (lookup (ascii "authorization") token_headers) as_text ≡ some (bearer ++ token)))
    ⊎ ((require_bearer as_text (some token) token_headers (ascii "rows") ≡ err 401)
        × (and_then (lookup (ascii "authorization") token_headers) as_text
            ≢ some (bearer ++ token)))
unfolding lookup bytes_eq
require_bearer_iff_example =
    require_bearer_iff as_text token token_headers (ascii "rows") (omega arith) text_bytes

abbrev no_default : Option Bytes
no_default = none

from_request_parts_bounds_example :
    ((raw : Bytes) × (text : Bytes) × (lookup actor_header token_headers ≡ some raw)
      × (as_text raw ≡ some text)
      × (ascii "svc" ≡ trim text)
      × (1 ≤ length (ascii "svc"))
      × (length (ascii "svc") ≤ 256))
    ⊎ ((lookup actor_header token_headers ≡ none) × (no_default ≡ some (ascii "svc")))
unfolding from_request_parts bytes_eq
from_request_parts_bounds_example =
    from_request_parts_bounds as_text no_default token_headers (ascii "svc") refl

abbrev key_text : Bytes
key_text = replicate 32 65

abbrev service : SigningService
service = record {
  secret = key_text;
  key_id = no_json.sha256 (no_json.public_key key_text);
  public_key_hex = no_json.public_key key_text;
}

load-verify_example :
    (no_json.hex_decode service.public_key_hex ≡ some (no_json.public_key service.secret))
    × (service.key_id ≡ no_json.hex_encode (no_json.sha256 (no_json.public_key service.secret)))
    × ((message : Bytes)
        → no_json.verify
            (no_json.public_key service.secret)
            message
            (no_json.sign service.secret message)
          ≡ true)
    × (((hex_str : Bytes) × (some key_text ≡ some hex_str)
          × (no_json.hex_decode (trim hex_str) ≡ some service.secret)
          × (length service.secret ≡ 32))
        ⊎ ((some key_text ≡ none)
            × (service.secret ≡ [])
            × (bytes_eq (ascii "production") (ascii "production") ≡ false)))
unfolding load
load-verify_example =
    load-verify no_json (toy_external-IsExternal (λ text. none)) [] (ascii "production")
      (some key_text) service refl

abbrev decided_state : Approvals
decided_state =
    (decide (row_id 1) grant_body
      (register (row_id 1) deploy (record { pending = []; channels = [] }))).1

awaited-WasPosted_example :
    WasPosted
      (row_id 1)
      (record { granted = true; reason = none })
      (decides (row_id 1) grant_body ∷ registers (row_id 1) deploy ∷ [])
unfolding trackward.Gateway.Approval.awaited decide register
awaited-WasPosted_example =
    awaited-WasPosted (row_id 1) (record { granted = true; reason = none })
      (decides (row_id 1) grant_body ∷ registers (row_id 1) deploy ∷ []) decided_state
      (next (next start (to_register (row_id 1) deploy _)) (to_decide (row_id 1) grant_body _)) refl

-- Hex text without newlines: every byte 16 higher.
abbrev shift : Bytes → Bytes
shift [] = []
shift (b ∷ bs) = (b + 16) ∷ shift bs

abbrev unshift : Bytes → Bytes
unshift [] = []
unshift (b ∷ bs) = (b - 16) ∷ unshift bs

abbrev plain_external : External
plain_external = record no_json { hex_encode = shift; hex_decode = λ bs. some (unshift bs) }

abbrev version_dir : Node
version_dir = directory (
    child (ascii "b") (file (some (ascii "2")))
      (child (ascii "a") (file (some (ascii "1"))) none_left))

abbrev found_files : List Found
found_files = (ascii "b" ∷ [], some (ascii "2")) ∷ (ascii "a" ∷ [], some (ascii "1")) ∷ []

abbrev hash_of : Node → Bytes
hash_of dir = elim (hash_directory plain_external (λ t. t) dir) [ ok hash ↦ hash | err e ↦ [] ]
