-- ===== src/External.antt =====
-- What the program takes from other crates: `sha2`, `chrono`, `hex`, `serde_json` and
-- `ed25519_dalek`. Their functions are the fields of `External`, and what their documentation grants
-- of them those of `IsExternal`.
use trackward.Prelude.{◌≡◌, Bytes, Bool, true, Option, some, length}
use trackward.ChainCore.Hashing.{Sha256, HashesTo32}
use trackward.ChainCore.Encode.{Rfc3339}
use trackward.ChainCore.CanonicalJson.Syntax.{Value}

pub record External : Type 0 where
  pub sha256 : Sha256
  -- `to_rfc3339_opts(SecondsFormat::Micros, true)`
  pub rfc3339 : Rfc3339
  -- `Display` of a `Uuid`
  pub uuid_text : Bytes → Bytes
  pub hex_encode : Bytes → Bytes
  pub hex_decode : Bytes → Option Bytes
  -- `serde_json::from_str`, and `to_vec` or `to_string`
  pub from_str : Bytes → Option Value
  pub to_vec : Value → Bytes
  -- `VerifyingKey::from_bytes(..).is_ok()`, `VerifyingKey::verify(..).is_ok()`
  pub is_key : (public : Bytes) → Bool
  pub verify : (public message signature : Bytes) → Bool
  -- `SigningKey::sign`, `SigningKey::verifying_key`
  pub sign : (secret message : Bytes) → Bytes
  pub public_key : (secret : Bytes) → Bytes

-- Hex text decodes to what was encoded, and a signature by a key verifies under its public half.
pub record IsExternal (x : External) : Type 0 where
  pub to32 : HashesTo32 x.sha256
  pub decode-encode : (bs : Bytes) → x.hex_decode (x.hex_encode bs) ≡ some bs
  pub length-public_key : (secret : Bytes) → length (x.public_key secret) ≡ 32
  pub length-sign : (secret message : Bytes) → length (x.sign secret message) ≡ 64
  pub is_key-public_key : (secret : Bytes) → x.is_key (x.public_key secret) ≡ true
  pub verify-sign :
      (secret message : Bytes)
      → x.verify (x.public_key secret) message (x.sign secret message) ≡ true
